-- ===== src/Main/Program.antt =====
-- src/main.rs: `start_daemon`, and the whole of `main`.
pub mod Configured
use parsip.Base.{ℕ, List, [], ◌∷◌, ◌++◌, Bool, true, false, ◌||◌, Option, none, some, if◌then◌else◌}
use parsip.Text.{text}
use parsip.Text.Strings.{bytes_eq, has_slice}
use parsip.Io.{Error, Result, ok, err}
use parsip.Config as Config
use parsip.Config.{Config, Environment, Toml, parsip_dir}
use parsip.Connection.Handshake.{Crypto}
use parsip.Disk.{Disk, join}
use parsip.EventHandler.{DaemonContext}
use parsip.Daemon.Start.{StartAnswers}
use parsip.Daemon.Start as Daemon
use parsip.Cli.{Printed, Surroundings, err_line}
use parsip.Cli.Responses as Cli
use parsip.Cli.Responses.{Json, Format}
use parsip.Main.{
  DaemonCommand, start, stop, restart, Process, parse_options, daemon_command, stop_daemon,
}

-- How the program ends: with the status 0; with the status 1, and what it says of the reason; not at
-- all, as a daemon in this state; or by a panic.
pub data Ending : Type 0 where
  finished : Ending
  failed : List ℕ → Ending
  serving : DaemonContext → Ending
  panicked : Ending

-- What the system and the library `daemonize` answer while the daemon is started: the text of each
-- error, and that of `daemonize` in lower case too.
pub record LaunchAnswers : Type 0 where
  pub out_file : Option (List ℕ)
  pub err_file : Option (List ℕ)
  pub daemonized : Option (List ℕ × List ℕ)
  pub begins : StartAnswers

unfoldable pub creating_failed : List ℕ → List ℕ → Ending
creating_failed path e = failed (text "Error creating " ++ (path ++ (text ": " ++ e)))

unfoldable pub already_running : List ℕ → Bool
already_running err_msg =
    has_slice (text "unable to lock") err_msg
    || has_slice (text "already running") err_msg
    || has_slice (text "lock") err_msg

-- The part of `start_daemon` in the background. The reason of a crash goes to the log.
unfoldable pub in_background : Crypto → LaunchAnswers → Config → Disk → Ending × Disk
in_background c w config d = elim (Daemon.run c w.begins config d) [
  | none ↦ (panicked, d)
  | some (started, d') ↦ elim started.result [
    | err e ↦ (failed [], d')
    | ok ctx ↦ (serving ctx, d')
  ]
]

unfoldable pub start_daemon : Crypto → LaunchAnswers → Config → List ℕ → Disk → Ending × Disk
start_daemon c w config dir d = elim w.out_file [
  | some e ↦ (creating_failed (join dir (text "daemon_out.log")) e, d)
  | none ↦ elim w.err_file [
    | some e ↦ (creating_failed (join dir (text "daemon_err.log")) e, d)
    | none ↦ elim w.daemonized [
      | some (message, err_msg) ↦
          if already_running err_msg
          then (failed (text "Daemon is already running."), d)
          else (failed (text "Error starting daemon: " ++ message), d)
      | none ↦ in_background c w config d
    ]
  ]
]

-- What `main` does before it looks at the command; the errors of these calls are ignored.
pub data Preparation : Type 0 where
  creates_dir : List ℕ → Preparation
  creates_parent_of : List ℕ → Preparation
  appends_log_to : List ℕ → Preparation

unfoldable pub prepare : Config → List Preparation
prepare config =
    creates_dir config.shared_dir
    ∷ creates_dir config.downloads_dir
    ∷ creates_parent_of config.log_file
    ∷ appends_log_to config.log_file
    ∷ []

-- All that `main` asks for. `dir_refused` is the text of the error with which the directory for the
-- number of the process cannot be created, `pid_file` what the file with this number holds, if it
-- can be read, and the last four are for the client, as in `Cli.Responses`.
pub record MainAnswers : Type 0 where
  pub config_refused : Option Error
  pub dir_refused : Option (List ℕ)
  pub pid_file : Option (List ℕ)
  pub process : ℕ → Process
  pub launch : LaunchAnswers
  pub json : Json
  pub format : Format
  pub surroundings : Surroundings
  pub connected : Option Error
  pub sent : Option Error
  pub answered : List ℕ × Bool

-- What the program has done: what it prepared, what the client sent and printed, how it ended, and
-- the disk, but for directories, log files and the file with the number.
pub record Run : Type 0 where
  pub prepared : List Preparation
  pub sent : List ℕ
  pub printed : List Printed
  pub ending : Ending
  pub disk : Disk

-- `match cmd`
unfoldable pub run_command : Crypto → MainAnswers → DaemonCommand → Config → Disk → Ending × Disk
run_command c w start config d = start_daemon c w.launch config (parsip_dir w.surroundings.env) d
run_command c w stop config d = (finished, d)
run_command c w restart config d =
    let stopped = stop_daemon w.pid_file w.process in
    if stopped.result
    then start_daemon c w.launch config (parsip_dir w.surroundings.env) d
    else (failed [], d)

-- `parsip daemon`, with the arguments behind it.
unfoldable pub daemon_main : Crypto → MainAnswers → List (List ℕ) → Config → Disk → Run
daemon_main c w args config d =
    let (cmd, options) = daemon_command args in
    elim (parse_options options config) [
      | err line ↦ record { prepared = []; sent = []; printed = []; ending = failed line; disk = d }
      | ok changed ↦
          let (ending, d') = run_command c w cmd changed d in
          let refused = creating_failed (parsip_dir w.surroundings.env) in
          elim w.dir_refused [
            | some e ↦ record {
              prepared = prepare changed;
              sent = [];
              printed = [];
              ending = refused e;
              disk = d;
            }
            | none ↦ record {
              prepared = prepare changed;
              sent = [];
              printed = [];
              ending = ending;
              disk = d';
            }
          ]
    ]

-- Every other command: an error of the client is printed, and the status is 0.
unfoldable pub client_main : MainAnswers → List (List ℕ) → Disk → Run
client_main w args d =
    let (sent, result, printed, d') =
      Cli.run w.json w.format w.surroundings w.connected w.sent w.answered args d in
    let error : List Printed = elim result [
      | ok u ↦ []
      | err e ↦ err_line (text "CLI Error: " ++ e.message) ∷ []
    ] in
    record { prepared = []; sent = sent; printed = printed ++ error; ending = finished; disk = d' }

unfoldable pub main : Crypto → MainAnswers → List (List ℕ) → Disk → Run
main c w [] d = client_main w [] d
main c w (program ∷ []) d = client_main w (program ∷ []) d
main c w (program ∷ word ∷ args) d =
    let config = Config.load w.surroundings.toml w.surroundings.env w.config_refused d in
    if bytes_eq word (text "daemon")
    then daemon_main c w args config d
    else client_main w (program ∷ word ∷ args) d
