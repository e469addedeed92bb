-- ===== src/Main.antt =====
-- src/main.rs: the arguments of `parsip daemon`, and how a running daemon is stopped, without what is
-- printed by the latter.
pub mod Options
pub mod Stop
pub mod Program
use parsip.Base.{
  ℕ, zero, suc, List, [], ◌∷◌, ◌++◌, Bool, true, false, not, ◌&&◌, ◌||◌, Option, none, some, leb,
  if◌then◌else◌,
}
use parsip.Text.{text}
use parsip.Text.Strings.{bytes_eq, trim, has_slice}
use parsip.Text.Parse.{parse_u16, parse_i32}
use parsip.Io.{Result, ok, err}
use parsip.Config.{Config}
use parsip.Resource.Store.{file_name}

-- The loop over the arguments; an error is what is printed before the exit.
unfoldable pub parse_options : List (List ℕ) → Config → Result Config (List ℕ)
parse_options [] config = ok config
parse_options (arg ∷ []) config =
    let as_port : Result Config (List ℕ) = elim (parse_u16 arg) [
      | none ↦ err (text "Error: unrecognized argument or invalid port: " ++ arg)
      | some p ↦ ok (record config { listen_port = p })
    ] in
    if bytes_eq arg (text "--nickname")
    then err (text "Error: --nickname requires a value")
    else if bytes_eq arg (text "--shared")
    then err (text "Error: --shared requires a value")
    else if bytes_eq arg (text "--downloads")
    then err (text "Error: --downloads requires a value")
    else as_port
parse_options (arg ∷ value ∷ args) config =
    let with_nickname = parse_options args (record config { nickname = value }) in
    let with_shared = parse_options args (record config { shared_dir = value }) in
    let with_downloads = parse_options args (record config { downloads_dir = value }) in
    let with_port : ℕ → Result Config (List ℕ) =
      λ p. parse_options (value ∷ args) (record config { listen_port = p }) in
    let as_port : Result Config (List ℕ) = elim (parse_u16 arg) [
      | none ↦ err (text "Error: unrecognized argument or invalid port: " ++ arg)
      | some p ↦ with_port p
    ] in
    if bytes_eq arg (text "--nickname")
    then with_nickname
    else if bytes_eq arg (text "--shared")
    then with_shared
    else if bytes_eq arg (text "--downloads")
    then with_downloads
    else as_port

pub data DaemonCommand : Type 0 where
  start stop restart : DaemonCommand

-- The command, and the arguments behind it; without one it is `start`.
unfoldable pub daemon_command : List (List ℕ) → DaemonCommand × List (List ℕ)
daemon_command [] = (start, [])
daemon_command (arg ∷ args) =
    if bytes_eq arg (text "start")
    then (start, args)
    else if bytes_eq arg (text "stop")
    then (stop, args)
    else if bytes_eq arg (text "restart")
    then (restart, args)
    else (start, arg ∷ args)

-- What the system says of the process with the number in the file: its program, its arguments, and
-- whether it exists; whether the `kill` command succeeds; and whether the process exists at each of
-- the checks afterwards.
pub record Process : Type 0 where
  pub exe : Option (List ℕ)
  pub cmdline : Option (List ℕ)
  pub exists : Bool
  pub kill_succeeds : Bool
  pub checks : ℕ → Bool

-- What `stop_daemon` returns, and what it has done.
pub record Stopped : Type 0 where
  pub result : Bool
  pub file_removed : Bool
  pub killed : Bool

abbrev nothing_to_stop : Stopped
nothing_to_stop = record { result = true; file_removed = true; killed = false }

-- The wait: whether the process is gone at one of the checks that are left.
unfoldable pub wait_for_exit : ℕ → (ℕ → Bool) → Bool
wait_for_exit zero checks = false
wait_for_exit (suc n) checks =
    let later = wait_for_exit n (λ i. checks (suc i)) in if checks 0 then later else true

-- `unwrap_or_default`
unfoldable pub or_empty : Option (List ℕ) → List ℕ
or_empty none = []
or_empty (some bytes) = bytes

-- `is_parsip`: the program and one of the arguments.
unfoldable pub is_parsip : Process → Bool
is_parsip p =
    let is_parsip_exe : Bool = elim (file_name (or_empty p.exe)) [
      | none ↦ false
      | some name ↦ bytes_eq name (text "parsip")
    ] in
    is_parsip_exe && has_slice (text "daemon" ++ (0 ∷ [])) (or_empty p.cmdline)

-- The part of `stop_daemon` for a number above 1.
unfoldable pub stop_process : Process → Stopped
stop_process p =
    let exited = wait_for_exit 50 p.checks in
    let after_kill : Stopped = record { result = exited; file_removed = exited; killed = true } in
    let not_killed : Stopped = record { result = false; file_removed = false; killed = true } in
    if not (is_parsip p) && p.exists
    then nothing_to_stop
    else if not p.exists
    then nothing_to_stop
    else if p.kill_succeeds
    then after_kill
    else not_killed

-- `content` is what the file with the number holds, if it can be read. `killed` says whether the
-- `kill` command was run; `process` is what the system says of each number.
unfoldable pub stop_daemon : Option (List ℕ) → (ℕ → Process) → Stopped
unfolding stop_process
stop_daemon none process = record { result = true; file_removed = false; killed = false }
stop_daemon (some content) process = elim (parse_i32 (trim content)) [
  | none ↦ nothing_to_stop
  | some (negative, n) ↦
      let rejected : Stopped = record { result = false; file_removed = false; killed = false } in
      if negative || leb n 1 then rejected else stop_process (process n)
]
