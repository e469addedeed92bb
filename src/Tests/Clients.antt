-- ===== src/Tests/Clients.antt =====
-- The command line and the control socket (src/cli, src/daemon, src/main.rs), at fixed inputs.
use parsip.Base.{
  ℕ, zero, suc, ◌≡◌, refl, List, [], ◌∷◌, ◌++◌, Bool, true, false, none, some, arith, Option,
}
use parsip.Text.{text, utf8_from, utf8_next}
use parsip.Text.Strings.{lines_from, bytes_eq}
use parsip.Io.{Result, ok, err}
use parsip.Disk.{written, read_file}
use parsip.Map.{lookup, bytes_key}
use parsip.Control.{ControlResponse, scan, done, download_progress, of_integer, is_terminal}
use parsip.Config.{Config, Environment, default, load, read_to_string}
use parsip.Cli.{Surroundings, run_config, set_key}
use parsip.Cli.Settings.{
  IsConfigured, Asks, Asks-set_key, IsRead as IsPrinted, run_config-IsConfigured,
}
use parsip.Cli.Responses.{Json, Format, show_response, run_request}
use parsip.Daemon.{serve_lines}
use parsip.Daemon.Session.{IsAnswer, IsRequest, reached, shown, run_request-serve_lines}
use parsip.Main.{Process, parse_options, stop_daemon}
use parsip.Main.Options.{options, parse_options-options}
use parsip.Main.Stop.{IsKilled, stop_daemon-IsKilled}
use parsip.Tests.Downloads.{empty_disk}

-- A `toml` that knows one configuration.
abbrev pub settings : Config
settings = record {
  listen_port = 9000;
  shared_dir = text "/s";
  downloads_dir = text "/d";
  log_file = text "/l";
  nickname = text "me";
}

abbrev progress : ControlResponse
progress = download_progress 1 2 (of_integer 3)

pub read_response : List ℕ → Result ControlResponse (List ℕ)
read_response (c ∷ cs) = elim c [ zero ↦ ok done | suc n ↦ ok progress ]
read_response [] = err []

pub write_response : ControlResponse → Option (List ℕ)
write_response done = some (0 ∷ [])
write_response _ = some (1 ∷ [])

-- A `serde_json` that tells two answers apart.
abbrev pub json : Json
json = record {
  write_request = λ cmd. text "Scan";
  read_request = λ line. some scan;
  write_response = write_response;
  read_response = read_response;
}

abbrev pub format : Format
format = record {
  fixed2 = λ x. [];
  is_positive = λ x. true;
  address = λ a. [];
  peer_id = λ p. [];
  resource_id = λ r. [];
  padded = λ n s. s;
}

scan-IsRequest : IsRequest json scan
unfolding text utf8_from utf8_next
scan-IsRequest = record {
  one_line = ground arith;
  no_return = ground arith;
  is_text = refl;
  reads = refl;
}

progress-IsAnswer : IsAnswer json (progress ∷ []) done
unfolding write_response read_response utf8_from utf8_next is_terminal
progress-IsAnswer = record {
  read = (
    record {
      written = 1 ∷ [];
      writes = refl;
      one_line = ground arith;
      is_text = refl;
      reads = refl;
    },
    tt,
  );
  goes_on = (refl, tt);
  last_read = record {
    written = 0 ∷ [];
    writes = refl;
    one_line = ground arith;
    is_text = refl;
    reads = refl;
  };
  ends = refl;
}

run_request-serve_lines_example :
    let answers : ℕ → List (ControlResponse × Bool) =
      λ n. reached (progress ∷ []) ++ ((done, true) ∷ (progress, true) ∷ []) in
    let (cmds, bytes) = serve_lines json answers (lines_from [] (text "Scan" ++ (10 ∷ []))) in
    let (sent, result, printed) = run_request json format none none (bytes, false) scan in
    (sent ≡ text "Scan" ++ (10 ∷ []))
    × (cmds ≡ scan ∷ [])
    × (result ≡ ok tt)
    × (printed ≡ shown format (progress ∷ []) ++ (show_response format done).0)
run_request-serve_lines_example =
    run_request-serve_lines json format scan (progress ∷ []) done ((progress, true) ∷ []) false
      scan-IsRequest progress-IsAnswer

parse_options-options_example :
    parse_options (options settings) (record settings { listen_port = 1; nickname = [] })
    ≡ ok settings
parse_options-options_example =
    parse_options-options settings (record settings { listen_port = 1; nickname = [] })
      (omega arith)

abbrev pub running : Process
running = record {
  exe = some (text "/usr/bin/parsip");
  cmdline = some (text "parsip" ++ (0 ∷ (text "daemon" ++ (0 ∷ []))));
  exists = true;
  kill_succeeds = true;
  checks = λ n. false;
}

stop_daemon-IsKilled_example :
    ((stop_daemon (some (text "77")) (λ n. running)).killed ≡ true
      → IsKilled (some (text "77")) (λ n. running))
    × ((stop_daemon (some (text "77")) (λ n. running)).result ≡ false
        → (stop_daemon (some (text "77")) (λ n. running)).file_removed ≡ false)
stop_daemon-IsKilled_example = stop_daemon-IsKilled (some (text "77")) (λ n. running)

abbrev pub env : Environment
env = record { home = some (text "/home/me"); temp_dir = text "/tmp" }

abbrev renamed : Config
renamed = record (default env) { nickname = text "me" }

-- A `toml` that has one text, for this configuration.
abbrev pub surroundings : Surroundings
surroundings = record {
  toml = record { to_string = λ config. ok (text "x"); from_str = λ content. ok renamed };
  env = env;
  display = λ path. path;
  refused = none;
  created = none;
  answer = written;
}

abbrev rename_me : List (List ℕ)
rename_me = text "set" ∷ text "nickname" ∷ text "me" ∷ []

only_renamed :
    (config : Config)
    → Asks rename_me (load surroundings.toml env none empty_disk) config
    → IsPrinted surroundings.toml config
unfolding load read_to_string read_file lookup set_key bytes_eq text utf8_from utf8_next
only_renamed config asks =
    let (set, e) =
      Asks-set_key (text "set") (text "nickname") (text "me") []
        (load surroundings.toml env none empty_disk) config asks in
    (text "x", refl, refl, ground (arith, e))

run_config-IsConfigured_example :
    IsConfigured surroundings rename_me empty_disk (run_config surroundings rename_me empty_disk)
run_config-IsConfigured_example =
    run_config-IsConfigured surroundings empty_disk refl refl rename_me only_renamed refl
