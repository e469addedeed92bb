-- ===== src/Tests/Launch.antt =====
-- The start of a daemon (src/daemon/mod.rs, src/main.rs), at fixed inputs.
use parsip.Base.{◌≡◌, refl, List, [], ◌∷◌, none, some, true, false, arith}
use parsip.Text.{text}
use parsip.Map.{lookup}
use parsip.Disk.{Disk, written}
use parsip.Config.{Config, default, load, read_to_string}
use parsip.Disk.{read_file}
use parsip.Connection.Handshake.{Identity}
use parsip.ConnectionManager as Connections
use parsip.ConnectionManager.Index.{new-IsLinked}
use parsip.Identity.Load.{load_or_generate}
use parsip.Resource.Store as Store
use parsip.Resource.Store.{LocalResourceStore}
use parsip.Peer.Node as Peer
use parsip.Peer.Node.{Peer}
use parsip.Peer.{new_connection}
use parsip.EventHandler.{DaemonContext, handle_new_connection}
use parsip.EventHandler.Dispatch.{handle_event}
use parsip.EventHandler.Dispatch.Invariant.{IsDaemon}
use parsip.EventHandler.Dispatch.Invariant.Loop.{Turn, take_turns, total}
use parsip.Daemon.Start.{
  StartAnswers, Started, loads_identity, accepts_on, run, first_context, any_address, open_control,
  bind_control, serve,
}
use parsip.Daemon.Start.Script.{outcome, node_of}
use parsip.Daemon.Start.Order.{IsOrdered, preparations, refusals, first_refusal, run-IsOrdered}
use parsip.Daemon.Start.Begun.{run-IsDaemon}
use parsip.Main.Program.{MainAnswers, main, serving}
use parsip.Main.Options.{options}
use parsip.Main.Program.Configured.{IsServing, with_options, main-IsServing}
use parsip.Tests.Samples.{toy, repeat, bob}
use parsip.Tests.Downloads.{empty_disk}
use parsip.Tests.Requests.{answers, control_answers, toy_digests}
use parsip.Tests.Clients.{settings, env, json, format, surroundings, running}

-- Nothing is refused, and a socket is left from before.
abbrev willing : StartAnswers
willing = record {
  env = env;
  identity_refused = none;
  seed = repeat 32 5;
  identity_written = written;
  listening = record { created = none; reused = none; bound = none; listening = none };
  shared_files = none;
  digests = toy_digests;
  socket_exists = true;
  socket_removed = none;
  socket_bound = none;
  socket_restricted = none;
  discovery = record {
    created = none;
    address_reused = none;
    port_reused = none;
    bound = none;
    broadcasts = none;
    cloned = none;
  };
}

abbrev me_on_disk : Identity × Disk
me_on_disk = load_or_generate toy env.home none (repeat 32 5) written empty_disk

abbrev first_of : Config → DaemonContext
first_of config =
    first_context config (Peer.new me_on_disk.0 (any_address config.listen_port))
      (record { shared_dir = config.shared_dir; index = [] }) me_on_disk.1

abbrev begun_of : Config → Started
begun_of config = open_control willing (first_of config) (
    loads_identity
    ∷ accepts_on (record { address = any_address config.listen_port; backlog = 128 })
    ∷ [])

runs : (config : Config) → run toy willing config empty_disk ≡ some (begun_of config, me_on_disk.1)
unfolding run Peer.listen Peer.new Store.new
runs config = refl

abbrev first : DaemonContext
first = first_of settings

abbrev begun : Started
begun = begun_of settings

run-IsOrdered_example :
    IsOrdered
      (preparations willing settings (node_of willing toy settings empty_disk))
      (outcome begun)
    × ((outcome begun).1 ≡ first_refusal (refusals willing))
run-IsOrdered_example =
    run-IsOrdered toy willing settings empty_disk me_on_disk.1 begun (runs settings)

abbrev turns : List Turn
turns = (Connections.new, new_connection bob, answers, control_answers) ∷ []

abbrev greeted : DaemonContext
greeted = handle_new_connection bob (record first { manager = Connections.new })

served : take_turns turns first ≡ some greeted
unfolding take_turns handle_event
served = refl

run-IsDaemon_example : IsDaemon first × IsDaemon greeted
unfolding open_control bind_control serve total
run-IsDaemon_example =
    run-IsDaemon toy willing settings empty_disk me_on_disk.1 begun turns first greeted
      (runs settings) refl (new-IsLinked, tt) (omega arith) served

abbrev calm : MainAnswers
calm = record {
  config_refused = none;
  dir_refused = none;
  pid_file = none;
  process = λ n. running;
  launch = record { out_file = none; err_file = none; daemonized = none; begins = willing };
  json = json;
  format = format;
  surroundings = surroundings;
  connected = none;
  sent = none;
  answered = ([], false);
}

-- The configuration that the options ask for, over the default one.
abbrev asked_for : Config
asked_for = with_options settings (default env)

calm_start :
    run toy willing (with_options settings (load surroundings.toml env none empty_disk)) empty_disk
    ≡ some (begun_of asked_for, me_on_disk.1)
unfolding load read_to_string read_file lookup run Peer.listen Peer.new Store.new
calm_start = refl

main-IsServing_example :
    (ctx : DaemonContext) × ((main toy calm
        (text "parsip" ∷ text "daemon" ∷ options settings)
        empty_disk).ending
      ≡ serving ctx)
    × IsServing settings ctx
unfolding first_refusal
main-IsServing_example =
    main-IsServing toy calm (text "parsip") settings empty_disk me_on_disk.1 (begun_of asked_for)
      (omega arith) refl refl refl refl refl calm_start
