-- ===== src/Main/Program/Configured.antt =====
-- src/main.rs: the options on the command line, up to the daemon that runs with them.
use parsip.Base.{
  ℕ, ◌<◌, ◌^◌, ◌≡◌, refl, sym, ap, ◌∙◌, List, [], ◌∷◌, Option, none, some, Option-cases, inl, inr,
  arith,
}
use parsip.Text.{text}
use parsip.Text.Strings.{bytes_eq}
use parsip.Io.{ok}
use parsip.Config as Config
use parsip.Config.{Config, parsip_dir}
use parsip.Connection.Handshake.{Crypto}
use parsip.Disk.{Disk}
use parsip.Resource.Download as Downloads
use parsip.Resource.Store as Store
use parsip.Resource.Store.{Digests, DirEntry, LocalResourceStore, hash_entries}
use parsip.EventHandler.{DaemonContext}
use parsip.EventHandler.Dispatch.Invariant.{IsDaemon}
use parsip.EventHandler.Dispatch.Invariant.Loop.{take_turns, total}
use parsip.Daemon.Start.{Started, first_context}
use parsip.Daemon.Start as Daemon
use parsip.Daemon.Start.Begun.{run-first, run-IsDaemon}
use parsip.Daemon.Start.Order.{first_refusal, refusals, run-goes_through}
use parsip.Main.{daemon_command, start}
use parsip.Main.Options.{options, parse_options-options}
use parsip.Main.Program.{
  serving, MainAnswers, start_daemon, in_background, run_command, daemon_main, main,
}

-- The configuration in force, with the options of another one.
abbrev pub with_options : Config → Config → Config
with_options c before = record before {
  nickname = c.nickname;
  shared_dir = c.shared_dir;
  downloads_dir = c.downloads_dir;
  listen_port = c.listen_port;
}

-- The daemon works with these options, and its state is well-formed.
pub record IsServing (c : Config) (ctx : DaemonContext) : Type 0 where
  pub port : ctx.node.tcp_listen_port ≡ c.listen_port
  pub nickname : ctx.node.my_nickname ≡ c.nickname
  pub downloads : ctx.download_mgr.downloads_dir ≡ c.downloads_dir
  pub shared : ctx.store.shared_dir ≡ c.shared_dir
  pub daemon : IsDaemon ctx

new-shared_dir :
    (h : Digests) (dir : List ℕ) (entries : Option (List DirEntry)) (store : LocalResourceStore)
    → Store.new h dir entries ≡ some store
    → store.shared_dir ≡ dir
unfolding Store.new
new-shared_dir h dir none store e = ground (arith, e)
new-shared_dir h dir (some entries) store e = elim (Option-cases (hash_entries h entries [])) [
  | inl f ↦ absurd (ground (arith, e, f))
  | inr (index, f) ↦ ground (arith, e, f)
]

-- A name of an option is no command.
daemon_command-options : (c : Config) → daemon_command (options c) ≡ (start, options c)
unfolding daemon_command bytes_eq text
daemon_command-options c = refl

ran-IsServing :
    (cr : Crypto) (w : Daemon.StartAnswers) (c config : Config) (d d' : Disk) (s : Started)
    (ctx : DaemonContext)
    → config ≡ with_options c config
    → Daemon.run cr w config d ≡ some (s, d')
    → s.result ≡ ok ctx
    → IsServing c ctx
unfolding first_context total take_turns Downloads.new
ran-IsServing cr w c config d d' s ctx of_options ran started =
    let (peer, store, made, linked, same) = run-first cr w config d d' s ctx ran started in
    let daemon = (run-IsDaemon cr w config d d' s [] ctx ctx ran started tt (omega arith) refl).0 in
    record {
      port = sym (ap (λ x. x.node.tcp_listen_port) same) ∙ ap (λ x. x.listen_port) of_options;
      nickname = sym (ap (λ x. x.node.my_nickname) same) ∙ ap (λ x. x.nickname) of_options;
      downloads =
          sym (ap (λ x. x.download_mgr.downloads_dir) same) ∙ ap (λ x. x.downloads_dir) of_options;
      shared =
          sym (ap (λ x. x.store.shared_dir) same)
          ∙ new-shared_dir w.digests config.shared_dir w.shared_files store made
          ∙ ap (λ x. x.shared_dir) of_options;
      daemon = daemon;
    }

-- Where the directory for the number of the process and the two log files can be made, `daemonize`
-- succeeds, no call of the start of the daemon is refused, and the files of the shared directory have
-- names: `parsip daemon`, with every option for a configuration with a port of 16 bits, ends up serving,
-- in a well-formed state, under the port and the nickname and with the two directories that the
-- options give, whatever the file of the configuration says of them.
pub main-IsServing :
    (cr : Crypto) (w : MainAnswers) (program : List ℕ) (c : Config) (d d' : Disk) (s : Started)
    → c.listen_port < 2 ^ 16
    → w.dir_refused ≡ none
    → w.launch.out_file ≡ none
    → w.launch.err_file ≡ none
    → w.launch.daemonized ≡ none
    → first_refusal (refusals w.launch.begins) ≡ none
    → Daemon.run cr w.launch.begins
        (with_options c (Config.load w.surroundings.toml w.surroundings.env w.config_refused d))
        d
      ≡ some (s, d')
    → (ctx : DaemonContext) × ((main cr w (program ∷ text "daemon" ∷ options c) d).ending
        ≡ serving ctx)
      × IsServing c ctx
unfolding main daemon_main run_command start_daemon in_background bytes_eq text
main-IsServing cr w program c d d' s port dir out_file err_file forked calm ran =
    let loaded = Config.load w.surroundings.toml w.surroundings.env w.config_refused d in
    let config = with_options c loaded in
    let (ctx, started) = run-goes_through cr w.launch.begins config d d' s ran calm in
    let parsed = parse_options-options c loaded port in
    (
      ctx,
      ground
          (arith, daemon_command-options c, parsed, dir, out_file, err_file, forked, ran, started),
      ran-IsServing cr w.launch.begins c config d d' s ctx refl ran started,
    )
