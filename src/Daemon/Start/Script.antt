-- ===== src/Daemon/Start/Script.antt =====
-- src/daemon/mod.rs: the start of the daemon as a list of steps, each of which may be refused.
use parsip.Base.{
  ◌≡◌, sym, ap, ◌∙◌, List, [], ◌∷◌, ◌++◌, append_assoc, append-nil, Option, none, some,
  Option-cases, Bool-cases, inl, inr, if◌then◌else◌, arith,
}
use parsip.Io.{Error, Result, ok, err, Result-cases}
use parsip.Config.{Config, control_socket_path}
use parsip.Connection.Handshake.{Crypto}
use parsip.Disk.{Disk}
use parsip.Identity.Load.{load_or_generate}
use parsip.Discovery.{Node}
use parsip.Discovery.Listen as Discovery
use parsip.Resource.Store as Store
use parsip.Resource.Store.{LocalResourceStore}
use parsip.Peer.Node as Peer
use parsip.Peer.Node.{Peer}
use parsip.EventHandler.{DaemonContext}
use parsip.Daemon.Start.{
  Effect, StartAnswers, Started, loads_identity, accepts_on, removes_socket, prepares_parent,
  binds_socket, restricts_socket, discovers_for, serves_clients, any_address, first_context, serve,
  bind_control, open_control, run,
}

-- A step: the answer to it, and what has been done if it is not refused.
abbrev pub ScriptStep : Type 0
ScriptStep = Option Error × List Effect

-- The steps are done up to the first refusal, which is the result.
unfoldable pub follow : List ScriptStep → List Effect × Option Error
follow [] = ([], none)
follow ((some e, effects) ∷ rest) = ([], some e)
follow ((none, effects) ∷ rest) = let (more, refusal) = follow rest in (effects ++ more, refusal)

abbrev pub discovering : StartAnswers → Node → List Effect
discovering w node = elim (Discovery.start w.discovery node) [
  | err e ↦ []
  | ok n ↦ discovers_for n ∷ []
]

-- From the directory of the socket on.
abbrev control_script : StartAnswers → Node → List ScriptStep
control_script w node =
    let path = control_socket_path w.env in
    (none, prepares_parent path ∷ [])
    ∷ (w.socket_bound, binds_socket path ∷ [])
    ∷ (w.socket_restricted, restricts_socket path ∷ [])
    ∷ (none, discovering w node)
    ∷ (none, serves_clients ∷ [])
    ∷ []

abbrev pub node_of : StartAnswers → Crypto → Config → Disk → Node
node_of w c config d =
    let (identity, d') =
      load_or_generate c w.env.home w.identity_refused w.seed w.identity_written d in
    record {
      tcp_listen_port = config.listen_port;
      my_id = identity.peer_id;
      my_nickname = config.nickname;
    }

-- All the steps: the identity; the socket for the peers; the control socket, where one is left from before; and
-- what follows.
abbrev pub script : StartAnswers → Config → Node → List ScriptStep
script w config node =
    let path = control_socket_path w.env in
    let listener : Peer.TcpListener = record {
      address = any_address config.listen_port;
      backlog = 128;
    } in
    (none, loads_identity ∷ [])
    ∷ (w.listening.created, [])
    ∷ (w.listening.reused, [])
    ∷ (w.listening.bound, [])
    ∷ (w.listening.listening, accepts_on listener ∷ [])
    ∷ (
      if w.socket_exists then w.socket_removed else none,
      if w.socket_exists then removes_socket path ∷ [] else [],
    )
    ∷ control_script w node

unfoldable pub error_of : Result DaemonContext Error → Option Error
error_of (ok ctx) = none
error_of (err e) = some e

-- What was done, and how it ended.
abbrev pub outcome : Started → List Effect × Option Error
unfolding error_of
outcome s = (s.effects, error_of s.result)

-- More was done before.
abbrev behind : List Effect → List Effect × Option Error → List Effect × Option Error
behind before (effects, refusal) = (before ++ effects, refusal)

bind_control-follow :
    (w : StartAnswers) (ctx : DaemonContext) (before : List Effect)
    → outcome (bind_control w ctx before) ≡ behind before (follow (control_script w ctx.node))
unfolding bind_control serve follow error_of
bind_control-follow w ctx before =
    let path = control_socket_path w.env in
    let p : List Effect = prepares_parent path ∷ [] in
    let b : List Effect = binds_socket path ∷ [] in
    let r : List Effect = restricts_socket path ∷ [] in
    let rest = discovering w ctx.node ++ (serves_clients ∷ []) in
    ground (
      arith,
      append_assoc before p b,
      append_assoc before (p ++ b) r,
      append_assoc before ((p ++ b) ++ r) rest,
    )

open_control-follow :
    (w : StartAnswers) (ctx : DaemonContext) (before : List Effect)
    → outcome (open_control w ctx before)
      ≡ behind before (
          follow (
            (
              if w.socket_exists then w.socket_removed else none,
              if w.socket_exists then removes_socket (control_socket_path w.env) ∷ [] else [],
            )
            ∷ control_script w ctx.node))
unfolding open_control follow error_of
open_control-follow w ctx before =
    let path = control_socket_path w.env in
    let r : List Effect = removes_socket path ∷ [] in
    let rest = follow (control_script w ctx.node) in
    let straight = bind_control-follow w ctx before in
    elim (Bool-cases w.socket_exists) [
      | inr e ↦ ground (arith, e, straight)
      | inl e ↦ elim (Option-cases w.socket_removed) [
        | inr (x, f) ↦ ground (arith, e, f, append-nil before)
        | inl f ↦
            ground
              (arith, e, f, bind_control-follow w ctx (before ++ r), append_assoc before r rest.0)
      ]
    ]

-- The four calls of `listen`, and what comes behind them.
listen-follow :
    (w : Peer.ListenAnswers) (peer : Peer) (done : List Effect) (rest : List ScriptStep)
    → follow ((w.created, []) ∷ (w.reused, []) ∷ (w.bound, []) ∷ (w.listening, done) ∷ rest)
      ≡ elim (Peer.listen w peer) [ err e ↦ ([], some e) | ok listener ↦ behind done (follow rest) ]
unfolding Peer.listen follow
listen-follow w peer done rest = ground arith

listening_on :
    (w : Peer.ListenAnswers) (peer : Peer) (l : Peer.TcpListener) (done : List Effect)
    (rest : List ScriptStep)
    → Peer.listen w peer ≡ ok l
    → (elim (Peer.listen w peer) [ err e ↦ ([], some e) | ok listener ↦ behind done (follow rest) ])
      ≡ behind done (follow rest)
listening_on w peer l done rest f = ground (arith, f)

listen-address :
    (w : Peer.ListenAnswers) (peer : Peer) (listener : Peer.TcpListener)
    → Peer.listen w peer ≡ ok listener
    → listener ≡ record { address = peer.address; backlog = 128 }
unfolding Peer.listen
listen-address w peer listener e = ground (arith, e)

-- The start is a run of the script.
pub run-follow :
    (c : Crypto) (w : StartAnswers) (config : Config) (d d' : Disk) (s : Started)
    → run c w config d ≡ some (s, d')
    → outcome s ≡ follow (script w config (node_of w c config d))
unfolding run error_of Peer.new first_context follow
run-follow c w config d d' s e =
    let (identity, d2) =
      load_or_generate c w.env.home w.identity_refused w.seed w.identity_written d in
    let peer = Peer.new identity (any_address config.listen_port) in
    let node = node_of w c config d in
    let listener : Peer.TcpListener = record {
      address = any_address config.listen_port;
      backlog = 128;
    } in
    let rest =
      (
        if w.socket_exists then w.socket_removed else none,
        if w.socket_exists then removes_socket (control_socket_path w.env) ∷ [] else [],
      )
      ∷ control_script w node in
    let split = listen-follow w.listening peer (accepts_on listener ∷ []) rest in
    elim (Result-cases (Peer.listen w.listening peer)) [
      | inr (x, f) ↦ ground (arith, e, f, split)
      | inl (l, f) ↦
          let same = listen-address w.listening peer l f in
          elim (Option-cases (Store.new w.digests config.shared_dir w.shared_files)) [
            | inl g ↦ absurd (ground (arith, e, f, g))
            | inr (store, g) ↦
                let before = loads_identity ∷ accepts_on l ∷ [] in
                let first = first_context config peer store d2 in
                let began : open_control w first before ≡ s = ground (arith, e, f, g) in
                let listened =
                  ap (behind (loads_identity ∷ []))
                    (split ∙ listening_on w.listening peer l (accepts_on listener ∷ []) rest f) in
                ap outcome (sym began)
                ∙ open_control-follow w first before
                ∙ ap (λ x. behind (loads_identity ∷ accepts_on x ∷ []) (follow rest)) same
                ∙ sym listened
          ]
    ]
