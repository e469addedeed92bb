-- ===== src/Daemon/Start.antt =====
-- src/daemon/mod.rs, `run`, up to its loop over the events.
pub mod Script
pub mod Order
pub mod Begun
use parsip.Base.{ℕ, List, [], ◌∷◌, ◌++◌, Bool, Option, none, some, if◌then◌else◌}
use parsip.Io.{Error, Result, ok, err}
use parsip.Control.{SocketAddr, v4}
use parsip.Config.{Config, Environment, control_socket_path}
use parsip.Connection.Handshake.{Crypto}
use parsip.Identity.Load.{load_or_generate}
use parsip.Disk.{Disk, WriteAnswer}
use parsip.Discovery.{Node}
use parsip.Discovery.Listen as Discovery
use parsip.Discovery.Listen.{DiscoveryAnswers}
use parsip.Resource.Store as Store
use parsip.Resource.Store.{Digests, DirEntry, LocalResourceStore}
use parsip.Resource.Download as Downloads
use parsip.Resource.Transfer as Transfers
use parsip.RequestTracker as Requests
use parsip.AliasRegistry as Aliases
use parsip.Peer.Node as Peer
use parsip.Peer.Node.{Peer, ListenAnswers, TcpListener}
use parsip.EventHandler.{DaemonContext}

-- What `run` does before the loop. `loads_identity` stands for all that `load_or_generate` does.
pub data Effect : Type 0 where
  loads_identity : Effect
  accepts_on : TcpListener → Effect
  removes_socket : List ℕ → Effect
  prepares_parent : List ℕ → Effect
  binds_socket : List ℕ → Effect
  restricts_socket : List ℕ → Effect
  discovers_for : Node → Effect
  serves_clients : Effect

-- What the environment, the random bytes, the system and the file system answer.
pub record StartAnswers : Type 0 where
  pub env : Environment
  pub identity_refused : Option Error
  pub seed : List ℕ
  pub identity_written : WriteAnswer
  pub listening : ListenAnswers
  pub shared_files : Option (List DirEntry)
  pub digests : Digests
  pub socket_exists : Bool
  pub socket_removed : Option Error
  pub socket_bound : Option Error
  pub socket_restricted : Option Error
  pub discovery : DiscoveryAnswers

-- What has been done, in order, and the state in which the loop over the events begins.
pub record Started : Type 0 where
  pub effects : List Effect
  pub result : Result DaemonContext Error

unfoldable pub first_context : Config → Peer → LocalResourceStore → Disk → DaemonContext
first_context config peer store d = record {
  node = record {
    tcp_listen_port = config.listen_port;
    my_id = peer.id;
    my_nickname = config.nickname;
  };
  manager = peer.manager;
  store = store;
  download_mgr = Downloads.new config.downloads_dir;
  transfer_mgr = Transfers.new;
  aliases = Aliases.new;
  req_tracker = Requests.new;
  disk = d;
  responses = [];
  datagrams = [];
  uploads = [];
  timers = [];
  connecting = [];
}

-- The socket is there: discovery, whose failure is only logged, and the thread for the clients.
unfoldable pub serve : StartAnswers → DaemonContext → List Effect → Started
serve w ctx effects =
    let discovering : List Effect = elim (Discovery.start w.discovery ctx.node) [
      | err e ↦ []
      | ok node ↦ discovers_for node ∷ []
    ] in
    record { effects = effects ++ (discovering ++ (serves_clients ∷ [])); result = ok ctx }

-- From the directory of the socket on.
unfoldable pub bind_control : StartAnswers → DaemonContext → List Effect → Started
bind_control w ctx effects =
    let path = control_socket_path w.env in
    let prepared = effects ++ (prepares_parent path ∷ []) in
    let bound = prepared ++ (binds_socket path ∷ []) in
    elim w.socket_bound [
      | some e ↦ record { effects = prepared; result = err e }
      | none ↦ elim w.socket_restricted [
        | some e ↦ record { effects = bound; result = err e }
        | none ↦ serve w ctx (bound ++ (restricts_socket path ∷ []))
      ]
    ]

-- A socket that is left from before is removed first.
unfoldable pub open_control : StartAnswers → DaemonContext → List Effect → Started
open_control w ctx effects =
    let path = control_socket_path w.env in
    let removed : Started = elim w.socket_removed [
      | some e ↦ record { effects = effects; result = err e }
      | none ↦ bind_control w ctx (effects ++ (removes_socket path ∷ []))
    ] in
    if w.socket_exists then removed else bind_control w ctx effects

abbrev pub any_address : ℕ → SocketAddr
any_address port = record { ip = v4 0 0 0 0; port = port }

-- The disk has the identity in either case. `none`: a file of the shared directory has no name.
unfoldable pub run : Crypto → StartAnswers → Config → Disk → Option (Started × Disk)
run c w config d =
    let (identity, d') =
      load_or_generate c w.env.home w.identity_refused w.seed w.identity_written d in
    let peer = Peer.new identity (any_address config.listen_port) in
    elim (Peer.listen w.listening peer) [
      | err e ↦ some (record { effects = loads_identity ∷ []; result = err e }, d')
      | ok listener ↦ elim (Store.new w.digests config.shared_dir w.shared_files) [
        | none ↦ none
        | some store ↦
            let before = loads_identity ∷ accepts_on listener ∷ [] in
            some (open_control w (first_context config peer store d') before, d')
      ]
    ]
