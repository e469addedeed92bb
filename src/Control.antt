-- ===== src/Control.antt =====
-- src/daemon/control.rs: what the command line asks of the daemon and what the daemon answers.
use parsip.Base.{ℕ, List, Bool, true, false}
use parsip.Identity.{PeerId}
use parsip.Protocol.{ResourceId}

pub data IpAddr : Type 0 where
  v4 : (a b c d : ℕ) → IpAddr
  v6 : (segments : List ℕ) → IpAddr

-- The standard library's `SocketAddr`.
pub record SocketAddr : Type 0 where
  pub ip : IpAddr
  pub port : ℕ

-- A floating-point number is kept as the expression that the source evaluates: conversions of
-- integers, decimal literals (as an integer) and quotients. No theorem is about its rounding.
pub data F64 : Type 0 where
  of_integer : ℕ → F64
  quotient : F64 → F64 → F64

pub data ControlMessage : Type 0 where
  scan : ControlMessage
  connect : (alias : List ℕ) → ControlMessage
  list_peers : ControlMessage
  list_resources : (peer_alias : List ℕ) → ControlMessage
  get_resource : (peer_alias resource_alias : List ℕ) → ControlMessage
  add_resource : (path : List ℕ) → ControlMessage

pub record DiscoveredPeerInfo : Type 0 where
  pub alias : List ℕ
  pub nickname : List ℕ
  pub address : SocketAddr

pub record ConnectedPeerInfo : Type 0 where
  pub alias : List ℕ
  pub peer_id : PeerId

pub record ListedResource : Type 0 where
  pub alias : List ℕ
  pub id : ResourceId
  pub name : List ℕ
  pub size : ℕ

pub data ControlResponse : Type 0 where
  done : ControlResponse
  error : List ℕ → ControlResponse
  scan_results : List DiscoveredPeerInfo → ControlResponse
  peers_list : List ConnectedPeerInfo → ControlResponse
  resource_list : List ListedResource → ControlResponse
  resource_added : (alias : List ℕ) → (id : ResourceId) → ControlResponse
  download_progress : (bytes total : ℕ) → (mbps : F64) → ControlResponse
  download_complete : (bytes : ℕ) → (elapsed_secs : F64) → ControlResponse

-- src/daemon/mod.rs: the answers after which a request is over.
unfoldable pub is_terminal : ControlResponse → Bool
is_terminal (download_progress bytes total mbps) = false
is_terminal _ = true
