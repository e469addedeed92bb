-- ===== src/Peer.antt =====
-- src/peer/event.rs: what the threads of a node report to its event loop. A `Sender` is the number
-- of its channel.
pub mod Register
pub mod Node
use parsip.Base.{ℕ, List}
use parsip.Identity.{PeerId}
use parsip.Io.{Result}
use parsip.Protocol.{Message}
use parsip.Control.{ControlMessage, SocketAddr}

pub data PeerEvent : Type 0 where
  new_connection : PeerId → PeerEvent
  disconnected : PeerId → PeerEvent
  message : PeerId → Message → PeerEvent
  discovered : PeerId → SocketAddr → (nickname : List ℕ) → PeerEvent
  control_request : ControlMessage → (sender : ℕ) → PeerEvent
  scan_timeout : ℕ → PeerEvent
  connect_result : ℕ → Result PeerId (List ℕ) → PeerEvent
