-- ===== src/Connection.antt =====
-- src/connection/mod.rs: one end of a link to a peer. The
-- channel to the writer thread is the list of the frames that were sent into it.
pub mod Reader
pub mod Writer
pub mod Open
pub mod Link
pub mod Established
pub mod Handshake
use parsip.Base.{ℕ, List, Bool}
use parsip.Identity.{PeerId}
use parsip.Protocol.{Frame}

pub data Direction : Type 0 where
  incoming outgoing : Direction

-- The `Sender<Frame>`, and whether the thread that receives is gone.
pub record Channel : Type 0 where
  pub sent : List Frame
  pub receiver_gone : Bool

pub record Connection : Type 0 where
  pub remote_peer_id : PeerId
  pub direction : Direction
  pub sender : Channel
