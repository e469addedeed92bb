-- ===== src/Connection/Open.antt =====
-- src/connection/mod.rs, `Connection::new`: the two ends of a stream whose peer is known.
use parsip.Base.{ℕ, [], Bool, true, false, Option, none, some, if◌then◌else◌}
use parsip.Io.{Error, Input, Result, ok, err}
use parsip.Identity.{PeerId}
use parsip.Control.{SocketAddr}
use parsip.Connection.{Connection, Direction}

-- What is set of a socket. Times are in seconds; the keepalive has the time without data, the time
-- between two probes, and the number of probes.
pub record SocketOptions : Type 0 where
  pub nonblocking : Bool
  pub nodelay : Bool
  pub keepalive : Option (ℕ × ℕ × ℕ)
  pub read_timeout : Option ℕ

-- A socket: its options, which of them the system lets be set, and its answer to `try_clone`.
pub record Socket : Type 0 where
  pub options : SocketOptions
  pub sets_nonblocking : Bool
  pub sets_nodelay : Bool
  pub sets_keepalive : Bool
  pub sets_read_timeout : Bool
  pub cloned : Option Error

-- The errors of these calls are ignored.
unfoldable pub configure : Socket → SocketOptions
configure s =
    let o = s.options in
    record {
      nonblocking = if s.sets_nonblocking then false else o.nonblocking;
      nodelay = if s.sets_nodelay then true else o.nodelay;
      keepalive = if s.sets_keepalive then some (10, 5, 3) else o.keepalive;
      read_timeout = if s.sets_read_timeout then some 60 else o.read_timeout;
    }

-- `ConnectionReader`; the options of its stream are those of the socket that was cloned.
pub record ConnectionReader : Type 0 where
  pub stream : Input
  pub remote_addr : SocketAddr
  pub options : SocketOptions

-- The connection of a stream, whose channel to its writer is new.
abbrev pub new_link : PeerId → Direction → Connection
new_link remote_peer_id direction = record {
  remote_peer_id = remote_peer_id;
  direction = direction;
  sender = record { sent = []; receiver_gone = false };
}

abbrev pub new_reader : Socket → SocketAddr → Input → ConnectionReader
new_reader socket remote_addr s = record {
  stream = s;
  remote_addr = remote_addr;
  options = configure socket;
}

-- `Connection::new`
unfoldable pub new :
    Socket → Input → SocketAddr → PeerId → Direction → Result (Connection × ConnectionReader) Error
new socket s remote_addr remote_peer_id direction = elim socket.cloned [
  | some e ↦ err e
  | none ↦ ok (new_link remote_peer_id direction, new_reader socket remote_addr s)
]
