-- ===== src/Discovery.antt =====
-- src/discovery/mod.rs: how nodes find one another by UDP broadcasts. Sockets are arguments: what was
-- received, and what the system answers.
pub mod Exchange
pub mod Broadcast
pub mod Listen
use parsip.Base.{
  ℕ, zero, suc, ◌+◌, ◌-◌, ◌*◌, ◌%◌, ◌^◌, List, [], ◌∷◌, ◌++◌, Bool, true, false, not, ◌&&◌, ◌||◌,
  Option, none, some, ltb, leb, ◌==◌, if◌then◌else◌, ite, length, take, drop, slice, map,
}
use parsip.Bytes.{to_be_bytes, from_be_bytes}
use parsip.Text.{text, decimal}
use parsip.Text.Strings.{bytes_eq}
use parsip.Io.{Error, Result, ok, err}
use parsip.Identity.{PeerId, PeerId-discrete}
use parsip.Peer.{PeerEvent, discovered}
use parsip.Control.{SocketAddr, IpAddr, v4}

abbrev pub discovery_port : ℕ
discovery_port = 9090

abbrev pub magic_request : List ℕ
magic_request = text "PARREQ"

abbrev pub magic_response : List ℕ
magic_response = text "PARRES"

-- What a node tells of itself; its port is a u16.
unfoldable pub payload : List ℕ → ℕ → PeerId → List ℕ → List ℕ
payload magic port id nickname = magic ++ (to_be_bytes 2 port ++ (id.bytes ++ nickname))

-- The node that `start` was called for.
pub record Node : Type 0 where
  pub tcp_listen_port : ℕ
  pub my_id : PeerId
  pub my_nickname : List ℕ

-- What a datagram makes the thread do: a reply with its address, and an event.
abbrev pub Handled : Type 0
Handled = Option (List ℕ × SocketAddr) × Option PeerEvent

-- The part for a datagram with one of the two magic words, of at least 40 bytes. `lossy` stands for
-- `String::from_utf8_lossy`.
unfoldable pub handle_greeting : (List ℕ → List ℕ) → Node → Bool → List ℕ → SocketAddr → Handled
handle_greeting lossy node is_request buf src =
    let remote_tcp_port = from_be_bytes (slice buf 6 8) in
    let remote_peer_id : PeerId = record { bytes = slice buf 8 40 } in
    let nickname = if ltb 40 (length buf) then lossy (drop 40 buf) else text "Unknown" in
    let answer : List ℕ × SocketAddr = (
      payload magic_response node.tcp_listen_port node.my_id node.my_nickname,
      record src { port = discovery_port },
    ) in
    let event = discovered remote_peer_id (record src { port = remote_tcp_port }) nickname in
    ite (PeerId-discrete remote_peer_id node.my_id) (none, none)
      (if is_request then some answer else none, some event)

-- One round of the thread's loop: a datagram, of which the buffer takes 1024 bytes, from `src`.
unfoldable pub handle_datagram : (List ℕ → List ℕ) → Node → List ℕ → SocketAddr → Handled
unfolding bytes_eq
handle_datagram lossy node datagram src =
    let buf = take 1024 datagram in
    let is_request = bytes_eq (slice buf 0 6) magic_request in
    let is_response = bytes_eq (slice buf 0 6) magic_response in
    if leb 40 (length buf) && (is_request || is_response)
    then handle_greeting lossy node is_request buf src
    else (none, none)
