-- ===== src/Peer/Node.antt =====
-- src/peer/mod.rs and src/peer/acceptor.rs: a node with its table of connections, and the threads
-- that accept and read from them.
pub mod Tended
pub mod Ended
pub mod Released
pub mod Replaced
use parsip.Base.{ℕ, ◌+◌, ◌<◌, ◌^◌, ◌≡◌, List, [], ◌∷◌, ◌++◌, Bool, Option, none, some}
use parsip.Io.{Error, Result, ok, err, Input, Output, answer, ◌>>◌}
use parsip.Control.{SocketAddr}
use parsip.Identity.{PeerId}
use parsip.Protocol.{Message}
use parsip.Connection.{Direction, incoming, outgoing}
use parsip.Connection.Open.{Socket}
use parsip.Connection.Reader.{start_read_loop}
use parsip.Connection.Handshake.{Crypto, Identity}
use parsip.ConnectionManager as Connections
use parsip.ConnectionManager.{ConnectionManager, remove_connection}
use parsip.Peer.{PeerEvent, new_connection}
use parsip.Peer.Register.{Registered, ReadLoop, register_connection, connect}

-- `event_tx` is what has been sent to the event loop, in order.
pub record Peer : Type 0 where
  pub identity : Identity
  pub id : PeerId
  pub address : SocketAddr
  pub manager : ConnectionManager
  pub event_tx : List PeerEvent

unfoldable pub new : Identity → SocketAddr → Peer
new identity address = record {
  identity = identity;
  id = identity.peer_id;
  address = address;
  manager = Connections.new;
  event_tx = [];
}

unfoldable pub is_connected : PeerId → Peer → Bool
is_connected peer_id peer = Connections.is_connected peer_id peer.manager

unfoldable pub send : PeerId → Message → Peer → Result (Unit {0}) Error × Peer
send target message peer =
    let (result, m) = Connections.send target message peer.manager in
    (result, record peer { manager = m })

-- What the system answers to the four calls of `listen`; `none` stands for success.
pub record ListenAnswers : Type 0 where
  pub created : Option Error
  pub reused : Option Error
  pub bound : Option Error
  pub listening : Option Error

pub record TcpListener : Type 0 where
  pub address : SocketAddr
  pub backlog : ℕ

unfoldable pub listen : ListenAnswers → Peer → Result TcpListener Error
listen w peer = do
  answer w.created
  answer w.reused
  answer w.bound
  answer w.listening
  ok (record { address = peer.address; backlog = 128 })

-- A node and its threads: the events that threads which have registered a connection still have to
-- send, the threads that read from a connection, and those that have reported the end of one and
-- still have to remove it.
pub record Links : Type 0 where
  pub peer : Peer
  pub announcing : List PeerEvent
  pub readers : List ReadLoop
  pub ending : List ReadLoop

-- A stream, and what its other end and the system do while it is registered.
pub record Stream : Type 0 where
  pub bytes : Input
  pub output : Output
  pub my_nonce : List ℕ
  pub socket : Socket
  pub remote_addr : SocketAddr

-- The reader is started before the event is sent, so that its own events may come first.
unfoldable pub joined : Registered → Links → Links
joined x l = record l {
  peer = record l.peer { manager = x.manager };
  announcing = x.events ++ l.announcing;
  readers = elim x.reader [ none ↦ l.readers | some r ↦ r ∷ l.readers ];
}

-- One round of the loop of `start_accept_loop`, and what its thread does. `none`: `encode` was out of
-- fuel.
unfoldable pub accept : Crypto → Result Stream Error → Links → Option Links
accept c (err e) l = some l
accept c (ok a) l =
    elim (register_connection c l.peer.identity a.my_nonce incoming a.socket a.remote_addr a.bytes
      a.output l.peer.manager) [ none ↦ none | some (x, o) ↦ some (joined x l) ]

-- The thread of `connect`; `refused` is the answer of the system to the connection.
unfoldable pub dial : Crypto → (refused : Option Error) → Stream → Links → Option Links
dial c refused a l =
    elim (connect c l.peer.identity a.my_nonce refused a.socket a.remote_addr a.bytes a.output
      l.peer.manager) [ none ↦ none | some (x, o) ↦ some (joined x l) ]

unfoldable pub emit : List PeerEvent → Peer → Peer
emit es peer = record peer { event_tx = peer.event_tx ++ es }

-- What a node's threads do to its connections, in any order. A registration takes the next number,
-- of which there is one more.
pub data Step (c : Crypto) (l l' : Links) : Type 0 where
  accepts :
      (a : Result Stream Error)
      → l.peer.manager.next_conn_id + 1 < 2 ^ 64
      → accept c a l ≡ some l'
      → Step c l l'
  dials :
      (refused : Option Error) (a : Stream)
      → l.peer.manager.next_conn_id + 1 < 2 ^ 64
      → dial c refused a l ≡ some l'
      → Step c l l'
  announces :
      (before after : List PeerEvent) (e : PeerEvent)
      → l.announcing ≡ before ++ (e ∷ after)
      → l' ≡ record l { announcing = before ++ after; peer = emit (e ∷ []) l.peer }
      → Step c l l'
  reports :
      (before after : List ReadLoop) (r : ReadLoop) (es : List PeerEvent)
      → l.readers ≡ before ++ (r ∷ after)
      → start_read_loop r.peer_id r.reader.stream ≡ some es
      → l' ≡ record l { readers = before ++ after; ending = r ∷ l.ending; peer = emit es l.peer }
      → Step c l l'
  removes :
      (before after : List ReadLoop) (r : ReadLoop)
      → l.ending ≡ before ++ (r ∷ after)
      → l' ≡ record l {
        ending = before ++ after;
        peer = record l.peer { manager = remove_connection r.conn_id l.peer.manager };
      }
      → Step c l l'
  sends :
      (target : PeerId) (message : Message)
      → l' ≡ record l { peer = (send target message l.peer).1 }
      → Step c l l'

-- Any number of steps from a new node.
pub data Runs (c : Crypto) (identity : Identity) (address : SocketAddr) : Links → Type 0 where
  starts :
      Runs c identity address
        (record { peer = new identity address; announcing = []; readers = []; ending = [] })
  goes_on : {l l' : Links} → Runs c identity address l → Step c l l' → Runs c identity address l'
