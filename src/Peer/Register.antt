-- ===== src/Peer/Register.antt =====
-- src/peer/acceptor.rs and src/peer/connector.rs: how a stream becomes a connection of the table.
pub mod Cases
pub mod Listed
use parsip.Base.{ℕ, List, [], ◌∷◌, Option, none, some, ite, String}
use parsip.Text.{text}
use parsip.Io.{Error, Result, ok, err, Input, Output, invalid_data}
use parsip.Identity.{PeerId, PeerId-discrete}
use parsip.Connection.{Connection, Direction, outgoing}
use parsip.Connection.Open as Connection
use parsip.Connection.Open.{ConnectionReader, Socket}
use parsip.Control.{SocketAddr}
use parsip.Connection.Handshake.{Crypto, Identity, perform_handshake}
use parsip.ConnectionManager.{ConnectionManager, insert_connection}
use parsip.Peer.{PeerEvent, new_connection}

-- The thread that reads from a connection: the number under which it removes it in the end, the
-- peer that it reports, and what it reads from.
pub record ReadLoop : Type 0 where
  pub conn_id : ℕ
  pub peer_id : PeerId
  pub reader : ConnectionReader

-- What a stream has led to: the result, the table, the events sent, and the reader started.
pub record Registered : Type 0 where
  pub result : Result PeerId Error
  pub manager : ConnectionManager
  pub events : List PeerEvent
  pub reader : Option ReadLoop

unfoldable pub rejected : Error → ConnectionManager → Registered
rejected e m = record { result = err e; manager = m; events = []; reader = none }

-- From `insert_connection` on.
unfoldable pub insert_link :
    PeerId → PeerId → Connection → ConnectionReader → ConnectionManager → Registered
unfolding rejected
insert_link my_id their_id connection reader m =
    let (inserted, m') = insert_connection connection my_id m in
    elim inserted [
      | err e ↦ rejected e m'
      | ok conn_id ↦ record {
        result = ok their_id;
        manager = m';
        events = new_connection their_id ∷ [];
        reader = some (record { conn_id = conn_id; peer_id = their_id; reader = reader });
      }
    ]

-- What follows a handshake.
unfoldable pub after_handshake :
    PeerId
    → Direction
    → Socket
    → SocketAddr
    → Result (PeerId × Input) Error
    → ConnectionManager
    → Registered
unfolding rejected
after_handshake my_id direction socket remote_addr (err e) m = rejected e m
after_handshake my_id direction socket remote_addr (ok (their_id, s)) m =
    let self_connection : Error = record {
      kind = invalid_data;
      message = text "Rejected self-connection";
    } in
    let linked : Registered = elim (Connection.new socket s remote_addr their_id direction) [
      | err e ↦ rejected e m
      | ok (connection, reader) ↦ insert_link my_id their_id connection reader m
    ] in
    ite (PeerId-discrete their_id my_id) (rejected self_connection m) linked

-- `none`: `encode` was out of fuel.
unfoldable pub register_connection :
    Crypto
    → Identity
    → (my_nonce : List ℕ) → Direction
    → Socket
    → SocketAddr
    → Input
    → Output
    → ConnectionManager
    → Option (Registered × Output)
register_connection c identity my_nonce direction socket remote_addr s o m =
    elim (perform_handshake c identity my_nonce s o) [
      | none ↦ none
      | some (theirs, o') ↦
          some (after_handshake identity.peer_id direction socket remote_addr theirs m, o')
    ]

-- The thread of `connect`: what it sends to the receiver, and the table afterwards.
unfoldable pub connect :
    Crypto
    → Identity
    → (my_nonce : List ℕ) → (refused : Option Error) → Socket
    → SocketAddr
    → Input
    → Output
    → ConnectionManager
    → Option (Registered × Output)
unfolding rejected
connect c identity my_nonce (some e) socket target s o m = some (rejected e m, o)
connect c identity my_nonce none socket target s o m =
    register_connection c identity my_nonce outgoing socket target s o m
