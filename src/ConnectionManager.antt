-- ===== src/ConnectionManager.antt =====
-- src/connection_manager.rs: the table of connections and the index from peers to them. Each
-- operation runs under its locks, so it is one step; `send` takes them one after the other.
pub mod Index
pub mod Dedup
pub mod Sent
pub mod Inserted
use parsip.Base.{
  ℕ, ◌+◌, ◌%◌, ◌^◌, List, [], ◌∷◌, ◌++◌, Bool, true, false, not, Option, none, some, if◌then◌else◌,
  ite, String, ℕ_discrete,
}
use parsip.Text.{text}
use parsip.Io.{Error, ErrorKind, Result, ok, err, already_exists, broken_pipe, not_connected, other}
use parsip.Identity.{PeerId, bytes_gt, peer_key}
use parsip.Map.{HashMap, lookup, insert, remove, nat_key}
use parsip.Connection.{Connection, Channel, Direction, incoming, outgoing}
use parsip.Protocol.{Frame, Message}
use parsip.Protocol.Serialize.{frame_of}

pub data ConnectionState : Type 0 where
  established closing : ConnectionState

pub record ConnectionEntry : Type 0 where
  pub connection : Connection
  pub state : ConnectionState

-- A lock is poisoned after a thread has panicked while it held it.
pub record ConnectionManager : Type 0 where
  pub entries : HashMap ℕ ConnectionEntry
  pub peer_index : HashMap PeerId ℕ
  pub next_conn_id : ℕ
  pub entries_poisoned : Bool
  pub index_poisoned : Bool

unfoldable pub new : ConnectionManager
new = record {
  entries = [];
  peer_index = [];
  next_conn_id = 1;
  entries_poisoned = false;
  index_poisoned = false;
}

abbrev io_error : ErrorKind → String → Error
io_error kind message = record { kind = kind; message = text message }

-- `fetch_add` on an `AtomicU64` wraps around.
unfoldable pub reserve_id : ConnectionManager → ℕ × ConnectionManager
reserve_id m = (m.next_conn_id, record m { next_conn_id = (m.next_conn_id + 1) % 2 ^ 64 })

is_outgoing : Direction → Bool
is_outgoing outgoing = true
is_outgoing incoming = false

-- The tie-breaker: of two connections the one is kept that the greater identity has initiated.
unfoldable pub keep_new : Direction → PeerId → PeerId → Bool
unfolding is_outgoing
keep_new direction my_id their_id =
    let local_wins_tie = bytes_gt my_id.bytes their_id.bytes in
    if is_outgoing direction then local_wins_tie else not local_wins_tie

-- The entry is put under its identifier, in place of what the index named for the peer.
unfoldable pub link : ℕ → Connection → ConnectionManager → ConnectionManager
link conn_id connection m = record m {
  entries = insert conn_id (record { connection = connection; state = established }) m.entries;
  peer_index = insert connection.remote_peer_id conn_id m.peer_index;
}

-- The part of `insert_connection` under the two locks.
unfoldable pub insert_locked :
    ℕ → Connection → PeerId → ConnectionManager → Result ℕ Error × ConnectionManager
insert_locked conn_id connection my_id m = elim (lookup connection.remote_peer_id m.peer_index) [
  | some old_conn_id ↦ elim (lookup old_conn_id m.entries) [
    | some old ↦
        if keep_new connection.direction my_id connection.remote_peer_id
        then (
          ok conn_id,
          link conn_id connection (record m { entries = remove old_conn_id m.entries }),
        )
        else (err (io_error already_exists "Deduplication tie-breaker dropped connection"), m)
    | none ↦ (ok conn_id, link conn_id connection m)
  ]
  | none ↦ (ok conn_id, link conn_id connection m)
]

unfoldable pub insert_connection :
    Connection → PeerId → ConnectionManager → Result ℕ Error × ConnectionManager
insert_connection connection my_id m =
    let (conn_id, m') = reserve_id m in
    if m'.entries_poisoned
    then (err (io_error other "entries lock poisoned"), m')
    else if m'.index_poisoned
    then (err (io_error other "peer_index lock poisoned"), m')
    else insert_locked conn_id connection my_id m'

-- The entry leaves the table; the index forgets the peer only if it still names this connection.
unfoldable pub unlink : ℕ → ConnectionEntry → ConnectionManager → ConnectionManager
unlink conn_id entry m =
    let peer_id = entry.connection.remote_peer_id in
    let forgotten = record m { peer_index = remove peer_id m.peer_index } in
    if m.index_poisoned then m else elim (lookup peer_id m.peer_index) [
      | some id ↦ ite (ℕ_discrete id conn_id) forgotten m
      | none ↦ m
    ]

unfoldable pub remove_connection : ℕ → ConnectionManager → ConnectionManager
remove_connection conn_id m = if m.entries_poisoned then m else elim (lookup conn_id m.entries) [
  | some entry ↦ unlink conn_id entry (record m { entries = remove conn_id m.entries })
  | none ↦ m
]

-- The first half of `send`: the connection that the index names.
unfoldable pub indexed : PeerId → ConnectionManager → Result (Option ℕ) Error
indexed peer_id m =
    if m.index_poisoned
    then err (io_error other "peer_index lock poisoned")
    else ok (lookup peer_id m.peer_index)

abbrev pub push_frame : Frame → Connection → Connection
push_frame f c = record c { sender = record c.sender { sent = c.sender.sent ++ (f ∷ []) } }

-- The second half, under the other lock: other threads may have changed the table in between.
unfoldable pub send_on :
    Option ℕ → Message → ConnectionManager → Result (Unit {0}) Error × ConnectionManager
send_on none message m = (err (io_error not_connected "Peer not connected"), m)
send_on (some id) message m =
    if m.entries_poisoned
    then (err (io_error other "entries lock poisoned"), m)
    else elim (lookup id m.entries) [
      | none ↦ (err (io_error not_connected "Peer not connected"), m)
      | some entry ↦
          let sent = record entry { connection = push_frame (frame_of message) entry.connection } in
          if entry.connection.sender.receiver_gone
          then (err (io_error broken_pipe "Writer thread closed"), m)
          else (ok tt, record m { entries = insert id sent m.entries })
    ]

-- `send` with nothing in between.
unfoldable pub send :
    PeerId → Message → ConnectionManager → Result (Unit {0}) Error × ConnectionManager
send peer_id message m = elim (indexed peer_id m) [
  | err e ↦ (err e, m)
  | ok conn_id ↦ send_on conn_id message m
]

unfoldable pub is_connected : PeerId → ConnectionManager → Bool
is_connected peer_id m =
    if m.index_poisoned
    then false
    else elim (lookup peer_id m.peer_index) [ some id ↦ true | none ↦ false ]
