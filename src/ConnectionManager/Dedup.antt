-- ===== src/ConnectionManager/Dedup.antt =====
-- Two nodes that dial each other at once: which of the two connections stays.
use parsip.Base.{
  ℕ, ◌+◌, ◌%◌, ◌^◌, ◌<◌, ◌≡◌, ◌≢◌, refl, arith, Option, none, some, Bool-cases, inl, inr, true,
  false, length, ap, if◌then◌else◌, ◌∙◌,
}
use parsip.Identity.{PeerId, peer_key, bytes_gt, bytes_gt_flip}
use parsip.Io.{Error, Result, ok}
use parsip.Map.{lookup, remove, nat_key, lookup-insert, lookup-remove}
use parsip.Connection.{Connection, Direction, incoming, outgoing}
use parsip.ConnectionManager.{
  ConnectionManager, ConnectionEntry, established, reserve_id, link, insert_locked,
  insert_connection, keep_new, remove_connection,
}
use parsip.ConnectionManager.Index.{IsLinked}

-- The direction of the connection that the index names for a peer.
unfoldable pub kept : PeerId → ConnectionManager → Option Direction
kept p m = elim (lookup p m.peer_index) [
  | none ↦ none
  | some id ↦ elim (lookup id m.entries) [
    | none ↦ none
    | some entry ↦ some entry.connection.direction
  ]
]

kept_of :
    (p : PeerId) (m : ConnectionManager) (id : ℕ) (e : ConnectionEntry)
    → lookup p m.peer_index ≡ some id
    → lookup id m.entries ≡ some e
    → kept p m ≡ some e.connection.direction
unfolding kept
kept_of p m id e known at = ground arith

unfoldable pub opposite : Direction → Direction
opposite incoming = outgoing
opposite outgoing = incoming

-- A node that knows no connection to a peer accepts one from it and dials one to it.
pub record IsRace (m : ConnectionManager) (them : PeerId) (first second : Connection) : Type 0 where
  pub linked : IsLinked m
  pub entries_sound : m.entries_poisoned ≡ false
  pub index_sound : m.index_poisoned ≡ false
  pub room : m.next_conn_id + 2 < 2 ^ 64
  pub stranger : lookup them m.peer_index ≡ none
  pub to_first : first.remote_peer_id ≡ them
  pub to_second : second.remote_peer_id ≡ them
  pub crossed : second.direction ≡ opposite first.direction

-- Both connections have gone through `insert_connection`, in this order.
abbrev pub both_inserted : PeerId → Connection → Connection → ConnectionManager → ConnectionManager
both_inserted me first second m = (insert_connection second me (insert_connection first me m).1).1

abbrev reserved : ConnectionManager → ConnectionManager
reserved m = record m { next_conn_id = (m.next_conn_id + 1) % 2 ^ 64 }

module _ (me them : PeerId) (c : Connection) (to : c.remote_peer_id ≡ them) (m : ConnectionManager)
    (entries_sound : m.entries_poisoned ≡ false) (index_sound : m.index_poisoned ≡ false) where
  insert_stranger :
      lookup them m.peer_index ≡ none
      → insert_connection c me m ≡ (ok m.next_conn_id, link m.next_conn_id c (reserved m))
  unfolding insert_connection insert_locked reserve_id
  insert_stranger none_yet = ground arith

  insert_known :
      (old : ℕ) (e : ConnectionEntry)
      → lookup them m.peer_index ≡ some old
      → lookup old m.entries ≡ some e
      → (insert_connection c me m).1 ≡ (
          if keep_new c.direction me them
          then link m.next_conn_id c (record (reserved m) { entries = remove old m.entries })
          else reserved m)
  unfolding insert_connection insert_locked reserve_id
  insert_known old e known at = ground arith

  kept-link : (cid : ℕ) (n : ConnectionManager) → kept them (link cid c n) ≡ some c.direction
  unfolding kept link
  kept-link cid n = ground (
    arith,
    lookup-insert c.remote_peer_id them cid n.peer_index,
    lookup-insert cid cid (record { connection = c; state = established }) n.entries,
  )

module _ (me them : PeerId) (m : ConnectionManager) (first second : Connection)
    (race : IsRace m them first second) where
  open m use {next_conn_id as cid}

  after_first : ConnectionManager
  after_first = link cid first (reserved m)

  abbrev entry : ConnectionEntry
  entry = record { connection = first; state = established }

  first_known :
      (lookup them after_first.peer_index ≡ some cid)
      × (lookup cid after_first.entries ≡ some entry)
  unfolding after_first link
  first_known = ground (
    arith,
    race.to_first,
    lookup-insert first.remote_peer_id them cid m.peer_index,
    lookup-insert cid cid (record { connection = first; state = established }) m.entries,
  )

  second_inserted :
      kept them (insert_connection second me after_first).1
      ≡ some (if keep_new second.direction me them then second.direction else first.direction)
  unfolding after_first link
  second_inserted = elim (Bool-cases (keep_new second.direction me them)) [
    | inl e ↦
        rw (known, e)
          (kept-link me them second race.to_second after_first race.entries_sound race.index_sound _
            _)
    | inr e ↦
        rw (known, e) (kept_of them (reserved after_first) cid entry first_known.0 first_known.1)
  ]
    where
      known : (insert_connection second me after_first).1 ≡ (
          if keep_new second.direction me them
          then link after_first.next_conn_id second
              (record (reserved after_first) { entries = remove cid after_first.entries })
          else reserved after_first)
      known =
          insert_known me them second race.to_second after_first race.entries_sound race.index_sound
            cid entry first_known.0 first_known.1

  kept-both_inserted :
      kept them (both_inserted me first second m)
      ≡ some (if keep_new second.direction me them then second.direction else first.direction)
  unfolding after_first
  kept-both_inserted =
      ap (λ (r : Result ℕ Error × ConnectionManager). kept them (insert_connection second me r.1).1)
        (insert_stranger me them first race.to_first m race.entries_sound race.index_sound
          race.stranger)
      ∙ second_inserted

  -- Whatever comes first, the connection stays that the greater identity has dialled.
  kept-dialled :
      kept them (both_inserted me first second m)
      ≡ some (if bytes_gt me.bytes them.bytes then outgoing else incoming)
  unfolding keep_new opposite
  kept-dialled = kept-both_inserted ∙ ground (arith, race.crossed)

-- Two nodes with different identities of one length, neither of which has a connection to the other
-- yet and whose locks are not poisoned, dial each other at once: in whichever order each of them
-- sees the two connections, they keep the same one, outgoing at one node and incoming at the other.
pub race_agrees :
    (a b : PeerId) (ma mb : ConnectionManager) (a1 a2 b1 b2 : Connection)
    → length a.bytes ≡ length b.bytes
    → a.bytes ≢ b.bytes
    → IsRace ma b a1 a2
    → IsRace mb a b1 b2
    → (d : Direction) × (kept b (both_inserted a a1 a2 ma) ≡ some d)
      × (kept a (both_inserted b b1 b2 mb) ≡ some (opposite d))
unfolding opposite
race_agrees a b ma mb a1 a2 b1 b2 len ne ra rb = (
  if bytes_gt a.bytes b.bytes then outgoing else incoming,
  kept-dialled a b ma a1 a2 ra,
  kept-dialled b a mb b1 b2 rb ∙ ground (arith, bytes_gt_flip a.bytes b.bytes len ne),
)

remove_connection_absent :
    (id : ℕ) (m : ConnectionManager) → lookup id m.entries ≡ none → remove_connection id m ≡ m
unfolding remove_connection
remove_connection_absent id m e = ground arith

-- With index and table in step and no lock poisoned: when a new connection wins against the one that
-- the index names for its peer, the removal of the old one, when its reader ends, changes nothing.
pub remove_connection_replaced :
    (me : PeerId) (c : Connection) (m : ConnectionManager) (old : ℕ) (e : ConnectionEntry)
    → IsLinked m
    → m.entries_poisoned ≡ false
    → m.index_poisoned ≡ false
    → lookup c.remote_peer_id m.peer_index ≡ some old
    → lookup old m.entries ≡ some e
    → keep_new c.direction me c.remote_peer_id ≡ true
    → remove_connection old (insert_connection c me m).1 ≡ (insert_connection c me m).1
unfolding link
remove_connection_replaced me c m old e v es is known at wins =
    remove_connection_absent old (insert_connection c me m).1 (
      ground (
        arith,
        insert_known me c.remote_peer_id c refl m es is old e known at,
        v.fresh m.next_conn_id,
        lookup-insert m.next_conn_id old (record { connection = c; state = established })
            (remove old m.entries),
        lookup-remove old old m.entries,
      ))
