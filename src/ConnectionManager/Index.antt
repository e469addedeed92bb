-- ===== src/ConnectionManager/Index.antt =====
-- The index and the table of connections name the same links.
use parsip.Base.{
  ℕ, ◌+◌, ◌%◌, ◌^◌, ◌<◌, ◌≤◌, ◌≡◌, ◌≢◌, ap, ◌↔◌, refl, arith, Option, none, some, Option-cases, inl,
  inr, true, false, ◌⊎◌,
}
use parsip.Identity.{PeerId, peer_key}
use parsip.Map.{lookup, remove, nat_key, lookup-insert, lookup-remove}
use parsip.Connection.{Connection}
use parsip.ConnectionManager.{
  ConnectionManager, ConnectionEntry, established, new, reserve_id, link, insert_locked,
  insert_connection, unlink, remove_connection, is_connected,
}

-- The peer at the other end of a connection of the table.
abbrev pub remote_at : ConnectionManager → ℕ → Option PeerId
remote_at m id = elim (lookup id m.entries) [
  | none ↦ none
  | some entry ↦ some entry.connection.remote_peer_id
]

-- The index sends a peer to a connection exactly if the table has that connection with that peer,
-- and the numbers from `next_conn_id` on are free.
pub record IsLinked (m : ConnectionManager) : Type 0 where
  pub linked : (p : PeerId) (id : ℕ) → (lookup p m.peer_index ≡ some id) ↔ (remote_at m id ≡ some p)
  pub fresh : (id : ℕ) → m.next_conn_id ≤ id → lookup id m.entries ≡ none

pub new-IsLinked : IsLinked new
unfolding new lookup
new-IsLinked = record { linked = λ p id. ground arith; fresh = λ id h. refl }

module _ (m : ConnectionManager) (v : IsLinked m) (cid : ℕ) (c : Connection)
    (free : lookup cid m.entries ≡ none) where
  open c use {remote_peer_id as their}

  link-linked :
      (nothing : lookup their m.peer_index ≡ none) (p : PeerId) (id : ℕ)
      → (lookup p (link cid c m).peer_index ≡ some id) ↔ (remote_at (link cid c m) id ≡ some p)
  unfolding link
  link-linked nothing p id = ground (
    arith,
    v.linked p id,
    v.linked p cid,
    v.linked their id,
    lookup-insert their p cid m.peer_index,
    lookup-insert cid id (record { connection = c; state = established }) m.entries,
  )

  replace-linked :
      (old : ℕ) (before : lookup their m.peer_index ≡ some old) (p : PeerId) (id : ℕ)
      → (lookup p (link cid c (record m { entries = remove old m.entries })).peer_index ≡ some id)
        ↔ (remote_at (link cid c (record m { entries = remove old m.entries })) id ≡ some p)
  unfolding link
  replace-linked old before p id = ground (
    arith,
    v.linked p id,
    v.linked p cid,
    v.linked their id,
    v.linked p old,
    v.linked their old,
    lookup-insert their p cid m.peer_index,
    lookup-insert cid id (record { connection = c; state = established }) (remove old m.entries),
    lookup-remove old id m.entries,
  )

-- What `insert_locked` has done: nothing, a new link, or a link in place of the old one.
insert_locked_cases :
    (cid : ℕ) (c : Connection) (my_id : PeerId) (m : ConnectionManager)
    → IsLinked m
    → ((insert_locked cid c my_id m).1 ≡ m)
      ⊎ (lookup c.remote_peer_id m.peer_index ≡ none)
        × ((insert_locked cid c my_id m).1 ≡ link cid c m)
      ⊎ ((old : ℕ) × (lookup c.remote_peer_id m.peer_index ≡ some old)
          × ((insert_locked cid c my_id m).1
              ≡ link cid c (record m { entries = remove old m.entries })))
unfolding insert_locked
insert_locked_cases cid c my_id m v = elim (Option-cases (lookup c.remote_peer_id m.peer_index)) [
  | inl e ↦ inr (inl (e, ground arith))
  | inr (old, e) ↦ ground (arith, e, v.linked c.remote_peer_id old)
]

module _ (m : ConnectionManager) (v : IsLinked m) (cid : ℕ) (c : Connection)
    (below : cid < m.next_conn_id) (free : lookup cid m.entries ≡ none) where
  abbrev entry : ConnectionEntry
  entry = record { connection = c; state = established }

  link-IsLinked : lookup c.remote_peer_id m.peer_index ≡ none → IsLinked (link cid c m)
  unfolding link
  link-IsLinked nothing = record {
    linked = unfold link in link-linked m v cid c free nothing;
    fresh = λ id h. ground (arith, v.fresh id h, lookup-insert cid id entry m.entries);
  }

  replace-IsLinked :
      (old : ℕ)
      → lookup c.remote_peer_id m.peer_index ≡ some old
      → IsLinked (link cid c (record m { entries = remove old m.entries }))
  unfolding link
  replace-IsLinked old before = record {
    linked = unfold link in replace-linked m v cid c free old before;
    fresh = λ id h. ground (
      arith,
      v.fresh id h,
      lookup-insert cid id entry (remove old m.entries),
      lookup-remove old id m.entries,
    );
  }

  insert_locked-IsLinked : (my_id : PeerId) → IsLinked (insert_locked cid c my_id m).1
  insert_locked-IsLinked my_id = elim (insert_locked_cases cid c my_id m v) [
    | inl e ↦ rw e v
    | inr (inl (nothing, e)) ↦ rw e (link-IsLinked nothing)
    | inr (inr (old, before, e)) ↦ rw e (replace-IsLinked old before)
  ]

module _ (m : ConnectionManager) (v : IsLinked m) where
  reserved : ConnectionManager
  reserved = record m { next_conn_id = (m.next_conn_id + 1) % 2 ^ 64 }

  reserved-IsLinked : m.next_conn_id + 1 < 2 ^ 64 → IsLinked reserved
  unfolding reserved
  reserved-IsLinked room = record { linked = v.linked; fresh = λ id h. v.fresh id (omega arith) }

  insert_connection_cases :
      (c : Connection) (my_id : PeerId)
      → ((insert_connection c my_id m).1 ≡ reserved)
        ⊎ ((insert_connection c my_id m).1 ≡ (insert_locked m.next_conn_id c my_id reserved).1)
  unfolding insert_connection reserve_id reserved
  insert_connection_cases c my_id = ground arith

  -- A connection that is accepted or refused leaves index and table in step, as long as they were
  -- before and the counter of 64 bits does not wrap around.
  pub insert_connection-IsLinked :
      (c : Connection) (my_id : PeerId)
      → m.next_conn_id + 1 < 2 ^ 64
      → IsLinked (insert_connection c my_id m).1
  unfolding reserved
  insert_connection-IsLinked c my_id room =
      let w = reserved-IsLinked room in
      let done =
        insert_locked-IsLinked reserved w m.next_conn_id c (omega arith)
          (v.fresh m.next_conn_id (omega arith)) my_id in
      elim (insert_connection_cases c my_id) [ inl e ↦ rw e w | inr e ↦ rw e done ]

  unlinked : ℕ → ConnectionEntry → ConnectionManager
  unlinked conn_id e = record m {
    entries = remove conn_id m.entries;
    peer_index = remove e.connection.remote_peer_id m.peer_index;
  }

  remove_connection_cases :
      (conn_id : ℕ)
      → m.index_poisoned ≡ false
      → (remove_connection conn_id m ≡ m)
        ⊎ ((e : ConnectionEntry) × (lookup conn_id m.entries ≡ some e)
            × (remove_connection conn_id m ≡ unlinked conn_id e))
  unfolding remove_connection unlink unlinked
  remove_connection_cases conn_id sane = elim (Option-cases (lookup conn_id m.entries)) [
    | inl e ↦ inl (ground arith)
    | inr (e, at) ↦ ground (arith, at, v.linked e.connection.remote_peer_id conn_id)
  ]

  -- A removal that changes nothing finds no such connection.
  remove_connection_gone :
      (conn_id : ℕ)
      → m.entries_poisoned ≡ false
      → m.index_poisoned ≡ false
      → remove_connection conn_id m ≡ m
      → remote_at m conn_id ≡ none
  unfolding remove_connection unlink
  remove_connection_gone conn_id open_entries sane e =
      elim (Option-cases (lookup conn_id m.entries)) [
        | inl n ↦ ground (arith, n)
        | inr (entry, at) ↦
            let kept = ap (λ (n : ConnectionManager). lookup conn_id n.entries) e in
            absurd (
              ground (
                arith,
                at,
                kept,
                open_entries,
                sane,
                lookup-remove conn_id conn_id m.entries,
                v.linked entry.connection.remote_peer_id conn_id,
              ))
      ]

  unlinked-IsLinked :
      (conn_id : ℕ) (e : ConnectionEntry)
      → lookup conn_id m.entries ≡ some e
      → IsLinked (unlinked conn_id e)
  unfolding unlinked
  unlinked-IsLinked conn_id e at = record {
    linked = λ p id. ground (
      arith,
      v.linked p id,
      v.linked p conn_id,
      v.linked e.connection.remote_peer_id id,
      lookup-remove conn_id id m.entries,
      lookup-remove e.connection.remote_peer_id p m.peer_index,
    );
    fresh = λ id h. ground (arith, v.fresh id h, lookup-remove conn_id id m.entries);
  }

  -- When a connection is removed, no lock is poisoned and index and table are in step, they stay in
  -- step, the table does not have the connection any more, and every other connection is still there with its peer.
  pub remove_connection-IsLinked :
      (conn_id : ℕ)
      → m.entries_poisoned ≡ false
      → m.index_poisoned ≡ false
      → IsLinked (remove_connection conn_id m)
        × (remote_at (remove_connection conn_id m) conn_id ≡ none)
        × ((id : ℕ) → id ≢ conn_id → remote_at (remove_connection conn_id m) id ≡ remote_at m id)
  unfolding unlinked
  remove_connection-IsLinked conn_id open_entries sane =
      elim (remove_connection_cases conn_id sane) [
        | inl e ↦ rw e (v, remove_connection_gone conn_id open_entries sane e, λ id ne. refl)
        | inr (e, at, removed) ↦ rw removed (
          unlinked-IsLinked conn_id e at,
          ground (arith, lookup-remove conn_id conn_id m.entries),
          λ id ne. ground (arith, lookup-remove conn_id id m.entries, ne),
        )
      ]

-- With index and table in step and the index's lock not poisoned, a peer counts as connected exactly
-- if the table has a connection to it.
pub is_connected_iff :
    (m : ConnectionManager) (p : PeerId)
    → IsLinked m
    → m.index_poisoned ≡ false
    → (is_connected p m ≡ true) ↔ ((id : ℕ) × (remote_at m id ≡ some p))
unfolding is_connected
is_connected_iff m p v sane = (
  (λ h. elim (Option-cases (lookup p m.peer_index)) [
    | inl e ↦ absurd (ground arith)
    | inr (id, e) ↦ (id, (v.linked p id).0 e)
  ]),
  (λ (id, e). ground (arith, (v.linked p id).1 e)),
)
