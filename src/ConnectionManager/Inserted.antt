-- ===== src/ConnectionManager/Inserted.antt =====
-- src/connection_manager.rs: which connections the table has after `insert_connection`.
use parsip.Base.{ℕ, ◌≡◌, refl, some, if-cases, Option-both, ◌⊎◌, inl, inr, ℕ_discrete, arith}
use parsip.Io.{Error, Result, ok}
use parsip.Identity.{PeerId, peer_key}
use parsip.Map.{lookup, remove, lookup-insert, lookup-remove, nat_key}
use parsip.Connection.{Connection}
use parsip.ConnectionManager.{
  ConnectionManager, established, reserve_id, keep_new, link, insert_locked, insert_connection,
}
use parsip.ConnectionManager.Index.{remote_at}

-- The locks are as they were, and every connection was there before or is the one inserted.
pub record Inserted (c : Connection) (m : ConnectionManager)
    (after : Result ℕ Error × ConnectionManager) : Type 0 where
  pub same_entries_lock : after.1.entries_poisoned ≡ m.entries_poisoned
  pub same_index_lock : after.1.index_poisoned ≡ m.index_poisoned
  pub known :
      (id : ℕ) (p : PeerId)
      → remote_at after.1 id ≡ some p
      → (remote_at m id ≡ some p) ⊎ ((after.0 ≡ ok id) × (c.remote_peer_id ≡ p))

same-Inserted :
    (c : Connection) (m m' : ConnectionManager) (r : Result ℕ Error)
    → m'.entries ≡ m.entries
    → m'.entries_poisoned ≡ m.entries_poisoned
    → m'.index_poisoned ≡ m.index_poisoned
    → Inserted c m (r, m')
same-Inserted c m m' r entries e i = record {
  same_entries_lock = e;
  same_index_lock = i;
  known = λ id p there. inl (ground (arith, entries, there));
}

link-Inserted :
    (cid : ℕ) (c : Connection) (m m' : ConnectionManager)
    → m'.entries_poisoned ≡ m.entries_poisoned
    → m'.index_poisoned ≡ m.index_poisoned
    → ((id : ℕ) (p : PeerId) → remote_at m' id ≡ some p → remote_at m id ≡ some p)
    → Inserted c m (ok cid, link cid c m')
unfolding link
link-Inserted cid c m m' e i fewer = record {
  same_entries_lock = e;
  same_index_lock = i;
  known = λ id p there. elim (ℕ_discrete cid id) [
    | yes same ↦ inr (
      ground (arith, same),
      ground (
        arith,
        there,
        same,
        lookup-insert cid id (record { connection = c; state = established }) m'.entries,
      ),
    )
    | no other ↦ inl (
        fewer id p (
          ground (
            arith,
            there,
            other,
            lookup-insert cid id (record { connection = c; state = established }) m'.entries,
          )))
  ];
}

insert_locked-Inserted :
    (cid : ℕ) (c : Connection) (my_id : PeerId) (m : ConnectionManager)
    → Inserted c m (insert_locked cid c my_id m)
unfolding insert_locked
insert_locked-Inserted cid c my_id m =
    let P = Inserted c m in
    let linked : P (ok cid, link cid c m) = link-Inserted cid c m m refl refl (λ id p e. e) in
    Option-both P (lookup c.remote_peer_id m.peer_index) _ _ linked (λ old_id.
      Option-both P (lookup old_id m.entries) _ _ linked (λ old.
        if-cases P (keep_new c.direction my_id c.remote_peer_id) _ _
          (link-Inserted cid c m (record m { entries = remove old_id m.entries }) refl refl
            (λ id p e. ground (arith, e, lookup-remove old_id id m.entries)))
          (same-Inserted c m m _ refl refl refl)))

pub insert_connection-Inserted :
    (c : Connection) (my_id : PeerId) (m : ConnectionManager)
    → Inserted c m (insert_connection c my_id m)
unfolding insert_connection reserve_id
insert_connection-Inserted c my_id m =
    let P = Inserted c m in
    let m' = (reserve_id m).1 in
    let refused : (r : Result ℕ Error) → P (r, m') = λ r. same-Inserted c m m' r refl refl refl in
    let done = insert_locked-Inserted m.next_conn_id c my_id m' in
    if-cases P m.entries_poisoned _ _ (refused _) (
      if-cases P m.index_poisoned _ _ (refused _) (record {
        same_entries_lock = done.same_entries_lock;
        same_index_lock = done.same_index_lock;
        known = done.known;
      }))
