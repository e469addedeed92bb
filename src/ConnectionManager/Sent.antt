-- ===== src/ConnectionManager/Sent.antt =====
-- src/connection_manager.rs: index and table when a message is sent.
use parsip.Base.{
  ℕ, ◌≡◌, ◌≤◌, refl, sym, subst, ap, ◌∙◌, none, some, Option, Option-cases, Bool-cases, inl, inr,
  arith,
}
use parsip.Io.{Result, Error, Result-both}
use parsip.Map.{lookup, insert, lookup-insert, nat_key}
use parsip.Identity.{PeerId, peer_key}
use parsip.Protocol.{Message}
use parsip.ConnectionManager.{ConnectionManager, send, send_on, indexed, push_frame}
use parsip.Protocol.Serialize.{frame_of}
use parsip.ConnectionManager.Index.{IsLinked, remote_at}

-- The same links, under the same numbers.
IsAlike : ConnectionManager → ConnectionManager → Type 0
IsAlike m m' =
    (m'.peer_index ≡ m.peer_index)
    × (m'.next_conn_id ≡ m.next_conn_id)
    × ((j : ℕ)
        → (remote_at m' j ≡ remote_at m j)
          × (lookup j m.entries ≡ none → lookup j m'.entries ≡ none))

same-IsAlike : (m : ConnectionManager) → IsAlike m m
unfolding IsAlike
same-IsAlike m = (refl, refl, λ j. (refl, λ e. e))

send_on-IsAlike :
    (o : Option ℕ) (message : Message) (m : ConnectionManager) → IsAlike m (send_on o message m).1
unfolding send_on IsAlike
send_on-IsAlike none message m = same-IsAlike m
send_on-IsAlike (some id) message m = elim (Bool-cases m.entries_poisoned) [
  | inl e ↦ back (ground (arith, e))
  | inr e ↦ elim (Option-cases (lookup id m.entries)) [
    | inl f ↦ back (ground (arith, e, f))
    | inr (entry, f) ↦ elim (Bool-cases entry.connection.sender.receiver_gone) [
      | inl g ↦ back (ground (arith, e, f, g))
      | inr g ↦
          let sent = record entry { connection = push_frame (frame_of message) entry.connection } in
          let it : (send_on (some id) message m).1
              ≡ record m { entries = insert id sent m.entries } =
            ground (arith, e, f, g) in
          subst (IsAlike m) (sym it) (
            refl,
            refl,
            λ j. (
              ground (arith, f, lookup-insert id j sent m.entries),
              λ k. ground (arith, f, k, lookup-insert id j sent m.entries),
            ),
          )
    ]
  ]
]
  where
    back : (send_on (some id) message m).1 ≡ m → IsAlike m (send_on (some id) message m).1
    back it = subst (IsAlike m) (sym it) (same-IsAlike m)

IsAlike-IsLinked : (m m' : ConnectionManager) → IsAlike m m' → IsLinked m → IsLinked m'
unfolding IsAlike
IsAlike-IsLinked m m' (index, next, entries) v = record {
  linked = λ p id. (
    λ e. (entries id).0 ∙ (v.linked p id).0 (ap (lookup p) (sym index) ∙ e),
    λ e. ap (lookup p) index ∙ (v.linked p id).1 (sym (entries id).0 ∙ e),
  );
  fresh = λ id h. (entries id).1 (v.fresh id (subst (λ n. n ≤ id) next h));
}

-- Sending does not change which connections there are.
pub send-remote_at :
    (p : PeerId) (message : Message) (m : ConnectionManager) (id : ℕ)
    → remote_at (send p message m).1 id ≡ remote_at m id
unfolding send IsAlike
send-remote_at p message m id =
    Result-both
      (λ (x : Result (Unit {0}) Error × ConnectionManager). remote_at x.1 id ≡ remote_at m id)
      (indexed p m) _ _ (λ o. ((send_on-IsAlike o message m).2 id).0) (λ e. refl)

send_on-locks :
    (o : Option ℕ) (message : Message) (m : ConnectionManager)
    → ((send_on o message m).1.entries_poisoned ≡ m.entries_poisoned)
      × ((send_on o message m).1.index_poisoned ≡ m.index_poisoned)
unfolding send_on
send_on-locks none message m = (refl, refl)
send_on-locks (some id) message m = ground arith

pub send-locks :
    (p : PeerId) (message : Message) (m : ConnectionManager)
    → ((send p message m).1.entries_poisoned ≡ m.entries_poisoned)
      × ((send p message m).1.index_poisoned ≡ m.index_poisoned)
unfolding send
send-locks p message m =
    Result-both
      (λ (x : Result (Unit {0}) Error × ConnectionManager).
        (x.1.entries_poisoned ≡ m.entries_poisoned) × (x.1.index_poisoned ≡ m.index_poisoned))
      (indexed p m) _ _ (λ o. send_on-locks o message m) (λ e. (refl, refl))

-- Whether a message can be sent or not, index and table stay in step.
pub send-IsLinked :
    (p : PeerId) (message : Message) (m : ConnectionManager)
    → IsLinked m
    → IsLinked (send p message m).1
unfolding send
send-IsLinked p message m v =
    Result-both (λ (x : Result (Unit {0}) Error × ConnectionManager). IsLinked x.1) (indexed p m) _
      _ (λ o. IsAlike-IsLinked m (send_on o message m).1 (send_on-IsAlike o message m) v) (λ e. v)
