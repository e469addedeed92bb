-- ===== src/Resource/Transfer/Keyed.antt =====
-- src/resource/transfer.rs: each transfer stands under its own request, through every operation.
use parsip.Base.{ℕ, ◌≡◌, refl, inl, inr, none, some, List, [], ◌∷◌, arith, Option-cases}
use parsip.Map.{lookup, insert, remove, lookup-remove, values, nat_key}
use parsip.Identity.{PeerId}
use parsip.Resource.Transfer.{
  Transfer, TransferManager, register, advance_transfer, update_progress, complete, remove_all,
  cancel_for_peer, ids_of_peer,
}

-- One transfer for each request, which stands under its number.
unfoldable pub IsKeyed : TransferManager → Type 0
IsKeyed [] = Unit
IsKeyed ((id, t) ∷ m) = (t.request_id ≡ id) × (lookup id m ≡ none) × IsKeyed m

remove-IsKeyed : (k : ℕ) (m : TransferManager) → IsKeyed m → IsKeyed (remove k m)
unfolding IsKeyed remove
remove-IsKeyed k [] h = tt
remove-IsKeyed k ((j, t) ∷ m) (e, f, h) =
    ground (arith, e, f, remove-IsKeyed k m h, lookup-remove k j m)

insert-IsKeyed :
    (t : Transfer) (m : TransferManager) → IsKeyed m → IsKeyed (insert t.request_id t m)
unfolding IsKeyed insert
insert-IsKeyed t m h = (
  refl,
  ground (arith, lookup-remove t.request_id t.request_id m),
  remove-IsKeyed t.request_id m h,
)

register-IsKeyed : (t : Transfer) (m : TransferManager) → IsKeyed m → IsKeyed (register t m)
unfolding register
register-IsKeyed t m h = insert-IsKeyed t m h

-- What is found under a request has its number.
pub IsKeyed-request_id :
    (m : TransferManager) (id : ℕ) (t : Transfer)
    → IsKeyed m
    → lookup id m ≡ some t
    → t.request_id ≡ id
unfolding IsKeyed lookup
IsKeyed-request_id [] id t h e = ground arith
IsKeyed-request_id ((j, u) ∷ m) id t (p, f, h) e = ground (arith, p, e, IsKeyed-request_id m id t h)

update_progress-IsKeyed :
    (id added now later : ℕ) (m : TransferManager)
    → IsKeyed m
    → IsKeyed (update_progress id added now later m).1
unfolding update_progress advance_transfer
update_progress-IsKeyed id added now later m h = elim (Option-cases (lookup id m)) [
  | inl p ↦ ground (arith, p, h)
  | inr (t, p) ↦ ground (
    arith,
    p,
    h,
    IsKeyed-request_id m id t h p,
    insert-IsKeyed (advance_transfer added now later t).0 m h,
  )
]

remove_all-IsKeyed : (ids : List ℕ) (m : TransferManager) → IsKeyed m → IsKeyed (remove_all ids m).1
unfolding remove_all
remove_all-IsKeyed [] m h = h
remove_all-IsKeyed (id ∷ ids) m h =
    ground (arith, remove_all-IsKeyed ids (remove id m) (remove-IsKeyed id m h))

-- Every operation keeps each transfer under its own request, one for each request: `register`,
-- `update_progress` whatever the clock says, `complete` and `cancel_for_peer`.
pub operation-IsKeyed :
    (m : TransferManager)
    → IsKeyed m
    → ((t : Transfer) → IsKeyed (register t m))
      × ((id added now later : ℕ) → IsKeyed (update_progress id added now later m).1)
      × ((id : ℕ) → IsKeyed (complete id m).1)
      × ((p : PeerId) → IsKeyed (cancel_for_peer p m).1)
unfolding complete cancel_for_peer
operation-IsKeyed m h = (
  λ t. register-IsKeyed t m h,
  λ id added now later. update_progress-IsKeyed id added now later m h,
  λ id. remove-IsKeyed id m h,
  λ p. remove_all-IsKeyed (ids_of_peer p (values m)) m h,
)
