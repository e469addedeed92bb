-- ===== src/Resource/Transfer/Cancel.antt =====
-- src/resource/transfer.rs, `cancel_for_peer`: what is left when a peer has gone.
use parsip.Base.{
  ℕ, ◌≡◌, refl, ◌⊎◌, inl, inr, Option, none, some, List, [], ◌∷◌, ite, arith, Option-cases, ◌↔◌,
  Among,
}
use parsip.Map.{lookup, remove, values, lookup-remove, nat_key}
use parsip.Identity.{PeerId, PeerId-discrete}
use parsip.Resource.Transfer.{Transfer, TransferManager, remove_all, cancel_for_peer, ids_of_peer}
use parsip.Resource.Transfer.Keyed.{IsKeyed, IsKeyed-request_id}

-- Removing a list of requests leaves the other ones alone.
remove_all-other :
    (ids : List ℕ) (m : TransferManager) (j : ℕ)
    → ¬ Among j ids
    → lookup j (remove_all ids m).1 ≡ lookup j m
unfolding remove_all
remove_all-other [] m j h = refl
remove_all-other (id ∷ ids) m j h =
    ground (arith, remove_all-other ids (remove id m) j (λ q. h (inr q)), lookup-remove id j m, h)

remove_all-gone :
    (ids : List ℕ) (m : TransferManager) (j : ℕ)
    → (Among j ids ⊎ (lookup j m ≡ none))
    → lookup j (remove_all ids m).1 ≡ none
unfolding remove_all
remove_all-gone [] m j (inl h) = absurd h
remove_all-gone [] m j (inr h) = h
remove_all-gone (id ∷ ids) m j h =
    ground (arith, h, remove_all-gone ids (remove id m) j, lookup-remove id j m)

-- What comes back was there, under one of the requests.
remove_all-was :
    (ids : List ℕ) (m : TransferManager) (t : Transfer)
    → Among t (remove_all ids m).0
    → (id : ℕ) × Among id ids × (lookup id m ≡ some t)
unfolding remove_all
remove_all-was [] m t h = absurd h
remove_all-was (id ∷ ids) m t h =
    let here : (lookup id m ≡ some t) ⊎ Among t (remove_all ids (remove id m)).0 =
      ground (arith, h) in
    elim here [
      | inl e ↦ (id, inl refl, e)
      | inr later ↦
          let (j, among, e) = remove_all-was ids (remove id m) t later in
          (j, inr among, ground (arith, e, lookup-remove id j m))
    ]

-- What was there under one of the requests comes back.
remove_all-returned :
    (ids : List ℕ) (m : TransferManager) (t : Transfer) (id : ℕ)
    → Among id ids
    → lookup id m ≡ some t
    → Among t (remove_all ids m).0
unfolding remove_all
remove_all-returned [] m t id h e = absurd h
remove_all-returned (j ∷ ids) m t id h e =
    ground (arith, h, e, remove_all-returned ids (remove j m) t id, lookup-remove j id m)

-- The requests of a peer, among all the transfers of the map.
ids_of_peer-Among :
    (p : PeerId) (m : TransferManager) (id : ℕ) (t : Transfer)
    → IsKeyed m
    → lookup id m ≡ some t
    → t.peer_id ≡ p
    → Among id (ids_of_peer p (values m))
unfolding ids_of_peer lookup IsKeyed
ids_of_peer-Among p [] id t k e q = ground arith
ids_of_peer-Among p ((j, u) ∷ m) id t (r, f, k) e q =
    ground (arith, r, e, q, ids_of_peer-Among p m id t k)

ids_of_peer-only :
    (p : PeerId) (m : TransferManager) (id : ℕ)
    → IsKeyed m
    → Among id (ids_of_peer p (values m))
    → (t : Transfer) × (lookup id m ≡ some t) × (t.peer_id ≡ p)
unfolding ids_of_peer lookup IsKeyed
ids_of_peer-only p [] id k h = absurd h
ids_of_peer-only p ((j, u) ∷ m) id (r, f, k) h =
    let here : (u.peer_id ≡ p) × (j ≡ id) ⊎ Among id (ids_of_peer p (values m)) =
      ground (arith, h, r) in
    elim here [
      | inl (q, e) ↦ (u, ground (arith, e), q)
      | inr later ↦ let (t, e, q) = ids_of_peer-only p m id k later in (t, ground (arith, e, f), q)
    ]

-- What is left of a transfer when a peer has gone.
unfoldable pub spared : PeerId → Option Transfer → Option Transfer
spared p none = none
spared p (some t) = ite (PeerId-discrete t.peer_id p) none (some t)

cancel_for_peer-lookup :
    (p : PeerId) (m : TransferManager) (id : ℕ)
    → IsKeyed m
    → lookup id (cancel_for_peer p m).1 ≡ spared p (lookup id m)
unfolding cancel_for_peer spared
cancel_for_peer-lookup p m id k =
    let ids = ids_of_peer p (values m) in
    elim (Option-cases (lookup id m)) [
      | inl e ↦ ground (arith, e, remove_all-gone ids m id (inr e))
      | inr (t, e) ↦ elim (PeerId-discrete t.peer_id p) [
        | yes q ↦
            let gone = remove_all-gone ids m id (inl (ids_of_peer-Among p m id t k e q)) in
            ground (arith, e, q, gone)
        | no q ↦
            let stays : ¬ Among id ids =
              λ h. let (u, f, r) = ids_of_peer-only p m id k h in ground (arith, e, f, q, r) in
            ground (arith, e, q, remove_all-other ids m id stays)
      ]
    ]

cancel_for_peer-Among :
    (p : PeerId) (m : TransferManager) (t : Transfer)
    → IsKeyed m
    → Among t (cancel_for_peer p m).0 ↔ (lookup t.request_id m ≡ some t) × (t.peer_id ≡ p)
unfolding cancel_for_peer
cancel_for_peer-Among p m t k =
    let ids = ids_of_peer p (values m) in
    (
      λ h.
          let (id, among, e) = remove_all-was ids m t h in
          let (u, f, q) = ids_of_peer-only p m id k among in
          ground (arith, e, f, q, IsKeyed-request_id m id t k e),
      λ (e, q).
          remove_all-returned ids m t t.request_id (ids_of_peer-Among p m t.request_id t k e q) e,
    )

-- When each transfer stands under its own request, `cancel_for_peer` takes exactly the transfers of
-- the peer out of the map, leaves every other one as it was, and gives back exactly those that it
-- took, so that the caller can tell each of their requests.
pub cancel_for_peer_lem :
    (p : PeerId) (m : TransferManager)
    → IsKeyed m
    → ((id : ℕ) → lookup id (cancel_for_peer p m).1 ≡ spared p (lookup id m))
      × ((t : Transfer)
          → Among t (cancel_for_peer p m).0 ↔ (lookup t.request_id m ≡ some t) × (t.peer_id ≡ p))
cancel_for_peer_lem p m k =
    (λ id. cancel_for_peer-lookup p m id k, λ t. cancel_for_peer-Among p m t k)
