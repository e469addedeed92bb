-- ===== src/AliasRegistry/Named.antt =====
-- src/event_handler.rs, `AliasRegistry`: one name for each peer and each resource, and back.
use parsip.Base.{
  ℕ, ◌+◌, ◌%◌, ◌^◌, ◌≤◌, ◌<◌, ◌≡◌, ◌≢◌, ◌↔◌, refl, ap, List, ◌∷◌, none, some, Option-cases, inl,
  inr, drop, arith,
}
use parsip.Map.{Key, HashMap, lookup, insert, lookup-insert, bytes_key}
use parsip.Text.{decimal, decimal_injective}
use parsip.Identity.{PeerId, peer_key}
use parsip.Protocol.{ResourceId}
use parsip.Resource.Keys.{resource_key}
use parsip.AliasRegistry.{AliasRegistry, new, add_peer, add_resource, get_peer, get_resource}

module _ {K : Type 0} ⦃e : Key K⦄ where
  -- The two maps are inverse to each other, and no number from `next` on has been given away.
  pub record IsNamed (mark : ℕ) (names : HashMap (List ℕ) K) (aliases : HashMap K (List ℕ))
      (next : ℕ) : Type 0 where
    pub linked : (k : K) (a : List ℕ) → (lookup k aliases ≡ some a) ↔ (lookup a names ≡ some k)
    pub fresh : (n : ℕ) → next ≤ n → lookup (mark ∷ decimal n) names ≡ none

  insert-IsNamed :
      (mark : ℕ) (names : HashMap (List ℕ) K) (aliases : HashMap K (List ℕ)) (next : ℕ) (k : K)
      → IsNamed mark names aliases next
      → lookup k aliases ≡ none
      → IsNamed mark
          (insert (mark ∷ decimal next) k names)
          (insert k (mark ∷ decimal next) aliases)
          (next + 1)
  insert-IsNamed mark names aliases next k v new =
      let alias = mark ∷ decimal next in
      let free = v.fresh next (omega arith) in
      record {
        linked = λ j a. ground (
          arith,
          v.linked j a,
          v.linked k a,
          v.linked j alias,
          free,
          new,
          lookup-insert k j alias aliases,
          lookup-insert alias a k names,
        );
        fresh = λ n h.
            let other : alias ≢ mark ∷ decimal n =
              λ p. omega (arith, decimal_injective next n (ap (drop 1) p)) in
            ground (
              arith,
              v.fresh n (omega arith),
              lookup-insert alias (mark ∷ decimal n) k names,
              other,
            );
      }

  insert_here :
      (names : HashMap (List ℕ) K) (alias : List ℕ) (k : K)
      → lookup alias (insert alias k names) ≡ some k
  insert_here names alias k = ground (arith, lookup-insert alias alias k names)

  insert_there :
      (names : HashMap (List ℕ) K) (alias a : List ℕ) (k j : K)
      → lookup alias names ≡ none
      → lookup a names ≡ some j
      → lookup a (insert alias k names) ≡ some j
  insert_there names alias a k j free g = ground (arith, lookup-insert alias a k names, free, g)

-- Peers and resources have names, each its own one.
pub record IsRegistry (r : AliasRegistry) : Type 0 where
  pub peers : IsNamed b'p' r.peer_aliases r.peer_id_to_alias r.next_peer_id
  pub resources : IsNamed b'r' r.resource_aliases r.resource_id_to_alias r.next_resource_id

pub new-IsRegistry : IsRegistry new
unfolding new lookup
new-IsRegistry = record {
  peers = record { linked = λ k a. ground arith; fresh = λ n h. refl };
  resources = record { linked = λ k a. ground arith; fresh = λ n h. refl };
}

-- As long as the counter does not run over, `add_peer` keeps one name for each peer and one peer for
-- each name; the name that it gives leads back to the peer, and every name leads where it led before.
pub add_peer-IsRegistry :
    (p : PeerId) (r : AliasRegistry)
    → IsRegistry r
    → r.next_peer_id + 1 < 2 ^ 32
    → let (alias, r') = add_peer p r in
      IsRegistry r'
      × (get_peer alias r' ≡ some p)
      × ((a : List ℕ) (q : PeerId) → get_peer a r ≡ some q → get_peer a r' ≡ some q)
unfolding add_peer get_peer
add_peer-IsRegistry p r v h = elim (Option-cases (lookup p r.peer_id_to_alias)) [
  | inl e ↦
      let alias = b'p' ∷ decimal r.next_peer_id in
      let count : (r.next_peer_id + 1) % 2 ^ 32 ≡ r.next_peer_id + 1 = omega arith in
      let named =
        insert-IsNamed b'p' r.peer_aliases r.peer_id_to_alias r.next_peer_id p v.peers e in
      rw (add_peer, e, count)
        (
          record { peers = named; resources = v.resources },
          insert_here r.peer_aliases alias p,
          λ a q g.
              insert_there r.peer_aliases alias a p q (v.peers.fresh r.next_peer_id (omega arith))
                g,
        )
  | inr (a, e) ↦ rw (add_peer, e) (v, (v.peers.linked p a).0 e, λ b q g. g)
]

-- As long as the counter does not run over, `add_resource` keeps one name for each resource and one
-- resource for each name; the name that it gives leads back to the resource, and every name leads
-- where it led before.
pub add_resource-IsRegistry :
    (id : ResourceId) (r : AliasRegistry)
    → IsRegistry r
    → r.next_resource_id + 1 < 2 ^ 32
    → let (alias, r') = add_resource id r in
      IsRegistry r'
      × (get_resource alias r' ≡ some id)
      × ((a : List ℕ) (j : ResourceId) → get_resource a r ≡ some j → get_resource a r' ≡ some j)
unfolding add_resource get_resource
add_resource-IsRegistry id r v h = elim (Option-cases (lookup id r.resource_id_to_alias)) [
  | inl e ↦
      let alias = b'r' ∷ decimal r.next_resource_id in
      let count : (r.next_resource_id + 1) % 2 ^ 32 ≡ r.next_resource_id + 1 = omega arith in
      let named =
        insert-IsNamed b'r' r.resource_aliases r.resource_id_to_alias r.next_resource_id id
          v.resources e in
      let free = v.resources.fresh r.next_resource_id (omega arith) in
      rw (add_resource, e, count)
        (
          record { peers = v.peers; resources = named },
          insert_here r.resource_aliases alias id,
          λ a j g. insert_there r.resource_aliases alias a id j free g,
        )
  | inr (a, e) ↦ rw (add_resource, e) (v, (v.resources.linked id a).0 e, λ b j g. g)
]
