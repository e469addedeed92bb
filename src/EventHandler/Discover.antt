-- ===== src/EventHandler/Discover.antt =====
-- src/event_handler.rs: the peers that a scan lists, and their names.
use parsip.Base.{ℕ, ◌+◌, ◌^◌, ◌<◌, ◌≡◌, sym, subst, ◌⊎◌, List, some, Option-cases, inl, inr, arith}
use parsip.Map.{HashMap, lookup, insert, lookup-insert}
use parsip.Identity.{PeerId, peer_key}
use parsip.Control.{DiscoveredPeerInfo, SocketAddr}
use parsip.AliasRegistry.{AliasRegistry, add_peer, get_peer}
use parsip.AliasRegistry.Named.{IsRegistry, add_peer-IsRegistry}
use parsip.EventHandler.{DaemonContext, handle_discovered}

-- Each listed peer is found under the name in its entry.
pub record IsListed (r : AliasRegistry) : Type 0 where
  pub registry : IsRegistry r
  pub listed :
      (p : PeerId) (i : DiscoveredPeerInfo)
      → lookup p r.discovered_peers ≡ some i
      → get_peer i.alias r ≡ some p

pub add_peer-discovered_peers :
    (p : PeerId) (r : AliasRegistry) → (add_peer p r).1.discovered_peers ≡ r.discovered_peers
unfolding add_peer
add_peer-discovered_peers p r = ground arith

insert-some :
    (p q : PeerId) (i j : DiscoveredPeerInfo) (m : HashMap PeerId DiscoveredPeerInfo)
    → lookup q (insert p i m) ≡ some j
    → (p ≡ q) × (i ≡ j) ⊎ (lookup q m ≡ some j)
insert-some p q i j m e = ground (arith, e, lookup-insert p q i m)

-- The names lead to the peers, and the peer is listed.
Lists : PeerId → AliasRegistry → Type 0
Lists p r = IsListed r × ((i : DiscoveredPeerInfo) × (lookup p r.discovered_peers ≡ some i))

-- While the counter of names does not run over and every listed peer is found under the name in its
-- entry, this stays so when a peer is discovered, and the peer is listed then.
pub handle_discovered-IsListed :
    (p : PeerId) (addr : SocketAddr) (nickname : List ℕ) (ctx : DaemonContext)
    → IsListed ctx.aliases
    → ctx.aliases.next_peer_id + 1 < 2 ^ 32
    → IsListed (handle_discovered p addr nickname ctx).aliases
      × ((i : DiscoveredPeerInfo) × (lookup p
              (handle_discovered p addr nickname ctx).aliases.discovered_peers
            ≡ some i))
unfolding handle_discovered get_peer Lists
handle_discovered-IsListed p addr nickname ctx v h =
    let (registry, here, there) = add_peer-IsRegistry p ctx.aliases v.registry h in
    let (alias, r) = add_peer p ctx.aliases in
    let info : DiscoveredPeerInfo = record { alias = alias; nickname = nickname; address = addr } in
    let r' = record r { discovered_peers = insert p info r.discovered_peers } in
    let before : (q : PeerId) (j : DiscoveredPeerInfo)
        → lookup q r.discovered_peers ≡ some j
        → get_peer j.alias r ≡ some q =
      λ q j f.
        there j.alias q (v.listed q j (rw (sym (add_peer-discovered_peers p ctx.aliases)) f)) in
    elim (Option-cases (lookup p r.discovered_peers)) [
      | inr (i, e) ↦
          let stays : (handle_discovered p addr nickname ctx).aliases ≡ r = ground (arith, e) in
          subst (Lists p) (sym stays) (record { registry = registry; listed = before }, (i, e))
      | inl e ↦
          let grows : (handle_discovered p addr nickname ctx).aliases ≡ r' = ground (arith, e) in
          subst (Lists p) (sym grows) (
            record {
              registry = record { peers = registry.peers; resources = registry.resources };
              listed = λ q j f. elim (insert-some p q info j r.discovered_peers f) [
                | inl (pq, ij) ↦ ground (arith, here, pq, ij)
                | inr old ↦ before q j old
              ];
            },
            (info, ground (arith, lookup-insert p p info r.discovered_peers)),
          )
    ]
