-- ===== src/EventHandler/Names.antt =====
-- src/event_handler.rs: the names of the listed peers when other names are given.
use parsip.Base.{◌+◌, ◌<◌, ◌≤◌, ◌^◌, ◌≡◌, sym, ap, ◌∙◌, List, [], ◌∷◌, length, arith}
use parsip.Map.{lookup, bytes_key}
use parsip.Identity.{PeerId, peer_key}
use parsip.Protocol.{ResourceId, ResourceInfo}
use parsip.Resource.Keys.{resource_key}
use parsip.AliasRegistry.{AliasRegistry, add_peer, add_resource, cache_info, get_peer}
use parsip.AliasRegistry.Named.{add_peer-IsRegistry, add_resource-IsRegistry}
use parsip.EventHandler.{name_resources}
use parsip.EventHandler.Discover.{IsListed, add_peer-discovered_peers}

pub add_peer-IsListed :
    (p : PeerId) (r : AliasRegistry)
    → IsListed r
    → r.next_peer_id + 1 < 2 ^ 32
    → IsListed (add_peer p r).1
add_peer-IsListed p r v h =
    let (registry, here, there) = add_peer-IsRegistry p r v.registry h in
    record {
      registry = registry;
      listed = λ q i e.
          there i.alias q (v.listed q i (ap (lookup q) (sym (add_peer-discovered_peers p r)) ∙ e));
    }

pub add_peer-next_resource_id :
    (p : PeerId) (r : AliasRegistry) → (add_peer p r).1.next_resource_id ≡ r.next_resource_id
unfolding add_peer
add_peer-next_resource_id p r = ground arith

add_resource-IsListed :
    (id : ResourceId) (r : AliasRegistry)
    → IsListed r
    → r.next_resource_id + 1 < 2 ^ 32
    → IsListed (add_resource id r).1
      × ((add_resource id r).1.next_resource_id ≤ r.next_resource_id + 1)
unfolding add_resource get_peer
add_resource-IsListed id r v h =
    let (registry, here, there) = add_resource-IsRegistry id r v.registry h in
    let found : (add_resource id r).1.discovered_peers ≡ r.discovered_peers = ground arith in
    let leads : (add_resource id r).1.peer_aliases ≡ r.peer_aliases = ground arith in
    let below : (add_resource id r).1.next_resource_id ≤ r.next_resource_id + 1 =
      ground (arith, h) in
    (
      record {
        registry = registry;
        listed = λ q i e. ap (lookup i.alias) leads ∙ v.listed q i (ap (lookup q) (sym found) ∙ e);
      },
      below,
    )

cache_info-IsListed :
    (info : ResourceInfo) (r : AliasRegistry) → IsListed r → IsListed (cache_info info r)
unfolding cache_info get_peer
cache_info-IsListed info r v = record {
  registry = record { peers = v.registry.peers; resources = v.registry.resources };
  listed = v.listed;
}

name_resources-IsListed :
    (resources : List ResourceInfo) (r : AliasRegistry)
    → IsListed r
    → r.next_resource_id + length resources < 2 ^ 32
    → IsListed (name_resources resources r).1
unfolding name_resources cache_info
name_resources-IsListed [] r v h = v
name_resources-IsListed (res ∷ more) r v h =
    let (named, below) = add_resource-IsListed res.id r v (omega (arith, h)) in
    name_resources-IsListed more (cache_info res (add_resource res.id r).1)
      (cache_info-IsListed res (add_resource res.id r).1 named) (omega (arith, h, below))

-- The names after a list of resources has come from a peer.
pub resource_list-IsListed :
    (p : PeerId) (resources : List ResourceInfo) (r : AliasRegistry)
    → IsListed r
    → r.next_peer_id + 1 < 2 ^ 32
    → r.next_resource_id + length resources < 2 ^ 32
    → IsListed (name_resources resources (add_peer p r).1).1
resource_list-IsListed p resources r v h k =
    name_resources-IsListed resources (add_peer p r).1 (add_peer-IsListed p r v h)
      (omega (arith, k, add_peer-next_resource_id p r))

pub shared-IsListed :
    (id : ResourceId) (r : AliasRegistry)
    → IsListed r
    → r.next_resource_id + 1 < 2 ^ 32
    → IsListed (add_resource id r).1
shared-IsListed id r v h = (add_resource-IsListed id r v h).0

-- A scan forgets the listed peers.
pub cleared-IsListed :
    (r : AliasRegistry) → IsListed r → IsListed (record r { discovered_peers = [] })
unfolding lookup
cleared-IsListed r v = record {
  registry = record { peers = v.registry.peers; resources = v.registry.resources };
  listed = λ q i e. absurd (ground (arith, e));
}
