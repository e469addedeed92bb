-- ===== src/AliasRegistry.antt =====
-- src/event_handler.rs, `AliasRegistry`: the short names of the peers and resources. A string is the
-- list of its bytes.
pub mod Named
use parsip.Base.{ℕ, ◌+◌, ◌%◌, ◌^◌, List, [], ◌∷◌, Option, none, some}
use parsip.Map.{HashMap, lookup, insert, bytes_key}
use parsip.Text.{decimal}
use parsip.Identity.{PeerId, peer_key}
use parsip.Protocol.{ResourceId, ResourceInfo}
use parsip.Resource.Keys.{resource_key}
use parsip.Control.{DiscoveredPeerInfo}

pub record AliasRegistry : Type 0 where
  pub peer_aliases : HashMap (List ℕ) PeerId
  pub peer_id_to_alias : HashMap PeerId (List ℕ)
  pub resource_aliases : HashMap (List ℕ) ResourceId
  pub resource_id_to_alias : HashMap ResourceId (List ℕ)
  pub resource_info : HashMap ResourceId ResourceInfo
  pub discovered_peers : HashMap PeerId DiscoveredPeerInfo
  pub next_peer_id : ℕ
  pub next_resource_id : ℕ

unfoldable pub new : AliasRegistry
new = record {
  peer_aliases = [];
  peer_id_to_alias = [];
  resource_aliases = [];
  resource_id_to_alias = [];
  resource_info = [];
  discovered_peers = [];
  next_peer_id = 1;
  next_resource_id = 1;
}

-- The counters are u32 of the release build.
unfoldable pub add_peer : PeerId → AliasRegistry → List ℕ × AliasRegistry
add_peer peer_id r = elim (lookup peer_id r.peer_id_to_alias) [
  | some alias ↦ (alias, r)
  | none ↦
      let alias = b'p' ∷ decimal r.next_peer_id in
      (
        alias,
        record r {
          next_peer_id = (r.next_peer_id + 1) % 2 ^ 32;
          peer_id_to_alias = insert peer_id alias r.peer_id_to_alias;
          peer_aliases = insert alias peer_id r.peer_aliases;
        },
      )
]

unfoldable pub add_resource : ResourceId → AliasRegistry → List ℕ × AliasRegistry
add_resource resource_id r = elim (lookup resource_id r.resource_id_to_alias) [
  | some alias ↦ (alias, r)
  | none ↦
      let alias = b'r' ∷ decimal r.next_resource_id in
      (
        alias,
        record r {
          next_resource_id = (r.next_resource_id + 1) % 2 ^ 32;
          resource_id_to_alias = insert resource_id alias r.resource_id_to_alias;
          resource_aliases = insert alias resource_id r.resource_aliases;
        },
      )
]

unfoldable pub cache_info : ResourceInfo → AliasRegistry → AliasRegistry
cache_info info r = record r { resource_info = insert info.id info r.resource_info }

unfoldable pub get_info : ResourceId → AliasRegistry → Option ResourceInfo
get_info id r = lookup id r.resource_info

unfoldable pub get_peer : List ℕ → AliasRegistry → Option PeerId
get_peer alias r = lookup alias r.peer_aliases

unfoldable pub get_resource : List ℕ → AliasRegistry → Option ResourceId
get_resource alias r = lookup alias r.resource_aliases
