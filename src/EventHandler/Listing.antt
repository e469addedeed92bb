-- ===== src/EventHandler/Listing.antt =====
-- src/event_handler.rs: the list of what a peer shares, on its way from one node to another.
use parsip.Base.{
  ℕ, ◌+◌, ◌≤◌, ◌<◌, ◌^◌, ◌≡◌, refl, sym, subst, ap, List, [], ◌∷◌, ◌++◌, none, some, map, All,
  length, arith,
}
use parsip.Bytes.{length-to_be_bytes}
use parsip.Io.{Error}
use parsip.Map.{lookup, lookup-insert, lookup-remove, nat_key, bytes_key}
use parsip.Identity.{PeerId, peer_key}
use parsip.Protocol.{Frame, ResourceId, ResourceInfo, list_resources, resource_list, IsU32}
use parsip.Protocol.Serialize.{frame_of, payload_of}
use parsip.Control.{ListedResource, ControlResponse}
use parsip.Control
use parsip.Connection.Reader.{events, is_handshake, start_read_loop}
use parsip.Connection.Link.{IsCarried, wire_of, start_read_loop-wire_of}
use parsip.AliasRegistry.{AliasRegistry, add_peer, add_resource, cache_info, get_peer, get_resource}
use parsip.AliasRegistry.Named.{IsRegistry, add_peer-IsRegistry, add_resource-IsRegistry}
use parsip.RequestTracker.{take_id, register, complete}
use parsip.Resource.Store as Store
use parsip.Resource.Keys.{resource_key}
use parsip.ConnectionManager.{send}
use parsip.EventHandler.{
  DaemonContext, Answers, handle_message, name_resources, finish_request, respond,
}
use parsip.EventHandler.Names.{add_peer-next_resource_id}
use parsip.EventHandler.Dispatch.{handle_list_resources, begin_request}
use parsip.EventHandler.Sharing.Sent.{Reaches, send-Reaches}

-- What a line of the list says of a resource.
unfoldable pub info_of : ListedResource → ResourceInfo
info_of x = record { id = x.id; name = x.name; size = x.size }

-- The lines are about these resources, in order, and each one's short name leads to it.
abbrev pub Names : List ResourceInfo → List ListedResource → AliasRegistry → Type 0
Names resources listed r =
    (map info_of listed ≡ resources) × All (λ x. get_resource x.alias r ≡ some x.id) listed

-- Short names lead where they led before.
abbrev Leads : AliasRegistry → AliasRegistry → Type 0
Leads r r' =
    (a : List ℕ) (id : ResourceId) → get_resource a r ≡ some id → get_resource a r' ≡ some id

add_resource-next :
    (id : ResourceId) (r : AliasRegistry)
    → r.next_resource_id + 1 < 2 ^ 32
    → (add_resource id r).1.next_resource_id ≤ r.next_resource_id + 1
unfolding add_resource
add_resource-next id r h = ground (arith, h)

cache_info-IsRegistry :
    (info : ResourceInfo) (r : AliasRegistry) → IsRegistry r → IsRegistry (cache_info info r)
unfolding cache_info
cache_info-IsRegistry info r v = record { peers = v.peers; resources = v.resources }

cache_info-Leads : (info : ResourceInfo) (r : AliasRegistry) → Leads r (cache_info info r)
unfolding cache_info get_resource
cache_info-Leads info r a id e = e

name_resources-Names :
    (resources : List ResourceInfo) (r : AliasRegistry)
    → IsRegistry r
    → r.next_resource_id + length resources < 2 ^ 32
    → let (listed, r') = name_resources resources r in Names resources listed r' × Leads r r'
unfolding name_resources info_of cache_info
name_resources-Names [] r v h = ((refl, tt), λ a id e. e)
name_resources-Names (res ∷ more) r v h =
    let (alias, named) = add_resource res.id r in
    let (registry, here, there) = add_resource-IsRegistry res.id r v (omega (arith, h)) in
    let below = add_resource-next res.id r (omega (arith, h)) in
    let cached = cache_info res named in
    let ((infos, leads), later) =
      name_resources-Names more cached (cache_info-IsRegistry res named registry)
        (omega (arith, h, below)) in
    (
      (
        ap (res ∷◌) infos,
        (later alias res.id (cache_info-Leads res named alias res.id here), leads),
      ),
      λ a id e. later a id (cache_info-Leads res named a id (there a id e)),
    )

-- The request has been answered with a list of these resources, and waits no more.
pub record IsListing (resources : List ResourceInfo) (request_id sender : ℕ)
    (before after : DaemonContext) : Type 0 where
  pub listed : List ListedResource
  pub names : Names resources listed after.aliases
  pub answered : after.responses ≡ before.responses ++ ((sender, Control.resource_list listed) ∷ [])
  pub waits_no_more : lookup request_id after.req_tracker.pending_requests ≡ none

handle_message-IsListing :
    (v : Answers) (p : PeerId) (resources : List ResourceInfo) (n sender : ℕ) (ctx : DaemonContext)
    → lookup n ctx.req_tracker.pending_requests ≡ some sender
    → IsRegistry ctx.aliases
    → ctx.aliases.next_peer_id + 1 < 2 ^ 32
    → ctx.aliases.next_resource_id + length resources < 2 ^ 32
    → IsListing resources n sender ctx (handle_message v p (resource_list n resources) ctx)
unfolding handle_message finish_request respond complete
handle_message-IsListing v p resources n sender ctx waits registry peers room =
    let named = (add_peer p ctx.aliases).1 in
    let (registered, here, there) = add_peer-IsRegistry p ctx.aliases registry peers in
    let (names, leads) =
      name_resources-Names resources named registered
        (omega (arith, room, add_peer-next_resource_id p ctx.aliases)) in
    let (listed, r) = name_resources resources named in
    let tracker = (complete n ctx.req_tracker).1 in
    let after : DaemonContext = record ctx {
      aliases = r;
      req_tracker = tracker;
      responses = ctx.responses ++ ((sender, Control.resource_list listed) ∷ []);
    } in
    let it : handle_message v p (resource_list n resources) ctx ≡ after = ground (arith, waits) in
    subst (IsListing resources n sender ctx) (sym it) (record {
      listed = listed;
      names = names;
      answered = refl;
      waits_no_more = ground (arith, lookup-remove n n ctx.req_tracker.pending_requests);
    })

-- The request fits the link.
list_resources-IsCarried : (n : ℕ) → IsU32 n → IsCarried (list_resources n)
unfolding frame_of payload_of is_handshake
list_resources-IsCarried n number = (number, refl, omega (arith, length-to_be_bytes 4 n))

-- What `ListResources` does for a known peer that is connected.
Asks : PeerId → ℕ → List Frame → DaemonContext → DaemonContext → Type 0
Asks p sender fs ctx ctx' =
    let n = ctx.req_tracker.next_id in
    Reaches p (fs ++ (frame_of (list_resources n) ∷ [])) ctx'.manager
    × (lookup n ctx'.req_tracker.pending_requests ≡ some sender)
    × (ctx'.aliases ≡ ctx.aliases)
    × (ctx'.responses ≡ ctx.responses)

handle_list_resources-Asks :
    (alias : List ℕ) (sender : ℕ) (p : PeerId) (fs : List Frame) (ctx : DaemonContext)
    → get_peer alias ctx.aliases ≡ some p
    → Reaches p fs ctx.manager
    → Asks p sender fs ctx (handle_list_resources alias sender ctx)
unfolding handle_list_resources begin_request take_id register Asks
handle_list_resources-Asks alias sender p fs ctx known reaches =
    let n = ctx.req_tracker.next_id in
    let (went, after) = send-Reaches p fs (list_resources n) ctx.manager reaches in
    let waiting = (begin_request sender ctx).1 in
    let it : handle_list_resources alias sender ctx
        ≡ record waiting { manager = (send p (list_resources n) ctx.manager).1 } =
      ground (arith, known) in
    subst (Asks p sender fs ctx) (sym it)
      (after, ground (arith, lookup-insert n n sender ctx.req_tracker.pending_requests), refl, refl)

-- A list of shared files goes from one node to another. `me` asks for it at a peer that it knows by a
-- short name and has a connection to; the peer has a connection back, and what it shares is in range
-- and fits one frame. Numbers and names are left at `me`, and each of its short names belongs to one
-- peer or resource. Then: the request goes into the channel to the peer, whose reader reports it;
-- the list goes into the channel back, and the reader of `me` reports it; and when the event loop of
-- `me` handles it, the request has been answered with exactly what the peer shares, in order, waits
-- no more, and the short name in each line leads to the resource of that line.
pub handle_list_resources-lists :
    (v w : Answers) (alias : List ℕ) (sender : ℕ) (me p : PeerId) (fs gs : List Frame)
    (ctx there : DaemonContext) (e f : Error)
    → get_peer alias ctx.aliases ≡ some p
    → IsU32 ctx.req_tracker.next_id
    → Reaches p fs ctx.manager
    → Reaches me gs there.manager
    → IsCarried (resource_list ctx.req_tracker.next_id (Store.list_resources there.store))
    → IsRegistry ctx.aliases
    → ctx.aliases.next_peer_id + 1 < 2 ^ 32
    → ctx.aliases.next_resource_id + length (Store.list_resources there.store) < 2 ^ 32
    → let n = ctx.req_tracker.next_id in
      let request = list_resources n in
      let reply = resource_list n (Store.list_resources there.store) in
      let asked = handle_list_resources alias sender ctx in
      let serving = handle_message v me request there in
      Reaches p (fs ++ (frame_of request ∷ [])) asked.manager
      × (start_read_loop me (record { bytes = wire_of (frame_of request ∷ []); ends = e })
          ≡ some (events me (request ∷ [])))
      × Reaches me (gs ++ (frame_of reply ∷ [])) serving.manager
      × (start_read_loop p (record { bytes = wire_of (frame_of reply ∷ []); ends = f })
          ≡ some (events p (reply ∷ [])))
      × IsListing (Store.list_resources there.store) n sender asked (handle_message w p reply asked)
unfolding handle_message Asks
handle_list_resources-lists v w alias sender me p fs gs ctx there e f known number reaches back
      carried registry peers room =
    let n = ctx.req_tracker.next_id in
    let shared = Store.list_resources there.store in
    let asked = handle_list_resources alias sender ctx in
    let (sent, waits, same, quiet) =
      handle_list_resources-Asks alias sender p fs ctx known reaches in
    (
      sent,
      start_read_loop-wire_of me (list_resources n ∷ []) e (list_resources-IsCarried n number, tt),
      (send-Reaches me gs (resource_list n shared) there.manager back).1,
      start_read_loop-wire_of p (resource_list n shared ∷ []) f (carried, tt),
      handle_message-IsListing w p shared n sender asked waits
          (subst IsRegistry (sym same) registry)
          (subst (λ r. r.next_peer_id + 1 < 2 ^ 32) (sym same) peers)
          (subst (λ r. r.next_resource_id + length shared < 2 ^ 32) (sym same) room),
    )
