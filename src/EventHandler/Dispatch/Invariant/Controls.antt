-- ===== src/EventHandler/Dispatch/Invariant/Controls.antt =====
-- src/event_handler.rs: how many numbers and names a request of the command line uses up.
use parsip.Base.{
  ℕ, ◌≡◌, refl, subst, List, [], some, Option-both, Option-cases, some_injective, inl, inr, arith,
}
use parsip.Io.{Error, Result, ok, err}
use parsip.Map.{values, nat_key}
use parsip.Identity.{PeerId, peer_key}
use parsip.Protocol.{ResourceId, ResourceInfo}
use parsip.Control.{ControlMessage, ControlResponse, scan, connect, list_peers, get_resource}
use parsip.Control as Commands
use parsip.AliasRegistry as Aliases
use parsip.RequestTracker as Requests
use parsip.Resource.Store as Store
use parsip.EventHandler.{DaemonContext, respond}
use parsip.EventHandler.Dispatch.Survive.{survive_lem}
use parsip.EventHandler.Dispatch.{
  ControlAnswers, handle_control, begin_request, after_broadcast, handle_scan, handle_connect,
  handle_list_peers, handle_list_resources, handle_get_resource, begin_download, after_start,
  after_hash, handle_add_resource, find_discovered, expand_home,
}
use parsip.Discovery.Broadcast.{broadcast_scan}
use parsip.EventHandler.Dispatch.Invariant.Room.{
  Within, carry, kept, same-Within, add_resource-Named, finish_request-Within,
}

begin_request-Within :
    (sender : ℕ) (ctx ctx' : DaemonContext)
    → Within 0 ctx ctx'
    → Within 1 ctx (begin_request sender ctx').1
unfolding begin_request Requests.take_id Requests.register
begin_request-Within sender ctx ctx' v =
    let (peers, resources) = v.names in
    let numbers = v.numbers in
    record {
      names = (omega (arith, peers), omega (arith, resources));
      numbers = omega (arith, numbers);
    }

after_broadcast-Within :
    (id : ℕ) (result : Result (Unit {0}) Error) (ctx ctx' : DaemonContext)
    → Within 1 ctx ctx'
    → Within 1 ctx (after_broadcast id result ctx')
unfolding after_broadcast
after_broadcast-Within id (ok u) ctx ctx' v = carry 1 ctx ctx' _ refl refl v
after_broadcast-Within id (err e) ctx ctx' v = finish_request-Within 1 id _ ctx ctx' v

handle_scan-Within :
    (w : ControlAnswers) (sender : ℕ) (ctx : DaemonContext)
    → Within 1 ctx (handle_scan w sender ctx)
unfolding handle_scan
handle_scan-Within w sender ctx =
    let cleared = record ctx { aliases = record ctx.aliases { discovered_peers = [] } } in
    let waiting =
      begin_request-Within sender ctx cleared
        (record { names = (omega arith, omega arith); numbers = omega arith }) in
    let (result, datagrams) = broadcast_scan w.socket w.trie w.route ctx.node in
    after_broadcast-Within _ result ctx _
      (carry 1 ctx (begin_request sender cleared).1 _ refl refl waiting)

respond-Within :
    (sender : ℕ) (r : ControlResponse) (ctx ctx' : DaemonContext)
    → Within 1 ctx ctx'
    → Within 1 ctx (respond sender r ctx')
unfolding respond
respond-Within sender r ctx ctx' v = carry 1 ctx ctx' _ refl refl v

handle_connect-Within :
    (alias : List ℕ) (sender : ℕ) (ctx : DaemonContext)
    → Within 1 ctx (handle_connect alias sender ctx)
unfolding handle_connect
handle_connect-Within alias sender ctx =
    let waiting = begin_request-Within sender ctx ctx (same-Within 0 ctx) in
    Option-both (Within 1 ctx) (find_discovered alias (values ctx.aliases.discovered_peers)) _ _
      (respond-Within sender _ ctx ctx (same-Within 1 ctx))
      (λ info. carry 1 ctx (begin_request sender ctx).1 _ refl refl waiting)

handle_list_resources-Within :
    (alias : List ℕ) (sender : ℕ) (ctx : DaemonContext)
    → Within 1 ctx (handle_list_resources alias sender ctx)
unfolding handle_list_resources
handle_list_resources-Within alias sender ctx =
    let waiting = begin_request-Within sender ctx ctx (same-Within 0 ctx) in
    Option-both (Within 1 ctx) (Aliases.get_peer alias ctx.aliases) _ _
      (respond-Within sender _ ctx ctx (same-Within 1 ctx))
      (λ p. carry 1 ctx (begin_request sender ctx).1 _ refl refl waiting)

after_start-Within :
    (w : ControlAnswers) (p : PeerId) (id : ResourceId) (info : ResourceInfo) (sender : ℕ)
    (result : Result (Unit {0}) Error) (ctx ctx' : DaemonContext)
    → Within 0 ctx ctx'
    → Within 1 ctx (after_start w p id info sender result ctx')
unfolding after_start
after_start-Within w p id info sender (err e) ctx ctx' v =
    let (peers, resources) = v.names in
    let numbers = v.numbers in
    respond-Within sender _ ctx ctx' (record {
      names = (omega (arith, peers), omega (arith, resources));
      numbers = omega (arith, numbers);
    })
after_start-Within w p id info sender (ok u) ctx ctx' v =
    carry 1 ctx (begin_request sender ctx').1 _ refl refl (begin_request-Within sender ctx ctx' v)

handle_get_resource-Within :
    (w : ControlAnswers) (peer_alias resource_alias : List ℕ) (sender : ℕ) (ctx : DaemonContext)
    → Within 1 ctx (handle_get_resource w peer_alias resource_alias sender ctx)
unfolding handle_get_resource begin_download
handle_get_resource-Within w peer_alias resource_alias sender ctx =
    let P = Within 1 ctx in
    let refused : (r : ControlResponse) → P (respond sender r ctx) =
      λ r. respond-Within sender r ctx ctx (same-Within 1 ctx) in
    Option-both P (Aliases.get_peer peer_alias ctx.aliases) _ _ (refused _) (λ p.
      Option-both P (Aliases.get_resource resource_alias ctx.aliases) _ _ (refused _) (λ id.
        Option-both P (Aliases.get_info id ctx.aliases) _ _ (refused _)
          (λ info. after_start-Within w p id info sender _ ctx _ (kept 0 ctx _ refl refl))))

after_hash-Within :
    (sender : ℕ) (result : Result (ResourceId × ResourceInfo) Error) (ctx ctx' : DaemonContext)
    → Within 0 ctx ctx'
    → Within 1 ctx (after_hash sender result ctx')
unfolding after_hash
after_hash-Within sender (err e) ctx ctx' v =
    let (peers, resources) = v.names in
    let numbers = v.numbers in
    respond-Within sender _ ctx ctx' (record {
      names = (omega (arith, peers), omega (arith, resources));
      numbers = omega (arith, numbers);
    })
after_hash-Within sender (ok (id, info)) ctx ctx' v =
    let (peers, resources) = v.names in
    let numbers = v.numbers in
    let (p, r) = add_resource-Named id ctx'.aliases in
    respond-Within sender _ ctx _ (record {
      names = (omega (arith, peers, p), omega (arith, resources, r));
      numbers = omega (arith, numbers);
    })

handle_add_resource-Within :
    (w : ControlAnswers) (path : List ℕ) (sender : ℕ) (ctx ctx' : DaemonContext)
    → handle_add_resource w path sender ctx ≡ some ctx'
    → Within 1 ctx ctx'
unfolding handle_add_resource
handle_add_resource-Within w path sender ctx ctx' e =
    let p = expand_home w.home path in
    elim (Option-cases (Store.add_resource w.digests p (w.opened p) ctx.store)) [
      | inl f ↦ absurd (ground (arith, e, f))
      | inr ((result, store), f) ↦
          let same : after_hash sender result (record ctx { store = store }) ≡ ctx' =
            ground (arith, e, f) in
          subst (Within 1 ctx) same (
            after_hash-Within sender result ctx (record ctx { store = store })
              (kept 0 ctx _ refl refl))
    ]

pub handle_control-Within :
    (w : ControlAnswers) (cmd : ControlMessage) (sender : ℕ) (ctx ctx' : DaemonContext)
    → handle_control w cmd sender ctx ≡ some ctx'
    → Within 1 ctx ctx'
unfolding handle_control handle_list_peers
handle_control-Within w scan sender ctx ctx' e =
    subst (Within 1 ctx) (survive_lem w.call_panics _ ctx' e) (handle_scan-Within w sender ctx)
handle_control-Within w (connect alias) sender ctx ctx' e =
    subst (Within 1 ctx) (survive_lem w.call_panics _ ctx' e)
      (handle_connect-Within alias sender ctx)
handle_control-Within w list_peers sender ctx ctx' e =
    subst (Within 1 ctx) (some_injective _ ctx' e)
      (respond-Within sender _ ctx ctx (same-Within 1 ctx))
handle_control-Within w (Commands.list_resources alias) sender ctx ctx' e =
    subst (Within 1 ctx) (some_injective _ ctx' e) (handle_list_resources-Within alias sender ctx)
handle_control-Within w (get_resource p r) sender ctx ctx' e =
    subst (Within 1 ctx) (survive_lem w.call_panics _ ctx' e)
      (handle_get_resource-Within w p r sender ctx)
handle_control-Within w (Commands.add_resource path) sender ctx ctx' e =
    handle_add_resource-Within w path sender ctx ctx' e
