-- ===== src/EventHandler/Dispatch/Invariant/Requests.antt =====
-- src/event_handler.rs: the requests of the command line and the daemon's state.
use parsip.Base.{
  ℕ, ◌+◌, ◌%◌, ◌<◌, ◌^◌, ◌≡◌, refl, subst, List, some, Option-both, Option-cases, some_injective,
  inl, inr, arith,
}
use parsip.Map.{values, lookup-insert, nat_key}
use parsip.Identity.{PeerId, peer_key}
use parsip.Io.{Error, Result, ok, err}
use parsip.Protocol.{Message, ResourceId, ResourceInfo}
use parsip.Control.{
  ControlMessage, ControlResponse, SocketAddr, scan, connect, list_peers, get_resource,
}
use parsip.Control as Commands
use parsip.AliasRegistry as Aliases
use parsip.RequestTracker.{take_id, register}
use parsip.ConnectionManager.{send}
use parsip.ConnectionManager.Sent.{send-IsLinked}
use parsip.Resource.Transfer.Keyed.{operation-IsKeyed}
use parsip.Resource.Store.Content.{add_resource-IsIndex}
use parsip.Resource.Store as Store
use parsip.Discovery.Broadcast.{broadcast_scan}
use parsip.EventHandler.{DaemonContext, respond}
use parsip.EventHandler.Discover.{IsListed}
use parsip.EventHandler.Names.{shared-IsListed, cleared-IsListed}
use parsip.EventHandler.Dispatch.Survive.{survive_lem}
use parsip.EventHandler.Dispatch.{
  ControlAnswers, begin_request, after_broadcast, handle_scan, handle_connect, find_discovered,
  handle_list_peers, handle_list_resources, after_start, begin_download, handle_get_resource,
  after_hash, expand_home, handle_add_resource, handle_control,
}
use parsip.EventHandler.Dispatch.Served.{IsFresh}
use parsip.EventHandler.Dispatch.Invariant.{
  IsDaemon, carried, with_transfers, finish_request-IsDaemon,
}

-- Numbers and names are left for `n` more.
pub record HasRoom (n : ℕ) (ctx : DaemonContext) : Type 0 where
  pub peers : ctx.aliases.next_peer_id + n < 2 ^ 32
  pub resources : ctx.aliases.next_resource_id + n < 2 ^ 32
  pub requests : ctx.req_tracker.next_id + n < 2 ^ 32

pub with_names :
    (ctx : DaemonContext) (r : Aliases.AliasRegistry)
    → IsListed r
    → IsDaemon ctx
    → IsDaemon (record ctx { aliases = r })
with_names ctx r n v = record {
  names = n;
  keyed = v.keyed;
  index = v.index;
  fresh = v.fresh;
  linked = v.linked;
}

pub sent-IsDaemon :
    (p : PeerId) (m : Message) (ctx : DaemonContext)
    → IsDaemon ctx
    → IsDaemon (record ctx { manager = (send p m ctx.manager).1 })
sent-IsDaemon p m ctx v = record {
  names = v.names;
  keyed = v.keyed;
  index = v.index;
  fresh = v.fresh;
  linked = send-IsLinked p m ctx.manager v.linked;
}

begin_request-IsDaemon :
    (sender : ℕ) (ctx : DaemonContext)
    → ctx.req_tracker.next_id + 1 < 2 ^ 32
    → IsDaemon ctx
    → IsDaemon (begin_request sender ctx).1
unfolding begin_request take_id register IsFresh
begin_request-IsDaemon sender ctx h v = record {
  names = v.names;
  keyed = v.keyed;
  index = v.index;
  fresh =
      let n = ctx.req_tracker.next_id in
      let next : (n + 1) % 2 ^ 32 ≡ n + 1 = omega (arith, h) in
      let fresh = v.fresh in
      λ id le. ground (
        arith,
        next,
        fresh id (omega (arith, le, next)),
        lookup-insert n id sender ctx.req_tracker.pending_requests,
      );
  linked = v.linked;
}

after_broadcast-IsDaemon :
    (id : ℕ) (result : Result (Unit {0}) Error) (ctx : DaemonContext)
    → IsDaemon ctx
    → IsDaemon (after_broadcast id result ctx)
unfolding after_broadcast
after_broadcast-IsDaemon id (ok u) ctx v = carried ctx _ refl refl refl refl refl v
after_broadcast-IsDaemon id (err e) ctx v = finish_request-IsDaemon id _ ctx v

handle_scan-IsDaemon :
    (w : ControlAnswers) (sender : ℕ) (ctx : DaemonContext)
    → ctx.req_tracker.next_id + 1 < 2 ^ 32
    → IsDaemon ctx
    → IsDaemon (handle_scan w sender ctx)
unfolding handle_scan begin_request take_id
handle_scan-IsDaemon w sender ctx h v =
    let (result, datagrams) = broadcast_scan w.socket w.trie w.route ctx.node in
    let waiting =
      begin_request-IsDaemon sender _ h
        (with_names ctx _ (cleared-IsListed ctx.aliases v.names) v) in
    after_broadcast-IsDaemon ctx.req_tracker.next_id result _
      (carried _ _ refl refl refl refl refl waiting)

respond-IsDaemon :
    (sender : ℕ) (r : ControlResponse) (ctx : DaemonContext)
    → IsDaemon ctx
    → IsDaemon (respond sender r ctx)
unfolding respond
respond-IsDaemon sender r ctx v = carried ctx _ refl refl refl refl refl v

handle_connect-IsDaemon :
    (alias : List ℕ) (sender : ℕ) (ctx : DaemonContext)
    → ctx.req_tracker.next_id + 1 < 2 ^ 32
    → IsDaemon ctx
    → IsDaemon (handle_connect alias sender ctx)
unfolding handle_connect
handle_connect-IsDaemon alias sender ctx h v =
    Option-both IsDaemon (find_discovered alias (values ctx.aliases.discovered_peers)) _ _
      (respond-IsDaemon sender _ ctx v)
      (λ info. carried _ _ refl refl refl refl refl (begin_request-IsDaemon sender ctx h v))

handle_list_resources-IsDaemon :
    (alias : List ℕ) (sender : ℕ) (ctx : DaemonContext)
    → ctx.req_tracker.next_id + 1 < 2 ^ 32
    → IsDaemon ctx
    → IsDaemon (handle_list_resources alias sender ctx)
unfolding handle_list_resources
handle_list_resources-IsDaemon alias sender ctx h v =
    Option-both IsDaemon (Aliases.get_peer alias ctx.aliases) _ _ (respond-IsDaemon sender _ ctx v)
      (λ p. sent-IsDaemon p _ _ (begin_request-IsDaemon sender ctx h v))

after_start-IsDaemon :
    (w : ControlAnswers) (p : PeerId) (id : ResourceId) (info : ResourceInfo) (sender : ℕ)
    (result : Result (Unit {0}) Error) (ctx : DaemonContext)
    → ctx.req_tracker.next_id + 1 < 2 ^ 32
    → IsDaemon ctx
    → IsDaemon (after_start w p id info sender result ctx)
unfolding after_start begin_request
after_start-IsDaemon w p id info sender (err e) ctx h v = respond-IsDaemon sender _ ctx v
after_start-IsDaemon w p id info sender (ok u) ctx h v =
    let (registers, u, c, cancel) = operation-IsKeyed ctx.transfer_mgr v.keyed in
    with_transfers _ _ refl (registers _) refl refl refl
      (sent-IsDaemon p _ _ (begin_request-IsDaemon sender ctx h v))

handle_get_resource-IsDaemon :
    (w : ControlAnswers) (peer_alias resource_alias : List ℕ) (sender : ℕ) (ctx : DaemonContext)
    → ctx.req_tracker.next_id + 1 < 2 ^ 32
    → IsDaemon ctx
    → IsDaemon (handle_get_resource w peer_alias resource_alias sender ctx)
unfolding handle_get_resource begin_download
handle_get_resource-IsDaemon w peer_alias resource_alias sender ctx h v =
    Option-both IsDaemon (Aliases.get_peer peer_alias ctx.aliases) _ _
      (respond-IsDaemon sender _ ctx v)
      (λ p.
        Option-both IsDaemon (Aliases.get_resource resource_alias ctx.aliases) _ _
          (respond-IsDaemon sender _ ctx v)
          (λ id.
            Option-both IsDaemon (Aliases.get_info id ctx.aliases) _ _
              (respond-IsDaemon sender _ ctx v)
              (λ info.
                after_start-IsDaemon w p id info sender _ _ h
                  (carried ctx _ refl refl refl refl refl v))))

after_hash-IsDaemon :
    (sender : ℕ) (result : Result (ResourceId × ResourceInfo) Error) (ctx : DaemonContext)
    → ctx.aliases.next_resource_id + 1 < 2 ^ 32
    → IsDaemon ctx
    → IsDaemon (after_hash sender result ctx)
unfolding after_hash
after_hash-IsDaemon sender (err e) ctx h v = respond-IsDaemon sender _ ctx v
after_hash-IsDaemon sender (ok (id, info)) ctx h v =
    respond-IsDaemon sender _ _ (with_names ctx _ (shared-IsListed id ctx.aliases v.names h) v)

handle_add_resource-IsDaemon :
    (w : ControlAnswers) (path : List ℕ) (sender : ℕ) (ctx ctx' : DaemonContext)
    → ctx.aliases.next_resource_id + 1 < 2 ^ 32
    → IsDaemon ctx
    → handle_add_resource w path sender ctx ≡ some ctx'
    → IsDaemon ctx'
unfolding handle_add_resource
handle_add_resource-IsDaemon w path sender ctx ctx' h v e =
    let p = expand_home w.home path in
    elim (Option-cases (Store.add_resource w.digests p (w.opened p) ctx.store)) [
      | inl f ↦ absurd (ground (arith, e, f))
      | inr ((result, store), f) ↦
          let same : after_hash sender result (record ctx { store = store }) ≡ ctx' =
            ground (arith, e, f) in
          subst IsDaemon same (
            after_hash-IsDaemon sender result (record ctx { store = store }) h
              (record {
                names = v.names;
                keyed = v.keyed;
                index =
                    add_resource-IsIndex w.digests p (w.opened p) ctx.store store result v.index f;
                fresh = v.fresh;
                linked = v.linked;
              }))
    ]

pub handle_control-IsDaemon :
    (w : ControlAnswers) (cmd : ControlMessage) (sender : ℕ) (ctx ctx' : DaemonContext)
    → HasRoom 1 ctx
    → IsDaemon ctx
    → handle_control w cmd sender ctx ≡ some ctx'
    → IsDaemon ctx'
unfolding handle_control handle_list_peers
handle_control-IsDaemon w scan sender ctx ctx' h v e =
    subst IsDaemon (survive_lem w.call_panics _ ctx' e)
      (handle_scan-IsDaemon w sender ctx h.requests v)
handle_control-IsDaemon w (connect alias) sender ctx ctx' h v e =
    subst IsDaemon (survive_lem w.call_panics _ ctx' e)
      (handle_connect-IsDaemon alias sender ctx h.requests v)
handle_control-IsDaemon w list_peers sender ctx ctx' h v e =
    subst IsDaemon (some_injective _ ctx' e) (respond-IsDaemon sender _ ctx v)
handle_control-IsDaemon w (Commands.list_resources alias) sender ctx ctx' h v e =
    subst IsDaemon (some_injective _ ctx' e)
      (handle_list_resources-IsDaemon alias sender ctx h.requests v)
handle_control-IsDaemon w (get_resource alias name) sender ctx ctx' h v e =
    subst IsDaemon (survive_lem w.call_panics _ ctx' e)
      (handle_get_resource-IsDaemon w alias name sender ctx h.requests v)
handle_control-IsDaemon w (Commands.add_resource path) sender ctx ctx' h v e =
    handle_add_resource-IsDaemon w path sender ctx ctx' h.resources v e
