-- ===== src/EventHandler/Dispatch/Served.antt =====
-- src/event_handler.rs: what a request of the command line leads to at once.
use parsip.Base.{
  ℕ, ℕ_discrete, ◌+◌, ◌≤◌, ◌^◌, ◌%◌, ◌≡◌, ◌≢◌, refl, subst, ◌⊎◌, inl, inr, List, [], ◌∷◌, ◌++◌,
  true, none, some, Option-cases, Option-both, some_injective, ap, ◌∙◌, arith,
}
use parsip.AliasRegistry as Aliases
use parsip.Identity.{PeerId, peer_key}
use parsip.Protocol.{ResourceId, ResourceInfo}
use parsip.Text.{text}
use parsip.Map.{values, lookup, lookup-insert, lookup-remove, nat_key}
use parsip.Io.{Error, Result, ok, err}
use parsip.Control.{
  ControlMessage, ControlResponse, is_terminal, error, resource_added, scan, connect, list_peers,
  list_resources, get_resource, add_resource,
}
use parsip.RequestTracker.{RequestTracker, take_id, register, complete}
use parsip.Discovery.Broadcast.{broadcast_scan}
use parsip.Resource.Store as Store
use parsip.EventHandler.{DaemonContext, respond, finish_request}
use parsip.EventHandler.Dispatch.Survive.{survive_lem}
use parsip.EventHandler.Dispatch.{
  ControlAnswers, handle_control, begin_request, handle_scan, handle_connect, handle_list_peers,
  handle_list_resources, handle_get_resource, handle_add_resource, begin_download, expand_home,
  after_broadcast, after_start, after_hash, find_discovered, unknown_peer,
}

-- No request waits under a number that has not been given out.
unfoldable pub IsFresh : RequestTracker → Type 0
IsFresh t = (id : ℕ) → t.next_id ≤ id → lookup id t.pending_requests ≡ none

-- One answer, after which the request is over, went to the channel.
unfoldable pub IsAnswered : ℕ → DaemonContext → DaemonContext → Type 0
IsAnswered sender ctx ctx' =
    (r : ControlResponse) × (is_terminal r ≡ true)
    × (ctx'.responses ≡ ctx.responses ++ ((sender, r) ∷ []))
    × ((id : ℕ)
        → lookup id ctx'.req_tracker.pending_requests ≡ lookup id ctx.req_tracker.pending_requests)
    × ((ctx'.req_tracker.next_id ≡ ctx.req_tracker.next_id)
        ⊎ (ctx'.req_tracker.next_id ≡ (ctx.req_tracker.next_id + 1) % 2 ^ 32))

-- Nothing was answered, and the channel waits under the next number, the others as before.
unfoldable pub IsRegistered : ℕ → DaemonContext → DaemonContext → Type 0
IsRegistered sender ctx ctx' =
    (ctx'.responses ≡ ctx.responses)
    × (lookup ctx.req_tracker.next_id ctx'.req_tracker.pending_requests ≡ some sender)
    × ((id : ℕ)
        → id ≢ ctx.req_tracker.next_id
        → lookup id ctx'.req_tracker.pending_requests ≡ lookup id ctx.req_tracker.pending_requests)
    × (ctx'.req_tracker.next_id ≡ (ctx.req_tracker.next_id + 1) % 2 ^ 32)

-- Either of them.
unfoldable pub IsTaken : ℕ → DaemonContext → DaemonContext → Type 0
unfolding IsAnswered IsRegistered
IsTaken sender ctx ctx' = IsAnswered sender ctx ctx' ⊎ IsRegistered sender ctx ctx'

respond-IsTaken :
    (sender : ℕ) (r : ControlResponse) (ctx ctx' : DaemonContext)
    → is_terminal r ≡ true
    → ctx'.responses ≡ ctx.responses
    → ctx'.req_tracker ≡ ctx.req_tracker
    → IsTaken sender ctx (respond sender r ctx')
unfolding IsTaken IsAnswered respond
respond-IsTaken sender r ctx ctx' t e f =
    inl (r, t, ground (arith, e), λ id. ground (arith, f), inl (ap (λ t. t.next_id) f))

begin_request-IsRegistered :
    (sender : ℕ) (ctx : DaemonContext) → IsRegistered sender ctx (begin_request sender ctx).1
unfolding IsRegistered begin_request take_id register
begin_request-IsRegistered sender ctx =
    let t = ctx.req_tracker in
    (
      refl,
      ground (arith, lookup-insert t.next_id t.next_id sender t.pending_requests),
      λ id ne. ground (arith, ne, lookup-insert t.next_id id sender t.pending_requests),
      refl,
    )

-- A request that fails at once is answered, and no longer waits.
finish_request-IsTaken :
    (sender : ℕ) (r : ControlResponse) (ctx ctx' : DaemonContext)
    → is_terminal r ≡ true
    → IsFresh ctx.req_tracker
    → IsRegistered sender ctx ctx'
    → IsTaken sender ctx (finish_request ctx.req_tracker.next_id r ctx')
unfolding IsTaken IsAnswered IsRegistered IsFresh finish_request respond complete
finish_request-IsTaken sender r ctx ctx' t fresh (same, waits, others, next) =
    let n = ctx.req_tracker.next_id in
    inl (
      r,
      t,
      ground (arith, same, waits),
      λ id. elim (ℕ_discrete id n) [
        | yes e ↦ ground (
          arith,
          e,
          waits,
          fresh n (omega arith),
          lookup-remove n id ctx'.req_tracker.pending_requests,
        )
        | no ne ↦
            ground
              (arith, ne, waits, others id ne, lookup-remove n id ctx'.req_tracker.pending_requests)
      ],
      inr (ground (arith, next, waits)),
    )

after_broadcast-IsTaken :
    (sender : ℕ) (result : Result (Unit {0}) Error) (ctx ctx' : DaemonContext)
    → IsFresh ctx.req_tracker
    → IsRegistered sender ctx ctx'
    → IsTaken sender ctx (after_broadcast ctx.req_tracker.next_id result ctx')
unfolding after_broadcast IsTaken IsRegistered is_terminal
after_broadcast-IsTaken sender (ok u) ctx ctx' fresh v = inr v
after_broadcast-IsTaken sender (err e) ctx ctx' fresh v =
    finish_request-IsTaken sender (error (text "Failed to broadcast: " ++ e.message)) ctx ctx' refl
      fresh v

pub handle_scan-IsTaken :
    (w : ControlAnswers) (sender : ℕ) (ctx : DaemonContext)
    → IsFresh ctx.req_tracker
    → IsTaken sender ctx (handle_scan w sender ctx)
unfolding handle_scan IsRegistered begin_request take_id
handle_scan-IsTaken w sender ctx fresh =
    let (result, datagrams) = broadcast_scan w.socket w.trie w.route ctx.node in
    let waiting =
      (begin_request sender
        (record ctx { aliases = record ctx.aliases { discovered_peers = [] } })).1 in
    after_broadcast-IsTaken sender result ctx
      (record waiting { datagrams = waiting.datagrams ++ datagrams }) fresh
      (begin_request-IsRegistered sender ctx)

handle_connect-IsTaken :
    (alias : List ℕ) (sender : ℕ) (ctx : DaemonContext)
    → IsTaken sender ctx (handle_connect alias sender ctx)
unfolding handle_connect IsTaken IsRegistered is_terminal unknown_peer
handle_connect-IsTaken alias sender ctx =
    Option-both (IsTaken sender ctx) (find_discovered alias (values ctx.aliases.discovered_peers)) _
      _ (respond-IsTaken sender (unknown_peer alias) ctx ctx refl refl refl)
      (λ info. inr (begin_request-IsRegistered sender ctx))

handle_list_resources-IsTaken :
    (alias : List ℕ) (sender : ℕ) (ctx : DaemonContext)
    → IsTaken sender ctx (handle_list_resources alias sender ctx)
unfolding handle_list_resources IsTaken IsRegistered is_terminal unknown_peer
handle_list_resources-IsTaken alias sender ctx =
    Option-both (IsTaken sender ctx) (Aliases.get_peer alias ctx.aliases) _ _
      (respond-IsTaken sender (unknown_peer alias) ctx ctx refl refl refl)
      (λ p. inr (begin_request-IsRegistered sender ctx))

after_start-IsTaken :
    (w : ControlAnswers) (peer_id : PeerId) (res_id : ResourceId) (info : ResourceInfo) (sender : ℕ)
    (result : Result (Unit {0}) Error) (ctx ctx' : DaemonContext)
    → ctx'.responses ≡ ctx.responses
    → ctx'.req_tracker ≡ ctx.req_tracker
    → IsTaken sender ctx (after_start w peer_id res_id info sender result ctx')
unfolding after_start IsTaken IsRegistered is_terminal
after_start-IsTaken w peer_id res_id info sender (err x) ctx ctx' e f =
    respond-IsTaken sender (error (text "Failed to start download")) ctx ctx' refl e f
after_start-IsTaken w peer_id res_id info sender (ok u) ctx ctx' e f =
    let (same, waits, others, next) = begin_request-IsRegistered sender ctx' in
    inr (
      ground (arith, e, same),
      ground (arith, f, waits),
      λ id ne.
          others id (λ x. ne (x ∙ ap (λ t. t.next_id) f))
          ∙ ap (λ t. lookup id t.pending_requests) f,
      next ∙ ap (λ t. (t.next_id + 1) % 2 ^ 32) f,
    )

handle_get_resource-IsTaken :
    (w : ControlAnswers) (peer_alias resource_alias : List ℕ) (sender : ℕ) (ctx : DaemonContext)
    → IsTaken sender ctx (handle_get_resource w peer_alias resource_alias sender ctx)
unfolding handle_get_resource begin_download is_terminal unknown_peer
handle_get_resource-IsTaken w peer_alias resource_alias sender ctx =
    Option-both (IsTaken sender ctx) (Aliases.get_peer peer_alias ctx.aliases) _ _
      (respond-IsTaken sender (unknown_peer peer_alias) ctx ctx refl refl refl)
      (λ p.
        Option-both (IsTaken sender ctx) (Aliases.get_resource resource_alias ctx.aliases) _ _
          (respond-IsTaken sender _ ctx ctx refl refl refl)
          (λ id.
            Option-both (IsTaken sender ctx) (Aliases.get_info id ctx.aliases) _ _
              (respond-IsTaken sender _ ctx ctx refl refl refl)
              (λ info. after_start-IsTaken w p id info sender _ ctx _ refl refl)))

after_hash-IsTaken :
    (sender : ℕ) (result : Result (ResourceId × ResourceInfo) Error) (ctx ctx' : DaemonContext)
    → ctx'.responses ≡ ctx.responses
    → ctx'.req_tracker ≡ ctx.req_tracker
    → IsTaken sender ctx (after_hash sender result ctx')
unfolding after_hash is_terminal
after_hash-IsTaken sender (err x) ctx ctx' e f =
    respond-IsTaken sender (error x.message) ctx ctx' refl e f
after_hash-IsTaken sender (ok (id, info)) ctx ctx' e f =
    let (alias, r) = Aliases.add_resource id ctx'.aliases in
    respond-IsTaken sender (resource_added alias id) ctx (record ctx' { aliases = r }) refl e f

handle_add_resource-IsTaken :
    (w : ControlAnswers) (path : List ℕ) (sender : ℕ) (ctx ctx' : DaemonContext)
    → handle_add_resource w path sender ctx ≡ some ctx'
    → IsTaken sender ctx ctx'
unfolding handle_add_resource
handle_add_resource-IsTaken w path sender ctx ctx' e =
    let p = expand_home w.home path in
    elim (Option-cases (Store.add_resource w.digests p (w.opened p) ctx.store)) [
      | inl f ↦ absurd (ground (arith, e, f))
      | inr ((result, store), f) ↦
          let same : after_hash sender result (record ctx { store = store }) ≡ ctx' =
            ground (arith, e, f) in
          subst (IsTaken sender ctx) same
            (after_hash-IsTaken sender result ctx (record ctx { store = store }) refl refl)
    ]

-- A request of the command line that does not make the daemon panic, where no request waits under a
-- number not given out yet, is answered at once, with one answer after which it is over, or it waits
-- for one under the next number; what waits under the other numbers stays as it is.
pub handle_control-IsTaken :
    (w : ControlAnswers) (cmd : ControlMessage) (sender : ℕ) (ctx ctx' : DaemonContext)
    → IsFresh ctx.req_tracker
    → handle_control w cmd sender ctx ≡ some ctx'
    → IsTaken sender ctx ctx'
unfolding handle_control handle_list_peers is_terminal
handle_control-IsTaken w scan sender ctx ctx' fresh e =
    subst (IsTaken sender ctx) (survive_lem w.call_panics _ ctx' e)
      (handle_scan-IsTaken w sender ctx fresh)
handle_control-IsTaken w (connect alias) sender ctx ctx' fresh e =
    subst (IsTaken sender ctx) (survive_lem w.call_panics _ ctx' e)
      (handle_connect-IsTaken alias sender ctx)
handle_control-IsTaken w list_peers sender ctx ctx' fresh e =
    subst (IsTaken sender ctx) (some_injective _ ctx' e)
      (respond-IsTaken sender _ ctx ctx refl refl refl)
handle_control-IsTaken w (list_resources alias) sender ctx ctx' fresh e =
    subst (IsTaken sender ctx) (some_injective _ ctx' e)
      (handle_list_resources-IsTaken alias sender ctx)
handle_control-IsTaken w (get_resource alias name) sender ctx ctx' fresh e =
    subst (IsTaken sender ctx) (survive_lem w.call_panics _ ctx' e)
      (handle_get_resource-IsTaken w alias name sender ctx)
handle_control-IsTaken w (add_resource path) sender ctx ctx' fresh e =
    handle_add_resource-IsTaken w path sender ctx ctx' e
