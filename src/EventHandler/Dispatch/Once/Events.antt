-- ===== src/EventHandler/Dispatch/Once/Events.antt =====
-- src/event_handler.rs: what each event adds to the requests and the answers of a channel.
use parsip.Base.{
  ℕ, ◌+◌, ◌≤◌, ◌≡◌, refl, subst, ap, List, [], ◌∷◌, ◌==◌, some, Option-cases, Option-both,
  some_injective, inl, inr, arith,
}
use parsip.Map.{values}
use parsip.Identity.{PeerId, peer_key}
use parsip.Io.{Error, Result, ok, err}
use parsip.Protocol.{ResourceId, ResourceInfo}
use parsip.Control.{
  ControlMessage, ControlResponse, F64, download_progress, is_terminal, scan, connect, list_peers,
  get_resource,
}
use parsip.Control as Commands
use parsip.Peer.{PeerEvent, control_request}
use parsip.AliasRegistry as Aliases
use parsip.Resource.Store as Store
use parsip.Discovery.Broadcast.{broadcast_scan}
use parsip.EventHandler.{DaemonContext, Answers, respond}
use parsip.EventHandler.Dispatch.Survive.{survive_lem}
use parsip.EventHandler.Dispatch.{
  ControlAnswers, begin_request, after_broadcast, handle_scan, find_discovered, handle_connect,
  handle_list_peers, handle_list_resources, after_start, begin_download, handle_get_resource,
  after_hash, expand_home, handle_add_resource, handle_control, handle_event, event_loop,
}
use parsip.EventHandler.Dispatch.Kept.{handle_event-kept}
use parsip.EventHandler.Dispatch.Once.{
  total, answered, waiting, count_if, kept-total, respond-total, finish_request-total,
  begin_request-total,
}

-- The requests through a channel.
unfoldable pub asked : ℕ → PeerEvent → ℕ
asked s (control_request cmd x) = count_if (x == s)
asked s _ = 0

module _ (s b x : ℕ) where
  -- At most as much as before, and this request.
  unfoldable pub Fits : DaemonContext → Type 0
  Fits ctx = total s ctx ≤ b + count_if (x == s)

  respond-Fits :
      (r : ControlResponse) (ctx : DaemonContext) → total s ctx ≤ b → Fits (respond x r ctx)
  unfolding Fits
  respond-Fits r ctx h = ground (arith, respond-total s b x r ctx h)

  kept-Fits :
      (ctx ctx' : DaemonContext)
      → ctx'.req_tracker ≡ ctx.req_tracker
      → ctx'.responses ≡ ctx.responses
      → Fits ctx
      → Fits ctx'
  unfolding Fits
  kept-Fits ctx ctx' e f h = kept-total s (b + count_if (x == s)) ctx ctx' e f h

  begun-Fits : (ctx : DaemonContext) → total s ctx ≤ b → Fits (begin_request x ctx).1
  unfolding Fits
  begun-Fits ctx h = begin_request-total s b x ctx h

  after_broadcast-Fits :
      (id : ℕ) (result : Result (Unit {0}) Error) (ctx : DaemonContext)
      → Fits ctx
      → Fits (after_broadcast id result ctx)
  unfolding after_broadcast Fits
  after_broadcast-Fits id (ok u) ctx h = kept-total s _ ctx _ refl refl h
  after_broadcast-Fits id (err e) ctx h = finish_request-total s _ id _ ctx h

  handle_scan-Fits :
      (w : ControlAnswers) (ctx : DaemonContext) → total s ctx ≤ b → Fits (handle_scan w x ctx)
  unfolding handle_scan begin_request
  handle_scan-Fits w ctx h =
      let cleared = record ctx { aliases = record ctx.aliases { discovered_peers = [] } } in
      after_broadcast-Fits _ (broadcast_scan w.socket w.trie w.route ctx.node).0 _
        (kept-Fits _ _ refl refl (begun-Fits cleared (kept-total s b ctx cleared refl refl h)))

  handle_connect-Fits :
      (alias : List ℕ) (ctx : DaemonContext) → total s ctx ≤ b → Fits (handle_connect alias x ctx)
  unfolding handle_connect begin_request
  handle_connect-Fits alias ctx h =
      Option-both Fits (find_discovered alias (values ctx.aliases.discovered_peers)) _ _
        (respond-Fits _ ctx h) (λ info. kept-Fits _ _ refl refl (begun-Fits ctx h))

  handle_list_resources-Fits :
      (alias : List ℕ) (ctx : DaemonContext)
      → total s ctx ≤ b
      → Fits (handle_list_resources alias x ctx)
  unfolding handle_list_resources begin_request
  handle_list_resources-Fits alias ctx h =
      Option-both Fits (Aliases.get_peer alias ctx.aliases) _ _ (respond-Fits _ ctx h)
        (λ p. kept-Fits _ _ refl refl (begun-Fits ctx h))

  after_start-Fits :
      (w : ControlAnswers) (p : PeerId) (id : ResourceId) (info : ResourceInfo)
      (result : Result (Unit {0}) Error) (ctx : DaemonContext)
      → total s ctx ≤ b
      → Fits (after_start w p id info x result ctx)
  unfolding after_start begin_request
  after_start-Fits w p id info (err e) ctx h = respond-Fits _ ctx h
  after_start-Fits w p id info (ok u) ctx h = kept-Fits _ _ refl refl (begun-Fits ctx h)

  handle_get_resource-Fits :
      (w : ControlAnswers) (peer_alias resource_alias : List ℕ) (ctx : DaemonContext)
      → total s ctx ≤ b
      → Fits (handle_get_resource w peer_alias resource_alias x ctx)
  unfolding handle_get_resource begin_download
  handle_get_resource-Fits w peer_alias resource_alias ctx h =
      Option-both Fits (Aliases.get_peer peer_alias ctx.aliases) _ _ (respond-Fits _ ctx h) (λ p.
        Option-both Fits (Aliases.get_resource resource_alias ctx.aliases) _ _
          (respond-Fits _ ctx h)
          (λ id.
            Option-both Fits (Aliases.get_info id ctx.aliases) _ _ (respond-Fits _ ctx h)
              (λ info. after_start-Fits w p id info _ _ (kept-total s b ctx _ refl refl h))))

  after_hash-Fits :
      (result : Result (ResourceId × ResourceInfo) Error) (ctx : DaemonContext)
      → total s ctx ≤ b
      → Fits (after_hash x result ctx)
  unfolding after_hash
  after_hash-Fits (err e) ctx h = respond-Fits _ ctx h
  after_hash-Fits (ok (id, info)) ctx h = respond-Fits _ _ (kept-total s b ctx _ refl refl h)

  pub handle_control-Fits :
      (w : ControlAnswers) (cmd : ControlMessage) (ctx ctx' : DaemonContext)
      → total s ctx ≤ b
      → handle_control w cmd x ctx ≡ some ctx'
      → Fits ctx'
  unfolding handle_control handle_list_peers handle_add_resource
  handle_control-Fits w scan ctx ctx' h e =
      subst Fits (survive_lem w.call_panics _ ctx' e) (handle_scan-Fits w ctx h)
  handle_control-Fits w (connect alias) ctx ctx' h e =
      subst Fits (survive_lem w.call_panics _ ctx' e) (handle_connect-Fits alias ctx h)
  handle_control-Fits w list_peers ctx ctx' h e =
      subst Fits (some_injective _ ctx' e) (respond-Fits _ ctx h)
  handle_control-Fits w (Commands.list_resources alias) ctx ctx' h e =
      subst Fits (some_injective _ ctx' e) (handle_list_resources-Fits alias ctx h)
  handle_control-Fits w (get_resource alias name) ctx ctx' h e =
      subst Fits (survive_lem w.call_panics _ ctx' e) (handle_get_resource-Fits w alias name ctx h)
  handle_control-Fits w (Commands.add_resource path) ctx ctx' h e =
      let p = expand_home w.home path in
      elim (Option-cases (Store.add_resource w.digests p (w.opened p) ctx.store)) [
        | inl f ↦ absurd (ground (arith, e, f))
        | inr ((result, store), f) ↦
            let same : after_hash x result (record ctx { store = store }) ≡ ctx' =
              ground (arith, e, f) in
            subst Fits same (after_hash-Fits result _ (kept-total s b ctx _ refl refl h))
      ]

-- Progress is no last answer.
reported-total :
    (s b x bytes all : ℕ) (mbps : F64) (ctx : DaemonContext)
    → total s ctx ≤ b
    → total s (respond x (download_progress bytes all mbps) ctx) ≤ b
unfolding is_terminal
reported-total s b x bytes all mbps ctx h =
    ground (arith, respond-total s b x (download_progress bytes all mbps) ctx h)

handle_event-total :
    (s : ℕ) (w : Answers) (c : ControlAnswers) (event : PeerEvent) (ctx ctx' : DaemonContext)
    → handle_event w c event ctx ≡ some ctx'
    → total s ctx' ≤ total s ctx + asked s event
unfolding Fits asked
handle_event-total s w c event ctx ctx' e =
    let b = total s ctx + asked s event in
    handle_event-kept (λ x. total s x ≤ b) (kept-total s b)
      (λ id r x t. finish_request-total s b id r x) (reported-total s b) w c event ctx ctx'
      (λ cmd x is taken.
        let fits = handle_control-Fits s (total s ctx) x c cmd ctx ctx' (omega arith) taken in
        ground (arith, fits, ap (asked s) is))
      (omega arith) e

unfoldable pub all_asked : ℕ → List (PeerEvent × Answers × ControlAnswers) → ℕ
all_asked s [] = 0
all_asked s ((event, w, c) ∷ events) = asked s event + all_asked s events

event_loop-total :
    (s : ℕ) (events : List (PeerEvent × Answers × ControlAnswers)) (ctx ctx' : DaemonContext)
    → event_loop events ctx ≡ some ctx'
    → total s ctx' ≤ total s ctx + all_asked s events
unfolding event_loop all_asked
event_loop-total s [] ctx ctx' e =
    subst (λ x. total s x ≤ total s ctx + 0) (some_injective ctx ctx' e) (omega arith)
event_loop-total s ((event, w, c) ∷ events) ctx ctx' e =
    elim (Option-cases (handle_event w c event ctx)) [
      | inl f ↦ absurd (ground (arith, e, f))
      | inr (next, f) ↦ omega (
        arith,
        handle_event-total s w c event ctx next f,
        event_loop-total s events next ctx' (ground (arith, e, f)),
      )
    ]

-- Whatever the peers, the threads and the command line send, as long as the daemon survives it: the
-- answers that end a request and went to a channel, and the requests that wait for one, are no more
-- than they were before and the requests that came through this channel since.
pub event_loop-answered :
    (s : ℕ) (events : List (PeerEvent × Answers × ControlAnswers)) (ctx ctx' : DaemonContext)
    → event_loop events ctx ≡ some ctx'
    → waiting s ctx'.req_tracker.pending_requests + answered s ctx'.responses
      ≤ waiting s ctx.req_tracker.pending_requests + answered s ctx.responses + all_asked s events
unfolding total
event_loop-answered s events ctx ctx' e = event_loop-total s events ctx ctx' e
