-- ===== src/EventHandler/Dispatch/Liveness.antt =====
-- src/event_handler.rs: the requests that wait for a thread, and the reports of the threads.
use parsip.Base.{
  ℕ, suc, ◌+◌, ◌<◌, ◌^◌, ◌≡◌, refl, List, [], ◌∷◌, ◌⊎◌, inl, inr, true, some, Option-cases,
  Option-both, Among-append, Among-last, sym, ap, ◌∙◌, some_injective, subst, Among, length, arith,
}
use parsip.Map.{lookup, lookup-insert, nat_key}
use parsip.Identity.{PeerId}
use parsip.Io.{Error, Result, ok, err}
use parsip.Control.{ControlResponse, is_terminal}
use parsip.Peer.{PeerEvent, scan_timeout, connect_result}
use parsip.RequestTracker.{complete, take_id, register}
use parsip.EventHandler.{
  DaemonContext, Answers, respond, finish_request, handle_scan_timeout, handle_connect_result,
}
use parsip.EventHandler.Dispatch.{
  ControlAnswers, handle_event, event_loop, handle_scan, handle_control, after_broadcast,
  begin_request,
}
use parsip.Discovery.Broadcast.{broadcast_scan}
use parsip.EventHandler.Dispatch.Served.{IsFresh, handle_scan-IsTaken}
use parsip.EventHandler.Dispatch.Serving.{IsServed, IsServing, IsTaken-start}
use parsip.EventHandler.Dispatch.Serving.Events.{handle_event-IsServing}

event_loop-IsServing :
    (id sender : ℕ) (events : List (PeerEvent × Answers × ControlAnswers))
    (ctx ctx' : DaemonContext)
    → IsServing id sender (length events) ctx
    → event_loop events ctx ≡ some ctx'
    → IsServing id sender 0 ctx'
unfolding event_loop
event_loop-IsServing id sender [] ctx ctx' v e =
    subst (IsServing id sender 0) (some_injective ctx ctx' e) v
event_loop-IsServing id sender ((event, w, c) ∷ events) ctx ctx' v e =
    elim (Option-cases (handle_event w c event ctx)) [
      | inl f ↦ absurd (ground (arith, e, f))
      | inr (next, f) ↦
          event_loop-IsServing id sender events next ctx'
            (handle_event-IsServing id sender (length events) w c event ctx next v f)
            (ground (arith, e, f))
    ]

-- What the channel of a request got in the end.
abbrev pub IsDone : ℕ → DaemonContext → Type 0
IsDone sender ctx = (r : ControlResponse) × (is_terminal r ≡ true) × Among (sender, r) ctx.responses

finish_request-IsDone :
    (id sender : ℕ) (r : ControlResponse) (ctx : DaemonContext)
    → is_terminal r ≡ true
    → IsServed id sender ctx
    → IsDone sender (finish_request id r ctx)
unfolding IsServed finish_request complete respond
finish_request-IsDone id sender r ctx t (inl waits) =
    let same : finish_request id r ctx
        ≡ respond sender r (record ctx { req_tracker = (complete id ctx.req_tracker).1 }) =
      ground (arith, waits) in
    subst (IsDone sender) (sym same) (r, t, Among-last (sender, r) ctx.responses)
finish_request-IsDone id sender r ctx t (inr (r', t', h)) =
    Option-both (IsDone sender) (lookup id ctx.req_tracker.pending_requests) _ _ (r', t', h)
      (λ s. (r', t', Among-append (sender, r') ctx.responses _ h))

-- The reports of the threads that a scan and an attempt to connect start.
unfoldable pub IsReport : ℕ → PeerEvent → Type 0
IsReport id event =
    (event ≡ scan_timeout id) ⊎ ((r : Result PeerId (List ℕ)) × (event ≡ connect_result id r))

report-IsDone :
    (id sender : ℕ) (w : Answers) (c : ControlAnswers) (event : PeerEvent)
    (ctx ctx' : DaemonContext)
    → IsServed id sender ctx
    → IsReport id event
    → handle_event w c event ctx ≡ some ctx'
    → IsDone sender ctx'
unfolding handle_event handle_scan_timeout handle_connect_result IsReport is_terminal
report-IsDone id sender w c event ctx ctx' v (inl e) f =
    subst (IsDone sender) (some_injective _ ctx' (ap (λ x. handle_event w c x ctx) (sym e) ∙ f))
      (finish_request-IsDone id sender _ ctx refl v)
report-IsDone id sender w c event ctx ctx' v (inr (ok p, e)) f =
    subst (IsDone sender) (some_injective _ ctx' (ap (λ x. handle_event w c x ctx) (sym e) ∙ f))
      (finish_request-IsDone id sender _ ctx refl v)
report-IsDone id sender w c event ctx ctx' v (inr (err x, e)) f =
    subst (IsDone sender) (some_injective _ ctx' (ap (λ x. handle_event w c x ctx) (sym e) ∙ f))
      (finish_request-IsDone id sender _ ctx refl v)

-- A request that has been taken under a number is answered, whatever happens in between, as long as the
-- daemon survives it and the report, once the thread that it started reports under this number;
-- numbers are left for the requests in between.
pub event_loop-IsDone :
    (id sender : ℕ) (events : List (PeerEvent × Answers × ControlAnswers)) (w : Answers)
    (c : ControlAnswers) (event : PeerEvent) (ctx ctx' ctx'' : DaemonContext)
    → IsServing id sender (length events) ctx
    → event_loop events ctx ≡ some ctx'
    → IsReport id event
    → handle_event w c event ctx' ≡ some ctx''
    → IsDone sender ctx''
event_loop-IsDone id sender events w c event ctx ctx' ctx'' v e report f =
    report-IsDone id sender w c event ctx' ctx''
      (event_loop-IsServing id sender events ctx ctx' v e).served report f

after_broadcast-timer :
    (id sender : ℕ) (result : Result (Unit {0}) Error) (ctx : DaemonContext)
    → IsServed id sender ctx
    → IsDone sender (after_broadcast id result ctx)
      ⊎ Among id (after_broadcast id result ctx).timers
unfolding after_broadcast is_terminal
after_broadcast-timer id sender (ok u) ctx v = inr (Among-last id ctx.timers)
after_broadcast-timer id sender (err e) ctx v = inl (finish_request-IsDone id sender _ ctx refl v)

handle_scan-timer :
    (w : ControlAnswers) (sender : ℕ) (ctx : DaemonContext)
    → IsDone sender (handle_scan w sender ctx)
      ⊎ Among ctx.req_tracker.next_id (handle_scan w sender ctx).timers
unfolding handle_scan begin_request take_id register IsServed
handle_scan-timer w sender ctx =
    let n = ctx.req_tracker.next_id in
    after_broadcast-timer n sender (broadcast_scan w.socket w.trie w.route ctx.node).0 _
      (inl (ground (arith, lookup-insert n n sender ctx.req_tracker.pending_requests)))

-- Where no request waits under a number not given out yet, and numbers are left for a scan and the
-- requests after it: a scan has been answered already, or a thread waits for its end; and when this
-- thread reports, whatever happened in between that the daemon survived, the scan has been answered.
pub handle_scan-IsDone :
    (w : ControlAnswers) (sender : ℕ) (ctx : DaemonContext)
    (events : List (PeerEvent × Answers × ControlAnswers)) (ctx' : DaemonContext)
    → IsFresh ctx.req_tracker
    → ctx.req_tracker.next_id + suc (length events) < 2 ^ 32
    → event_loop events (handle_scan w sender ctx) ≡ some ctx'
    → (IsDone sender (handle_scan w sender ctx)
        ⊎ Among ctx.req_tracker.next_id (handle_scan w sender ctx).timers)
      × IsDone sender (handle_scan_timeout ctx.req_tracker.next_id ctx')
unfolding handle_scan_timeout handle_control is_terminal
handle_scan-IsDone w sender ctx events ctx' fresh room e =
    let served =
      (event_loop-IsServing ctx.req_tracker.next_id sender events _ ctx'
        (IsTaken-start sender (length events) ctx (handle_scan w sender ctx) fresh room
          (handle_scan-IsTaken w sender ctx fresh))
        e).served in
    (
      handle_scan-timer w sender ctx,
      finish_request-IsDone ctx.req_tracker.next_id sender _ ctx' refl served,
    )
