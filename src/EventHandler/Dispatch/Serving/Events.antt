-- ===== src/EventHandler/Dispatch/Serving/Events.antt =====
-- src/event_handler.rs: each event and a request that has been taken.
use parsip.Base.{ℕ, suc, ◌+◌, ◌<◌, ◌^◌, ◌≡◌, some, arith}
use parsip.Peer.{PeerEvent}
use parsip.EventHandler.{DaemonContext, Answers}
use parsip.EventHandler.Dispatch.{ControlAnswers, handle_event}
use parsip.EventHandler.Dispatch.Served.{handle_control-IsTaken}
use parsip.EventHandler.Dispatch.Kept.{handle_event-kept}
use parsip.EventHandler.Dispatch.Serving.{
  IsServing, carry, respond-IsServing, finish_request-IsServing, IsTaken-IsServing,
}

fewer :
    (id sender k : ℕ) (ctx : DaemonContext)
    → IsServing id sender (suc k) ctx
    → IsServing id sender k ctx
fewer id sender k ctx v =
    let room : ctx.req_tracker.next_id + suc k < 2 ^ 32 = v.room in
    record { room = omega arith; fresh = v.fresh; served = v.served }

-- While numbers are left for more requests, a request that has been taken waits or is answered
-- after each event, if this was so before.
pub handle_event-IsServing :
    (id sender k : ℕ) (w : Answers) (c : ControlAnswers) (event : PeerEvent)
    (ctx ctx' : DaemonContext)
    → IsServing id sender (suc k) ctx
    → handle_event w c event ctx ≡ some ctx'
    → IsServing id sender k ctx'
handle_event-IsServing id sender k w c event ctx ctx' v e =
    handle_event-kept (IsServing id sender k) (carry id sender k)
      (finish_request-IsServing id sender k)
      (λ s bytes total mbps x. respond-IsServing id sender k s _ x) w c event ctx ctx'
      (λ cmd s is taken.
        IsTaken-IsServing id sender k s ctx ctx'
          (handle_control-IsTaken c cmd s ctx ctx' v.fresh taken) v)
      (fewer id sender k ctx v) e
