-- ===== src/EventHandler/Dispatch/Serving.antt =====
-- src/event_handler.rs: what becomes of a request while the event loop runs.
pub mod Events
use parsip.Base.{
  ℕ, ℕ_discrete, suc, ◌+◌, ◌<◌, ◌≤◌, ◌^◌, ◌≡◌, refl, sym, subst, ◌⊎◌, inl, inr, List, [], ◌∷◌, ◌++◌,
  true, none, some, Option-cases, length, Option-both, some_injective, ap, ◌∙◌, Among, Among-append,
  Among-last, arith,
}
use parsip.Identity.{PeerId, peer_key}
use parsip.Protocol.{ResourceId}
use parsip.Map.{lookup, lookup-remove, nat_key}
use parsip.Io.{ok, err, Result-both}
use parsip.Control.{SocketAddr, ControlResponse, is_terminal}
use parsip.RequestTracker.{complete, get}
use parsip.Resource.Transfer.{Transfer}
use parsip.AliasRegistry.{add_peer}
use parsip.Resource.Download.{process_chunk, complete_download}
use parsip.Resource.Transfer.{update_progress}
use parsip.Resource.Transfer as Transfers
use parsip.Resource.Store as Store
use parsip.Protocol.{
  Message, list_resources, resource_list, download_resource, resource_chunk, resource_end, hello,
  hello_proof,
}
use parsip.Peer.{
  PeerEvent, new_connection, disconnected, message, discovered, control_request, scan_timeout,
  connect_result,
}
use parsip.EventHandler.{
  DaemonContext, Answers, respond, finish_request, cancel_transfers, cancel_transfer,
  transfer_failed, handle_disconnected, handle_discovered, handle_chunk, handle_end, handle_message,
  handle_scan_timeout, handle_connect_result, handle_new_connection,
}
use parsip.EventHandler.Dispatch.Served.{
  IsFresh, IsTaken, IsAnswered, IsRegistered, handle_control-IsTaken,
}
use parsip.EventHandler.Dispatch.{ControlAnswers, handle_event}

-- What the request under the number `id`, which came through the channel `sender`, has got: it
-- waits, or an answer after which it is over went to its channel.
unfoldable pub IsServed : ℕ → ℕ → DaemonContext → Type 0
IsServed id sender ctx =
    (lookup id ctx.req_tracker.pending_requests ≡ some sender)
    ⊎ ((r : ControlResponse) × (is_terminal r ≡ true) × Among (sender, r) ctx.responses)

-- The request waits or is over, numbers are left for `k` more requests, and none waits under a number
-- that has not been given out.
pub record IsServing (id sender k : ℕ) (ctx : DaemonContext) : Type 0 where
  pub room : ctx.req_tracker.next_id + k < 2 ^ 32
  pub fresh : IsFresh ctx.req_tracker
  pub served : IsServed id sender ctx

-- Answers only add to what a channel got.
grown-IsServed :
    (id sender : ℕ) (ctx ctx' : DaemonContext) (more : List (ℕ × ControlResponse))
    → ctx'.responses ≡ ctx.responses ++ more
    → lookup id ctx'.req_tracker.pending_requests ≡ lookup id ctx.req_tracker.pending_requests
    → IsServed id sender ctx
    → IsServed id sender ctx'
unfolding IsServed
grown-IsServed id sender ctx ctx' more e f (inl waits) = inl (f ∙ waits)
grown-IsServed id sender ctx ctx' more e f (inr (r, t, h)) =
    inr (r, t, subst (Among (sender, r)) (sym e) (Among-append (sender, r) ctx.responses more h))

-- What does not touch the tracker or the answers.
pub carry :
    (id sender k : ℕ) (ctx ctx' : DaemonContext)
    → ctx'.req_tracker ≡ ctx.req_tracker
    → ctx'.responses ≡ ctx.responses
    → IsServing id sender k ctx
    → IsServing id sender k ctx'
unfolding IsServed
carry id sender k ctx ctx' e f v = record {
  room = subst (λ t. t.next_id + k < 2 ^ 32) (sym e) v.room;
  fresh = subst IsFresh (sym e) v.fresh;
  served = elim v.served [
    | inl waits ↦ inl (ap (λ t. lookup id t.pending_requests) e ∙ waits)
    | inr (r, t, h) ↦ inr (r, t, subst (Among (sender, r)) (sym f) h)
  ];
}

pub respond-IsServing :
    (id sender k s : ℕ) (r : ControlResponse) (ctx : DaemonContext)
    → IsServing id sender k ctx
    → IsServing id sender k (respond s r ctx)
unfolding respond IsFresh
respond-IsServing id sender k s r ctx v = record {
  room = v.room;
  fresh = v.fresh;
  served = grown-IsServed id sender ctx (respond s r ctx) ((s, r) ∷ []) refl refl v.served;
}

-- The tracker without one request.
forget : ℕ → DaemonContext → DaemonContext
forget j ctx = record ctx { req_tracker = (complete j ctx.req_tracker).1 }

pub finish_request-IsServing :
    (id sender k j : ℕ) (r : ControlResponse) (ctx : DaemonContext)
    → is_terminal r ≡ true
    → IsServing id sender k ctx
    → IsServing id sender k (finish_request j r ctx)
unfolding finish_request complete respond IsFresh IsServed forget
finish_request-IsServing id sender k j r ctx t v =
    let fresh : IsFresh (forget j ctx).req_tracker =
      λ i h. ground (arith, v.fresh i h, lookup-remove j i ctx.req_tracker.pending_requests) in
    let left = forget j ctx in
    elim (Option-cases (lookup j ctx.req_tracker.pending_requests)) [
      | inl nobody ↦
          let same : finish_request j r ctx ≡ left = ground (arith, nobody) in
          subst (IsServing id sender k) (sym same) (record {
            room = v.room;
            fresh = fresh;
            served = elim v.served [
              | inl waits ↦ inl (
                  ground
                    (arith, waits, nobody, lookup-remove j id ctx.req_tracker.pending_requests))
              | inr answered ↦ inr answered
            ];
          })
      | inr (s, found) ↦
          let same : finish_request j r ctx ≡ respond s r left = ground (arith, found) in
          subst (IsServing id sender k) (sym same) (record {
            room = v.room;
            fresh = fresh;
            served = elim v.served [
              | inr (r', t', h) ↦ inr (r', t', Among-append (sender, r') ctx.responses _ h)
              | inl waits ↦ elim (ℕ_discrete j id) [
                | no ne ↦
                    inl (
                      ground
                        (arith, ne, waits, lookup-remove j id ctx.req_tracker.pending_requests))
                | yes e ↦
                    let its : s ≡ sender = ground (arith, e, waits, found) in
                    inr (
                      r,
                      t,
                      subst (λ x. Among (x, r) (ctx.responses ++ ((s, r) ∷ []))) its
                          (Among-last (s, r) ctx.responses),
                    )
              ]
            ];
          })
    ]

-- The channel of a request that has just been taken.
pub IsTaken-start :
    (sender k : ℕ) (ctx ctx' : DaemonContext)
    → IsFresh ctx.req_tracker
    → ctx.req_tracker.next_id + suc k < 2 ^ 32
    → IsTaken sender ctx ctx'
    → IsServing ctx.req_tracker.next_id sender k ctx'
unfolding IsTaken IsAnswered IsRegistered IsFresh IsServed
IsTaken-start sender k ctx ctx' fresh bound (inl (r, t, e, others, next)) =
    let above : ctx.req_tracker.next_id ≤ ctx'.req_tracker.next_id = ground (arith, bound, next) in
    record {
      room = ground (arith, bound, next);
      fresh = λ i h. others i ∙ fresh i (omega (arith, above, h));
      served = inr (r, t, subst (Among (sender, r)) (sym e) (Among-last (sender, r) ctx.responses));
    }
IsTaken-start sender k ctx ctx' fresh bound (inr (e, waits, others, next)) =
    let above : ctx'.req_tracker.next_id ≡ ctx.req_tracker.next_id + 1 =
      ground (arith, bound, next) in
    record {
      room = omega (arith, bound, above);
      fresh = λ i h. others i (omega (arith, above, h)) ∙ fresh i (omega (arith, above, h));
      served = inl waits;
    }

some-none : (x : ℕ) → some x ≡ none → ⊥
some-none x e = ground (arith, e)

-- A step of the control requests.
pub IsTaken-IsServing :
    (id sender k s : ℕ) (ctx ctx' : DaemonContext)
    → IsTaken s ctx ctx'
    → IsServing id sender (suc k) ctx
    → IsServing id sender k ctx'
unfolding IsTaken IsAnswered IsRegistered IsFresh IsServed
IsTaken-IsServing id sender k s ctx ctx' (inl (r, t, e, others, next)) v =
    let bound : ctx.req_tracker.next_id + suc k < 2 ^ 32 = v.room in
    let above : ctx.req_tracker.next_id ≤ ctx'.req_tracker.next_id = ground (arith, bound, next) in
    record {
      room = ground (arith, bound, next);
      fresh = λ i h. others i ∙ v.fresh i (omega (arith, above, h));
      served = grown-IsServed id sender ctx ctx' ((s, r) ∷ []) e (others id) v.served;
    }
IsTaken-IsServing id sender k s ctx ctx' (inr (e, waits, others, next)) v =
    let bound : ctx.req_tracker.next_id + suc k < 2 ^ 32 = v.room in
    let above : ctx'.req_tracker.next_id ≡ ctx.req_tracker.next_id + 1 =
      ground (arith, bound, next) in
    record {
      room = omega (arith, bound, above);
      fresh = λ i h. others i (omega (arith, above, h)) ∙ v.fresh i (omega (arith, above, h));
      served = elim v.served [
        | inl old ↦
            inl (others id (λ n. some-none sender (sym old ∙ v.fresh id (omega (arith, n)))) ∙ old)
        | inr (r, t, h) ↦ inr (r, t, subst (Among (sender, r)) (sym e) h)
      ];
    }
