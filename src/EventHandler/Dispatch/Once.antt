-- ===== src/EventHandler/Dispatch/Once.antt =====
-- src/event_handler.rs: the requests and the answers of a channel, counted.
pub mod Events
use parsip.Base.{
  ℕ, suc, ◌+◌, ◌≤◌, ◌%◌, ◌^◌, ◌≡◌, refl, sym, subst, List, [], ◌∷◌, ◌++◌, Bool, ◌==◌, ◌&&◌, Option,
  none, some, Option-cases, Option-both, inl, inr, arith, if◌then◌else◌,
}
use parsip.Map.{HashMap, lookup, remove, insert, nat_key}
use parsip.Control.{ControlResponse, is_terminal}
use parsip.RequestTracker.{complete, take_id, register}
use parsip.EventHandler.{DaemonContext, respond, finish_request}
use parsip.EventHandler.Dispatch.{begin_request}

-- One, if the condition holds.
abbrev pub count_if : Bool → ℕ
count_if b = if b then 1 else 0

-- The requests that wait for an answer to the channel.
unfoldable pub waiting : ℕ → HashMap ℕ ℕ → ℕ
waiting s [] = 0
waiting s ((id, x) ∷ m) = count_if (x == s) + waiting s m

-- The answers to the channel after which a request is over.
unfoldable pub answered : ℕ → List (ℕ × ControlResponse) → ℕ
answered s [] = 0
answered s ((x, r) ∷ rs) = count_if (x == s && is_terminal r) + answered s rs

unfoldable pub total : ℕ → DaemonContext → ℕ
total s ctx = waiting s ctx.req_tracker.pending_requests + answered s ctx.responses

found : ℕ → Option ℕ → ℕ
found s none = 0
found s (some x) = count_if (x == s)

waiting-remove :
    (s k : ℕ) (m : HashMap ℕ ℕ) → waiting s (remove k m) + found s (lookup k m) ≤ waiting s m
unfolding waiting remove lookup found
waiting-remove s k [] = omega arith
waiting-remove s k ((id, x) ∷ m) = ground (arith, waiting-remove s k m)

answered-append :
    (s x : ℕ) (r : ControlResponse) (rs : List (ℕ × ControlResponse))
    → answered s (rs ++ ((x, r) ∷ [])) ≡ answered s rs + count_if (x == s && is_terminal r)
unfolding answered
answered-append s x r [] = omega arith
answered-append s x r ((y, q) ∷ rs) = omega (arith, answered-append s x r rs)

-- What touches neither.
pub kept-total :
    (s b : ℕ) (ctx ctx' : DaemonContext)
    → ctx'.req_tracker ≡ ctx.req_tracker
    → ctx'.responses ≡ ctx.responses
    → total s ctx ≤ b
    → total s ctx' ≤ b
unfolding total
kept-total s b ctx ctx' e f h = ground (arith, e, f, h)

pub respond-total :
    (s b x : ℕ) (r : ControlResponse) (ctx : DaemonContext)
    → total s ctx ≤ b
    → total s (respond x r ctx) ≤ b + count_if (x == s && is_terminal r)
unfolding total respond
respond-total s b x r ctx h = omega (arith, h, answered-append s x r ctx.responses)

-- An answer takes the place of the request that waited.
pub finish_request-total :
    (s b id : ℕ) (r : ControlResponse) (ctx : DaemonContext)
    → total s ctx ≤ b
    → total s (finish_request id r ctx) ≤ b
unfolding total finish_request respond complete found
finish_request-total s b id r ctx h =
    let pending = ctx.req_tracker.pending_requests in
    elim (Option-cases (lookup id pending)) [
      | inl e ↦ ground (arith, e, h, waiting-remove s id pending)
      | inr (x, e) ↦
          ground (arith, e, h, waiting-remove s id pending, answered-append s x r ctx.responses)
    ]

pub begin_request-total :
    (s b x : ℕ) (ctx : DaemonContext)
    → total s ctx ≤ b
    → total s (begin_request x ctx).1 ≤ b + count_if (x == s)
unfolding total begin_request take_id register insert waiting
begin_request-total s b x ctx h =
    omega (arith, h, waiting-remove s ctx.req_tracker.next_id ctx.req_tracker.pending_requests)
