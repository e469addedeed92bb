-- ===== src/RequestTracker.antt =====
-- src/request_tracker.rs: the requests of the command line that wait for an answer. A sender is the
-- number of its channel.
use parsip.Base.{ℕ, ◌+◌, ◌%◌, ◌^◌, [], Option}
use parsip.Map.{HashMap, lookup, insert, remove, nat_key}

pub record RequestTracker : Type 0 where
  pub next_id : ℕ
  pub pending_requests : HashMap ℕ ℕ

unfoldable pub new : RequestTracker
new = record { next_id = 1; pending_requests = [] }

-- `fetch_add` on an `AtomicU32` wraps around.
unfoldable pub take_id : RequestTracker → ℕ × RequestTracker
take_id t = (t.next_id, record t { next_id = (t.next_id + 1) % 2 ^ 32 })

unfoldable pub register : ℕ → ℕ → RequestTracker → RequestTracker
register request_id sender t = record t {
  pending_requests = insert request_id sender t.pending_requests;
}

unfoldable pub get : ℕ → RequestTracker → Option ℕ
get request_id t = lookup request_id t.pending_requests

unfoldable pub complete : ℕ → RequestTracker → Option ℕ × RequestTracker
complete request_id t = (
  lookup request_id t.pending_requests,
  record t { pending_requests = remove request_id t.pending_requests },
)
