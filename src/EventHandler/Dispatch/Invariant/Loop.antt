-- ===== src/EventHandler/Dispatch/Invariant/Loop.antt =====
-- src/event_handler.rs and src/daemon/mod.rs: the state of the daemon over any number of events.
use parsip.Base.{
  ℕ, All, ◌+◌, ◌≡◌, refl, subst, List, [], ◌∷◌, Option, none, some, Option-cases, some_injective,
  inl, inr, arith,
}
use parsip.Io.{ok, err}
use parsip.Map.{nat_key}
use parsip.Identity.{peer_key}
use parsip.Peer.{
  PeerEvent, new_connection, disconnected, message, discovered, control_request, scan_timeout,
  connect_result,
}
use parsip.Resource.Transfer.{cancel_for_peer}
use parsip.ConnectionManager.{ConnectionManager}
use parsip.ConnectionManager.Index.{IsLinked}
use parsip.EventHandler.{
  DaemonContext, Answers, handle_disconnected, handle_new_connection, handle_scan_timeout,
  handle_connect_result,
}
use parsip.EventHandler.Dispatch.Survive.{survive_lem}
use parsip.EventHandler.Dispatch.{ControlAnswers, handle_event}
use parsip.EventHandler.Dispatch.Invariant.{IsDaemon}
use parsip.EventHandler.Dispatch.Invariant.Requests.{HasRoom}
use parsip.EventHandler.Dispatch.Invariant.Events.{weight, handle_event-IsDaemon}
use parsip.EventHandler.Dispatch.Invariant.Controls.{handle_control-Within}
use parsip.EventHandler.Dispatch.Invariant.Room.{
  Within, kept, same-Within, add_peer-Named, finish_request-Within, cancel_transfers-Within,
  handle_message-Within, handle_discovered-Within,
}

handle_event-Within :
    (w : Answers) (c : ControlAnswers) (event : PeerEvent) (ctx ctx' : DaemonContext)
    → handle_event w c event ctx ≡ some ctx'
    → Within (weight event) ctx ctx'
unfolding handle_event handle_scan_timeout handle_new_connection handle_connect_result
    handle_disconnected
handle_event-Within w c (control_request cmd s) ctx ctx' e =
    handle_control-Within c cmd s ctx ctx' e
handle_event-Within w c (discovered p addr nickname) ctx ctx' e =
    subst (Within 1 ctx) (survive_lem w.call_panics _ ctx' e)
      (handle_discovered-Within p addr nickname ctx)
handle_event-Within w c (new_connection p) ctx ctx' e =
    subst (Within 1 ctx) (survive_lem w.call_panics _ ctx' e)
      (record { names = add_peer-Named p ctx.aliases; numbers = omega arith })
handle_event-Within w c (disconnected p) ctx ctx' e =
    let (cancelled, m) = cancel_for_peer p ctx.transfer_mgr in
    subst (Within 1 ctx) (survive_lem w.call_panics _ ctx' e) (
      cancel_transfers-Within _ cancelled ctx (record ctx { transfer_mgr = m })
        (kept 1 ctx _ refl refl))
handle_event-Within w c (message p m) ctx ctx' e =
    subst (Within (weight (message p m)) ctx) (survive_lem w.call_panics _ ctx' e)
      (handle_message-Within w p m ctx)
handle_event-Within w c (scan_timeout n) ctx ctx' e =
    subst (Within 1 ctx) (some_injective _ ctx' e)
      (finish_request-Within 1 n _ ctx ctx (same-Within 1 ctx))
handle_event-Within w c (connect_result n (ok p)) ctx ctx' e =
    subst (Within 1 ctx) (some_injective _ ctx' e)
      (finish_request-Within 1 n _ ctx ctx (same-Within 1 ctx))
handle_event-Within w c (connect_result n (err x)) ctx ctx' e =
    subst (Within 1 ctx) (some_injective _ ctx' e)
      (finish_request-Within 1 n _ ctx ctx (same-Within 1 ctx))

-- An event, the table of connections at the time when it is handled, since other threads change it
-- too, and what its surroundings answer to it.
abbrev pub Turn : Type 0
Turn = ConnectionManager × PeerEvent × Answers × ControlAnswers

-- src/daemon/mod.rs: the loop over the events, while other threads accept, dial, read and remove.
unfoldable pub take_turns : List Turn → DaemonContext → Option DaemonContext
take_turns [] ctx = some ctx
take_turns ((m, event, w, c) ∷ turns) ctx =
    elim (handle_event w c event (record ctx { manager = m })) [
      | none ↦ none
      | some ctx' ↦ take_turns turns ctx'
    ]

-- How many numbers and names the events may use up.
unfoldable pub total : List Turn → ℕ
total [] = 0
total ((m, event, w, c) ∷ turns) = weight event + total turns

Within-HasRoom :
    (k n : ℕ) (ctx ctx' : DaemonContext) → Within k ctx ctx' → HasRoom (k + n) ctx → HasRoom n ctx'
Within-HasRoom k n ctx ctx' v h =
    let (peers, resources) = v.names in
    let numbers = v.numbers in
    let a = h.peers in
    let b = h.resources in
    let c = h.requests in
    record {
      peers = omega (arith, peers, a);
      resources = omega (arith, resources, b);
      requests = omega (arith, numbers, c);
    }

weight-HasRoom : (k n : ℕ) (ctx : DaemonContext) → HasRoom (k + n) ctx → HasRoom k ctx
weight-HasRoom k n ctx h =
    let a = h.peers in
    let b = h.resources in
    let c = h.requests in
    record { peers = omega (arith, a); resources = omega (arith, b); requests = omega (arith, c) }

with_table :
    (ctx : DaemonContext) (m : ConnectionManager)
    → IsLinked m
    → IsDaemon ctx
    → IsDaemon (record ctx { manager = m })
with_table ctx m linked v = record {
  names = v.names;
  keyed = v.keyed;
  index = v.index;
  fresh = v.fresh;
  linked = linked;
}

with_room :
    (n : ℕ) (ctx : DaemonContext) (m : ConnectionManager)
    → HasRoom n ctx
    → HasRoom n (record ctx { manager = m })
with_room n ctx m h = record { peers = h.peers; resources = h.resources; requests = h.requests }

-- While numbers and names are left for what all the events together may use up, and the other threads
-- leave index and table in step: the state is well-formed after the events if it was before.
pub take_turns-IsDaemon :
    (turns : List Turn) (ctx ctx' : DaemonContext)
    → HasRoom (total turns) ctx
    → All (λ t. IsLinked t.0) turns
    → IsDaemon ctx
    → take_turns turns ctx ≡ some ctx'
    → IsDaemon ctx'
unfolding take_turns total
take_turns-IsDaemon [] ctx ctx' h t v e = subst IsDaemon (some_injective ctx ctx' e) v
take_turns-IsDaemon ((m, event, w, c) ∷ turns) ctx ctx' h (linked, ts) v e =
    let before = record ctx { manager = m } in
    let room = with_room (weight event + total turns) ctx m h in
    elim (Option-cases (handle_event w c event before)) [
      | inl f ↦ absurd (ground (arith, e, f))
      | inr (next, f) ↦
          let used = handle_event-Within w c event before next f in
          take_turns-IsDaemon turns next ctx'
            (Within-HasRoom (weight event) (total turns) before next used room) ts
            (handle_event-IsDaemon w c event before next
              (weight-HasRoom (weight event) (total turns) before room) (with_table ctx m linked v)
              f)
            (ground (arith, e, f))
    ]
