-- ===== src/EventHandler/Disconnect.antt =====
-- src/event_handler.rs: the transfers of a peer that has gone.
use parsip.Base.{
  ℕ, ℕ_discrete, ◌≡◌, ◌≢◌, refl, sym, ap, subst, ◌∙◌, List, [], ◌∷◌, ◌++◌, none, some, Option-cases,
  inl, inr, Among, arith,
}
use parsip.Map.{lookup, lookup-remove, nat_key}
use parsip.Identity.{PeerId}
use parsip.Control.{ControlResponse}
use parsip.Resource.Keys.{resource_key}
use parsip.Resource.Download.{cancel_download}
use parsip.Resource.Transfer.{Transfer, cancel_for_peer}
use parsip.Resource.Transfer.Keyed.{IsKeyed}
use parsip.Resource.Transfer.Cancel.{cancel_for_peer_lem, spared}
use parsip.RequestTracker as Requests
use parsip.EventHandler.{
  DaemonContext, respond, finish_request, transfer_failed, cancel_transfer, cancel_transfers,
  handle_disconnected,
}

-- No request waits under `request_id`, and nothing is downloaded for the resource.
record IsOver (t : Transfer) (ctx : DaemonContext) : Type 0 where
  pub no_request : lookup t.request_id ctx.req_tracker.pending_requests ≡ none
  pub no_download : lookup t.resource_id ctx.download_mgr.downloads ≡ none

cancel_transfer-IsOver :
    (alias : List ℕ) (t : Transfer) (ctx : DaemonContext) → IsOver t (cancel_transfer alias t ctx)
unfolding cancel_transfer finish_request respond cancel_download Requests.complete
cancel_transfer-IsOver alias t ctx = record {
  no_request =
      ground (arith, lookup-remove t.request_id t.request_id ctx.req_tracker.pending_requests);
  no_download =
      ground (arith, lookup-remove t.resource_id t.resource_id ctx.download_mgr.downloads);
}

cancel_transfer-stays :
    (alias : List ℕ) (t u : Transfer) (ctx : DaemonContext)
    → IsOver u ctx
    → IsOver u (cancel_transfer alias t ctx)
unfolding cancel_transfer finish_request respond cancel_download Requests.complete
cancel_transfer-stays alias t u ctx v = record {
  no_request = ground (
    arith,
    v.no_request,
    lookup-remove t.request_id u.request_id ctx.req_tracker.pending_requests,
  );
  no_download =
      ground (
        arith,
        v.no_download,
        lookup-remove t.resource_id u.resource_id ctx.download_mgr.downloads,
      );
}

cancel_transfers-stays :
    (alias : List ℕ) (ts : List Transfer) (u : Transfer) (ctx : DaemonContext)
    → IsOver u ctx
    → IsOver u (cancel_transfers alias ts ctx)
unfolding cancel_transfers
cancel_transfers-stays alias [] u ctx v = v
cancel_transfers-stays alias (t ∷ ts) u ctx v =
    cancel_transfers-stays alias ts u (cancel_transfer alias t ctx)
      (cancel_transfer-stays alias t u ctx v)

cancel_transfers-IsOver :
    (alias : List ℕ) (ts : List Transfer) (t : Transfer) (ctx : DaemonContext)
    → Among t ts
    → IsOver t (cancel_transfers alias ts ctx)
unfolding cancel_transfers
cancel_transfers-IsOver alias [] t ctx h = absurd h
cancel_transfers-IsOver alias (u ∷ ts) t ctx (inl e) =
    cancel_transfers-stays alias ts t (cancel_transfer alias u ctx) (
      subst (λ (x : Transfer). IsOver x (cancel_transfer alias u ctx)) e
        (cancel_transfer-IsOver alias u ctx))
cancel_transfers-IsOver alias (u ∷ ts) t ctx (inr h) =
    cancel_transfers-IsOver alias ts t (cancel_transfer alias u ctx) h

Among-left : {A : Type 0} (a : A) (xs ys : List A) → Among a xs → Among a (xs ++ ys)
Among-left a [] ys h = absurd h
Among-left a (x ∷ xs) ys (inl e) = inl e
Among-left a (x ∷ xs) ys (inr h) = inr (Among-left a xs ys h)

Among-last : {A : Type 0} (a : A) (xs : List A) → Among a (xs ++ (a ∷ []))
Among-last a [] = inl refl
Among-last a (x ∷ xs) = inr (Among-last a xs)

cancel_transfer-tells :
    (alias : List ℕ) (t : Transfer) (s : ℕ) (ctx : DaemonContext)
    → lookup t.request_id ctx.req_tracker.pending_requests ≡ some s
    → (cancel_transfer alias t ctx).responses ≡ ctx.responses ++ ((s, transfer_failed alias t) ∷ [])
unfolding cancel_transfer finish_request respond Requests.complete
cancel_transfer-tells alias t s ctx e = ground (arith, e)

cancel_transfer-grows :
    (alias : List ℕ) (u : Transfer) (a : ℕ × ControlResponse) (ctx : DaemonContext)
    → Among a ctx.responses
    → Among a (cancel_transfer alias u ctx).responses
unfolding cancel_transfer finish_request respond Requests.complete
cancel_transfer-grows alias u a ctx h =
    elim (Option-cases (lookup u.request_id ctx.req_tracker.pending_requests)) [
      | inl e ↦
          let quiet : (cancel_transfer alias u ctx).responses ≡ ctx.responses = ground (arith, e) in
          subst (Among a) (sym quiet) h
      | inr (s, e) ↦
          subst (Among a) (sym (cancel_transfer-tells alias u s ctx e))
            (Among-left a ctx.responses _ h)
    ]

cancel_transfers-grows :
    (alias : List ℕ) (ts : List Transfer) (a : ℕ × ControlResponse) (ctx : DaemonContext)
    → Among a ctx.responses
    → Among a (cancel_transfers alias ts ctx).responses
unfolding cancel_transfers
cancel_transfers-grows alias [] a ctx h = h
cancel_transfers-grows alias (t ∷ ts) a ctx h =
    cancel_transfers-grows alias ts a (cancel_transfer alias t ctx)
      (cancel_transfer-grows alias t a ctx h)

cancel_transfer-answers :
    (alias : List ℕ) (t : Transfer) (s : ℕ) (ctx : DaemonContext)
    → lookup t.request_id ctx.req_tracker.pending_requests ≡ some s
    → Among (s, transfer_failed alias t) (cancel_transfer alias t ctx).responses
cancel_transfer-answers alias t s ctx e =
    subst (Among (s, transfer_failed alias t)) (sym (cancel_transfer-tells alias t s ctx e))
      (Among-last (s, transfer_failed alias t) ctx.responses)

cancel_transfer-other :
    (alias : List ℕ) (u : Transfer) (id : ℕ) (ctx : DaemonContext)
    → u.request_id ≢ id
    → lookup id (cancel_transfer alias u ctx).req_tracker.pending_requests
      ≡ lookup id ctx.req_tracker.pending_requests
unfolding cancel_transfer finish_request respond Requests.complete
cancel_transfer-other alias u id ctx ne =
    ground (arith, ne, lookup-remove u.request_id id ctx.req_tracker.pending_requests)

cancel_transfers-answers :
    (alias : List ℕ) (ts : List Transfer) (t : Transfer) (s : ℕ) (ctx : DaemonContext)
    → ((u : Transfer) → Among u ts → u.request_id ≡ t.request_id → u ≡ t)
    → Among t ts
    → lookup t.request_id ctx.req_tracker.pending_requests ≡ some s
    → Among (s, transfer_failed alias t) (cancel_transfers alias ts ctx).responses
unfolding cancel_transfers
cancel_transfers-answers alias [] t s ctx same h e = absurd h
cancel_transfers-answers alias (u ∷ ts) t s ctx same h e =
    elim (ℕ_discrete u.request_id t.request_id) [
      | yes p ↦
          let here =
            subst
              (λ (x : Transfer).
                Among (s, transfer_failed alias t) (cancel_transfer alias x ctx).responses)
              (sym (same u (inl refl) p)) (cancel_transfer-answers alias t s ctx e) in
          cancel_transfers-grows alias ts _ (cancel_transfer alias u ctx) here
      | no p ↦
          let later : Among t ts = elim h [
            | inl q ↦ absurd (p (ap (λ (x : Transfer). x.request_id) q))
            | inr k ↦ k
          ] in
          cancel_transfers-answers alias ts t s (cancel_transfer alias u ctx)
            (λ v k q. same v (inr k) q) later (cancel_transfer-other alias u t.request_id ctx p ∙ e)
    ]

-- What the end of a peer's connection leaves of one of its transfers.
pub record IsCancelled (t : Transfer) (before after : DaemonContext) : Type 0 where
  pub no_transfer : lookup t.request_id after.transfer_mgr ≡ none
  pub no_request : lookup t.request_id after.req_tracker.pending_requests ≡ none
  pub no_download : lookup t.resource_id after.download_mgr.downloads ≡ none
  pub answered :
      (s : ℕ)
      → lookup t.request_id before.req_tracker.pending_requests ≡ some s
      → (alias : List ℕ) × Among (s, transfer_failed alias t) after.responses

cancel_transfers-transfer_mgr :
    (alias : List ℕ) (ts : List Transfer) (ctx : DaemonContext)
    → (cancel_transfers alias ts ctx).transfer_mgr ≡ ctx.transfer_mgr
unfolding cancel_transfers cancel_transfer finish_request respond
cancel_transfers-transfer_mgr alias [] ctx = refl
cancel_transfers-transfer_mgr alias (t ∷ ts) ctx =
    ground (arith, cancel_transfers-transfer_mgr alias ts (cancel_transfer alias t ctx))

cancel_transfers-IsCancelled :
    (p : PeerId) (ctx : DaemonContext) (t : Transfer)
    → IsKeyed ctx.transfer_mgr
    → lookup t.request_id ctx.transfer_mgr ≡ some t
    → t.peer_id ≡ p
    → (alias : List ℕ)
    → let (cancelled, m) = cancel_for_peer p ctx.transfer_mgr in
      IsCancelled t ctx (cancel_transfers alias cancelled (record ctx { transfer_mgr = m }))
unfolding spared
cancel_transfers-IsCancelled p ctx t k e q alias =
    let (left, lem) = cancel_for_peer_lem p ctx.transfer_mgr k in
    let (cancelled, m) = cancel_for_peer p ctx.transfer_mgr in
    let ctx' = record ctx { transfer_mgr = m } in
    let among = (lem t).1 (e, q) in
    let over = cancel_transfers-IsOver alias cancelled t ctx' among in
    let same : (u : Transfer) → Among u cancelled → u.request_id ≡ t.request_id → u ≡ t =
      λ u h r. let (f, g) = (lem u).0 h in ground (arith, e, f, r) in
    record {
      no_transfer =
          ap (lookup t.request_id) (cancel_transfers-transfer_mgr alias cancelled ctx')
          ∙ left t.request_id
          ∙ ground (arith, e, q);
      no_request = over.no_request;
      no_download = over.no_download;
      answered = λ s w. (alias, cancel_transfers-answers alias cancelled t s ctx' same among w);
    }

-- When each transfer stands under its own request and a peer is reported as disconnected, each of
-- its transfers is gone, its download too, its request waits no more, and whoever waited for it has
-- been sent an error.
pub handle_disconnected-IsCancelled :
    (p : PeerId) (ctx : DaemonContext) (t : Transfer)
    → IsKeyed ctx.transfer_mgr
    → lookup t.request_id ctx.transfer_mgr ≡ some t
    → t.peer_id ≡ p
    → IsCancelled t ctx (handle_disconnected p ctx)
unfolding handle_disconnected
handle_disconnected-IsCancelled p ctx t k e q = cancel_transfers-IsCancelled p ctx t k e q _
