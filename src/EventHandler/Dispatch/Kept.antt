-- ===== src/EventHandler/Dispatch/Kept.antt =====
-- src/event_handler.rs: what the events of the threads keep of the requests and their answers.
use parsip.Base.{
  ℕ, true, ◌≡◌, refl, subst, List, [], ◌∷◌, some, length, Option-both, some_injective,
}
use parsip.Identity.{PeerId, peer_key}
use parsip.Protocol.{ResourceId}
use parsip.Map.{lookup, nat_key}
use parsip.Io.{ok, err, Result-both}
use parsip.Control.{
  SocketAddr, is_terminal, F64, download_progress, ControlMessage, ControlResponse,
}
use parsip.RequestTracker.{get}
use parsip.Resource.Transfer.{Transfer}
use parsip.AliasRegistry.{add_peer}
use parsip.Resource.Download.{process_chunk, complete_download}
use parsip.Resource.Transfer.{update_progress}
use parsip.Resource.Transfer as Transfers
use parsip.Resource.Store as Store
use parsip.Protocol.{
  Message, list_resources, resource_list, download_resource, resource_chunk, resource_end, hello,
  hello_proof,
}
use parsip.Peer.{
  PeerEvent, new_connection, disconnected, message, discovered, control_request, scan_timeout,
  connect_result,
}
use parsip.EventHandler.{
  DaemonContext, Answers, respond, finish_request, cancel_transfers, cancel_transfer,
  transfer_failed, handle_disconnected, handle_discovered, handle_chunk, handle_end, handle_message,
  handle_scan_timeout, handle_connect_result, handle_new_connection,
}
use parsip.EventHandler.Dispatch.Survive.{survive_lem}
use parsip.EventHandler.Dispatch.{handle_control, ControlAnswers, handle_event}

-- What depends on the requests that wait and on the answers only, and is kept when a request is
-- finished and when progress is reported, is kept by every event but a request.
module _ (P : DaemonContext → Type 0)
    (keep : (ctx ctx' : DaemonContext)
      → ctx'.req_tracker ≡ ctx.req_tracker
      → ctx'.responses ≡ ctx.responses
      → P ctx
      → P ctx')
    (finish : (id : ℕ) (r : ControlResponse) (ctx : DaemonContext)
      → is_terminal r ≡ true
      → P ctx
      → P (finish_request id r ctx))
    (progress : (s bytes total : ℕ) (mbps : F64) (ctx : DaemonContext)
      → P ctx
      → P (respond s (download_progress bytes total mbps) ctx)) where
  cancel_transfers-kept :
      (alias : List ℕ) (ts : List Transfer) (ctx : DaemonContext)
      → P ctx
      → P (cancel_transfers alias ts ctx)
  unfolding cancel_transfers cancel_transfer transfer_failed is_terminal
  cancel_transfers-kept alias [] ctx v = v
  cancel_transfers-kept alias (t ∷ ts) ctx v =
      cancel_transfers-kept alias ts (cancel_transfer alias t ctx)
        (finish t.request_id (transfer_failed alias t) _ refl (keep ctx _ refl refl v))

  handle_disconnected-kept :
      (p : PeerId) (ctx : DaemonContext) → P ctx → P (handle_disconnected p ctx)
  unfolding handle_disconnected
  handle_disconnected-kept p ctx v = cancel_transfers-kept _ _ _ (keep ctx _ refl refl v)

  handle_discovered-kept :
      (p : PeerId) (addr : SocketAddr) (nickname : List ℕ) (ctx : DaemonContext)
      → P ctx
      → P (handle_discovered p addr nickname ctx)
  unfolding handle_discovered
  handle_discovered-kept p addr nickname ctx v =
      Option-both P (lookup p (add_peer p ctx.aliases).1.discovered_peers) _ _
        (keep ctx _ refl refl v) (λ known. keep ctx _ refl refl v)

  handle_chunk-kept :
      (w : Answers) (n : ℕ) (res : ResourceId) (chunk : List ℕ) (ctx : DaemonContext)
      → P ctx
      → P (handle_chunk w n res chunk ctx)
  unfolding handle_chunk
  handle_chunk-kept w n res chunk ctx v =
      Result-both P (process_chunk res chunk ctx.download_mgr).0 _ _
        (λ complete.
          Option-both P (update_progress n (length chunk) w.now w.later ctx.transfer_mgr).0 _ _
            (keep ctx _ refl refl v)
            (λ report.
              Option-both P (get n ctx.req_tracker) _ _ (keep ctx _ refl refl v)
                (λ s. progress s _ _ _ _ (keep ctx _ refl refl v))))
        (λ e. keep ctx _ refl refl v)

  handle_end-kept :
      (w : Answers) (n : ℕ) (res : ResourceId) (ctx : DaemonContext)
      → P ctx
      → P (handle_end w n res ctx)
  unfolding handle_end is_terminal
  handle_end-kept w n res ctx v =
      Result-both P (complete_download w.writes w.renamed res ctx.download_mgr ctx.disk).0 _ _
        (λ u.
          Option-both P (Transfers.complete n ctx.transfer_mgr).0 _ _ (keep ctx _ refl refl v)
            (λ t. finish n _ _ refl (keep ctx _ refl refl v)))
        (λ e. keep ctx _ refl refl v)

  handle_message-kept :
      (w : Answers) (p : PeerId) (m : Message) (ctx : DaemonContext)
      → P ctx
      → P (handle_message w p m ctx)
  unfolding handle_message is_terminal
  handle_message-kept w p (list_resources n) ctx v = keep ctx _ refl refl v
  handle_message-kept w p (resource_list n resources) ctx v =
      finish n _ _ refl (keep ctx _ refl refl v)
  handle_message-kept w p (download_resource n res) ctx v =
      Option-both P (Store.get_path res ctx.store) _ _ v (λ path. keep ctx _ refl refl v)
  handle_message-kept w p (resource_chunk n res offset chunk) ctx v =
      handle_chunk-kept w n res chunk ctx v
  handle_message-kept w p (resource_end n res) ctx v = handle_end-kept w n res ctx v
  handle_message-kept w p (hello key nonce) ctx v = v
  handle_message-kept w p (hello_proof signature) ctx v = v

  pub handle_event-kept :
      (w : Answers) (c : ControlAnswers) (event : PeerEvent) (ctx ctx' : DaemonContext)
      → ((cmd : ControlMessage) (s : ℕ)
          → event ≡ control_request cmd s
          → handle_control c cmd s ctx ≡ some ctx'
          → P ctx')
      → P ctx
      → handle_event w c event ctx ≡ some ctx'
      → P ctx'
  unfolding handle_event handle_scan_timeout handle_new_connection handle_connect_result is_terminal
  handle_event-kept w c (control_request cmd s) ctx ctx' control v e = control cmd s refl e
  handle_event-kept w c (discovered p addr nickname) ctx ctx' control v e =
      subst P (survive_lem w.call_panics _ ctx' e) (handle_discovered-kept p addr nickname ctx v)
  handle_event-kept w c (new_connection p) ctx ctx' control v e =
      subst P (survive_lem w.call_panics _ ctx' e) (keep ctx _ refl refl v)
  handle_event-kept w c (disconnected p) ctx ctx' control v e =
      subst P (survive_lem w.call_panics _ ctx' e) (handle_disconnected-kept p ctx v)
  handle_event-kept w c (message p m) ctx ctx' control v e =
      subst P (survive_lem w.call_panics _ ctx' e) (handle_message-kept w p m ctx v)
  handle_event-kept w c (scan_timeout n) ctx ctx' control v e =
      subst P (some_injective _ ctx' e) (finish n _ ctx refl v)
  handle_event-kept w c (connect_result n (ok p)) ctx ctx' control v e =
      subst P (some_injective _ ctx' e) (finish n _ ctx refl v)
  handle_event-kept w c (connect_result n (err x)) ctx ctx' control v e =
      subst P (some_injective _ ctx' e) (finish n _ ctx refl v)
