-- ===== src/EventHandler/Dispatch/Invariant.antt =====
-- src/event_handler.rs: what holds of the daemon's state between two events.
pub mod Requests
pub mod Events
pub mod Room
pub mod Controls
pub mod Loop
use parsip.Base.{
  ℕ, suc, ◌+◌, ◌%◌, ◌<◌, ◌≤◌, ◌^◌, ◌≡◌, refl, sym, subst, ap, ◌∙◌, List, [], ◌∷◌, ◌++◌, Option,
  none, some, length, Option-both, Option-cases, some_injective, inl, inr, arith,
}
use parsip.Map.{lookup, lookup-insert, lookup-remove, nat_key, HashMap}
use parsip.Identity.{PeerId, peer_key}
use parsip.Io.{Error, Result, ok, err, Result-both}
use parsip.Protocol.{
  Message, ResourceId, ResourceInfo, hello, hello_proof, list_resources, resource_list,
  download_resource, resource_chunk, resource_end,
}
use parsip.Control.{ControlResponse, SocketAddr}
use parsip.AliasRegistry.{AliasRegistry, add_peer, add_resource, cache_info, get_peer}
use parsip.AliasRegistry.Named.{IsRegistry, add_peer-IsRegistry, add_resource-IsRegistry}
use parsip.RequestTracker.{complete, take_id, register, get}
use parsip.ConnectionManager.Index.{IsLinked}
use parsip.ConnectionManager.Sent.{send-IsLinked}
use parsip.Resource.Transfer.{Transfer, cancel_for_peer, update_progress}
use parsip.Resource.Transfer as Transfers
use parsip.Resource.Transfer.Keyed.{IsKeyed, operation-IsKeyed}
use parsip.Resource.Store.Content.{IsIndex}
use parsip.Resource.Store as Store
use parsip.Resource.Download.{process_chunk, complete_download}
use parsip.EventHandler.{
  DaemonContext, Answers, respond, finish_request, cancel_transfer, cancel_transfers,
  handle_disconnected, handle_discovered, handle_new_connection, name_resources, handle_chunk,
  handle_end, handle_message,
}
use parsip.EventHandler.Discover.{IsListed, handle_discovered-IsListed, add_peer-discovered_peers}
use parsip.EventHandler.Dispatch.Served.{IsFresh}

-- The names of peers and resources are their own and lead to the listed peers, each transfer stands
-- under its request and each shared file under its hash, no request waits under a number not given
-- out, and the index of the connections is in step with their table.
pub record IsDaemon (ctx : DaemonContext) : Type 0 where
  pub names : IsListed ctx.aliases
  pub keyed : IsKeyed ctx.transfer_mgr
  pub index : IsIndex ctx.store.index
  pub fresh : IsFresh ctx.req_tracker
  pub linked : IsLinked ctx.manager

-- What does not touch any of this.
pub carried :
    (ctx ctx' : DaemonContext)
    → ctx'.aliases ≡ ctx.aliases
    → ctx'.transfer_mgr ≡ ctx.transfer_mgr
    → ctx'.store ≡ ctx.store
    → ctx'.req_tracker ≡ ctx.req_tracker
    → ctx'.manager ≡ ctx.manager
    → IsDaemon ctx
    → IsDaemon ctx'
carried ctx ctx' a t s r m v = record {
  names = subst IsListed (sym a) v.names;
  keyed = subst IsKeyed (sym t) v.keyed;
  index = subst (λ x. IsIndex x.index) (sym s) v.index;
  fresh = subst IsFresh (sym r) v.fresh;
  linked = subst IsLinked (sym m) v.linked;
}

complete-IsFresh :
    (id : ℕ) (ctx : DaemonContext)
    → IsFresh ctx.req_tracker
    → IsFresh (complete id ctx.req_tracker).1
unfolding IsFresh complete
complete-IsFresh id ctx fresh =
    λ j h. ground (arith, fresh j h, lookup-remove id j ctx.req_tracker.pending_requests)

pub finish_request-IsDaemon :
    (id : ℕ) (r : ControlResponse) (ctx : DaemonContext)
    → IsDaemon ctx
    → IsDaemon (finish_request id r ctx)
unfolding finish_request respond
finish_request-IsDaemon id r ctx v =
    let fresh = complete-IsFresh id ctx v.fresh in
    Option-both IsDaemon (complete id ctx.req_tracker).0 _ _
      (record {
        names = v.names;
        keyed = v.keyed;
        index = v.index;
        fresh = fresh;
        linked = v.linked;
      })
      (λ s. record {
        names = v.names;
        keyed = v.keyed;
        index = v.index;
        fresh = fresh;
        linked = v.linked;
      })

-- The transfers after one of the manager's operations.
pub with_transfers :
    (ctx ctx' : DaemonContext)
    → ctx'.aliases ≡ ctx.aliases
    → IsKeyed ctx'.transfer_mgr
    → ctx'.store ≡ ctx.store
    → ctx'.req_tracker ≡ ctx.req_tracker
    → ctx'.manager ≡ ctx.manager
    → IsDaemon ctx
    → IsDaemon ctx'
with_transfers ctx ctx' a k s r m v = record {
  names = subst IsListed (sym a) v.names;
  keyed = k;
  index = subst (λ x. IsIndex x.index) (sym s) v.index;
  fresh = subst IsFresh (sym r) v.fresh;
  linked = subst IsLinked (sym m) v.linked;
}

cancel_transfers-IsDaemon :
    (alias : List ℕ) (ts : List Transfer) (ctx : DaemonContext)
    → IsDaemon ctx
    → IsDaemon (cancel_transfers alias ts ctx)
unfolding cancel_transfers cancel_transfer
cancel_transfers-IsDaemon alias [] ctx v = v
cancel_transfers-IsDaemon alias (t ∷ ts) ctx v =
    cancel_transfers-IsDaemon alias ts (cancel_transfer alias t ctx)
      (finish_request-IsDaemon t.request_id _ _ (carried ctx _ refl refl refl refl refl v))

pub handle_disconnected-IsDaemon :
    (p : PeerId) (ctx : DaemonContext) → IsDaemon ctx → IsDaemon (handle_disconnected p ctx)
unfolding handle_disconnected
handle_disconnected-IsDaemon p ctx v =
    let (r, u, c, cancel) = operation-IsKeyed ctx.transfer_mgr v.keyed in
    cancel_transfers-IsDaemon _ _ _ (with_transfers ctx _ refl (cancel p) refl refl refl v)

pub handle_chunk-IsDaemon :
    (w : Answers) (n : ℕ) (res : ResourceId) (chunk : List ℕ) (ctx : DaemonContext)
    → IsDaemon ctx
    → IsDaemon (handle_chunk w n res chunk ctx)
unfolding handle_chunk respond
handle_chunk-IsDaemon w n res chunk ctx v =
    let (r, update, c, cancel) = operation-IsKeyed ctx.transfer_mgr v.keyed in
    let keyed = update n (length chunk) w.now w.later in
    Result-both IsDaemon (process_chunk res chunk ctx.download_mgr).0 _ _
      (λ b.
        Option-both IsDaemon (update_progress n (length chunk) w.now w.later ctx.transfer_mgr).0 _ _
          (with_transfers ctx _ refl keyed refl refl refl v)
          (λ report.
            Option-both IsDaemon (get n ctx.req_tracker) _ _
              (with_transfers ctx _ refl keyed refl refl refl v)
              (λ s. with_transfers ctx _ refl keyed refl refl refl v)))
      (λ e. carried ctx _ refl refl refl refl refl v)

pub handle_end-IsDaemon :
    (w : Answers) (n : ℕ) (res : ResourceId) (ctx : DaemonContext)
    → IsDaemon ctx
    → IsDaemon (handle_end w n res ctx)
unfolding handle_end
handle_end-IsDaemon w n res ctx v =
    let (r, update, completed, cancel) = operation-IsKeyed ctx.transfer_mgr v.keyed in
    Result-both IsDaemon (complete_download w.writes w.renamed res ctx.download_mgr ctx.disk).0 _ _
      (λ u.
        Option-both IsDaemon (Transfers.complete n ctx.transfer_mgr).0 _ _
          (with_transfers ctx _ refl (completed n) refl refl refl v)
          (λ t.
            finish_request-IsDaemon n _ _
              (with_transfers ctx _ refl (completed n) refl refl refl v)))
      (λ e. carried ctx _ refl refl refl refl refl v)
