-- ===== src/EventHandler/Dispatch/Invariant/Room.antt =====
-- src/event_handler.rs: how many numbers and names an event uses up.
use parsip.Base.{ℕ, suc, ◌+◌, ◌≤◌, ◌≡◌, refl, sym, subst, List, [], ◌∷◌, length, Option-both, arith}
use parsip.Io.{Result-both}
use parsip.Map.{lookup, nat_key}
use parsip.Identity.{PeerId, peer_key}
use parsip.Protocol.{
  Message, ResourceId, ResourceInfo, hello, hello_proof, list_resources, resource_list,
  download_resource, resource_chunk, resource_end,
}
use parsip.Control.{ControlResponse, SocketAddr}
use parsip.Peer.{message}
use parsip.AliasRegistry.{AliasRegistry, add_peer, add_resource, cache_info}
use parsip.RequestTracker as Requests
use parsip.Resource.Transfer.{Transfer, update_progress}
use parsip.Resource.Transfer as Transfers
use parsip.Resource.Download.{process_chunk, complete_download}
use parsip.Resource.Store as Store
use parsip.EventHandler.{
  DaemonContext, Answers, respond, finish_request, cancel_transfer, cancel_transfers,
  handle_discovered, handle_chunk, handle_end, handle_message, name_resources,
}
use parsip.EventHandler.Dispatch.Invariant.Events.{weight}

-- At most `k` names of peers and of resources were given out in between.
abbrev pub Named : ℕ → AliasRegistry → AliasRegistry → Type 0
Named k r r' =
    (r'.next_peer_id ≤ r.next_peer_id + k) × (r'.next_resource_id ≤ r.next_resource_id + k)

-- And at most `k` numbers.
pub record Within (k : ℕ) (ctx ctx' : DaemonContext) : Type 0 where
  pub names : Named k ctx.aliases ctx'.aliases
  pub numbers : ctx'.req_tracker.next_id ≤ ctx.req_tracker.next_id + k

-- What does not touch any of this.
pub carry :
    (k : ℕ) (ctx ctx' ctx2 : DaemonContext)
    → ctx2.aliases ≡ ctx'.aliases
    → ctx2.req_tracker.next_id ≡ ctx'.req_tracker.next_id
    → Within k ctx ctx'
    → Within k ctx ctx2
carry k ctx ctx' ctx2 a t v = record {
  names = subst (Named k ctx.aliases) (sym a) v.names;
  numbers = subst (λ n. n ≤ ctx.req_tracker.next_id + k) (sym t) v.numbers;
}

pub same-Within : (k : ℕ) (ctx : DaemonContext) → Within k ctx ctx
same-Within k ctx = record { names = (omega arith, omega arith); numbers = omega arith }

pub kept :
    (k : ℕ) (ctx ctx' : DaemonContext)
    → ctx'.aliases ≡ ctx.aliases
    → ctx'.req_tracker.next_id ≡ ctx.req_tracker.next_id
    → Within k ctx ctx'
kept k ctx ctx' a t = carry k ctx ctx ctx' a t (same-Within k ctx)

pub add_peer-Named : (p : PeerId) (r : AliasRegistry) → Named 1 r (add_peer p r).1
unfolding add_peer
add_peer-Named p r = ground arith

pub add_resource-Named : (id : ResourceId) (r : AliasRegistry) → Named 1 r (add_resource id r).1
unfolding add_resource
add_resource-Named id r = ground arith

name_resources-Named :
    (rs : List ResourceInfo) (r : AliasRegistry) → Named (length rs) r (name_resources rs r).1
unfolding name_resources cache_info
name_resources-Named [] r = (omega arith, omega arith)
name_resources-Named (res ∷ rs) r =
    let first = add_resource-Named res.id r in
    let rest = name_resources-Named rs (cache_info res (add_resource res.id r).1) in
    (omega (arith, first.0, rest.0), omega (arith, first.1, rest.1))

-- Answering does not use any.
pub finish_request-Within :
    (k id : ℕ) (r : ControlResponse) (ctx ctx' : DaemonContext)
    → Within k ctx ctx'
    → Within k ctx (finish_request id r ctx')
unfolding finish_request respond Requests.complete
finish_request-Within k id r ctx ctx' v =
    Option-both (Within k ctx) (Requests.complete id ctx'.req_tracker).0 _ _
      (carry k ctx ctx' _ refl refl v) (λ s. carry k ctx ctx' _ refl refl v)

pub cancel_transfers-Within :
    (alias : List ℕ) (ts : List Transfer) (ctx ctx' : DaemonContext)
    → Within 1 ctx ctx'
    → Within 1 ctx (cancel_transfers alias ts ctx')
unfolding cancel_transfers cancel_transfer
cancel_transfers-Within alias [] ctx ctx' v = v
cancel_transfers-Within alias (t ∷ ts) ctx ctx' v =
    cancel_transfers-Within alias ts ctx _
      (finish_request-Within 1 t.request_id _ ctx _ (carry 1 ctx ctx' _ refl refl v))

handle_chunk-Within :
    (w : Answers) (n : ℕ) (id : ResourceId) (chunk : List ℕ) (ctx : DaemonContext)
    → Within 1 ctx (handle_chunk w n id chunk ctx)
unfolding handle_chunk respond
handle_chunk-Within w n id chunk ctx =
    let P = Within 1 ctx in
    Result-both P (process_chunk id chunk ctx.download_mgr).0 _ _
      (λ complete.
        Option-both P (update_progress n (length chunk) w.now w.later ctx.transfer_mgr).0 _ _
          (kept 1 ctx _ refl refl)
          (λ report.
            Option-both P (Requests.get n ctx.req_tracker) _ _ (kept 1 ctx _ refl refl)
              (λ s. kept 1 ctx _ refl refl)))
      (λ e. kept 1 ctx _ refl refl)

handle_end-Within :
    (w : Answers) (n : ℕ) (id : ResourceId) (ctx : DaemonContext)
    → Within 1 ctx (handle_end w n id ctx)
unfolding handle_end
handle_end-Within w n id ctx =
    let P = Within 1 ctx in
    Result-both P (complete_download w.writes w.renamed id ctx.download_mgr ctx.disk).0 _ _
      (λ u.
        Option-both P (Transfers.complete n ctx.transfer_mgr).0 _ _ (kept 1 ctx _ refl refl)
          (λ t. finish_request-Within 1 n _ ctx _ (kept 1 ctx _ refl refl)))
      (λ e. kept 1 ctx _ refl refl)

pub handle_message-Within :
    (w : Answers) (p : PeerId) (m : Message) (ctx : DaemonContext)
    → Within (weight (message p m)) ctx (handle_message w p m ctx)
unfolding handle_message
handle_message-Within w p (list_resources n) ctx = kept 1 ctx _ refl refl
handle_message-Within w p (resource_list n resources) ctx =
    let first = add_peer-Named p ctx.aliases in
    let (alias, named) = add_peer p ctx.aliases in
    let rest = name_resources-Named resources named in
    finish_request-Within (suc (length resources)) n _ ctx _ (record {
      names = (omega (arith, first.0, rest.0), omega (arith, first.1, rest.1));
      numbers = omega arith;
    })
handle_message-Within w p (download_resource n id) ctx =
    Option-both (Within 1 ctx) (Store.get_path id ctx.store) _ _ (same-Within 1 ctx)
      (λ path. kept 1 ctx _ refl refl)
handle_message-Within w p (resource_chunk n id offset chunk) ctx =
    handle_chunk-Within w n id chunk ctx
handle_message-Within w p (resource_end n id) ctx = handle_end-Within w n id ctx
handle_message-Within w p (hello key nonce) ctx = same-Within 1 ctx
handle_message-Within w p (hello_proof signature) ctx = same-Within 1 ctx

pub handle_discovered-Within :
    (p : PeerId) (addr : SocketAddr) (nickname : List ℕ) (ctx : DaemonContext)
    → Within 1 ctx (handle_discovered p addr nickname ctx)
unfolding handle_discovered
handle_discovered-Within p addr nickname ctx =
    let r = (add_peer p ctx.aliases).1 in
    let v : Within 1 ctx (record ctx { aliases = r }) = record {
      names = add_peer-Named p ctx.aliases;
      numbers = omega arith;
    } in
    Option-both (Within 1 ctx) (lookup p r.discovered_peers) _ _
      (record { names = v.names; numbers = v.numbers }) (λ known. v)
