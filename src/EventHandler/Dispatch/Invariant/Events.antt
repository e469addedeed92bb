-- ===== src/EventHandler/Dispatch/Invariant/Events.antt =====
-- src/event_handler.rs: the events and the daemon's state.
use parsip.Base.{
  ℕ, suc, ◌+◌, ◌<◌, ◌^◌, ◌≡◌, refl, sym, subst, List, some, length, Option-both, some_injective,
  arith,
}
use parsip.Map.{lookup, nat_key}
use parsip.Identity.{PeerId, peer_key}
use parsip.Io.{ok, err}
use parsip.Protocol.{
  Message, hello, hello_proof, list_resources, resource_list, download_resource, resource_chunk,
  resource_end,
}
use parsip.Control.{SocketAddr}
use parsip.Peer.{
  PeerEvent, new_connection, disconnected, message, discovered, control_request, scan_timeout,
  connect_result,
}
use parsip.AliasRegistry as Aliases
use parsip.Resource.Store as Store
use parsip.EventHandler.{
  DaemonContext, Answers, handle_discovered, handle_new_connection, handle_scan_timeout,
  handle_connect_result, handle_message,
}
use parsip.EventHandler.Discover.{handle_discovered-IsListed}
use parsip.EventHandler.Names.{add_peer-IsListed, resource_list-IsListed}
use parsip.EventHandler.Dispatch.Survive.{survive_lem}
use parsip.EventHandler.Dispatch.{ControlAnswers, handle_event}
use parsip.EventHandler.Dispatch.Invariant.{
  IsDaemon, carried, finish_request-IsDaemon, handle_disconnected-IsDaemon, handle_chunk-IsDaemon,
  handle_end-IsDaemon,
}
use parsip.EventHandler.Dispatch.Invariant.Requests.{
  HasRoom, with_names, sent-IsDaemon, handle_control-IsDaemon,
}

-- How many numbers and names an event may use up.
abbrev pub weight : PeerEvent → ℕ
weight (message p (resource_list n resources)) = suc (length resources)
weight _ = 1

handle_message-IsDaemon :
    (w : Answers) (p : PeerId) (m : Message) (ctx : DaemonContext)
    → HasRoom (weight (message p m)) ctx
    → IsDaemon ctx
    → IsDaemon (handle_message w p m ctx)
unfolding handle_message
handle_message-IsDaemon w p (list_resources n) ctx h v = sent-IsDaemon p _ ctx v
handle_message-IsDaemon w p (resource_list n resources) ctx h v =
    let peers = h.peers in
    let room = h.resources in
    finish_request-IsDaemon n _ _ (
      with_names ctx _
        (resource_list-IsListed p resources ctx.aliases v.names (omega (arith, peers))
          (omega (arith, room)))
        v)
handle_message-IsDaemon w p (download_resource n id) ctx h v =
    Option-both IsDaemon (Store.get_path id ctx.store) _ _ v
      (λ path. carried ctx _ refl refl refl refl refl v)
handle_message-IsDaemon w p (resource_chunk n id offset chunk) ctx h v =
    handle_chunk-IsDaemon w n id chunk ctx v
handle_message-IsDaemon w p (resource_end n id) ctx h v = handle_end-IsDaemon w n id ctx v
handle_message-IsDaemon w p (hello key nonce) ctx h v = v
handle_message-IsDaemon w p (hello_proof signature) ctx h v = v

handle_discovered-IsDaemon :
    (p : PeerId) (addr : SocketAddr) (nickname : List ℕ) (ctx : DaemonContext)
    → ctx.aliases.next_peer_id + 1 < 2 ^ 32
    → IsDaemon ctx
    → IsDaemon (handle_discovered p addr nickname ctx)
unfolding handle_discovered
handle_discovered-IsDaemon p addr nickname ctx h v =
    let only_names = λ (x : DaemonContext). x ≡ record ctx { aliases = x.aliases } in
    let same : only_names (handle_discovered p addr nickname ctx) =
      Option-both only_names (lookup p (Aliases.add_peer p ctx.aliases).1.discovered_peers) _ _ refl
        (λ known. refl) in
    let names = (handle_discovered-IsListed p addr nickname ctx v.names h).0 in
    subst IsDaemon (sym same) (with_names ctx _ names v)

-- While numbers and names are left for what the event uses up, every event that the daemon survives
-- keeps its state well-formed: the names of peers and resources, the transfers, the shared files,
-- the requests that wait, and the connections.
pub handle_event-IsDaemon :
    (w : Answers) (c : ControlAnswers) (event : PeerEvent) (ctx ctx' : DaemonContext)
    → HasRoom (weight event) ctx
    → IsDaemon ctx
    → handle_event w c event ctx ≡ some ctx'
    → IsDaemon ctx'
unfolding handle_event handle_scan_timeout handle_new_connection handle_connect_result
handle_event-IsDaemon w c (control_request cmd s) ctx ctx' h v e =
    handle_control-IsDaemon c cmd s ctx ctx' h v e
handle_event-IsDaemon w c (discovered p addr nickname) ctx ctx' h v e =
    subst IsDaemon (survive_lem w.call_panics _ ctx' e)
      (handle_discovered-IsDaemon p addr nickname ctx h.peers v)
handle_event-IsDaemon w c (new_connection p) ctx ctx' h v e =
    subst IsDaemon (survive_lem w.call_panics _ ctx' e)
      (with_names ctx _ (add_peer-IsListed p ctx.aliases v.names h.peers) v)
handle_event-IsDaemon w c (disconnected p) ctx ctx' h v e =
    subst IsDaemon (survive_lem w.call_panics _ ctx' e) (handle_disconnected-IsDaemon p ctx v)
handle_event-IsDaemon w c (message p m) ctx ctx' h v e =
    subst IsDaemon (survive_lem w.call_panics _ ctx' e) (handle_message-IsDaemon w p m ctx h v)
handle_event-IsDaemon w c (scan_timeout n) ctx ctx' h v e =
    subst IsDaemon (some_injective _ ctx' e) (finish_request-IsDaemon n _ ctx v)
handle_event-IsDaemon w c (connect_result n (ok p)) ctx ctx' h v e =
    subst IsDaemon (some_injective _ ctx' e) (finish_request-IsDaemon n _ ctx v)
handle_event-IsDaemon w c (connect_result n (err x)) ctx ctx' h v e =
    subst IsDaemon (some_injective _ ctx' e) (finish_request-IsDaemon n _ ctx v)
