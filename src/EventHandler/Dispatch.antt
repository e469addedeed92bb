-- ===== src/EventHandler/Dispatch.antt =====
-- src/event_handler.rs: what the event loop does with the requests of the command line, and the
-- whole of `handle_event`.
pub mod Kept
pub mod Survive
pub mod Served
pub mod Serving
pub mod Liveness
pub mod Once
pub mod Invariant
use parsip.Base.{
  ℕ, ◌+◌, List, [], ◌∷◌, ◌++◌, Bool, true, Option, none, some, ite, ◌==◌, ◌&&◌, if◌then◌else◌,
}
use parsip.Text.{text}
use parsip.Io.{Error, Result, ok, err}
use parsip.Map.{HashMap, values, bytes_key, bytes_discrete}
use parsip.Identity.{PeerId, peer_key}
use parsip.Protocol.{ResourceId, ResourceInfo, list_resources, download_resource}
use parsip.Control.{
  ControlMessage, ControlResponse, DiscoveredPeerInfo, ConnectedPeerInfo, SocketAddr, IpAddr, scan,
  connect, list_peers, get_resource, error, peers_list, resource_added,
}
use parsip.Control as Commands
use parsip.Peer.{
  PeerEvent, new_connection, disconnected, message, discovered, control_request, scan_timeout,
  connect_result,
}
use parsip.Discovery.Broadcast.{broadcast_scan}
use parsip.Resource.Store.{OpenFile, Digests}
use parsip.Resource.Store as Store
use parsip.Resource.Download.{start_download}
use parsip.Resource.Transfer.{Transfer}
use parsip.Resource.Transfer as Transfers
use parsip.RequestTracker as Requests
use parsip.ConnectionManager.{ConnectionManager, send, is_connected}
use parsip.AliasRegistry as Aliases
use parsip.EventHandler.{
  DaemonContext, Answers, respond, finish_request, handle_disconnected, handle_discovered,
  handle_new_connection, handle_scan_timeout, handle_connect_result, handle_message,
}

-- What the environment, the clock, the network and the file system answer to a request.
pub record ControlAnswers : Type 0 where
  pub home : Option (List ℕ)
  pub socket : Option Error
  pub trie : Option (List ℕ)
  pub route : Option IpAddr
  pub created : Option Error
  pub started : ℕ
  pub reported : ℕ
  pub opened : List ℕ → Result OpenFile Error
  pub digests : Digests
  pub call_panics : Bool

-- `call_panics` says that a `thread::spawn` or a `println!` of the handler panics; it is not set where
-- the handler calls neither. `none`: the event loop has panicked.
abbrev pub survive : Bool → DaemonContext → Option DaemonContext
survive call_panics ctx = if call_panics then none else some ctx

unknown_peer : List ℕ → ControlResponse
unknown_peer alias = error (text "Unknown peer alias: " ++ alias)

-- `next_id` and `register`: the number, and the context in which the request waits under it.
unfoldable pub begin_request : ℕ → DaemonContext → ℕ × DaemonContext
begin_request sender ctx =
    let (req_id, tracker) = Requests.take_id ctx.req_tracker in
    (req_id, record ctx { req_tracker = Requests.register req_id sender tracker })

-- What `Scan` does when the broadcast is over: it answers if it failed, else a thread waits.
unfoldable pub after_broadcast : ℕ → Result (Unit {0}) Error → DaemonContext → DaemonContext
after_broadcast req_id (err e) ctx =
    finish_request req_id (error (text "Failed to broadcast: " ++ e.message)) ctx
after_broadcast req_id (ok u) ctx = record ctx { timers = ctx.timers ++ (req_id ∷ []) }

-- `Scan`
unfoldable pub handle_scan : ControlAnswers → ℕ → DaemonContext → DaemonContext
handle_scan w sender ctx =
    let cleared = record ctx { aliases = record ctx.aliases { discovered_peers = [] } } in
    let (req_id, waiting) = begin_request sender cleared in
    let (result, datagrams) = broadcast_scan w.socket w.trie w.route ctx.node in
    after_broadcast req_id result (record waiting { datagrams = waiting.datagrams ++ datagrams })

-- `.values().find(|info| info.alias == alias)`
find_discovered : List ℕ → List DiscoveredPeerInfo → Option DiscoveredPeerInfo
find_discovered alias [] = none
find_discovered alias (info ∷ rest) =
    let later = find_discovered alias rest in
    ite (bytes_discrete info.alias alias) (some info) later

-- `Connect`: the new thread waits for the connection to the address.
unfoldable pub handle_connect : List ℕ → ℕ → DaemonContext → DaemonContext
unfolding find_discovered unknown_peer
handle_connect alias sender ctx =
    elim (find_discovered alias (values ctx.aliases.discovered_peers)) [
      | none ↦ respond sender (unknown_peer alias) ctx
      | some info ↦
          let (req_id, waiting) = begin_request sender ctx in
          record waiting { connecting = waiting.connecting ++ ((req_id, info.address) ∷ []) }
    ]

-- What the thread of `Connect` reports; `none`: the thread that connects has panicked.
unfoldable connect_outcome : ℕ → Option (Result PeerId Error) → PeerEvent
connect_outcome req_id none = connect_result req_id (err (text "Connection thread panicked"))
connect_outcome req_id (some (err e)) =
    connect_result req_id (err (text "Connection failed: " ++ e.message))
connect_outcome req_id (some (ok peer_id)) = connect_result req_id (ok peer_id)

unfoldable pub connected_peers :
    HashMap (List ℕ) PeerId → ConnectionManager → List ConnectedPeerInfo
connected_peers [] m = []
connected_peers ((alias, id) ∷ rest) m =
    let later = connected_peers rest m in
    if is_connected id m then record { alias = alias; peer_id = id } ∷ later else later

-- `ListPeers`
unfoldable pub handle_list_peers : ℕ → DaemonContext → DaemonContext
handle_list_peers sender ctx =
    respond sender (peers_list (connected_peers ctx.aliases.peer_aliases ctx.manager)) ctx

-- `ListResources`
unfoldable pub handle_list_resources : List ℕ → ℕ → DaemonContext → DaemonContext
unfolding unknown_peer
handle_list_resources peer_alias sender ctx = elim (Aliases.get_peer peer_alias ctx.aliases) [
  | none ↦ respond sender (unknown_peer peer_alias) ctx
  | some peer_id ↦
      let (req_id, waiting) = begin_request sender ctx in
      let (r, m) = send peer_id (list_resources req_id) waiting.manager in
      record waiting { manager = m }
]

-- What `GetResource` does when the download has been started, or could not be.
unfoldable pub after_start :
    ControlAnswers
    → PeerId
    → ResourceId
    → ResourceInfo
    → ℕ
    → Result (Unit {0}) Error
    → DaemonContext
    → DaemonContext
after_start w peer_id res_id info sender (err e) ctx =
    respond sender (error (text "Failed to start download")) ctx
after_start w peer_id res_id info sender (ok u) ctx =
    let (request_id, waiting) = begin_request sender ctx in
    let transfer : Transfer = record {
      request_id = request_id;
      peer_id = peer_id;
      resource_id = res_id;
      bytes_transferred = 0;
      bytes_total = info.size;
      start_time = w.started;
      last_report_time = w.reported;
      last_report_bytes = 0;
    } in
    let (r, m) = send peer_id (download_resource request_id res_id) waiting.manager in
    record waiting { transfer_mgr = Transfers.register transfer waiting.transfer_mgr; manager = m }

-- The part of `GetResource` for a peer and a resource that are known.
unfoldable pub begin_download :
    ControlAnswers → PeerId → ResourceId → ResourceInfo → ℕ → DaemonContext → DaemonContext
begin_download w peer_id res_id info sender ctx =
    let (result, downloads, d) = start_download w.created info ctx.download_mgr ctx.disk in
    after_start w peer_id res_id info sender result
      (record ctx { download_mgr = downloads; disk = d })

-- `GetResource`
unfoldable pub handle_get_resource :
    ControlAnswers → List ℕ → List ℕ → ℕ → DaemonContext → DaemonContext
unfolding unknown_peer
handle_get_resource w peer_alias resource_alias sender ctx =
    elim (Aliases.get_peer peer_alias ctx.aliases) [
      | none ↦ respond sender (unknown_peer peer_alias) ctx
      | some peer_id ↦ elim (Aliases.get_resource resource_alias ctx.aliases) [
        | none ↦ respond sender (error (text "Unknown resource alias: " ++ resource_alias)) ctx
        | some res_id ↦ elim (Aliases.get_info res_id ctx.aliases) [
          | none ↦
              respond sender
                (error
                  (text "Resource metadata missing. Try 'list " ++ (peer_alias ++ text "' first.")))
                ctx
          | some info ↦ begin_download w peer_id res_id info sender ctx
        ]
      ]
    ]

-- The tilde stands for the home directory, or for the current one if none is set.
unfoldable pub expand_home : Option (List ℕ) → List ℕ → List ℕ
expand_home home (c ∷ d ∷ rest) =
    let dir : List ℕ = elim home [ none ↦ text "." | some path ↦ path ] in
    if c == b'~' && d == b'/' then dir ++ (d ∷ rest) else c ∷ d ∷ rest
expand_home home path = path

-- What `AddResource` answers.
unfoldable pub after_hash :
    ℕ → Result (ResourceId × ResourceInfo) Error → DaemonContext → DaemonContext
after_hash sender (err e) ctx = respond sender (error e.message) ctx
after_hash sender (ok (id, info)) ctx =
    let (alias, r) = Aliases.add_resource id ctx.aliases in
    respond sender (resource_added alias id) (record ctx { aliases = r })

-- `AddResource`
unfoldable pub handle_add_resource :
    ControlAnswers → List ℕ → ℕ → DaemonContext → Option DaemonContext
handle_add_resource w path sender ctx =
    let p = expand_home w.home path in
    elim (Store.add_resource w.digests p (w.opened p) ctx.store) [
      | none ↦ none
      | some (result, store) ↦ some (after_hash sender result (record ctx { store = store }))
    ]

-- `none`: the event loop has panicked.
unfoldable pub handle_control :
    ControlAnswers → ControlMessage → ℕ → DaemonContext → Option DaemonContext
handle_control w scan sender ctx = survive w.call_panics (handle_scan w sender ctx)
handle_control w (connect alias) sender ctx =
    survive w.call_panics (handle_connect alias sender ctx)
handle_control w list_peers sender ctx = some (handle_list_peers sender ctx)
handle_control w (Commands.list_resources peer_alias) sender ctx =
    some (handle_list_resources peer_alias sender ctx)
handle_control w (get_resource peer_alias resource_alias) sender ctx =
    survive w.call_panics (handle_get_resource w peer_alias resource_alias sender ctx)
handle_control w (Commands.add_resource path) sender ctx = handle_add_resource w path sender ctx

-- `none`: the event loop panics, at a path without a file name or in a call as above.
unfoldable pub handle_event :
    Answers → ControlAnswers → PeerEvent → DaemonContext → Option DaemonContext
handle_event w c (discovered peer_id addr nickname) ctx =
    survive w.call_panics (handle_discovered peer_id addr nickname ctx)
handle_event w c (new_connection peer_id) ctx =
    survive w.call_panics (handle_new_connection peer_id ctx)
handle_event w c (disconnected peer_id) ctx =
    survive w.call_panics (handle_disconnected peer_id ctx)
handle_event w c (message peer_id msg) ctx =
    survive w.call_panics (handle_message w peer_id msg ctx)
handle_event w c (control_request cmd sender) ctx = handle_control c cmd sender ctx
handle_event w c (scan_timeout req_id) ctx = some (handle_scan_timeout req_id ctx)
handle_event w c (connect_result req_id result) ctx = some (handle_connect_result req_id result ctx)

-- src/daemon/mod.rs: the loop over the events, each with what its surroundings answer to it.
unfoldable pub event_loop :
    List (PeerEvent × Answers × ControlAnswers) → DaemonContext → Option DaemonContext
event_loop [] ctx = some ctx
event_loop ((event, w, c) ∷ events) ctx = elim (handle_event w c event ctx) [
  | none ↦ none
  | some ctx' ↦ event_loop events ctx'
]
