-- ===== src/EventHandler.antt =====
-- src/event_handler.rs: what the event loop does with the events of its threads, the messages of the
-- peers among them. `println!` has no effect.
pub mod Disconnect
pub mod Discover
pub mod Names
pub mod Dispatch
pub mod Listing
pub mod Sharing
use parsip.Base.{
  Bool, ℕ, ◌+◌, ◌-◌, ◌*◌, ◌/◌, ◌%◌, ◌^◌, List, [], ◌∷◌, ◌++◌, Option, none, some, ite, ltb, length,
  take, drop, if◌then◌else◌,
}
use parsip.Text.{text, decimal}
use parsip.Io.{Error, Result, ok, err}
use parsip.Map.{HashMap, lookup, insert, values, nat_key, bytes_key}
use parsip.Identity.{PeerId, PeerId-discrete, peer_key}
use parsip.Protocol.{
  Message, ResourceId, ResourceInfo, hello, hello_proof, list_resources, resource_list,
  download_resource, resource_chunk, resource_end,
}
use parsip.Control.{
  ControlResponse, DiscoveredPeerInfo, SocketAddr, scan_results, done, error,
  resource_list as listing, download_progress, download_complete, ListedResource, F64, of_integer,
  quotient,
}
use parsip.Disk.{Disk}
use parsip.Discovery.{Node}
use parsip.Resource.Store.{LocalResourceStore}
use parsip.Resource.Store as Store
use parsip.Resource.Download.{DownloadManager, process_chunk, complete_download, cancel_download}
use parsip.Resource.Transfer.{Transfer, TransferManager, update_progress, cancel_for_peer}
use parsip.Resource.Transfer as Transfers
use parsip.RequestTracker.{RequestTracker}
use parsip.RequestTracker as Requests
use parsip.ConnectionManager.{ConnectionManager, send}
use parsip.AliasRegistry.{AliasRegistry, add_peer, add_resource, cache_info}

-- A thread that streams a file to a peer.
pub record Upload : Type 0 where
  pub peer_id : PeerId
  pub request_id : ℕ
  pub id : ResourceId
  pub file_path : List ℕ

-- `DaemonContext`. `node` is what it reads of the configuration and of `peer`, whose table is
-- `manager`. Besides there is what it acts on: the disk, the answers sent to the command line so
-- far, each to its channel, the datagrams sent so far, and the threads started so far, those that
-- stream a file, those that wait for the end of a scan, and those that wait for a connection.
pub record DaemonContext : Type 0 where
  pub node : Node
  pub manager : ConnectionManager
  pub store : LocalResourceStore
  pub download_mgr : DownloadManager
  pub transfer_mgr : TransferManager
  pub aliases : AliasRegistry
  pub req_tracker : RequestTracker
  pub disk : Disk
  pub responses : List (ℕ × ControlResponse)
  pub datagrams : List (List ℕ × SocketAddr)
  pub uploads : List Upload
  pub timers : List ℕ
  pub connecting : List (ℕ × SocketAddr)

unfoldable pub respond : ℕ → ControlResponse → DaemonContext → DaemonContext
respond sender r ctx = record ctx { responses = ctx.responses ++ ((sender, r) ∷ []) }

-- `if let Some(sender) = ctx.req_tracker.complete(request_id)`
unfoldable pub finish_request : ℕ → ControlResponse → DaemonContext → DaemonContext
unfolding respond
finish_request request_id r ctx =
    let (sender, tracker) = Requests.complete request_id ctx.req_tracker in
    let ctx' = record ctx { req_tracker = tracker } in
    elim sender [ none ↦ ctx' | some s ↦ respond s r ctx' ]

hex_digit : ℕ → ℕ
hex_digit n = if ltb n 10 then b'0' + n else b'a' + (n - 10)

hex : List ℕ → List ℕ
unfolding hex_digit
hex [] = []
hex (b ∷ bs) = hex_digit (b / 16) ∷ hex_digit (b % 16) ∷ hex bs

-- `.find(|(_, id)| *id == &peer_id)`
find_alias : PeerId → HashMap (List ℕ) PeerId → Option (List ℕ)
find_alias peer_id [] = none
find_alias peer_id ((alias, id) ∷ rest) =
    let later = find_alias peer_id rest in ite (PeerId-discrete id peer_id) (some alias) later

unfoldable pub transfer_failed : List ℕ → Transfer → ControlResponse
transfer_failed alias t = error (
    text "Transfer failed: peer "
    ++ (alias
        ++ (text " disconnected mid-transfer ("
            ++ (decimal t.bytes_transferred
                ++ (text " / " ++ (decimal t.bytes_total ++ text " bytes received)"))))))

-- The body of the loop over the cancelled transfers.
unfoldable pub cancel_transfer : List ℕ → Transfer → DaemonContext → DaemonContext
cancel_transfer alias t ctx =
    let (r, m, d) = cancel_download t.resource_id ctx.download_mgr ctx.disk in
    finish_request t.request_id (transfer_failed alias t)
      (record ctx { download_mgr = m; disk = d })

unfoldable pub cancel_transfers : List ℕ → List Transfer → DaemonContext → DaemonContext
cancel_transfers alias [] ctx = ctx
cancel_transfers alias (t ∷ ts) ctx = cancel_transfers alias ts (cancel_transfer alias t ctx)

-- `PeerEvent::Disconnected`
unfoldable pub handle_disconnected : PeerId → DaemonContext → DaemonContext
unfolding hex find_alias
handle_disconnected peer_id ctx =
    let digits = hex peer_id.bytes in
    let shown = text "PeerId(" ++ (take 4 digits ++ (text ".." ++ (drop 60 digits ++ text ")"))) in
    let alias : List ℕ = elim (find_alias peer_id ctx.aliases.peer_aliases) [
      | none ↦ shown
      | some a ↦ a
    ] in
    let (cancelled, m) = cancel_for_peer peer_id ctx.transfer_mgr in
    cancel_transfers alias cancelled (record ctx { transfer_mgr = m })

-- `PeerEvent::Discovered`
unfoldable pub handle_discovered : PeerId → SocketAddr → List ℕ → DaemonContext → DaemonContext
handle_discovered peer_id addr nickname ctx =
    let (alias, r) = add_peer peer_id ctx.aliases in
    let info : DiscoveredPeerInfo = record { alias = alias; nickname = nickname; address = addr } in
    elim (lookup peer_id r.discovered_peers) [
      | some known ↦ record ctx { aliases = r }
      | none ↦ record ctx {
        aliases = record r { discovered_peers = insert peer_id info r.discovered_peers };
      }
    ]

-- `PeerEvent::NewConnection`
unfoldable pub handle_new_connection : PeerId → DaemonContext → DaemonContext
handle_new_connection peer_id ctx = record ctx { aliases = (add_peer peer_id ctx.aliases).1 }

-- `PeerEvent::ScanTimeout`
unfoldable pub handle_scan_timeout : ℕ → DaemonContext → DaemonContext
handle_scan_timeout req_id ctx =
    finish_request req_id (scan_results (values ctx.aliases.discovered_peers)) ctx

-- `PeerEvent::ConnectResult`
unfoldable pub handle_connect_result : ℕ → Result PeerId (List ℕ) → DaemonContext → DaemonContext
handle_connect_result req_id (ok peer_id) ctx = finish_request req_id done ctx
handle_connect_result req_id (err e) ctx = finish_request req_id (error e) ctx

-- The loop over the resources of a `ResourceList`.
unfoldable pub name_resources :
    List ResourceInfo → AliasRegistry → List ListedResource × AliasRegistry
name_resources [] r = ([], r)
name_resources (res ∷ more) r =
    let (alias, named) = add_resource res.id r in
    let (listed, r') = name_resources more (cache_info res named) in
    (record { alias = alias; id = res.id; name = res.name; size = res.size } ∷ listed, r')

-- What the clock and the file system answer while a message is handled.
pub record Answers : Type 0 where
  pub now : ℕ
  pub later : ℕ
  pub writes : ℕ → Option Error
  pub renamed : Option Error
  pub call_panics : Bool

-- `ResourceChunk`
unfoldable pub handle_chunk : Answers → ℕ → ResourceId → List ℕ → DaemonContext → DaemonContext
handle_chunk w request_id id chunk ctx =
    let (result, m) = process_chunk id chunk ctx.download_mgr in
    let ctx' = record ctx { download_mgr = m } in
    elim result [
      | err e ↦ ctx'
      | ok complete ↦
          let (report, ts) =
            update_progress request_id (length chunk) w.now w.later ctx.transfer_mgr in
          let ctx2 = record ctx' { transfer_mgr = ts } in
          elim report [
            | none ↦ ctx2
            | some (bytes, total, mbps) ↦ elim (Requests.get request_id ctx.req_tracker) [
              | none ↦ ctx2
              | some sender ↦ respond sender (download_progress bytes total mbps) ctx2
            ]
          ]
    ]

-- `elapsed().as_secs_f64()` of an instant in nanoseconds.
unfoldable pub elapsed_secs : ℕ → ℕ → F64
elapsed_secs now start = quotient (of_integer (now - start)) (of_integer 1_000_000_000)

-- `ResourceEnd`
unfoldable pub handle_end : Answers → ℕ → ResourceId → DaemonContext → DaemonContext
unfolding elapsed_secs
handle_end w request_id id ctx =
    let (result, m, d) = complete_download w.writes w.renamed id ctx.download_mgr ctx.disk in
    let ctx' = record ctx { download_mgr = m; disk = d } in
    let (transfer, ts) = Transfers.complete request_id ctx.transfer_mgr in
    let ctx2 = record ctx' { transfer_mgr = ts } in
    elim result [
      | err e ↦ ctx'
      | ok u ↦ elim transfer [
        | none ↦ ctx2
        | some t ↦
            finish_request request_id
              (download_complete t.bytes_transferred (elapsed_secs w.now t.start_time)) ctx2
      ]
    ]

unfoldable pub handle_message : Answers → PeerId → Message → DaemonContext → DaemonContext
handle_message w peer_id (list_resources request_id) ctx =
    let (r, m) =
      send peer_id (resource_list request_id (Store.list_resources ctx.store)) ctx.manager in
    record ctx { manager = m }
handle_message w peer_id (resource_list request_id resources) ctx =
    let (alias, named) = add_peer peer_id ctx.aliases in
    let (listed, r) = name_resources resources named in
    finish_request request_id (listing listed) (record ctx { aliases = r })
handle_message w peer_id (download_resource request_id id) ctx =
    elim (Store.get_path id ctx.store) [
      | none ↦ ctx
      | some path ↦
          let upload : Upload = record {
            peer_id = peer_id;
            request_id = request_id;
            id = id;
            file_path = path;
          } in
          record ctx { uploads = ctx.uploads ++ (upload ∷ []) }
    ]
handle_message w peer_id (resource_chunk request_id id offset chunk) ctx =
    handle_chunk w request_id id chunk ctx
handle_message w peer_id (resource_end request_id id) ctx = handle_end w request_id id ctx
handle_message w peer_id (hello public_key nonce) ctx = ctx
handle_message w peer_id (hello_proof signature) ctx = ctx

-- The thread of an upload, for the bytes that each read gave: the end is announced when the file is
-- over, and nothing more is sent after an error.
unfoldable pub stream_file :
    Upload → ℕ → List (List ℕ) → (at_end : Option Error) → ConnectionManager → ConnectionManager
stream_file u offset [] (some e) m = m
stream_file u offset [] none m = (send u.peer_id (resource_end u.request_id u.id) m).1
stream_file u offset (bytes ∷ reads) at_end m =
    let (result, m') = send u.peer_id (resource_chunk u.request_id u.id offset bytes) m in
    let more = stream_file u ((offset + length bytes) % 2 ^ 64) reads at_end m' in
    elim result [ err e ↦ m' | ok v ↦ more ]
