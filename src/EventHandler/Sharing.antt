-- ===== src/EventHandler/Sharing.antt =====
-- src/event_handler.rs: a file on its way from the node that shares it to the one that asks for it.
pub mod Sent
pub mod Fetched
use parsip.Base.{
  ℕ, ◌+◌, ◌%◌, ◌^◌, ◌≡◌, refl, sym, subst, ap, ◌∙◌, List, [], ◌∷◌, ◌++◌, none, some, map, All,
  concat, some_injective, arith,
}
use parsip.Io.{Error, Result, ok}
use parsip.Map.{lookup, lookup-insert, nat_key}
use parsip.Identity.{PeerId, peer_key}
use parsip.Protocol.{Frame, Message, ResourceInfo, download_resource, IsArray, IsU32}
use parsip.Protocol.Serialize.{frame_of}
use parsip.Peer as Peers
use parsip.Peer.{PeerEvent}
use parsip.Connection.Reader.{events, start_read_loop}
use parsip.Connection.Link.{wire_of, start_read_loop-wire_of}
use parsip.Disk.{Disk}
use parsip.AliasRegistry.{get_peer, get_resource, get_info}
use parsip.RequestTracker.{take_id, register}
use parsip.Resource.Keys.{resource_key}
use parsip.Resource.Store.{get_path}
use parsip.Resource.Download.{start_download}
use parsip.Resource.Download.Running.{start_download-IsRunning}
use parsip.Resource.Transfer as Transfers
use parsip.Resource.Transfer.{Transfer}
use parsip.EventHandler.{DaemonContext, Answers, Upload, handle_message, stream_file}
use parsip.EventHandler.Dispatch.{
  ControlAnswers, handle_get_resource, begin_download, after_start, begin_request,
}
use parsip.EventHandler.Sharing.Sent.{
  Reaches, Sends, send-Reaches, upload_messages, stream_file-Reaches, IsRead,
  upload_messages-IsCarried,
}
use parsip.EventHandler.Sharing.Fetched.{IsFetching, IsFetched, Step, steps, heard, steps-IsFetched}

-- The same messages stand behind the same events.
messages_of : List PeerEvent → List Message
messages_of [] = []
messages_of (Peers.message p m ∷ es) = m ∷ messages_of es
messages_of (_ ∷ es) = messages_of es

messages_of-events : (p : PeerId) (ms : List Message) → messages_of (events p ms) ≡ ms
unfolding messages_of
messages_of-events p [] = refl
messages_of-events p (m ∷ ms) = ap (◌∷◌ m) (messages_of-events p ms)

-- What `GetResource` does for a known resource of a known peer that is connected.
Asks : PeerId → ResourceInfo → ℕ → List Frame → DaemonContext → DaemonContext → Type 0
Asks p info sender fs ctx ctx' =
    let n = ctx.req_tracker.next_id in
    Reaches p (fs ++ (frame_of (download_resource n info.id) ∷ [])) ctx'.manager
    × IsFetching info n sender ctx.download_mgr.downloads_dir [] ctx'

after_start-Asks :
    (w : ControlAnswers) (p : PeerId) (info : ResourceInfo) (sender : ℕ) (fs : List Frame)
    (ctx : DaemonContext)
    → lookup info.id ctx.download_mgr.downloads ≡ none
    → w.created ≡ none
    → Reaches p fs ctx.manager
    → Asks p info sender fs ctx (begin_download w p info.id info sender ctx)
unfolding begin_download after_start begin_request take_id register Transfers.register Asks
after_start-Asks w p info sender fs ctx free created v =
    let n = ctx.req_tracker.next_id in
    let (r, m, d) = start_download none info ctx.download_mgr ctx.disk in
    let (answer, running) = start_download-IsRunning info ctx.download_mgr ctx.disk free in
    let (went, reaches) = send-Reaches p fs (download_resource n info.id) ctx.manager v in
    let transfer : Transfer = record {
      request_id = n;
      peer_id = p;
      resource_id = info.id;
      bytes_transferred = 0;
      bytes_total = info.size;
      start_time = w.started;
      last_report_time = w.reported;
      last_report_bytes = 0;
    } in
    let started = record ctx { download_mgr = m; disk = d } in
    let it : begin_download w p info.id info sender ctx
        ≡ after_start w p info.id info sender (ok tt) started =
      ground (arith, created, answer) in
    subst (Asks p info sender fs ctx) (sym it) (
      reaches,
      record {
        transfer = transfer;
        running = running;
        found = ground (arith, lookup-insert n n transfer ctx.transfer_mgr);
        counted = refl;
        waits = ground (arith, lookup-insert n n sender ctx.req_tracker.pending_requests);
      },
    )

-- The upload that a request starts.
abbrev pub upload_of : PeerId → ℕ → ResourceInfo → List ℕ → Upload
upload_of me request_id info path = record {
  peer_id = me;
  request_id = request_id;
  id = info.id;
  file_path = path;
}

-- A file goes from the node that shares it to the one that asks for it. `me` asks for a resource that
-- it knows, and does not download yet, by its short name at a peer that it has a connection to; the
-- peer shares it and has a connection back. `reads` is what the peer reads of the file, by the
-- buffer, without an error; the temporary file can be created, the number of the request has 32 bits,
-- and the identifier 32 bytes. Then: the request goes into the channel to the peer; it makes the
-- peer start an upload, whose messages go into the channel back; and when the reader reports
-- what the bytes of these messages say, and the event loop handles it, however the steps of the
-- thread that writes the file fall in between, if no write and not the last renaming fails: the path
-- that comes of joining the directory for downloads and the announced name (which is not in that
-- directory for an absolute name or one with `..`) leads to exactly the bytes that were read,
-- and the request has been answered with their number, modulo 2 ^ 64, and waits no more.
pub handle_get_resource-shares :
    (w : ControlAnswers) (v : Answers) (peer_alias resource_alias path : List ℕ) (sender : ℕ)
    (me p : PeerId) (info : ResourceInfo) (reads : List (List ℕ)) (fs gs : List Frame)
    (ctx there : DaemonContext) (e : Error) (ss : List Step)
    → get_peer peer_alias ctx.aliases ≡ some p
    → get_resource resource_alias ctx.aliases ≡ some info.id
    → get_info info.id ctx.aliases ≡ some info
    → lookup info.id ctx.download_mgr.downloads ≡ none
    → w.created ≡ none
    → IsU32 ctx.req_tracker.next_id
    → IsArray 32 info.id.bytes
    → All IsRead reads
    → Reaches p fs ctx.manager
    → get_path info.id there.store ≡ some path
    → Reaches me gs there.manager
    → start_read_loop p (record {
      bytes =
          wire_of (
            map frame_of
              (upload_messages (upload_of me ctx.req_tracker.next_id info path) 0 reads));
      ends = e;
    })
      ≡ some (events p (heard ss))
    → let n = ctx.req_tracker.next_id in
      let u = upload_of me n info path in
      let asked = handle_get_resource w peer_alias resource_alias sender ctx in
      let request = download_resource n info.id in
      let serving = handle_message v me request there in
      Reaches p (fs ++ (frame_of request ∷ [])) asked.manager
      × (serving.uploads ≡ there.uploads ++ (u ∷ []))
      × Reaches me
          (gs ++ map frame_of (upload_messages u 0 reads))
          (stream_file u 0 reads none serving.manager)
      × IsFetched info n sender ctx.download_mgr.downloads_dir
          (concat reads)
          (steps p info.id ss asked)
unfolding handle_get_resource handle_message Asks
handle_get_resource-shares w v peer_alias resource_alias path sender me p info reads fs gs ctx there
      e ss known_peer known_resource known_info free created number id bytes reaches shared back
      heard_all =
    let n = ctx.req_tracker.next_id in
    let u = upload_of me n info path in
    let messages = upload_messages u 0 reads in
    let dir = ctx.download_mgr.downloads_dir in
    let begun = begin_download w p info.id info sender ctx in
    let (sent, fetching) = after_start-Asks w p info sender fs ctx free created reaches in
    let asks : handle_get_resource w peer_alias resource_alias sender ctx ≡ begun =
      ground (arith, known_peer, known_resource, known_info) in
    let serves : handle_message v me (download_resource n info.id) there
        ≡ record there { uploads = there.uploads ++ (u ∷ []) } =
      ground (arith, shared) in
    let reported =
      start_read_loop-wire_of p messages e
        (upload_messages-IsCarried u 0 reads number id (omega arith) bytes) in
    let same_events : events p (heard ss) ≡ events p messages =
      some_injective _ _ (sym heard_all ∙ reported) in
    let all_heard : heard ss ≡ messages =
      sym (messages_of-events p (heard ss))
      ∙ ap messages_of same_events
      ∙ messages_of-events p messages in
    (
      subst
          (λ (x : DaemonContext).
            Reaches p (fs ++ (frame_of (download_resource n info.id) ∷ [])) x.manager)
          (sym asks) sent,
      ap (λ x. x.uploads) serves,
      stream_file-Reaches u 0 reads gs _
          (subst (λ (x : DaemonContext). Reaches me gs x.manager) (sym serves) back),
      subst (λ x. IsFetched info n sender dir (concat reads) (steps p info.id ss x)) (sym asks)
          (steps-IsFetched p info sender dir u 0 reads [] ss begun refl all_heard fetching),
    )
