-- ===== src/EventHandler/Sharing/Fetched.antt =====
-- src/event_handler.rs: what the node that asked for a file makes of the messages that bring it.
use parsip.Base.{
  false, ℕ, ◌+◌, ◌%◌, ◌^◌, ◌≡◌, sym, subst, ap, ◌∙◌, List, [], ◌∷◌, ◌++◌, none, some, length,
  length-append, append_assoc, append-nil, Option-both, concat, arith,
}
use parsip.Map.{lookup, lookup-insert, lookup-remove, nat_key}
use parsip.Identity.{PeerId}
use parsip.Protocol.{Message, ResourceId, ResourceInfo, resource_chunk, resource_end}
use parsip.Control.{ControlResponse, F64, download_complete, download_progress}
use parsip.Resource.Keys.{resource_key}
use parsip.Disk.{join, read_path}
use parsip.RequestTracker.{get, complete}
use parsip.Resource.Download.{process_chunk, complete_download}
use parsip.Resource.Download.Running.{
  IsRunning, Arrived, arrives-IsRunning, works-IsRunning, complete_download-IsFinished, work,
}
use parsip.Resource.Transfer.{
  Transfer, TransferManager, Progress, update_progress, advance_transfer,
}
use parsip.Resource.Transfer as Transfers
use parsip.EventHandler.{
  DaemonContext, Answers, Upload, respond, finish_request, handle_chunk, handle_end, handle_message,
  elapsed_secs,
}
use parsip.EventHandler.Sharing.Sent.{upload_messages}

-- The download of `info`, of which `all` has come, belongs to a request that waits.
pub record IsFetching (info : ResourceInfo) (request_id sender : ℕ) (dir all : List ℕ)
    (ctx : DaemonContext) : Type 0 where
  pub transfer : Transfer
  pub running : IsRunning info dir all ctx.download_mgr ctx.disk
  pub found : lookup request_id ctx.transfer_mgr ≡ some transfer
  pub counted : transfer.bytes_transferred ≡ length all % 2 ^ 64
  pub waits : lookup request_id ctx.req_tracker.pending_requests ≡ some sender

-- The transfer stands in the table, with the count of what has come.
IsCounted : ℕ → ℕ → TransferManager → Type 0
IsCounted request_id n m =
    (t : Transfer) × (lookup request_id m ≡ some t) × (t.bytes_transferred ≡ n % 2 ^ 64)

update_progress-IsCounted :
    (request_id n added now later : ℕ) (m : TransferManager)
    → IsCounted request_id n m
    → IsCounted request_id (n + added) (update_progress request_id added now later m).1
unfolding IsCounted update_progress advance_transfer
update_progress-IsCounted request_id n added now later m (t, found, counted) =
    let (t', report) = advance_transfer added now later t in
    (t', ground (arith, found, lookup-insert request_id request_id t' m), ground (arith, counted))

handle_chunk-IsFetching :
    (w : Answers) (info : ResourceInfo) (request_id sender : ℕ) (dir all chunk : List ℕ)
    (ctx : DaemonContext)
    → IsFetching info request_id sender dir all ctx
    → IsFetching info request_id sender dir
        (all ++ chunk)
        (handle_chunk w request_id info.id chunk ctx)
unfolding handle_chunk IsCounted Arrived respond
handle_chunk-IsFetching w info request_id sender dir all chunk ctx v =
    let P = IsFetching info request_id sender dir (all ++ chunk) in
    let (answer, running) =
      arrives-IsRunning info dir all chunk ctx.download_mgr ctx.disk v.running in
    let (t, found, counted) =
      update_progress-IsCounted request_id (length all) (length chunk) w.now w.later
        ctx.transfer_mgr (v.transfer, v.found, v.counted) in
    let (report, ts) = update_progress request_id (length chunk) w.now w.later ctx.transfer_mgr in
    let m = (process_chunk info.id chunk ctx.download_mgr).1 in
    let ctx2 = record ctx { download_mgr = m; transfer_mgr = ts } in
    let after : (rs : List (ℕ × ControlResponse)) → P (record ctx2 { responses = rs }) = λ rs.
      record {
        transfer = t;
        running = running;
        found = found;
        counted = counted ∙ ap (λ n. n % 2 ^ 64) (sym (length-append all chunk));
        waits = v.waits;
      } in
    let shown : DaemonContext = elim report [
      | none ↦ ctx2
      | some (bytes, total, mbps) ↦ elim (get request_id ctx.req_tracker) [
        | none ↦ ctx2
        | some s ↦ respond s (download_progress bytes total mbps) ctx2
      ]
    ] in
    let it : handle_chunk w request_id info.id chunk ctx ≡ shown = ground (arith, answer) in
    subst P (sym it) (
      Option-both P report _ _ (after ctx.responses) (λ x.
        Option-both P (get request_id ctx.req_tracker) _ _ (after ctx.responses) (λ s. after _)))

-- The file is there under its name, and the request has been answered and waits no more.
pub record IsFetched (info : ResourceInfo) (request_id sender : ℕ) (dir all : List ℕ)
    (ctx : DaemonContext) : Type 0 where
  pub content : read_path (join dir info.name) ctx.disk ≡ some all
  pub ended : lookup info.id ctx.download_mgr.downloads ≡ none
  pub transferred : lookup request_id ctx.transfer_mgr ≡ none
  pub waits_no_more : lookup request_id ctx.req_tracker.pending_requests ≡ none
  pub earlier : List (ℕ × ControlResponse)
  pub secs : F64
  pub answered :
      ctx.responses ≡ earlier ++ ((sender, download_complete (length all % 2 ^ 64) secs) ∷ [])

quiet : ℕ → ℕ → Answers
quiet now later = record {
  now = now;
  later = later;
  writes = λ n. none;
  renamed = none;
  call_panics = false;
}

handle_end-IsFetched :
    (now later : ℕ) (info : ResourceInfo) (request_id sender : ℕ) (dir all : List ℕ)
    (ctx : DaemonContext)
    → IsFetching info request_id sender dir all ctx
    → IsFetched info request_id sender dir all (handle_end (quiet now later) request_id info.id ctx)
unfolding handle_end finish_request respond complete Transfers.complete quiet
handle_end-IsFetched now later info request_id sender dir all ctx v =
    let f = complete_download-IsFinished info dir all ctx.download_mgr ctx.disk v.running in
    let secs = elapsed_secs now v.transfer.start_time in
    let (r, m, d) = complete_download (λ n. none) none info.id ctx.download_mgr ctx.disk in
    let last : ℕ × ControlResponse =
      (sender, download_complete v.transfer.bytes_transferred secs) in
    let tracker = (complete request_id ctx.req_tracker).1 in
    let after : DaemonContext = record ctx {
      download_mgr = m;
      disk = d;
      transfer_mgr = (Transfers.complete request_id ctx.transfer_mgr).1;
      req_tracker = tracker;
      responses = ctx.responses ++ (last ∷ []);
    } in
    let it : handle_end (quiet now later) request_id info.id ctx ≡ after =
      ground (arith, f.answer, v.found, v.waits) in
    subst (IsFetched info request_id sender dir all) (sym it) (record {
      content = f.content;
      ended = f.ended;
      transferred = ground (arith, lookup-remove request_id request_id ctx.transfer_mgr);
      waits_no_more =
          ground (arith, lookup-remove request_id request_id ctx.req_tracker.pending_requests);
      earlier = ctx.responses;
      secs = secs;
      answered = ap (λ n. ctx.responses ++ ((sender, download_complete n secs) ∷ [])) v.counted;
    })

-- While a file comes in: a message of the peer that sends it is handled, at these readings of the
-- clock, or the thread that writes the file takes a step. No write fails.
pub data Step : Type 0 where
  hears : (now later : ℕ) → Message → Step
  works : Step

unfoldable pub step : PeerId → ResourceId → Step → DaemonContext → DaemonContext
unfolding quiet
step p id (hears now later m) ctx = handle_message (quiet now later) p m ctx
step p id works ctx =
    let (m, d) = work id ctx.download_mgr ctx.disk in record ctx { download_mgr = m; disk = d }

unfoldable pub steps : PeerId → ResourceId → List Step → DaemonContext → DaemonContext
steps p id [] ctx = ctx
steps p id (s ∷ ss) ctx = steps p id ss (step p id s ctx)

unfoldable pub heard : List Step → List Message
heard [] = []
heard (hears now later m ∷ ss) = m ∷ heard ss
heard (works ∷ ss) = heard ss

module _ (p : PeerId) (info : ResourceInfo) (sender : ℕ) (dir : List ℕ) where
  works-IsFetching :
      (request_id : ℕ) (all : List ℕ) (ctx : DaemonContext)
      → IsFetching info request_id sender dir all ctx
      → IsFetching info request_id sender dir all (step p info.id works ctx)
  unfolding step
  works-IsFetching request_id all ctx v = record {
    transfer = v.transfer;
    running = works-IsRunning info dir all ctx.download_mgr ctx.disk v.running;
    found = v.found;
    counted = v.counted;
    waits = v.waits;
  }

  -- Once the download is over its thread does nothing.
  idle-IsFetched :
      (request_id : ℕ) (all : List ℕ) (ss : List Step) (ctx : DaemonContext)
      → heard ss ≡ []
      → IsFetched info request_id sender dir all ctx
      → IsFetched info request_id sender dir all (steps p info.id ss ctx)
  unfolding steps step heard work
  idle-IsFetched request_id all [] ctx e v = v
  idle-IsFetched request_id all (hears now later m ∷ ss) ctx e v = absurd (ground (arith, e))
  idle-IsFetched request_id all (works ∷ ss) ctx e v = idle-IsFetched request_id all ss _ e (
      let it : step p info.id works ctx ≡ ctx = ground (arith, v.ended) in
      subst (IsFetched info request_id sender dir all) (sym it) v)

  -- However the steps of the thread fall between the messages of an upload, they bring the file.
  pub steps-IsFetched :
      (u : Upload) (offset : ℕ) (reads : List (List ℕ)) (all : List ℕ) (ss : List Step)
      (ctx : DaemonContext)
      → u.id ≡ info.id
      → heard ss ≡ upload_messages u offset reads
      → IsFetching info u.request_id sender dir all ctx
      → IsFetched info u.request_id sender dir (all ++ concat reads) (steps p info.id ss ctx)
  unfolding steps step heard upload_messages concat handle_message
  steps-IsFetched u offset [] all [] ctx same e v = absurd (ground (arith, e))
  steps-IsFetched u offset (bytes ∷ reads) all [] ctx same e v = absurd (ground (arith, e))
  steps-IsFetched u offset reads all (works ∷ ss) ctx same e v =
      steps-IsFetched u offset reads all ss _ same e (works-IsFetching u.request_id all ctx v)
  steps-IsFetched u offset [] all (hears now later m ∷ ss) ctx same e v =
      let ends : m ≡ resource_end u.request_id info.id = ground (arith, e, same) in
      let quiet_yet : heard ss ≡ [] = ground (arith, e) in
      let after = handle_end (quiet now later) u.request_id info.id ctx in
      let fetched = handle_end-IsFetched now later info u.request_id sender dir all ctx v in
      subst
        (λ m.
          IsFetched info u.request_id sender dir (all ++ [])
            (steps p info.id ss (step p info.id (hears now later m) ctx)))
        (sym ends)
        (subst (λ xs. IsFetched info u.request_id sender dir xs (steps p info.id ss after))
          (sym (append-nil all)) (idle-IsFetched u.request_id all ss _ quiet_yet fetched))
  steps-IsFetched u offset (bytes ∷ reads) all (hears now later m ∷ ss) ctx same e v =
      let next = (offset + length bytes) % 2 ^ 64 in
      let comes : m ≡ resource_chunk u.request_id info.id offset bytes = ground (arith, e, same) in
      let others : heard ss ≡ upload_messages u next reads = ground (arith, e) in
      let after = handle_chunk (quiet now later) u.request_id info.id bytes ctx in
      let more =
        handle_chunk-IsFetching (quiet now later) info u.request_id sender dir all bytes ctx v in
      subst
        (λ m.
          IsFetched info u.request_id sender dir (all ++ (bytes ++ concat reads))
            (steps p info.id ss (step p info.id (hears now later m) ctx)))
        (sym comes)
        (subst (λ xs. IsFetched info u.request_id sender dir xs (steps p info.id ss after))
          (append_assoc all bytes (concat reads))
          (steps-IsFetched u next reads (all ++ bytes) ss _ same others more))
