-- ===== src/Resource/Download/Content.antt =====
-- src/resource/download.rs: what a download leaves on the disk.
use parsip.Base.{
  ℕ, ◌%◌, ◌^◌, ◌≡◌, sym, List, [], ◌∷◌, ◌++◌, append_assoc, append-nil, subst, none, leb, length,
}
use parsip.Io.{Error, Result, ok}
use parsip.Map.{lookup, nat_key, bytes_key}
use parsip.Protocol.{ResourceId, ResourceInfo}
use parsip.Resource.Keys.{resource_key}
use parsip.Disk.{Disk}
use parsip.Resource.Download.{DownloadManager, start_download, process_chunk, complete_download}
use parsip.Resource.Download.Running.{
  IsRunning, Arrived, IsFinished, work, start_download-IsRunning, arrives-IsRunning,
  works-IsRunning, complete_download-IsFinished,
}

-- What happens while a download is in progress: a chunk arrives, or the thread takes a step.
pub data Event : Type 0 where
  arrives : List ℕ → Event
  works : Event

unfoldable pub act : ResourceId → Event → DownloadManager × Disk → DownloadManager × Disk
unfolding work
act id (arrives chunk) (m, d) = ((process_chunk id chunk m).1, d)
act id works (m, d) = work id m d

unfoldable pub act_all : ResourceId → List Event → DownloadManager × Disk → DownloadManager × Disk
act_all id [] s = s
act_all id (e ∷ es) s = act_all id es (act id e s)

-- The bytes that arrived, in the order of their chunks.
unfoldable pub arrived : List Event → List ℕ
arrived [] = []
arrived (arrives chunk ∷ es) = chunk ++ arrived es
arrived (works ∷ es) = arrived es

act_all-IsRunning :
    (info : ResourceInfo) (dir all : List ℕ) (es : List Event) (m : DownloadManager) (d : Disk)
    → IsRunning info dir all m d
    → let (m', d') = act_all info.id es (m, d) in IsRunning info dir (all ++ arrived es) m' d'
unfolding act_all arrived act Arrived
act_all-IsRunning info dir all [] m d v =
    subst (λ (xs : List ℕ). IsRunning info dir xs m d) (sym (append-nil all)) v
act_all-IsRunning info dir all (arrives chunk ∷ es) m d v =
    let m' = (process_chunk info.id chunk m).1 in
    let (answer, v') = arrives-IsRunning info dir all chunk m d v in
    let (m2, d2) = act_all info.id es (m', d) in
    subst (λ (xs : List ℕ). IsRunning info dir xs m2 d2) (append_assoc all chunk (arrived es))
      (act_all-IsRunning info dir (all ++ chunk) es m' d v')
act_all-IsRunning info dir all (works ∷ es) m d v =
    let (m', d') = work info.id m d in
    act_all-IsRunning info dir all es m' d' (works-IsRunning info dir all m d v)

-- A resource is downloaded: the download starts, chunks arrive and the thread works in any order,
-- and the end is announced. No write fails.
unfoldable pub downloaded :
    ResourceInfo
    → List Event
    → DownloadManager
    → Disk
    → Result (Unit {0}) Error × DownloadManager × Disk
downloaded info es m d =
    let (r, m1, d1) = start_download none info m d in
    let (m2, d2) = act_all info.id es (m1, d1) in complete_download (λ n. none) none info.id m2 d2

-- Of a resource that is not being downloaded yet, when no file operation fails: however the steps of
-- the writing thread fall between the chunks, `complete_download` answers with success, the final
-- name leads to the chunks' bytes in their order, and the download is not in progress any more.
pub downloaded-IsFinished :
    (info : ResourceInfo) (es : List Event) (m : DownloadManager) (d : Disk)
    → lookup info.id m.downloads ≡ none
    → IsFinished info m.downloads_dir (arrived es) (downloaded info es m d)
unfolding downloaded
downloaded-IsFinished info es m d e =
    let (r, m1, d1) = start_download none info m d in
    let (answer, v) = start_download-IsRunning info m d e in
    let (m2, d2) = act_all info.id es (m1, d1) in
    complete_download-IsFinished info m.downloads_dir (arrived es) m2 d2
      (act_all-IsRunning info m.downloads_dir [] es m1 d1 v)

-- After a download of a resource that was not being downloaded has started, and whatever chunks came
-- and steps of the writing thread succeeded since, `process_chunk` accepts the next chunk, and says
-- that the download is complete exactly when the bytes so far, counted by a u64, reach the size.
process_chunk-answer :
    (info : ResourceInfo) (es : List Event) (chunk : List ℕ) (m : DownloadManager) (d : Disk)
    → lookup info.id m.downloads ≡ none
    → let (r, m1, d1) = start_download none info m d in
      let (m2, d2) = act_all info.id es (m1, d1) in
      (process_chunk info.id chunk m2).0
      ≡ ok (leb info.size (length (arrived es ++ chunk) % 2 ^ 64))
unfolding Arrived
process_chunk-answer info es chunk m d e =
    let (r, m1, d1) = start_download none info m d in
    let (answer, v) = start_download-IsRunning info m d e in
    let (m2, d2) = act_all info.id es (m1, d1) in
    let (result, v') =
      arrives-IsRunning info m.downloads_dir (arrived es) chunk m2 d2
        (act_all-IsRunning info m.downloads_dir [] es m1 d1 v) in
    result
