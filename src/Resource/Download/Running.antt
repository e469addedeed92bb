-- ===== src/Resource/Download/Running.antt =====
-- src/resource/download.rs: a download in progress, and its end.
use parsip.Base.{
  concat, ℕ, ◌+◌, ◌%◌, ◌^◌, ◌≡◌, refl, sym, ap, ◌∙◌, List, [], ◌∷◌, ◌++◌, append-nil, subst, Option,
  none, some, Option-cases, Bool, leb, length, length-append, inl, inr, arith,
}
use parsip.Io.{Error, Result, ok}
use parsip.Map.{HashMap, lookup, insert, remove, lookup-insert, lookup-remove, nat_key, bytes_key}
use parsip.Protocol.{ResourceId, ResourceInfo}
use parsip.Resource.Keys.{resource_key}
use parsip.Disk.{Disk, join, open_truncated, rename, content_of, read_path}
use parsip.Resource.Download.Thread.{
  Holds, send-Holds, writer_step-waiting, Flushed, join_writer-Flushed,
}
use parsip.Resource.Download.{
  ActiveDownload, DownloadManager, writer_step, join_writer, start_download, process_chunk,
  finish_download, complete_download, temp_name,
}

-- The thread of the download, if there is one, takes a step, and its writes succeed.
unfoldable pub work : ResourceId → DownloadManager → Disk → DownloadManager × Disk
work id m d = elim (lookup id m.downloads) [
  | none ↦ (m, d)
  | some download ↦
      let (w, d') = writer_step none download.writer d in
      (record m { downloads = insert id (record download { writer = w }) m.downloads }, d')
]

lookup-insert-same :
    (id : ResourceId) (a : ActiveDownload) (m : HashMap ResourceId ActiveDownload)
    → lookup id (insert id a m) ≡ some a
lookup-insert-same id a m = ground (arith, lookup-insert id id a m)

-- The download of `info`, of which `all` has come; the file has its temporary name.
pub record IsRunning (info : ResourceInfo) (dir : List ℕ) (all : List ℕ) (m : DownloadManager)
    (d : Disk) : Type 0 where
  pub download : ActiveDownload
  pub found : lookup info.id m.downloads ≡ some download
  pub same_dir : m.downloads_dir ≡ dir
  pub same_info : download.info ≡ info
  pub named : lookup download.temp_path d.names ≡ some download.writer.file
  pub counted : download.received_bytes ≡ length all % 2 ^ 64
  pub holds : Holds all download.writer d

open_truncated-fresh :
    (path : List ℕ) (d : Disk)
    → let (file, d') = open_truncated path d in
      (lookup path d'.names ≡ some file) × (content_of file d' ≡ [])
unfolding open_truncated
open_truncated-fresh path d = elim (Option-cases (lookup path d.names)) [
  | inl e ↦ ground (
    arith,
    e,
    lookup-insert path path d.next_file d.names,
    lookup-insert d.next_file d.next_file [] d.contents,
  )
  | inr (f, e) ↦ ground (arith, e, lookup-insert f f [] d.contents)
]

pub start_download-IsRunning :
    (info : ResourceInfo) (m : DownloadManager) (d : Disk)
    → lookup info.id m.downloads ≡ none
    → let (r, m', d') = start_download none info m d in
      (r ≡ ok tt) × IsRunning info m.downloads_dir [] m' d'
unfolding start_download concat
start_download-IsRunning info m d e =
    let (named, fresh) = open_truncated-fresh (join m.downloads_dir (temp_name info.id)) d in
    rw (start_download, e)
      (
        refl,
        record {
          download = _;
          found = lookup-insert-same info.id _ m.downloads;
          same_dir = refl;
          same_info = refl;
          named = named;
          counted = refl;
          holds = record {
            waiting = [];
            queued = refl;
            running = refl;
            promised = append-nil _ ∙ append-nil _ ∙ fresh;
          };
        },
      )

-- What `process_chunk` answers and leaves when `all` has come.
unfoldable pub Arrived :
    ResourceInfo → List ℕ → List ℕ → Disk → Result Bool Error × DownloadManager → Type 0
Arrived info dir all d after =
    (after.0 ≡ ok (leb info.size (length all % 2 ^ 64))) × IsRunning info dir all after.1 d

pub arrives-IsRunning :
    (info : ResourceInfo) (dir all chunk : List ℕ) (m : DownloadManager) (d : Disk)
    → IsRunning info dir all m d
    → Arrived info dir (all ++ chunk) d (process_chunk info.id chunk m)
unfolding process_chunk Arrived
arrives-IsRunning info dir all chunk m d v =
    let w = record v.download.writer { queue = v.download.writer.queue ++ (some chunk ∷ []) } in
    let received = (v.download.received_bytes + length chunk) % 2 ^ 64 in
    let sent = record v.download { received_bytes = received; writer = w } in
    let after : Result Bool Error × DownloadManager = (
      ok (leb v.download.info.size received),
      record m { downloads = insert info.id sent m.downloads },
    ) in
    let runs : process_chunk info.id chunk m ≡ after = ground (arith, v.found, v.holds.running) in
    subst (Arrived info dir (all ++ chunk) d) (sym runs) (
      ap ok (rw (v.same_info, counts) refl),
      record {
        download = sent;
        found = lookup-insert-same info.id sent m.downloads;
        same_dir = v.same_dir;
        same_info = v.same_info;
        named = v.named;
        counted = counts;
        holds = send-Holds all chunk v.download.writer d v.holds;
      },
    )
  where
    counts : (v.download.received_bytes + length chunk) % 2 ^ 64 ≡ length (all ++ chunk) % 2 ^ 64
    counts = rw v.counted (omega (arith, length-append all chunk))

pub works-IsRunning :
    (info : ResourceInfo) (dir all : List ℕ) (m : DownloadManager) (d : Disk)
    → IsRunning info dir all m d
    → let (m', d') = work info.id m d in IsRunning info dir all m' d'
unfolding work
works-IsRunning info dir all m d v =
    let k =
      writer_step-waiting all v.holds.waiting v.download.writer d v.holds.running v.holds.queued
        v.holds.promised in
    rw (work, v.found)
      (record {
        download = _;
        found = lookup-insert-same info.id _ m.downloads;
        same_dir = v.same_dir;
        same_info = v.same_info;
        counted = v.counted;
        named = ap (lookup v.download.temp_path) k.same_names ∙ v.named ∙ ap some (sym k.same_file);
        holds = k.holds;
      })

-- The download has ended well: its file has its final name, and it is not in progress any more.
pub record IsFinished (info : ResourceInfo) (dir all : List ℕ)
    (after : Result (Unit {0}) Error × DownloadManager × Disk) : Type 0 where
  pub answer : after.0 ≡ ok tt
  pub ended : lookup info.id after.1.downloads ≡ none
  pub content : read_path (join dir info.name) after.2 ≡ some all

-- A move that succeeded, onto a name that then leads to `all`.
Moved : List ℕ → List ℕ → Result (Unit {0}) Error × Disk → Type 0
Moved path all (r, d) = (r ≡ ok tt) × (read_path path d ≡ some all)

rename-Moved :
    (from to all : List ℕ) (file : ℕ) (d : Disk)
    → lookup from d.names ≡ some file
    → content_of file d ≡ all
    → Moved to all (rename from to d)
unfolding Moved rename
rename-Moved from to all file d e c =
    ground (arith, e, c, lookup-insert to to file (remove from d.names))

finish_download-Moved :
    (info : ResourceInfo) (dir all : List ℕ) (m : DownloadManager) (d : Disk)
    → (v : IsRunning info dir all m d)
    → Moved (join dir info.name) all (finish_download (λ n. none) none v.download dir d)
unfolding finish_download Flushed
finish_download-Moved info dir all m d v =
    let w = v.download.writer in
    let ended =
      subst
        (λ (q : List (Option (List ℕ))).
          Flushed all w.file d.names (join_writer (λ n. none) (q ++ (none ∷ [])) w d))
        (sym v.holds.queued)
        (join_writer-Flushed all v.holds.waiting w d v.holds.running v.holds.promised) in
    let (r, c, n) = ended in
    let d' = (join_writer (λ n. none) (w.queue ++ (none ∷ [])) w d).1 in
    let final = join dir v.download.info.name in
    let moves : finish_download (λ n. none) none v.download dir d
        ≡ rename v.download.temp_path final d' =
      ground (arith, r) in
    let named = ap (lookup v.download.temp_path) n ∙ v.named in
    let moved = rename-Moved v.download.temp_path final all w.file d' named c in
    subst
      (λ (i : ResourceInfo).
        Moved (join dir i.name) all (finish_download (λ n. none) none v.download dir d))
      v.same_info (subst (Moved final all) (sym moves) moved)

pub complete_download-IsFinished :
    (info : ResourceInfo) (dir all : List ℕ) (m : DownloadManager) (d : Disk)
    → IsRunning info dir all m d
    → IsFinished info dir all (complete_download (λ n. none) none info.id m d)
unfolding complete_download Moved
complete_download-IsFinished info dir all m d v =
    let (answer, content) = finish_download-Moved info dir all m d v in
    rw (complete_download, v.found, v.same_dir)
      (record {
        answer = answer;
        ended = ground (arith, lookup-remove info.id info.id m.downloads);
        content = content;
      })
