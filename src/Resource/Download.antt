-- ===== src/Resource/Download.antt =====
-- src/resource/download.rs: the downloads in progress. Each has a thread that owns the file; what
-- the thread has not received yet stands in its channel.
pub mod Thread
pub mod Running
pub mod Content
use parsip.Base.{
  ℕ, suc, ◌+◌, ◌%◌, ◌^◌, ◌*◌, List, [], ◌∷◌, ◌++◌, Option, none, some, Bool, true, false, ltb, leb,
  length, ◌||◌, String, if◌then◌else◌,
}
use parsip.Text.{text, decimal}
use parsip.Io.{Error, ErrorKind, Result, ok, err, already_exists, broken_pipe, not_found}
use parsip.Map.{HashMap, lookup, insert, remove}
use parsip.Protocol.{ResourceId, ResourceInfo}
use parsip.Resource.Keys.{resource_key}
use parsip.Disk.{Disk, join, append_to, open_truncated, rename, remove_file}

-- The writer thread: what waits in its channel (`none` asks it to finish), its file, what its
-- `BufWriter` still holds, and its result once it has returned.
pub record Writer : Type 0 where
  pub queue : List (Option (List ℕ))
  pub file : ℕ
  pub buffered : List ℕ
  pub returned : Option (Result (Unit {0}) Error)

pub record ActiveDownload : Type 0 where
  pub info : ResourceInfo
  pub received_bytes : ℕ
  pub temp_path : List ℕ
  pub writer : Writer

-- `detached` are the threads of downloads that were cancelled, which the manager does not join.
pub record DownloadManager : Type 0 where
  pub downloads : HashMap ResourceId ActiveDownload
  pub detached : List Writer
  pub downloads_dir : List ℕ

unfoldable pub new : List ℕ → DownloadManager
new downloads_dir = record { downloads = []; detached = []; downloads_dir = downloads_dir }

abbrev pub io_error : ErrorKind → String → Error
io_error kind message = record { kind = kind; message = text message }

-- `{:?}` of a list of bytes, without its brackets.
comma_separated : List ℕ → List ℕ
comma_separated [] = []
comma_separated (b ∷ []) = decimal b
comma_separated (b ∷ bs) = decimal b ++ (text ", " ++ comma_separated bs)

unfoldable pub temp_name : ResourceId → List ℕ
unfolding comma_separated
temp_name id = text ".tmp_ResourceId([" ++ (comma_separated id.bytes ++ text "])")

-- `BufWriter::with_capacity(256 * 1024, ..)`
abbrev pub buffer_size : ℕ
buffer_size = 256 * 1024

-- `write_all` into the buffer: what it holds is written out first if the bytes do not fit beside it,
-- and bytes that would fill it alone go past it. `answer` is the error of a write to the file, if
-- one is made; a failed write is taken to leave the file as it was.
unfoldable pub buffer_write : Option Error → List ℕ → Writer → Disk → Writer × Disk
buffer_write answer bytes w d =
    let overflows = ltb buffer_size (length w.buffered + length bytes) in
    let direct = leb buffer_size (length bytes) in
    let flushed = append_to w.file w.buffered d in
    let buffering : Writer × Disk =
      if overflows
      then (record w { buffered = bytes }, flushed)
      else (record w { buffered = w.buffered ++ bytes }, d) in
    let passing : Writer × Disk = (record w { buffered = [] }, append_to w.file bytes flushed) in
    let written = if direct then passing else buffering in
    let failed : Error → Writer × Disk = λ e. (record w { returned = some (err e) }, d) in
    elim answer [ some e ↦ if overflows || direct then failed e else written | none ↦ written ]

-- `writer.flush()?; Ok(())`
unfoldable pub flush_writer : Option Error → Writer → Disk → Writer × Disk
flush_writer (some e) w d = (record w { returned = some (err e) }, d)
flush_writer none w d =
    (record w { buffered = []; returned = some (ok tt) }, append_to w.file w.buffered d)

-- One round of the thread's loop, for a command that it has received.
unfoldable pub receive : Option Error → Option (List ℕ) → Writer → Disk → Writer × Disk
unfolding flush_writer
receive answer (some bytes) w d = buffer_write answer bytes w d
receive answer none w d = flush_writer answer w d

-- The thread takes the next command, if there is one and it has not returned.
unfoldable pub writer_step : Option Error → Writer → Disk → Writer × Disk
writer_step answer w d = elim w.returned [
  | some result ↦ (w, d)
  | none ↦ elim w.queue [
    | [] ↦ (w, d)
    | cmd ∷ queue ↦ receive answer cmd (record w { queue = queue }) d
  ]
]

-- `handle.join()`: the thread goes through what is left in its channel. The command to finish is the
-- last one there, so the thread never waits for another one.
unfoldable pub join_writer :
    (ℕ → Option Error) → List (Option (List ℕ)) → Writer → Disk → Result (Unit {0}) Error × Disk
join_writer answers [] w d = elim w.returned [ some result ↦ (result, d) | none ↦ (ok tt, d) ]
join_writer answers (cmd ∷ queue) w d = elim w.returned [
  | some result ↦ (result, d)
  | none ↦
      let (w', d') = receive (answers 0) cmd (record w { queue = queue }) d in
      join_writer (λ n. answers (suc n)) queue w' d'
]

abbrev is_running : Writer → Bool
is_running w = elim w.returned [ none ↦ true | some result ↦ false ]

-- `opened` is the answer of the file system.
unfoldable pub start_download :
    Option Error
    → ResourceInfo
    → DownloadManager
    → Disk
    → Result (Unit {0}) Error × DownloadManager × Disk
start_download opened info m d = elim (lookup info.id m.downloads) [
  | some download ↦
      (err (io_error already_exists "Download already in progress for this resource"), m, d)
  | none ↦
      let temp_path = join m.downloads_dir (temp_name info.id) in
      let (file, d') = open_truncated temp_path d in
      let writer : Writer = record { queue = []; file = file; buffered = []; returned = none } in
      let download : ActiveDownload = record {
        info = info;
        received_bytes = 0;
        temp_path = temp_path;
        writer = writer;
      } in
      elim opened [
        | some e ↦ (err e, m, d)
        | none ↦ (ok tt, record m { downloads = insert info.id download m.downloads }, d')
      ]
]

-- `send` fails once the thread has returned. The count is a u64 of the release build.
unfoldable pub process_chunk :
    ResourceId → List ℕ → DownloadManager → Result Bool Error × DownloadManager
process_chunk id chunk m = elim (lookup id m.downloads) [
  | none ↦ (err (io_error not_found "Download not found"), m)
  | some download ↦
      let received = (download.received_bytes + length chunk) % 2 ^ 64 in
      let writer = record download.writer { queue = download.writer.queue ++ (some chunk ∷ []) } in
      let download' = record download { received_bytes = received; writer = writer } in
      if is_running download.writer
      then (
        ok (leb download.info.size received),
        record m { downloads = insert id download' m.downloads },
      )
      else (err (io_error broken_pipe "Writer thread exited prematurely"), m)
]

-- `renamed` is the answer of the file system to the last step.
unfoldable pub finish_download :
    (ℕ → Option Error)
    → Option Error
    → ActiveDownload
    → List ℕ
    → Disk
    → Result (Unit {0}) Error × Disk
finish_download answers renamed download downloads_dir d =
    let w = download.writer in
    let (result, d') = join_writer answers (w.queue ++ (none ∷ [])) w d in
    let final_path = join downloads_dir download.info.name in
    elim result [
      | err e ↦ (err e, d')
      | ok u ↦ elim renamed [
        | some e ↦ (err e, d')
        | none ↦ rename download.temp_path final_path d'
      ]
    ]

unfoldable pub complete_download :
    (ℕ → Option Error)
    → Option Error
    → ResourceId
    → DownloadManager
    → Disk
    → Result (Unit {0}) Error × DownloadManager × Disk
complete_download answers renamed id m d = elim (lookup id m.downloads) [
  | none ↦ (err (io_error not_found "Download not found"), m, d)
  | some download ↦
      let (result, d') = finish_download answers renamed download m.downloads_dir d in
      (result, record m { downloads = remove id m.downloads }, d')
]

-- The thread is left to itself: its channel is closed, and the name of its file is removed, if the
-- system lets it.
unfoldable pub cancel_download :
    ResourceId → DownloadManager → Disk → Result (Unit {0}) Error × DownloadManager × Disk
cancel_download id m d = elim (lookup id m.downloads) [
  | none ↦ (err (io_error not_found "Download not found"), m, d)
  | some download ↦ (
    ok tt,
    record m { downloads = remove id m.downloads; detached = m.detached ++ (download.writer ∷ []) },
    remove_file download.temp_path d,
  )
]

-- A step of a thread whose channel is closed: it takes what is still in there, and returns when
-- there is nothing left; a `BufWriter` that is dropped writes its buffer out and ignores an error.
unfoldable pub detached_step : Option Error → Writer → Disk → Writer × Disk
detached_step answer w d =
    let dropped = record w { buffered = []; returned = some (ok tt) } in
    elim w.returned [
      | some result ↦ (w, d)
      | none ↦ elim w.queue [
        | [] ↦ elim answer [
          | some e ↦ (dropped, d)
          | none ↦ (dropped, append_to w.file w.buffered d)
        ]
        | cmd ∷ queue ↦ receive answer cmd (record w { queue = queue }) d
      ]
    ]

-- The first of the threads that were left to themselves takes a step, and stands last then.
unfoldable pub detached_steps : Option Error → DownloadManager → Disk → DownloadManager × Disk
detached_steps answer m d = elim m.detached [
  | [] ↦ (m, d)
  | w ∷ more ↦
      let (w', d') = detached_step answer w d in (record m { detached = more ++ (w' ∷ []) }, d')
]
