-- ===== src/Resource/Transfer.antt =====
-- src/resource/transfer.rs: the progress of each download. Instants are nanoseconds on one clock
-- that does not run back; the readings that an operation takes are its arguments.
pub mod Keyed
pub mod Cancel
use parsip.Base.{
  ℕ, ◌+◌, ◌-◌, ◌/◌, ◌%◌, ◌^◌, List, [], ◌∷◌, Option, none, some, Bool, ltb, if◌then◌else◌, ite,
}
use parsip.Map.{HashMap, lookup, insert, remove, values, nat_key}
use parsip.Identity.{PeerId, PeerId-discrete}
use parsip.Protocol.{ResourceId}
use parsip.Control.{F64, of_integer, quotient}

pub record Transfer : Type 0 where
  pub request_id : ℕ
  pub peer_id : PeerId
  pub resource_id : ResourceId
  pub bytes_transferred : ℕ
  pub bytes_total : ℕ
  pub start_time : ℕ
  pub last_report_time : ℕ
  pub last_report_bytes : ℕ

abbrev pub TransferManager : Type 0
TransferManager = HashMap ℕ Transfer

unfoldable pub new : TransferManager
new = []

unfoldable pub register : Transfer → TransferManager → TransferManager
register t m = insert t.request_id t m

-- The report: bytes so far, bytes in total, and megabytes per second.
abbrev pub Progress : Type 0
Progress = ℕ × ℕ × F64

abbrev million : ℕ
million = 1_000_000

-- `bytes_since_last as f64 / 1_000_000.0`, over `elapsed_ms as f64 / 1000.0`.
unfoldable pub speed : ℕ → ℕ → F64
speed bytes_since_last elapsed_ms =
    quotient (quotient (of_integer bytes_since_last) (of_integer million))
      (quotient (of_integer elapsed_ms) (of_integer 1000))

-- `t.bytes_transferred += bytes_added` on a u64, in the release build. `elapsed` reads the clock at
-- `now`, and the report is stamped at `later`.
unfoldable pub advance_transfer : ℕ → ℕ → ℕ → Transfer → Transfer × Option Progress
advance_transfer bytes_added now later t =
    let transferred = (t.bytes_transferred + bytes_added) % 2 ^ 64 in
    let elapsed_ms = (now - t.last_report_time) / million in
    let since = (transferred + 2 ^ 64 - t.last_report_bytes) % 2 ^ 64 in
    if ltb 200 elapsed_ms
    then (
      record t {
        bytes_transferred = transferred;
        last_report_time = later;
        last_report_bytes = transferred;
      },
      some (transferred, t.bytes_total, speed since elapsed_ms),
    )
    else (record t { bytes_transferred = transferred }, none)

unfoldable pub update_progress : ℕ → ℕ → ℕ → ℕ → TransferManager → Option Progress × TransferManager
update_progress request_id bytes_added now later m = elim (lookup request_id m) [
  | none ↦ (none, m)
  | some t ↦
      let (t', report) = advance_transfer bytes_added now later t in
      (report, insert request_id t' m)
]

unfoldable pub complete : ℕ → TransferManager → Option Transfer × TransferManager
complete request_id m = (lookup request_id m, remove request_id m)

-- `.values().filter(|t| &t.peer_id == peer_id).map(|t| t.request_id)`
unfoldable pub ids_of_peer : PeerId → List Transfer → List ℕ
ids_of_peer peer_id [] = []
ids_of_peer peer_id (t ∷ ts) =
    let ids = ids_of_peer peer_id ts in
    ite (PeerId-discrete t.peer_id peer_id) (t.request_id ∷ ids) ids

-- `ids.into_iter().filter_map(|id| self.transfers.remove(&id))`
unfoldable pub remove_all : List ℕ → TransferManager → List Transfer × TransferManager
remove_all [] m = ([], m)
remove_all (id ∷ ids) m =
    let (ts, m') = remove_all ids (remove id m) in
    elim (lookup id m) [ none ↦ (ts, m') | some t ↦ (t ∷ ts, m') ]

unfoldable pub cancel_for_peer : PeerId → TransferManager → List Transfer × TransferManager
cancel_for_peer peer_id m = remove_all (ids_of_peer peer_id (values m)) m
