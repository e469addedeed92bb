-- ===== src/Protocol/Deserialize.antt =====
-- src/protocol/message/deserialize.rs: `impl TryFrom<Frame> for Message`. An offset into the payload
-- is the source's `off`; every slice stands behind the test that keeps it in bounds.
use parsip.Base.{
  ℕ, zero, suc, ◌+◌, ◌-◌, ◌/◌, List, [], ◌∷◌, ◌++◌, length, slice, drop, Bool, true, false, leb,
  ltb, ◌==◌, not, none, some, String, if◌then◌else◌,
}
use parsip.Bytes.{from_be_bytes}
use parsip.Text.{text, from_utf8}
use parsip.Io.{Error, Result, ok, err, ◌>>=◌, ◌>>◌, invalid_data}
use parsip.Protocol.Types.{
  Frame, ResourceId, ResourceInfo, Message, hello, hello_proof, list_resources, resource_list,
  download_resource, resource_chunk, resource_end,
}

-- `err(msg)`
unfoldable pub invalid : String → Error
invalid msg = record { kind = invalid_data; message = text msg }

abbrev require {ℓ} : {E : Type ℓ} → Bool → E → Result (Unit {0}) E
require true e = ok tt
require false e = err e

abbrev pub u32_at : List ℕ → ℕ → ℕ
u32_at p off = from_be_bytes (slice p off (off + 4))

abbrev pub u64_at : List ℕ → ℕ → ℕ
u64_at p off = from_be_bytes (slice p off (off + 8))

abbrev pub id_at : List ℕ → ℕ → ResourceId
id_at p off = record { bytes = slice p off (off + 32) }

unfoldable pub parse_list_resources : List ℕ → Result Message Error
parse_list_resources p =
    if length p == 4 then ok (list_resources (u32_at p 0)) else err (invalid "Bad ListResources")

-- `String::from_utf8(..).map_err(|_| err("Bad UTF8"))`
unfoldable pub utf8_name : List ℕ → Result (List ℕ) Error
utf8_name bytes = elim (from_utf8 bytes) [ none ↦ err (invalid "Bad UTF8") | some name ↦ ok name ]

-- The test that each read of a list entry makes.
abbrev pub room : List ℕ → ℕ → Result (Unit {0}) Error
room p off = require (leb off (length p)) (invalid "Bad List")

-- One round of the loop: the entry at `off`, and the offset behind it.
unfoldable pub parse_entry : List ℕ → ℕ → Result (ResourceInfo × ℕ) Error
unfolding utf8_name
parse_entry p off = do
  room p (off + 32)
  let id = id_at p off
  let after_id = off + 32
  room p (after_id + 4)
  let nl = u32_at p after_id
  let after_length = after_id + 4
  room p (after_length + nl)
  name ← utf8_name (slice p after_length (after_length + nl))
  let after_name = after_length + nl
  room p (after_name + 8)
  let size = u64_at p after_name
  ok (record { id = id; name = name; size = size }, after_name + 8)

-- `for _ in 0..count`, with the offset and the resources pushed so far.
unfoldable pub parse_entries : ℕ → List ℕ → ℕ → List ResourceInfo → Result (List ResourceInfo) Error
parse_entries zero p off resources = ok resources
parse_entries (suc n) p off resources = do
  (r, off') ← parse_entry p off
  parse_entries n p off' (resources ++ (r ∷ []))

unfoldable pub parse_resource_list : List ℕ → Result Message Error
parse_resource_list p = do
  room p (0 + 4)
  let request_id = u32_at p 0
  room p (4 + 4)
  let count = u32_at p 4
  require (not (ltb ((length p - 8) / 44) count)) (invalid "Bad List")
  resources ← parse_entries count p 8 []
  ok (resource_list request_id resources)

unfoldable pub parse_download_resource : List ℕ → Result Message Error
parse_download_resource p =
    if length p == 36
    then ok (download_resource (u32_at p 0) (id_at p 4))
    else err (invalid "Bad DownloadResource")

unfoldable pub parse_resource_chunk : List ℕ → Result Message Error
parse_resource_chunk p =
    if ltb (length p) 44
    then err (invalid "Bad ResourceChunk")
    else ok (resource_chunk (u32_at p 0) (id_at p 4) (u64_at p 36) (drop 44 p))

unfoldable pub parse_resource_end : List ℕ → Result Message Error
parse_resource_end p =
    if length p == 36
    then ok (resource_end (u32_at p 0) (id_at p 4))
    else err (invalid "Bad ResourceEnd")

unfoldable pub parse_hello : List ℕ → Result Message Error
parse_hello p =
    if length p == 64
    then ok (hello (slice p 0 32) (slice p 32 64))
    else err (invalid "Invalid Hello")

unfoldable pub parse_hello_proof : List ℕ → Result Message Error
parse_hello_proof p =
    if length p == 64 then ok (hello_proof p) else err (invalid "Invalid HelloProof")

-- `match frame.message_type`
unfoldable pub message_of : Frame → Result Message Error
message_of f =
    if f.message_type == 1
    then parse_hello f.payload
    else if f.message_type == 2
    then parse_hello_proof f.payload
    else if f.message_type == 3
    then parse_list_resources f.payload
    else if f.message_type == 4
    then parse_resource_list f.payload
    else if f.message_type == 5
    then parse_download_resource f.payload
    else if f.message_type == 6
    then parse_resource_chunk f.payload
    else if f.message_type == 7
    then parse_resource_end f.payload
    else err (invalid "Unknown msg type")
