-- ===== src/Protocol/RoundTrip.antt =====
-- A message that is turned into a frame is read back (serialize.rs against deserialize.rs).
use parsip.Base.{
  ℕ, ◌+◌, ◌%◌, ◌^◌, ◌≤◌, ◌≡◌, refl, sym, ap, ◌∙◌, append_assoc, List, [], ◌++◌, arith, length,
  length-append, slice_segment, drop_prefix, append-nil, drop,
}
use parsip.Bytes.{to_be_bytes, length-to_be_bytes}
use parsip.Io.{Result, Error, ok}
use parsip.Protocol.Types.{
  ResourceId, ResourceInfo, Message, hello, hello_proof, list_resources, resource_list,
  download_resource, resource_chunk, resource_end, IsMessage, IsU32, IsU64, IsArray, message_type,
}
use parsip.Protocol.Serialize.{entries_bytes, payload_of, frame_of}
use parsip.Protocol.Deserialize.{
  parse_entries, parse_resource_list, message_of, parse_hello, parse_hello_proof,
  parse_list_resources, parse_download_resource, parse_resource_chunk, parse_resource_end, u32_at,
  u64_at, id_at,
}
use parsip.Protocol.Entries.{number_at, parse_entries-entries_bytes, length-entries_bytes}

module _ (id : ℕ) (rs : List ResourceInfo) (v : IsMessage (resource_list id rs)) where
  count : List ℕ
  count = to_be_bytes 4 (length rs % 2 ^ 32)

  module _ (p : List ℕ) (e : p ≡ to_be_bytes 4 id ++ (count ++ entries_bytes rs)) where
    id_field : u32_at p 0 ≡ id
    id_field = number_at 4 id [] _ p _ _ e refl refl v.0

    count_field : u32_at p 4 ≡ length rs
    unfolding count
    count_field =
        number_at 4 (length rs % 2 ^ 32) (to_be_bytes 4 id) _ p 4 8 e
          (omega (arith, length-to_be_bytes 4 id)) (omega (arith, length-to_be_bytes 4 id))
          (omega arith)
        ∙ omega (arith, v.1)

    payload_length : length p ≡ 8 + length (entries_bytes rs)
    unfolding count
    payload_length = omega (
      arith,
      ap length e,
      length-append (to_be_bytes 4 id) (count ++ entries_bytes rs),
      length-append count (entries_bytes rs),
      length-to_be_bytes 4 id,
      length-to_be_bytes 4 (length rs % 2 ^ 32),
    )

    entries_field : parse_entries (length rs) p 8 [] ≡ ok rs
    unfolding count
    entries_field = rw prefix (
        parse_entries-entries_bytes rs (to_be_bytes 4 id ++ count) [] p [] v.2
          (e ∙ rw append-nil (simp append_assoc)))
      where
        prefix : 8 ≡ length (to_be_bytes 4 id ++ count)
        prefix = omega (
          arith,
          length-append (to_be_bytes 4 id) count,
          length-to_be_bytes 4 id,
          length-to_be_bytes 4 (length rs % 2 ^ 32),
        )

    parse_resource_list_body : parse_resource_list p ≡ ok (resource_list id rs)
    unfolding parse_resource_list
    parse_resource_list_body =
        ground
          (arith, id_field, count_field, payload_length, entries_field, length-entries_bytes rs v.2)

-- The messages that begin with a request id and a resource id.
module _ (id : ℕ) (r : ResourceId) (body p : List ℕ) (vid : IsU32 id) (vr : IsArray 32 r.bytes)
    (e : p ≡ to_be_bytes 4 id ++ (r.bytes ++ body)) where
  request_field : u32_at p 0 ≡ id
  request_field = number_at 4 id [] _ p _ _ e refl refl vid

  resource_field : id_at p 4 ≡ r
  resource_field =
      let bytes =
        slice_segment (to_be_bytes 4 id) r.bytes body p 4 36 e
          (omega (arith, length-to_be_bytes 4 id)) (omega (arith, length-to_be_bytes 4 id, vr.0)) in
      λ i. record { bytes = bytes i }

  tagged_length : length p ≡ 36 + length body
  tagged_length = omega (
    arith,
    ap length e,
    length-append (to_be_bytes 4 id) (r.bytes ++ body),
    length-append r.bytes body,
    length-to_be_bytes 4 id,
    vr.0,
  )

module _ (id offset : ℕ) (r : ResourceId) (chunk p : List ℕ) (vid : IsU32 id)
    (vr : IsArray 32 r.bytes) (vo : IsU64 offset)
    (e : p ≡ to_be_bytes 4 id ++ (r.bytes ++ (to_be_bytes 8 offset ++ chunk))) where
  header : List ℕ
  header = to_be_bytes 4 id ++ r.bytes

  length-header : length header ≡ 36
  unfolding header
  length-header =
      omega (arith, length-append (to_be_bytes 4 id) r.bytes, length-to_be_bytes 4 id, vr.0)

  offset_field : u64_at p 36 ≡ offset
  unfolding header
  offset_field =
      number_at 8 offset header chunk p 36 44 (e ∙ simp append_assoc) (omega (arith, length-header))
        (omega (arith, length-header)) vo

  chunk_field : drop 44 p ≡ chunk
  unfolding header
  chunk_field = drop_prefix (header ++ to_be_bytes 8 offset) chunk p 44 (e ∙ simp append_assoc) (
      omega (
        arith,
        length-append header (to_be_bytes 8 offset),
        length-header,
        length-to_be_bytes 8 offset,
      ))

  chunk_length : 44 ≤ length p
  chunk_length = omega (
    arith,
    tagged_length id r (to_be_bytes 8 offset ++ chunk) p vid vr e,
    length-append (to_be_bytes 8 offset) chunk,
    length-to_be_bytes 8 offset,
  )

parse_payload : Message → List ℕ → Result Message Error
parse_payload (hello public_key nonce) p = parse_hello p
parse_payload (hello_proof signature) p = parse_hello_proof p
parse_payload (list_resources request_id) p = parse_list_resources p
parse_payload (resource_list request_id resources) p = parse_resource_list p
parse_payload (download_resource request_id id) p = parse_download_resource p
parse_payload (resource_chunk request_id id offset chunk) p = parse_resource_chunk p
parse_payload (resource_end request_id id) p = parse_resource_end p

message_of-message_type :
    (m : Message) (p : List ℕ)
    → message_of (record { message_type = message_type m; payload = p }) ≡ parse_payload m p
unfolding message_of message_type parse_payload
message_of-message_type (hello public_key nonce) p = refl
message_of-message_type _ p = refl

parse_payload-payload_of :
    (m : Message) (p : List ℕ) → IsMessage m → p ≡ payload_of m → parse_payload m p ≡ ok m
unfolding parse_payload payload_of
parse_payload-payload_of (hello k n) p (vk, vn) e =
    unfold parse_hello in
    ground (
      arith,
      ap length e,
      length-append k n,
      slice_segment [] k n p 0 32 e refl (omega (arith, vk.0)),
      slice_segment k n [] p 32 64 (e ∙ rw append-nil) (omega (arith, vk.0))
          (omega (arith, vk.0, vn.0)),
    )
parse_payload-payload_of (hello_proof s) p v e = unfold parse_hello_proof in ground arith
parse_payload-payload_of (list_resources id) p v e =
    unfold parse_list_resources in
    ground (
      arith,
      ap length e,
      length-to_be_bytes 4 id,
      number_at 4 id [] [] p 0 4 (e ∙ sym (append-nil (to_be_bytes 4 id))) refl refl v,
    )
parse_payload-payload_of (resource_list id rs) p v e =
    unfold count in parse_resource_list_body id rs v p e
parse_payload-payload_of (download_resource id r) p (vid, vr) e =
    let e' : p ≡ to_be_bytes 4 id ++ (r.bytes ++ []) = e ∙ rw append-nil in
    unfold parse_download_resource in
    ground (
      arith,
      request_field id r [] p vid vr e',
      resource_field id r [] p vid vr e',
      tagged_length id r [] p vid vr e',
    )
parse_payload-payload_of (resource_chunk id r offset chunk) p v e =
    unfold parse_resource_chunk in
    ground (
      arith,
      request_field id r _ p v.0 v.1 e,
      resource_field id r _ p v.0 v.1 e,
      offset_field id offset r chunk p v.0 v.1 v.2 e,
      chunk_field id offset r chunk p v.0 v.1 v.2 e,
      chunk_length id offset r chunk p v.0 v.1 v.2 e,
    )
parse_payload-payload_of (resource_end id r) p (vid, vr) e =
    let e' : p ≡ to_be_bytes 4 id ++ (r.bytes ++ []) = e ∙ rw append-nil in
    unfold parse_resource_end in
    ground (
      arith,
      request_field id r [] p vid vr e',
      resource_field id r [] p vid vr e',
      tagged_length id r [] p vid vr e',
    )

-- Every message whose fields are in range is read back from the frame that is made of it.
pub message_of-frame_of : (m : Message) → IsMessage m → message_of (frame_of m) ≡ ok m
unfolding frame_of
message_of-frame_of m v =
    message_of-message_type m (payload_of m) ∙ parse_payload-payload_of m (payload_of m) v refl
