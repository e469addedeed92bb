-- ===== src/Protocol/Serialize.antt =====
-- src/protocol/message/serialize.rs: `impl From<&Message> for Frame`.
use parsip.Base.{ℕ, ◌%◌, ◌^◌, List, [], ◌∷◌, ◌++◌, length}
use parsip.Bytes.{to_be_bytes}
use parsip.Protocol.Types.{
  Frame, ResourceInfo, Message, hello, hello_proof, list_resources, resource_list,
  download_resource, resource_chunk, resource_end, message_type,
}

-- The body of the loop over the resources: `as u32` keeps the low 32 bits of a length.
unfoldable pub entry_bytes : ResourceInfo → List ℕ
entry_bytes r =
    r.id.bytes ++ (to_be_bytes 4 (length r.name % 2 ^ 32) ++ (r.name ++ to_be_bytes 8 r.size))

unfoldable pub entries_bytes : List ResourceInfo → List ℕ
entries_bytes [] = []
entries_bytes (r ∷ rs) = entry_bytes r ++ entries_bytes rs

unfoldable pub payload_of : Message → List ℕ
payload_of (hello public_key nonce) = public_key ++ nonce
payload_of (hello_proof signature) = signature
payload_of (list_resources request_id) = to_be_bytes 4 request_id
payload_of (resource_list request_id resources) =
    to_be_bytes 4 request_id
    ++ (to_be_bytes 4 (length resources % 2 ^ 32) ++ entries_bytes resources)
payload_of (download_resource request_id id) = to_be_bytes 4 request_id ++ id.bytes
payload_of (resource_chunk request_id id offset chunk) =
    to_be_bytes 4 request_id ++ (id.bytes ++ (to_be_bytes 8 offset ++ chunk))
payload_of (resource_end request_id id) = to_be_bytes 4 request_id ++ id.bytes

unfoldable pub frame_of : Message → Frame
unfolding payload_of
frame_of m = record { message_type = message_type m; payload = payload_of m }
