-- ===== src/Protocol/Ranges.antt =====
-- What a message with fields in range is printed as consists of bytes.
use parsip.Base.{ℕ, ◌+◌, ◌%◌, ◌^◌, List, [], ◌∷◌, ◌++◌, All, All-append, length, arith}
use parsip.Bytes.{IsByte, to_be_bytes, to_be_bytes-IsByte}
use parsip.Protocol.Types.{
  ResourceInfo, Message, hello, hello_proof, list_resources, resource_list, download_resource,
  resource_chunk, resource_end, IsMessage, IsInfo, message_type,
}
use parsip.Protocol.Serialize.{entry_bytes, entries_bytes, payload_of, frame_of}
use parsip.Protocol.Codec.Wire.{wire_bytes}

both : (xs ys : List ℕ) → All IsByte xs → All IsByte ys → All IsByte (xs ++ ys)
both xs ys = All-append IsByte xs ys

number : (k x : ℕ) → All IsByte (to_be_bytes k x)
number = to_be_bytes-IsByte

entry_bytes-IsByte : (r : ResourceInfo) → IsInfo r → All IsByte (entry_bytes r)
unfolding entry_bytes
entry_bytes-IsByte r v = search (both, number)

entries_bytes-IsByte : (rs : List ResourceInfo) → All IsInfo rs → All IsByte (entries_bytes rs)
unfolding entries_bytes
entries_bytes-IsByte [] v = tt
entries_bytes-IsByte (r ∷ rs) (vr, vrs) =
    both (entry_bytes r) (entries_bytes rs) (entry_bytes-IsByte r vr) (entries_bytes-IsByte rs vrs)

payload_of-IsByte : (m : Message) → IsMessage m → All IsByte (payload_of m)
unfolding payload_of
payload_of-IsByte (hello k n) v = both k n v.0.1 v.1.1
payload_of-IsByte (hello_proof s) v = v.1
payload_of-IsByte (list_resources id) v = number 4 id
payload_of-IsByte (resource_list id rs) v = both (to_be_bytes 4 id) _ (number 4 id) (
    both (to_be_bytes 4 (length rs % 2 ^ 32)) _ (number 4 (length rs % 2 ^ 32))
      (entries_bytes-IsByte rs v.2))
payload_of-IsByte (download_resource id r) v = both (to_be_bytes 4 id) r.bytes (number 4 id) v.1.1
payload_of-IsByte (resource_chunk id r offset chunk) v =
    both (to_be_bytes 4 id) _ (number 4 id)
      (both r.bytes _ v.1.1 (both (to_be_bytes 8 offset) chunk (number 8 offset) v.3))
payload_of-IsByte (resource_end id r) v = both (to_be_bytes 4 id) r.bytes (number 4 id) v.1.1

message_type-IsByte : (m : Message) → IsByte (message_type m)
unfolding message_type
message_type-IsByte (hello k n) = omega arith
message_type-IsByte _ = omega arith

pub wire_bytes-IsByte : (m : Message) → IsMessage m → All IsByte (wire_bytes (frame_of m))
unfolding wire_bytes frame_of
wire_bytes-IsByte m v =
    both (to_be_bytes 4 ((1 + length (payload_of m)) % 2 ^ 32)) (message_type m ∷ payload_of m)
      (number 4 _) (message_type-IsByte m, payload_of-IsByte m v)
