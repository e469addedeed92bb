-- ===== src/Protocol/Canonical.antt =====
-- The parsers of the single messages, in the other direction (deserialize.rs against serialize.rs).
use parsip.Base.{
  ℕ, ◌%◌, ◌^◌, ◌≤◌, ◌≡◌, refl, sym, subst, ◌∙◌, List, [], ◌++◌, arith, length, slice, slice-drop,
  All, append_assoc, append-nil, drop, ◌⊎◌, inl, inr, drop_all, All-drop,
}
use parsip.Bytes.{IsByte, to_be_bytes}
use parsip.Io.{Result-cases, ok}
use parsip.Protocol.Types.{
  Frame, ResourceInfo, Message, hello, hello_proof, list_resources, resource_list,
  download_resource, resource_chunk, resource_end, IsU32, IsArray, message_type,
}
use parsip.Protocol.Serialize.{payload_of}
use parsip.Protocol.Deserialize.{
  parse_entries, parse_resource_list, message_of, parse_hello, parse_hello_proof,
  parse_list_resources, parse_download_resource, parse_resource_chunk, parse_resource_end, u32_at,
  u64_at, id_at,
}
use parsip.Protocol.Sound.{Printed, parse_entries_sound, reprint, number_lt, array}

module _ (p : List ℕ) (v : All IsByte p) where
  -- The two segments that most payloads begin with.
  request_bytes : 4 ≤ length p → to_be_bytes 4 (u32_at p 0) ++ drop 4 p ≡ p
  request_bytes h = rw (reprint p v 4 0 h) (slice-drop p 0 4 (omega arith))

  tagged_bytes : 36 ≤ length p → to_be_bytes 4 (u32_at p 0) ++ ((id_at p 4).bytes ++ drop 36 p) ≡ p
  tagged_bytes h = rw (slice-drop p 4 36 (omega arith)) (request_bytes (omega arith))

  tagged_ranges : 36 ≤ length p → IsU32 (u32_at p 0) × IsArray 32 (id_at p 4).bytes
  tagged_ranges h = (number_lt p v 4 0 (omega arith), array p v 32 4 (omega arith))

  drop_short : (n : ℕ) → length p ≡ n → drop n p ≡ []
  drop_short n h = rw (← h) (drop_all p)

  second_half : length p ≡ 64 → slice p 32 64 ≡ drop 32 p
  second_half h = rw (drop_short 64 h, append-nil) at (slice-drop p 32 64 (omega arith))

  hello-Printed : length p ≡ 64 → Printed p (hello (slice p 0 32) (slice p 32 64))
  unfolding payload_of
  hello-Printed h = (
    [],
    rw (append-nil, second_half h) (sym (slice-drop p 0 32 (omega arith))),
    (array p v 32 0 (omega arith), array p v 32 32 (omega arith)),
    inl refl,
  )

  hello_proof-Printed : length p ≡ 64 → Printed p (hello_proof p)
  unfolding payload_of
  hello_proof-Printed h = ([], sym (append-nil p), (h, v), inl refl)

  list_resources-Printed : length p ≡ 4 → Printed p (list_resources (u32_at p 0))
  unfolding payload_of
  list_resources-Printed h = (
    [],
    sym (rw (drop_short 4 h) at (request_bytes (omega arith))),
    number_lt p v 4 0 (omega arith),
    inl refl,
  )

  tagged : length p ≡ 36 → p ≡ (to_be_bytes 4 (u32_at p 0) ++ (id_at p 4).bytes) ++ []
  tagged h = sym (
      append_assoc (to_be_bytes 4 (u32_at p 0)) (id_at p 4).bytes []
      ∙ rw (drop_short 36 h) at (tagged_bytes (omega arith)))

  download_resource-Printed : length p ≡ 36 → Printed p (download_resource (u32_at p 0) (id_at p 4))
  unfolding payload_of
  download_resource-Printed h = ([], tagged h, tagged_ranges (omega arith), inl refl)

  resource_end-Printed : length p ≡ 36 → Printed p (resource_end (u32_at p 0) (id_at p 4))
  unfolding payload_of
  resource_end-Printed h = ([], tagged h, tagged_ranges (omega arith), inl refl)

  resource_chunk-Printed :
      44 ≤ length p → Printed p (resource_chunk (u32_at p 0) (id_at p 4) (u64_at p 36) (drop 44 p))
  unfolding payload_of
  resource_chunk-Printed h = (
    [],
    rw (append-nil, reprint p v 8 36 (omega arith), slice-drop p 36 44 (omega arith))
        (sym (tagged_bytes (omega arith))),
    (
      (tagged_ranges (omega arith)).0,
      (tagged_ranges (omega arith)).1,
      number_lt p v 8 36 (omega arith),
      All-drop IsByte 44 p v,
    ),
    inl refl,
  )

  resource_list-Printed :
      (rs : List ResourceInfo)
      → 8 ≤ length p
      → parse_entries (u32_at p 4) p 8 [] ≡ ok rs
      → Printed p (resource_list (u32_at p 0) rs)
  unfolding payload_of message_type
  resource_list-Printed rs h e =
      let (new, off', eq, count, bytes, infos) = parse_entries_sound (u32_at p 4) p v 8 [] rs h e in
      let n : length new % 2 ^ 32 ≡ u32_at p 4 =
        omega (arith, count, number_lt p v 4 4 (omega arith)) in
      subst (λ xs. Printed p (resource_list (u32_at p 0) xs)) (sym eq)
        (
          drop off' p,
          rw
              (
                n,
                append_assoc,
                append_assoc,
                ← bytes,
                reprint p v 4 4 h,
                slice-drop p 4 8 (omega arith),
              )
              (sym (request_bytes (omega arith))),
          (
            number_lt p v 4 0 (omega arith),
            omega (arith, count, number_lt p v 4 4 (omega arith)),
            infos,
          ),
          inr refl,
        )

  parse_hello_inv :
      (m : Message)
      → parse_hello p ≡ ok m
      → (length p ≡ 64) × (m ≡ hello (slice p 0 32) (slice p 32 64))
  unfolding parse_hello
  parse_hello_inv m e = ground arith

  parse_hello_proof_inv :
      (m : Message) → parse_hello_proof p ≡ ok m → (length p ≡ 64) × (m ≡ hello_proof p)
  unfolding parse_hello_proof
  parse_hello_proof_inv m e = ground arith

  parse_list_resources_inv :
      (m : Message)
      → parse_list_resources p ≡ ok m
      → (length p ≡ 4) × (m ≡ list_resources (u32_at p 0))
  unfolding parse_list_resources
  parse_list_resources_inv m e = ground arith

  parse_download_resource_inv :
      (m : Message)
      → parse_download_resource p ≡ ok m
      → (length p ≡ 36) × (m ≡ download_resource (u32_at p 0) (id_at p 4))
  unfolding parse_download_resource
  parse_download_resource_inv m e = ground arith

  parse_resource_end_inv :
      (m : Message)
      → parse_resource_end p ≡ ok m
      → (length p ≡ 36) × (m ≡ resource_end (u32_at p 0) (id_at p 4))
  unfolding parse_resource_end
  parse_resource_end_inv m e = ground arith

  parse_resource_chunk_inv :
      (m : Message)
      → parse_resource_chunk p ≡ ok m
      → (44 ≤ length p) × (m ≡ resource_chunk (u32_at p 0) (id_at p 4) (u64_at p 36) (drop 44 p))
  unfolding parse_resource_chunk
  parse_resource_chunk_inv m e = ground arith

  parse_resource_list_inv :
      (m : Message)
      → parse_resource_list p ≡ ok m
      → (rs : List ResourceInfo) × (8 ≤ length p)
        × (parse_entries (u32_at p 4) p 8 [] ≡ ok rs)
        × (m ≡ resource_list (u32_at p 0) rs)
  unfolding parse_resource_list
  parse_resource_list_inv m e = elim (Result-cases (parse_entries (u32_at p 4) p 8 [])) [
    | inl (rs, parsed) ↦ (rs, ground arith, parsed, ground arith)
    | inr (x, failed) ↦ absurd (ground arith)
  ]

-- Which parser has read the payload.
message_of-cases :
    (f : Frame) (m : Message)
    → message_of f ≡ ok m
    → (f.message_type ≡ 1) × (parse_hello f.payload ≡ ok m)
      ⊎ (f.message_type ≡ 2) × (parse_hello_proof f.payload ≡ ok m)
      ⊎ (f.message_type ≡ 3) × (parse_list_resources f.payload ≡ ok m)
      ⊎ (f.message_type ≡ 4) × (parse_resource_list f.payload ≡ ok m)
      ⊎ (f.message_type ≡ 5) × (parse_download_resource f.payload ≡ ok m)
      ⊎ (f.message_type ≡ 6) × (parse_resource_chunk f.payload ≡ ok m)
      ⊎ (f.message_type ≡ 7) × (parse_resource_end f.payload ≡ ok m)
unfolding message_of
message_of-cases f m e = ground arith

abbrev ReadAs : Frame → Message → Type 0
ReadAs f m = (f.message_type ≡ message_type m) × Printed f.payload m

module _ (f : Frame) (v : All IsByte f.payload) where
  read_as :
      (m m' : Message)
      → m ≡ m'
      → f.message_type ≡ message_type m'
      → Printed f.payload m'
      → ReadAs f m
  read_as m m' e t printed = subst (ReadAs f) (sym e) (t, printed)

-- A frame whose payload consists of bytes and that is read as a message is the frame of that message, up to bytes behind the last entry
-- of a resource list, and the fields of the message are in range.
pub message_of_sound :
    (f : Frame) (m : Message)
    → All IsByte f.payload
    → message_of f ≡ ok m
    → (f.message_type ≡ message_type m) × Printed f.payload m
unfolding message_type
message_of_sound f m v e = elim (message_of-cases f m e) [
  | inl (t, q) ↦ let (n, eq) = parse_hello_inv p v m q in read_as f v m _ eq t (hello-Printed p v n)
  | inr (inl (t, q)) ↦
      let (n, eq) = parse_hello_proof_inv p v m q in
      read_as f v m _ eq t (hello_proof-Printed p v n)
  | inr (inr (inl (t, q))) ↦
      let (n, eq) = parse_list_resources_inv p v m q in
      read_as f v m _ eq t (list_resources-Printed p v n)
  | inr (inr (inr (inl (t, q)))) ↦
      let (rs, n, parsed, eq) = parse_resource_list_inv p v m q in
      read_as f v m _ eq t (resource_list-Printed p v rs n parsed)
  | inr (inr (inr (inr (inl (t, q))))) ↦
      let (n, eq) = parse_download_resource_inv p v m q in
      read_as f v m _ eq t (download_resource-Printed p v n)
  | inr (inr (inr (inr (inr (inl (t, q)))))) ↦
      let (n, eq) = parse_resource_chunk_inv p v m q in
      read_as f v m _ eq t (resource_chunk-Printed p v n)
  | inr (inr (inr (inr (inr (inr (t, q)))))) ↦
      let (n, eq) = parse_resource_end_inv p v m q in
      read_as f v m _ eq t (resource_end-Printed p v n)
]
  where
    open f use {payload as p}
