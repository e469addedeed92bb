-- ===== src/Protocol/Entries.antt =====
-- The entries of a resource list, written and read back (the loops of serialize.rs and
-- deserialize.rs).
use parsip.Base.{
  ℕ, ◌+◌, ◌*◌, ◌%◌, ◌^◌, ◌≤◌, ◌<◌, ◌≡◌, refl, ap, ◌∙◌, List, [], ◌∷◌, ◌++◌, arith, length,
  length-append, slice, slice_segment, All, append_assoc, append-nil,
}
use parsip.Bytes.{to_be_bytes, from_be_bytes, length-to_be_bytes, from_be_bytes-to_be_bytes}
use parsip.Text.{from_utf8, IsText}
use parsip.Io.{ok}
use parsip.Protocol.Types.{ResourceInfo, IsInfo}
use parsip.Protocol.Serialize.{entry_bytes, entries_bytes}
use parsip.Protocol.Deserialize.{parse_entry, parse_entries, utf8_name, u32_at}

-- A number behind `pre` is read back.
pub number_at :
    (k x : ℕ) (pre post p : List ℕ) (a b : ℕ)
    → p ≡ pre ++ (to_be_bytes k x ++ post)
    → a ≡ length pre
    → b ≡ length pre + k
    → x < 256 ^ k
    → from_be_bytes (slice p a b) ≡ x
number_at k x pre post p a b e ea eb h =
    rw (slice_segment pre (to_be_bytes k x) post p a b e ea (omega (arith, length-to_be_bytes k x)))
      (from_be_bytes-to_be_bytes k x h)

utf8_name-IsText : (bytes : List ℕ) → IsText bytes → utf8_name bytes ≡ ok bytes
unfolding utf8_name from_utf8
utf8_name-IsText bytes h = ground arith

length-entry_bytes : (r : ResourceInfo) → IsInfo r → length (entry_bytes r) ≡ 44 + length r.name
unfolding entry_bytes
length-entry_bytes r v =
    let l = to_be_bytes 4 (length r.name % 2 ^ 32) in
    let s = to_be_bytes 8 r.size in
    omega (
      arith,
      v.id_array.0,
      length-append r.id.bytes (l ++ (r.name ++ s)),
      length-append l (r.name ++ s),
      length-append r.name s,
      length-to_be_bytes 4 (length r.name % 2 ^ 32),
      length-to_be_bytes 8 r.size,
    )

module _ (r : ResourceInfo) (v : IsInfo r) (pre post p : List ℕ)
    (e : p ≡ pre ++ (entry_bytes r ++ post)) where
  name_length : List ℕ
  name_length = to_be_bytes 4 (length r.name % 2 ^ 32)

  size_bytes : List ℕ
  size_bytes = to_be_bytes 8 r.size

  segments : p ≡ pre ++ (r.id.bytes ++ (name_length ++ (r.name ++ (size_bytes ++ post))))
  unfolding entry_bytes name_length size_bytes
  segments = e ∙ simp append_assoc

  id_field : slice p (length pre) (length pre + 32) ≡ r.id.bytes
  id_field = slice_segment pre _ _ p _ _ segments refl (omega (arith, v.id_array.0))

  length_field : u32_at p (length pre + 32) ≡ length r.name
  unfolding name_length
  length_field =
      number_at 4 (length r.name % 2 ^ 32) (pre ++ r.id.bytes) (r.name ++ (size_bytes ++ post)) p _
        _ (segments ∙ simp append_assoc) (omega (arith, length-append pre r.id.bytes, v.id_array.0))
        (omega (arith, length-append pre r.id.bytes, v.id_array.0)) (omega arith)
      ∙ omega (arith, v.name_short)

  name_field : slice p (length pre + 32 + 4) (length pre + 32 + 4 + length r.name) ≡ r.name
  unfolding name_length
  name_field =
      slice_segment (pre ++ (r.id.bytes ++ name_length)) r.name (size_bytes ++ post) p _ _
        (segments ∙ simp append_assoc) (omega (arith, lengths)) (omega (arith, lengths))
    where
      lengths : length (pre ++ (r.id.bytes ++ name_length)) ≡ length pre + 36
      lengths = omega (
        arith,
        length-append pre (r.id.bytes ++ name_length),
        length-append r.id.bytes name_length,
        length-to_be_bytes 4 (length r.name % 2 ^ 32),
        v.id_array.0,
      )

  size_field :
      from_be_bytes
        (slice p (length pre + 32 + 4 + length r.name) (length pre + 32 + 4 + length r.name + 8))
      ≡ r.size
  unfolding name_length size_bytes
  size_field =
      number_at 8 r.size (pre ++ (r.id.bytes ++ (name_length ++ r.name))) post p _ _
        (segments ∙ simp append_assoc) (omega (arith, lengths)) (omega (arith, lengths)) v.size_u64
    where
      lengths :
          length (pre ++ (r.id.bytes ++ (name_length ++ r.name))) ≡ length pre + 36 + length r.name
      lengths = omega (
        arith,
        length-append pre (r.id.bytes ++ (name_length ++ r.name)),
        length-append r.id.bytes (name_length ++ r.name),
        length-append name_length r.name,
        length-to_be_bytes 4 (length r.name % 2 ^ 32),
        v.id_array.0,
      )

  pub parse_entry-entry_bytes :
      parse_entry p (length pre) ≡ ok (r, length pre + length (entry_bytes r))
  unfolding parse_entry
  parse_entry-entry_bytes = ground (
    arith,
    id_field,
    length_field,
    name_field,
    size_field,
    utf8_name-IsText r.name v.name_text,
    length-entry_bytes r v,
    ap length e,
    length-append pre (entry_bytes r ++ post),
    length-append (entry_bytes r) post,
  )

pub parse_entries-entries_bytes :
    (rs : List ResourceInfo) (pre post p : List ℕ) (resources : List ResourceInfo)
    → All IsInfo rs
    → p ≡ pre ++ (entries_bytes rs ++ post)
    → parse_entries (length rs) p (length pre) resources ≡ ok (resources ++ rs)
unfolding parse_entries
parse_entries-entries_bytes [] pre post p resources v e = rw append-nil
parse_entries-entries_bytes (r ∷ rs) pre post p resources (vr, vrs) e =
    rw
      (
        parse_entry-entry_bytes r vr pre (entries_bytes rs ++ post) p regrouped,
        ← length-append pre (entry_bytes r),
      )
      (parse_entries-entries_bytes rs (pre ++ entry_bytes r) post p (resources ++ (r ∷ [])) vrs
          (regrouped ∙ simp append_assoc)
        ∙ ap ok (append_assoc resources (r ∷ []) rs))
  where
    regrouped : p ≡ pre ++ (entry_bytes r ++ (entries_bytes rs ++ post))
    regrouped = e ∙ (unfold entries_bytes in simp append_assoc)

pub length-entries_bytes :
    (rs : List ResourceInfo) → All IsInfo rs → 44 * length rs ≤ length (entries_bytes rs)
unfolding entries_bytes
length-entries_bytes [] v = omega arith
length-entries_bytes (r ∷ rs) (vr, vrs) = omega (
  arith,
  length-append (entry_bytes r) (entries_bytes rs),
  length-entry_bytes r vr,
  length-entries_bytes rs vrs,
)
