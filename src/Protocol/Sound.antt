-- ===== src/Protocol/Sound.antt =====
-- What the parser accepts is what the printer writes (deserialize.rs against serialize.rs).
use parsip.Base.{
  ℕ, zero, suc, ◌+◌, ◌%◌, ◌^◌, ◌≤◌, ◌<◌, ◌≡◌, refl, sym, ap, subst, ◌∙◌, List, [], ◌∷◌, ◌++◌, arith,
  length, slice, slice-drop, length-slice, All-slice, All, append_assoc, append-nil, drop, ◌⊎◌, inl,
  inr,
}
use parsip.Bytes.{IsByte, to_be_bytes, from_be_bytes, to_be_bytes-from_be_bytes, from_be_bytes-lt}
use parsip.Text.{from_utf8, IsText}
use parsip.Io.{Result-cases, ok}
use parsip.Protocol.Types.{
  ResourceId, ResourceInfo, Message, IsInfo, IsMessage, IsArray, message_type,
}
use parsip.Protocol.Serialize.{entry_bytes, entries_bytes, payload_of}
use parsip.Protocol.Deserialize.{parse_entry, parse_entries, utf8_name, u32_at, u64_at, id_at}

module _ (p : List ℕ) (v : All IsByte p) where
  -- A number is written back as the bytes that it was read from.
  pub reprint :
      (k a : ℕ)
      → a + k ≤ length p
      → to_be_bytes k (from_be_bytes (slice p a (a + k))) ≡ slice p a (a + k)
  reprint k a h =
      let n : length (slice p a (a + k)) ≡ k =
        length-slice p a (a + k) (omega arith) h ∙ omega arith in
      subst (λ j. to_be_bytes j (from_be_bytes (slice p a (a + k))) ≡ slice p a (a + k)) n
        (to_be_bytes-from_be_bytes (slice p a (a + k)) (All-slice IsByte p a (a + k) v))

  pub number_lt : (k a : ℕ) → a + k ≤ length p → from_be_bytes (slice p a (a + k)) < 256 ^ k
  number_lt k a h =
      let n : length (slice p a (a + k)) ≡ k =
        length-slice p a (a + k) (omega arith) h ∙ omega arith in
      subst (λ j. from_be_bytes (slice p a (a + k)) < 256 ^ j) n
        (from_be_bytes-lt (slice p a (a + k)) (All-slice IsByte p a (a + k) v))

  pub array : (k a : ℕ) → a + k ≤ length p → IsArray k (slice p a (a + k))
  array k a h =
      (length-slice p a (a + k) (omega arith) h ∙ omega arith, All-slice IsByte p a (a + k) v)

utf8_name_sound : (bytes name : List ℕ) → utf8_name bytes ≡ ok name → (name ≡ bytes) × IsText name
unfolding utf8_name from_utf8
utf8_name_sound bytes name e = ground arith

-- The entry that a round of the loop reads, field by field.
record Entry (p : List ℕ) (off : ℕ) (r : ResourceInfo) (off' : ℕ) : Type 0 where
  nl_eq : length r.name ≡ u32_at p (off + 32)
  id_eq : r.id ≡ id_at p off
  name_eq : r.name ≡ slice p (off + 32 + 4) (off + 32 + 4 + length r.name)
  name_ok : IsText r.name
  size_eq : r.size ≡ u64_at p (off + 32 + 4 + length r.name)
  off_eq : off' ≡ off + 32 + 4 + length r.name + 8
  in_range : off' ≤ length p

parse_entry-Entry :
    (p : List ℕ) (off : ℕ) (r : ResourceInfo) (off' : ℕ)
    → parse_entry p off ≡ ok (r, off')
    → Entry p off r off'
unfolding parse_entry
parse_entry-Entry p off r off' e =
    let al = off + 32 + 4 in
    let end = al + u32_at p (off + 32) in
    ground (arith, utf8_name_sound (slice p al end) r.name, length-slice p al end)

join4 :
    (a a' b b' c c' d d' t : List ℕ)
    → a ≡ a'
    → b ≡ b'
    → c ≡ c'
    → d ≡ d'
    → a ++ (b ++ (c ++ (d ++ t))) ≡ a' ++ (b' ++ (c' ++ (d' ++ t)))
join4 a a' b b' c c' d d' t ea eb ec ed = rw (ea, eb, ec, ed)

module _ (p : List ℕ) (v : All IsByte p) (off : ℕ) (r : ResourceInfo) (off' : ℕ)
    (e : Entry p off r off') where
  abbrev name_end : ℕ
  name_end = off + 32 + 4 + length r.name

  name_length : length r.name % 2 ^ 32 ≡ u32_at p (off + 32)
  name_length = omega (
    arith,
    e.nl_eq,
    e.off_eq,
    e.in_range,
    number_lt p v 4 (off + 32) (omega (arith, e.off_eq, e.in_range)),
  )

  entry_slices : drop off p ≡ entry_bytes r ++ drop off' p
  unfolding entry_bytes
  entry_slices =
      cut
      ∙ join4 _ _ _ _ _ _ _ _ (drop (name_end + 8) p) (ap (λ x. x.bytes) (sym e.id_eq))
          (sym (
            ap (to_be_bytes 4) name_length
            ∙ reprint p v 4 (off + 32) (omega (arith, e.off_eq, e.in_range))))
          (sym e.name_eq)
          (sym (
            ap (to_be_bytes 8) e.size_eq
            ∙ reprint p v 8 name_end (omega (arith, e.off_eq, e.in_range))))
      ∙ rw (e.off_eq) (simp append_assoc)
    where
      cut :
          drop off p
          ≡ slice p off (off + 32)
            ++ (slice p (off + 32) (off + 32 + 4)
                ++ (slice p (off + 32 + 4) (off + 32 + 4 + length r.name)
                    ++ (slice p name_end (name_end + 8) ++ drop (name_end + 8) p)))
      cut =
          rw
            (
              slice-drop p name_end (name_end + 8) (omega arith),
              slice-drop p (off + 32 + 4) name_end (omega arith),
              slice-drop p (off + 32) (off + 32 + 4) (omega arith),
              slice-drop p off (off + 32) (omega arith),
            )
            refl

  entry-IsInfo : IsInfo r
  entry-IsInfo = record {
    id_array =
        subst (λ (id : ResourceId). IsArray 32 id.bytes) (sym e.id_eq)
          (array p v 32 off (omega (arith, e.off_eq, e.in_range)));
    name_bytes = subst (All IsByte) (sym e.name_eq) (All-slice IsByte p (off + 32 + 4) name_end v);
    name_text = e.name_ok;
    name_short =
        omega (arith, e.nl_eq, number_lt p v 4 (off + 32) (omega (arith, e.off_eq, e.in_range)));
    size_u64 =
        omega (arith, e.size_eq, number_lt p v 8 name_end (omega (arith, e.off_eq, e.in_range)));
  }

Entry-sound :
    (p : List ℕ) (v : All IsByte p) (off : ℕ) (r : ResourceInfo) (off' : ℕ)
    → Entry p off r off'
    → (drop off p ≡ entry_bytes r ++ drop off' p) × IsInfo r × (off' ≤ length p)
Entry-sound p v off r off' e =
    (entry_slices p v off r off' e, entry-IsInfo p v off r off' e, e.in_range)

pub parse_entries_sound :
    (n : ℕ) (p : List ℕ) (v : All IsByte p) (off : ℕ) (resources rs : List ResourceInfo)
    → off ≤ length p
    → parse_entries n p off resources ≡ ok rs
    → (new : List ResourceInfo) × (off' : ℕ) × (rs ≡ resources ++ new)
      × (length new ≡ n)
      × (drop off p ≡ entries_bytes new ++ drop off' p)
      × All IsInfo new
unfolding parse_entries entries_bytes
parse_entries_sound zero p v off resources rs h e = ([], off, rw append-nil (cc), refl, refl, tt)
parse_entries_sound (suc n) p v off resources rs h e = elim (Result-cases (parse_entry p off)) [
  | inl ((r, off'), parsed) ↦
      let (bytes, info, le) = Entry-sound p v off r off' (parse_entry-Entry p off r off' parsed) in
      let (new, off'', eq, len, more, infos) =
        parse_entries_sound n p v off' (resources ++ (r ∷ [])) rs le (rw (parsed) at e) in
      (
        r ∷ new,
        off'',
        eq ∙ append_assoc resources (r ∷ []) new,
        omega (arith, len),
        bytes ∙ rw (more) (sym (append_assoc (entry_bytes r) (entries_bytes new) (drop off'' p))),
        (info, infos),
      )
  | inr (x, failed) ↦ absurd (ground arith)
]

-- The result of a parser that reads a whole payload: the payload is what the message is printed
-- as, up to bytes behind it, which only a resource list may have.
abbrev pub Printed : List ℕ → Message → Type 0
Printed p m =
    (rest : List ℕ) × (p ≡ payload_of m ++ rest)
    × IsMessage m
    × ((rest ≡ []) ⊎ (message_type m ≡ 4))
