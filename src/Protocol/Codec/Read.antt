-- ===== src/Protocol/Codec/Read.antt =====
-- `decode` on every input, and the frames that it reads back from what `encode` writes.
use parsip.Base.{
  Option, ℕ, suc, ◌+◌, ◌<◌, ◌≡◌, refl, ap, ◌∙◌, List, [], ◌∷◌, ◌++◌, length, length-append, drop,
  take-append-drop, append_assoc, arith, some, All, length-take, ◌%◌, ◌^◌, take-append, drop-append,
  inl, inr, All-left, ◌≢◌, if◌then◌else◌, All-take, append-nil, take, length-drop, sym, none,
}
use parsip.Bytes.{
  IsByte, to_be_bytes, from_be_bytes, length-to_be_bytes, from_be_bytes-to_be_bytes,
  to_be_bytes-from_be_bytes,
}
use parsip.Io.{Result, Error, Result-cases, ok, err, Input, read_exact}
use parsip.Protocol.Types.{Frame}
use parsip.Protocol.Codec.{
  is_unexpected_eof, max_frame_size, decode, decode_body, first, frame_too_large,
}
use parsip.Protocol.Codec.Wire.{wire_bytes, FitsFrame}

read_exact-append :
    (xs ys : List ℕ) (e : Error)
    → read_exact (length xs) (record { bytes = xs ++ ys; ends = e })
      ≡ ok (xs, record { bytes = ys; ends = e })
unfolding read_exact
read_exact-append xs ys e =
    ground (arith, length-append xs ys, take-append xs ys, drop-append xs ys)

read_number :
    (x : ℕ) (ys : List ℕ) (e : Error)
    → read_exact 4 (record { bytes = to_be_bytes 4 x ++ ys; ends = e })
      ≡ ok (to_be_bytes 4 x, record { bytes = ys; ends = e })
read_number x ys e = rw (length-to_be_bytes 4 x) at (read_exact-append (to_be_bytes 4 x) ys e)

decode_header :
    (x : ℕ) (ys : List ℕ) (e : Error)
    → x < 2 ^ 32
    → decode (record { bytes = to_be_bytes 4 x ++ ys; ends = e })
      ≡ decode_body x (record { bytes = ys; ends = e })
unfolding decode
decode_header x ys e h =
    rw (read_number x ys e, decode) (rw (from_be_bytes-to_be_bytes 4 x (omega arith)))

decode_frame :
    (f : Frame) (rest : List ℕ) (e : Error)
    → 1 + length f.payload < 2 ^ 32
    → decode (record { bytes = wire_bytes f ++ rest; ends = e })
      ≡ decode_body
          (1 + length f.payload)
          (record { bytes = (f.message_type ∷ f.payload) ++ rest; ends = e })
unfolding wire_bytes
decode_frame f rest e h =
    let fits : (1 + length f.payload) % 2 ^ 32 ≡ 1 + length f.payload = omega arith in
    rw (fits, append_assoc) (decode_header (1 + length f.payload) _ e h)

decode_body-append :
    (f : Frame) (rest : List ℕ) (e : Error)
    → FitsFrame f
    → decode_body
        (1 + length f.payload)
        (record { bytes = (f.message_type ∷ f.payload) ++ rest; ends = e })
      ≡ ok (some (f, record { bytes = rest; ends = e }))
unfolding decode_body
decode_body-append f rest e h = ground (arith, body_read)
  where
    n : 1 + length f.payload ≡ suc (length f.payload)
    n = omega arith

    body_read :
        read_exact
          (1 + length f.payload)
          (record { bytes = (f.message_type ∷ f.payload) ++ rest; ends = e })
        ≡ ok (f.message_type ∷ f.payload, record { bytes = rest; ends = e })
    body_read = rw n (read_exact-append (f.message_type ∷ f.payload) rest e)

-- The bytes of a frame that is small enough are read back, and what follows is left to read.
pub decode-wire_bytes :
    (f : Frame) (rest : List ℕ) (e : Error)
    → FitsFrame f
    → decode (record { bytes = wire_bytes f ++ rest; ends = e })
      ≡ ok (some (f, record { bytes = rest; ends = e }))
decode-wire_bytes f rest e h = decode_frame f rest e (omega arith) ∙ decode_body-append f rest e h

-- The bytes of a frame above the limit whose length fits four bytes are refused by `decode`, whatever
-- follows them.
pub decode-wire_bytes_too_large :
    (f : Frame) (rest : List ℕ) (e : Error)
    → max_frame_size < 1 + length f.payload
    → 1 + length f.payload < 2 ^ 32
    → decode (record { bytes = wire_bytes f ++ rest; ends = e })
      ≡ err (frame_too_large (1 + length f.payload))
unfolding decode_body
decode-wire_bytes_too_large f rest e h lt = decode_frame f rest e lt ∙ ground arith

read_exact_sound :
    (n : ℕ) (s s' : Input) (b : List ℕ)
    → read_exact n s ≡ ok (b, s')
    → (s.bytes ≡ b ++ s'.bytes) × (length b ≡ n) × (s'.ends ≡ s.ends)
unfolding read_exact
read_exact_sound n s s' b e = ground (arith, take-append-drop n s.bytes, length-take n s.bytes)

first-drop : (b : List ℕ) → 0 < length b → first b ∷ drop 1 b ≡ b
first-drop [] h = absurd (omega arith)
first-drop (x ∷ b) h = refl

decode_body_sound :
    (n : ℕ) (s s' : Input) (f : Frame)
    → decode_body n s ≡ ok (some (f, s'))
    → (s.bytes ≡ (f.message_type ∷ f.payload) ++ s'.bytes)
      × (n ≡ 1 + length f.payload)
      × FitsFrame f
      × (s'.ends ≡ s.ends)
unfolding decode_body
decode_body_sound n s s' f e = elim (Result-cases (read_exact n s)) [
  | inl ((b, s''), r) ↦ ground (
    arith,
    read_exact_sound n s s'' b r,
    first-drop b,
    ap length (first-drop b (ground (arith, read_exact_sound n s s'' b r))),
  )
  | inr (x, r) ↦ absurd (ground arith)
]

bounded : (b : List ℕ) → from_be_bytes b < 2 ^ 32 → from_be_bytes b % 2 ^ 32 ≡ from_be_bytes b
bounded b h = omega arith

decode_cases :
    (s s' : Input) (f : Frame)
    → decode s ≡ ok (some (f, s'))
    → (b : List ℕ) × (s'' : Input) × (read_exact 4 s ≡ ok (b, s''))
      × (decode_body (from_be_bytes b) s'' ≡ ok (some (f, s')))
unfolding decode
decode_cases s s' f e = elim (Result-cases (read_exact 4 s)) [
  | inl ((b, s''), r) ↦ (b, s'', r, ground arith)
  | inr (x, r) ↦ absurd (ground arith)
]

-- A frame that is decoded from a stream of bytes was on the wire, within the limit, and nothing else
-- was consumed.
pub decode_sound :
    (s s' : Input) (f : Frame)
    → All IsByte s.bytes
    → decode s ≡ ok (some (f, s'))
    → (s.bytes ≡ wire_bytes f ++ s'.bytes) × FitsFrame f × (s'.ends ≡ s.ends)
unfolding wire_bytes
decode_sound s s' f v e =
    let (b, s'', read, body) = decode_cases s s' f e in
    let (split, four, ends) = read_exact_sound 4 s s'' b read in
    let (split', n, fits, ends') = decode_body_sound _ s'' s' f body in
    let header : to_be_bytes 4 ((1 + length f.payload) % 2 ^ 32) ≡ b =
      rw (← n, bounded b (omega arith), ← four)
        (to_be_bytes-from_be_bytes b (All-left IsByte b s''.bytes (rw split at v))) in
    (split ∙ rw (header, split', append_assoc), fits, ends' ∙ ends)

-- A stream that is over within the length of a frame ends cleanly, or with its own error.
pub decode_short :
    (s : Input)
    → length s.bytes < 4
    → decode s ≡ (if is_unexpected_eof s.ends.kind then ok none else err s.ends)
unfolding decode read_exact
decode_short s h = ground arith

left_over : Result (Option (Frame × Input)) Error → List ℕ
left_over (ok (some (f, s))) = s.bytes
left_over _ = []

-- Of a frame within the limit that consists of bytes, a part that lacks the last ones is not read as
-- any frame.
pub decode_cut :
    (f f' : Frame) (k : ℕ) (e : Error) (s' : Input)
    → FitsFrame f
    → All IsByte (wire_bytes f)
    → k < length (wire_bytes f)
    → decode (record { bytes = take k (wire_bytes f); ends = e }) ≢ ok (some (f', s'))
unfolding left_over
decode_cut f f' k e s' h v lt d =
    absurd
      (omega (arith, ap length left, length-append s'.bytes missing, length-drop k (wire_bytes f)))
  where
    missing : List ℕ
    missing = drop k (wire_bytes f)

    sound : (take k (wire_bytes f) ≡ wire_bytes f' ++ s'.bytes) × FitsFrame f' × (s'.ends ≡ e)
    sound = decode_sound _ s' f' (All-take IsByte k (wire_bytes f) v) d

    whole : wire_bytes f ≡ wire_bytes f' ++ (s'.bytes ++ missing)
    whole =
        sym (take-append-drop k (wire_bytes f))
        ∙ rw (sound.0) (append_assoc (wire_bytes f') s'.bytes missing)

    again :
        ok (some (f, record { bytes = []; ends = e }))
        ≡ decode (record { bytes = wire_bytes f' ++ (s'.bytes ++ missing); ends = e })
    again =
        sym (decode-wire_bytes f [] e h)
        ∙ rw (append-nil) (ap (λ (b : List ℕ). decode (record { bytes = b; ends = e })) whole)

    left : [] ≡ s'.bytes ++ missing
    left = ap left_over (again ∙ decode-wire_bytes f' (s'.bytes ++ missing) e sound.1)
