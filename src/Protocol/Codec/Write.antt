-- ===== src/Protocol/Codec/Write.antt =====
-- What `encode` has written when it returns, for every way in which the stream answers.
use parsip.Base.{
  ℕ, zero, suc, ◌+◌, ◌-◌, ◌≤◌, ◌<◌, ◌≡◌, refl, sym, ap, ◌∙◌, List, [], ◌∷◌, ◌++◌, length, take,
  drop, take-append-drop, append-nil, append_assoc, arith, ltb, ◌==◌, Option, none, some, min,
  length-drop, Bool-cases, inl, inr, if◌then◌else◌, le→ltb, lt→ltb, ltb→lt, ltb-false→le, ==→eq,
  ==-false→ne, ◌%◌, ◌^◌,
}
use native.Mathlib.Nat.{zero-add, suc-add, sub-zero}
use parsip.Bytes.{to_be_bytes}
use parsip.Io.{Error, Result, ok, err, Output, WriteOutcome, accepts, fails, write_vectored}
use parsip.Protocol.Types.{Frame}
use parsip.Protocol.Codec.{gathered, advance, write_loop, encode}
use parsip.Protocol.Codec.Wire.{wire_bytes, length-wire_bytes}

drop-nil : (n : ℕ) → drop {A = ℕ} n [] ≡ []
drop-nil zero = refl
drop-nil (suc n) = refl

drop-append-lt : (n : ℕ) (xs ys : List ℕ) → n ≤ length xs → drop n (xs ++ ys) ≡ drop n xs ++ ys
drop-append-lt zero xs ys h = refl
drop-append-lt (suc n) [] ys h = absurd (omega arith)
drop-append-lt (suc n) (x ∷ xs) ys h = drop-append-lt n xs ys (omega arith)

drop-append-ge :
    (n : ℕ) (xs ys : List ℕ) → length xs ≤ n → drop n (xs ++ ys) ≡ drop (n - length xs) ys
drop-append-ge n [] ys h = rw (sub-zero n)
drop-append-ge zero (x ∷ xs) ys h = absurd (omega arith)
drop-append-ge (suc n) (x ∷ xs) ys h =
    let e : suc n - suc (length xs) ≡ n - length xs = omega arith in
    rw e (drop-append-ge n xs ys (omega arith))

advance-zero : (ss : List (List ℕ)) → advance 0 ss ≡ ss
unfolding advance
advance-zero [] = refl
advance-zero (s ∷ ss) = refl

-- The slices are advanced by as many bytes as were taken.
gathered-advance : (n : ℕ) (ss : List (List ℕ)) → gathered (advance n ss) ≡ drop n (gathered ss)
unfolding gathered advance
gathered-advance n [] = sym (drop-nil n)
gathered-advance n (s ∷ ss) = ground (
  arith,
  advance-zero ss,
  gathered-advance (n - length s) ss,
  drop-append-lt n s (gathered ss),
  drop-append-ge n s (gathered ss),
)

-- What a run of the writer has done to the stream: on success all bytes are there, on an error a
-- proper prefix of them. A run that is out of fuel does not count.
abbrev pub Wrote : Output → List ℕ → Option (Result (Unit {0}) Error × Output) → Type 0
Wrote o bytes none = ⊥
Wrote o bytes (some (ok u, o')) = o'.written ≡ o.written ++ bytes
Wrote o bytes (some (err e, o')) =
    (k : ℕ) × (k < length bytes) × (o'.written ≡ o.written ++ take k bytes)

nil_of_length : (xs : List ℕ) → length xs ≡ 0 → xs ≡ []
nil_of_length [] h = refl
nil_of_length (x ∷ xs) h = absurd (omega arith)

take-take-drop : (n k : ℕ) (xs : List ℕ) → take n xs ++ take k (drop n xs) ≡ take (n + k) xs
take-take-drop zero k xs = rw zero-add
take-take-drop (suc n) zero [] = rw (suc-add)
take-take-drop (suc n) (suc k) [] = rw suc-add
take-take-drop (suc n) k (x ∷ xs) = rw suc-add (ap (◌∷◌ x) (take-take-drop n k xs))

-- The run goes on behind `n` bytes that were taken.
Wrote-behind :
    (n : ℕ) (o o' : Output) (bytes : List ℕ) (r : Option (Result (Unit {0}) Error × Output))
    → o'.written ≡ o.written ++ take n bytes
    → n ≤ length bytes
    → Wrote o' (drop n bytes) r
    → Wrote o bytes r
Wrote-behind n o o' bytes none e h w = w
Wrote-behind n o o' bytes (some (ok u, o'')) e h w = rw (w, e, append_assoc, take-append-drop)
Wrote-behind n o o' bytes (some (err x, o'')) e h (k, lt, w) =
    (n + k, omega (arith, length-drop n bytes), rw (w, e, append_assoc, take-take-drop))

write_loop_done :
    (fuel : ℕ) (iov : List (List ℕ)) (tl : ℕ) (o : Output)
    → 0 < fuel
    → write_loop fuel iov tl tl o ≡ some (ok tt, o)
unfolding write_loop
write_loop_done zero iov tl o h = absurd (omega arith)
write_loop_done (suc fuel) iov tl o h = rw (le→ltb tl tl (omega arith))

write_vectored_fails :
    (o : Output) (x : Error) (bytes : List ℕ)
    → o.answers o.calls ≡ fails x
    → write_vectored bytes o ≡ (err x, record o { calls = o.calls + 1 })
unfolding write_vectored
write_vectored_fails o x bytes a = rw (a, write_vectored)

write_vectored_accepts :
    (o : Output) (n : ℕ) (bytes : List ℕ)
    → o.answers o.calls ≡ accepts n
    → write_vectored bytes o ≡ (
      ok (min n (length bytes)),
      record o { written = o.written ++ take (min n (length bytes)) bytes; calls = o.calls + 1 },
    )
unfolding write_vectored
write_vectored_accepts o n bytes a = rw (a, write_vectored)

module _ (fuel : ℕ) (iov : List (List ℕ)) (tw tl : ℕ) (o : Output)
    (e : tw + length (gathered iov) ≡ tl) (h : length (gathered iov) < suc fuel)
    (rest : (next : List (List ℕ)) (tw' : ℕ) (o' : Output)
      → tw' + length (gathered next) ≡ tl
      → length (gathered next) < fuel
      → Wrote o' (gathered next) (write_loop fuel next tw' tl o')) where
  taken_state : ℕ → Output
  taken_state n = record o { written = o.written ++ take n (gathered iov); calls = o.calls + 1 }

  go_on :
      (n : ℕ)
      → 0 < n
      → n ≤ length (gathered iov)
      → Wrote (taken_state n) (drop n (gathered iov)) (
          write_loop fuel
            (if ltb (tw + n) tl then advance n iov else iov)
            (tw + n)
            tl
            (taken_state n))
  go_on n pos le = elim (Bool-cases (ltb (tw + n) tl)) [
    | inl more ↦
        rw (more, ← gathered-advance n iov)
          (rest (advance n iov) (tw + n) (taken_state n) (omega (arith, left))
            (omega (arith, left)))
    | inr done ↦
        let finished : tw + n ≡ tl = omega (arith, ltb-false→le (tw + n) tl done) in
        let nothing =
          nil_of_length (drop n (gathered iov)) (omega (arith, length-drop n (gathered iov))) in
        rw (done, finished, write_loop_done fuel iov tl (taken_state n) (omega arith), nothing)
          (sym (append-nil (taken_state n).written))
  ]
    where
      left : length (gathered (advance n iov)) ≡ length (gathered iov) - n
      left = ap length (gathered-advance n iov) ∙ length-drop n (gathered iov)

  round-Wrote :
      (answer : WriteOutcome)
      → o.answers o.calls ≡ answer
      → tw < tl
      → Wrote o (gathered iov) (write_loop (suc fuel) iov tw tl o)
  unfolding write_loop taken_state
  round-Wrote (fails x) a lt =
      rw (lt→ltb tw tl lt, call, call) (0, omega arith, sym (append-nil o.written))
    where
      call : write_vectored (gathered iov) o ≡ (err x, record o { calls = o.calls + 1 })
      call = write_vectored_fails o x (gathered iov) a
  round-Wrote (accepts n) a lt =
      rw (lt→ltb tw tl lt, call)
        (elim (Bool-cases (min n (length (gathered iov)) == 0)) [
          | inl stuck ↦ rw (stuck, call) (0, omega arith, rw (==→eq _ 0 stuck))
          | inr some_taken ↦
              rw (some_taken, call)
                (Wrote-behind taken o (taken_state taken) (gathered iov) _ refl (omega arith)
                  (go_on taken (omega (arith, ==-false→ne _ 0 some_taken)) (omega arith)))
        ])
    where
      taken : ℕ
      taken = min n (length (gathered iov))

      call : write_vectored (gathered iov) o ≡ (ok taken, taken_state taken)
      call = write_vectored_accepts o n (gathered iov) a

write_loop-Wrote :
    (fuel : ℕ) (iov : List (List ℕ)) (total_written total_len : ℕ) (o : Output)
    → total_written + length (gathered iov) ≡ total_len
    → length (gathered iov) < fuel
    → Wrote o (gathered iov) (write_loop fuel iov total_written total_len o)
unfolding write_loop
write_loop-Wrote zero iov tw tl o e h = absurd (omega arith)
write_loop-Wrote (suc fuel) iov tw tl o e h = elim (Bool-cases (ltb tw tl)) [
  | inl more ↦
      round-Wrote fuel iov tw tl o e h
        (λ next tw' o' e' h'. write_loop-Wrote fuel next tw' tl o' e' h') _ refl (ltb→lt tw tl more)
  | inr done ↦
      let nothing = nil_of_length (gathered iov) (omega (arith, ltb-false→le tw tl done)) in
      rw (done, nothing) (sym (append-nil o.written))
]

gathered_frame :
    (f : Frame)
    → gathered
        (to_be_bytes 4 ((1 + length f.payload) % 2 ^ 32) ∷ (f.message_type ∷ []) ∷ f.payload ∷ [])
      ≡ wire_bytes f
unfolding gathered wire_bytes
gathered_frame f = simp append-nil

-- `encode` returns whatever the stream answers: with success when all bytes of the frame are
-- written, in order and once, and with an error when a proper prefix of them is.
pub encode-Wrote : (f : Frame) (o : Output) → Wrote o (wire_bytes f) (encode f o)
unfolding encode
encode-Wrote f o =
    rw (← gathered_frame f)
      (write_loop-Wrote _ _ 0 _ o (omega (arith, total)) (omega (arith, total)))
  where
    total :
        length (
          gathered (
            to_be_bytes 4 ((1 + length f.payload) % 2 ^ 32)
            ∷ (f.message_type ∷ [])
            ∷ f.payload
            ∷ []))
        ≡ 5 + length f.payload
    total = ap length (gathered_frame f) ∙ length-wire_bytes f
