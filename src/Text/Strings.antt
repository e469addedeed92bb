-- ===== src/Text/Strings.antt =====
-- The standard library's operations on strings: equality, `lines`, `trim`, `contains`.
use parsip.Base.{
  ℕ, ◌≡◌, ◌≢◌, refl, ap, ◌∙◌, All, append-nil, append_assoc, arith, Bool-cases, inl, inr, List, [],
  ◌∷◌, ◌++◌, Bool, true, false, ◌&&◌, ◌||◌, leb, ◌==◌, if◌then◌else◌,
}

-- `==` of byte strings.
unfoldable pub bytes_eq : List ℕ → List ℕ → Bool
bytes_eq [] [] = true
bytes_eq [] (y ∷ ys) = false
bytes_eq (x ∷ xs) [] = false
bytes_eq (x ∷ xs) (y ∷ ys) = x == y && bytes_eq xs ys

-- A carriage return in front of a newline goes too.
without_return : List ℕ → List ℕ
without_return [] = []
without_return (c ∷ []) = if c == 13 then [] else c ∷ []
without_return (c ∷ cs) = c ∷ without_return cs

-- `lines`: the text between the newlines, with no line behind the last one. The characters of the
-- line so far come first.
unfoldable pub lines_from : List ℕ → List ℕ → List (List ℕ)
unfolding without_return
lines_from [] [] = []
lines_from (x ∷ xs) [] = (x ∷ xs) ∷ []
lines_from seen (c ∷ cs) =
    let ended = without_return seen ∷ lines_from [] cs in
    let more = lines_from (seen ++ (c ∷ [])) cs in if c == 10 then ended else more

without_return_plain : (line : List ℕ) → All (λ c. c ≢ 13) line → without_return line ≡ line
unfolding without_return
without_return_plain [] h = refl
without_return_plain (c ∷ []) (ne, h) = ground (arith, ne)
without_return_plain (c ∷ d ∷ cs) (ne, h) = ap (◌∷◌ c) (without_return_plain (d ∷ cs) h)

lines_from_plain :
    (seen line rest : List ℕ)
    → All (λ c. c ≢ 10) line
    → lines_from seen (line ++ (10 ∷ rest)) ≡ without_return (seen ++ line) ∷ lines_from [] rest
unfolding lines_from
lines_from_plain [] [] rest h = refl
lines_from_plain (x ∷ xs) [] rest h = rw append-nil refl
lines_from_plain [] (c ∷ cs) rest (ne, h) = ground (arith, ne, lines_from_plain (c ∷ []) cs rest h)
lines_from_plain (x ∷ xs) (c ∷ cs) rest (ne, h) = ground (
  arith,
  ne,
  lines_from_plain ((x ∷ xs) ++ (c ∷ [])) cs rest h,
  append_assoc (x ∷ xs) (c ∷ []) cs,
)

-- A text without ends of lines is one line.
pub lines_from_line :
    (line : List ℕ)
    → All (λ c. c ≢ 10) line
    → All (λ c. c ≢ 13) line
    → lines_from [] (line ++ (10 ∷ [])) ≡ line ∷ []
unfolding lines_from
lines_from_line line h k =
    lines_from_plain [] line [] h ∙ ap (λ l. l ∷ []) (without_return_plain line k)

-- White space, of which only the characters in ASCII are here.
is_space : ℕ → Bool
is_space c = c == 32 || leb 9 c && leb c 13

trim_start : List ℕ → List ℕ
unfolding is_space
trim_start [] = []
trim_start (c ∷ cs) = let rest = trim_start cs in if is_space c then rest else c ∷ cs

trim_end : List ℕ → List ℕ
unfolding is_space
trim_end [] = []
trim_end (c ∷ cs) = elim (trim_end cs) [
  | [] ↦ if is_space c then [] else c ∷ []
  | x ∷ xs ↦ c ∷ x ∷ xs
]

unfoldable pub trim : List ℕ → List ℕ
unfolding trim_start trim_end
trim s = trim_end (trim_start s)

pub bytes_eq_sound : (xs ys : List ℕ) → bytes_eq xs ys ≡ true → xs ≡ ys
unfolding bytes_eq
bytes_eq_sound [] [] e = refl
bytes_eq_sound [] (y ∷ ys) e = absurd (ground (arith, e))
bytes_eq_sound (x ∷ xs) [] e = absurd (ground (arith, e))
bytes_eq_sound (x ∷ xs) (y ∷ ys) e = elim (Bool-cases (x == y)) [
  | inr f ↦ absurd (ground (arith, e, f))
  | inl f ↦
      let same : x ≡ y = ground (arith, f) in
      let rest : xs ≡ ys = bytes_eq_sound xs ys (ground (arith, e, f)) in
      ap (λ z. z ∷ xs) same ∙ ap (◌∷◌ y) rest
]

-- `contains` a string, or `windows(n).any(..)` for a slice of `n` bytes.
unfoldable pub starts_with : List ℕ → List ℕ → Bool
starts_with [] s = true
starts_with (p ∷ ps) [] = false
starts_with (p ∷ ps) (c ∷ cs) = p == c && starts_with ps cs

unfoldable pub has_slice : List ℕ → List ℕ → Bool
has_slice p [] = starts_with p []
has_slice p (c ∷ cs) = starts_with p (c ∷ cs) || has_slice p cs

starts_with_sound : (p s : List ℕ) → starts_with p s ≡ true → (after : List ℕ) × (s ≡ p ++ after)
unfolding starts_with
starts_with_sound [] s e = (s, refl)
starts_with_sound (p ∷ ps) [] e = absurd (ground (arith, e))
starts_with_sound (p ∷ ps) (c ∷ cs) e = elim (Bool-cases (p == c)) [
  | inr f ↦ absurd (ground (arith, e, f))
  | inl f ↦
      let (after, same) = starts_with_sound ps cs (ground (arith, e, f)) in
      let first : c ≡ p = ground (arith, f) in (after, ap (◌∷ cs) first ∙ ap (p ∷◌) same)
]

-- A part that is found is there.
pub has_slice_sound :
    (p s : List ℕ) → has_slice p s ≡ true → (before after : List ℕ) × (s ≡ before ++ (p ++ after))
unfolding has_slice
has_slice_sound p [] e = let (after, same) = starts_with_sound p [] e in ([], after, same)
has_slice_sound p (c ∷ cs) e = elim (Bool-cases (starts_with p (c ∷ cs))) [
  | inl f ↦ let (after, same) = starts_with_sound p (c ∷ cs) f in ([], after, same)
  | inr f ↦
      let (before, after, same) = has_slice_sound p cs (ground (arith, e, f)) in
      (c ∷ before, after, ap (c ∷◌) same)
]
