-- ===== src/Text/Parse.antt =====
-- The standard library's `str::parse` for the integers that the arguments and the files hold.
use parsip.Base.{
  ℕ, zero, suc, ◌+◌, ◌-◌, ◌*◌, ◌/◌, ◌%◌, ◌≤◌, ◌<◌, ◌^◌, ◌≡◌, refl, List, [], ◌∷◌, ◌++◌, Bool, true,
  false, ◌&&◌, leb, ltb, ◌==◌, Option, none, some, if◌then◌else◌, arith, Bool-cases, inl, inr,
}
use parsip.Text.{decimal, decimal_digits}

-- The loop over the digits: no result at another character, or once the number passes `max`.
unfoldable pub parse_digits : (max acc : ℕ) → List ℕ → Option ℕ
parse_digits max acc [] = some acc
parse_digits max acc (c ∷ cs) =
    let next = acc * 10 + (c - 48) in
    let rest = parse_digits max next cs in
    if leb 48 c && leb c 57 && leb next max then rest else none

-- A number with at least one digit.
unfoldable pub parse_magnitude : ℕ → List ℕ → Option ℕ
parse_magnitude max [] = none
parse_magnitude max (c ∷ cs) = parse_digits max 0 (c ∷ cs)

-- `parse::<u16>()`
unfoldable pub parse_u16 : List ℕ → Option ℕ
parse_u16 [] = none
parse_u16 (c ∷ cs) =
    let plain = parse_magnitude 65535 (c ∷ cs) in
    if c == b'+' then parse_magnitude 65535 cs else plain

-- `parse::<i32>()`: whether it is negative, and its magnitude.
unfoldable pub parse_i32 : List ℕ → Option (Bool × ℕ)
parse_i32 [] = none
parse_i32 (c ∷ cs) =
    let minus = parse_magnitude 2_147_483_648 cs in
    let plus = parse_magnitude 2_147_483_647 (if c == b'+' then cs else c ∷ cs) in
    if c == b'-'
    then elim minus [ none ↦ none | some n ↦ some (true, n) ]
    else elim plus [ none ↦ none | some n ↦ some (false, n) ]

parse_digits_bound :
    (max acc n : ℕ) (cs : List ℕ) → acc ≤ max → parse_digits max acc cs ≡ some n → n ≤ max
unfolding parse_digits
parse_digits_bound max acc n [] h e = ground (arith, h, e)
parse_digits_bound max acc n (c ∷ cs) h e =
    elim (Bool-cases (leb 48 c && leb c 57 && leb (acc * 10 + (c - 48)) max)) [
      | inr f ↦ absurd (ground (arith, e, f))
      | inl f ↦
          parse_digits_bound max (acc * 10 + (c - 48)) n cs (ground (arith, f))
            (ground (arith, e, f))
    ]

pub parse_u16_bound : (cs : List ℕ) (n : ℕ) → parse_u16 cs ≡ some n → n < 2 ^ 16
unfolding parse_u16 parse_magnitude
parse_u16_bound [] n e = absurd (ground (arith, e))
parse_u16_bound (c ∷ []) n e = elim (Bool-cases (c == b'+')) [
  | inl f ↦ absurd (ground (arith, e, f))
  | inr f ↦
      let below : n ≤ 65535 =
        parse_digits_bound 65535 0 n (c ∷ []) (omega arith) (ground (arith, e, f)) in
      omega arith
]
parse_u16_bound (c ∷ d ∷ cs) n e = elim (Bool-cases (c == b'+')) [
  | inl f ↦
      let below : n ≤ 65535 =
        parse_digits_bound 65535 0 n (d ∷ cs) (omega arith) (ground (arith, e, f)) in
      omega arith
  | inr f ↦
      let below : n ≤ 65535 =
        parse_digits_bound 65535 0 n (c ∷ d ∷ cs) (omega arith) (ground (arith, e, f)) in
      omega arith
]

-- The digits of a number that is not too large are read as this number.
parse_digits-append :
    (max acc c : ℕ) (cs : List ℕ)
    → (m : ℕ) → parse_digits max acc cs ≡ some m
    → 48 ≤ c
    → c ≤ 57
    → m * 10 + (c - 48) ≤ max
    → parse_digits max acc (cs ++ (c ∷ [])) ≡ some (m * 10 + (c - 48))
unfolding parse_digits
parse_digits-append max acc c [] m e lo hi fits = ground (arith, e, lo, hi, fits)
parse_digits-append max acc c (d ∷ cs) m e lo hi fits =
    elim (Bool-cases (leb 48 d && leb d 57 && leb (acc * 10 + (d - 48)) max)) [
      | inr f ↦ absurd (ground (arith, e, f))
      | inl f ↦ ground (
        arith,
        f,
        parse_digits-append max (acc * 10 + (d - 48)) c cs m (ground (arith, e, f)) lo hi fits,
      )
    ]

parse_digits-decimal_digits :
    (max fuel n : ℕ) → n ≤ fuel → n ≤ max → parse_digits max 0 (decimal_digits fuel n) ≡ some n
unfolding decimal_digits parse_digits
parse_digits-decimal_digits max zero n h le = ground (arith, h)
parse_digits-decimal_digits max (suc fuel) n h le = ground (
  arith,
  parse_digits-append max 0 (48 + n % 10) (decimal_digits fuel (n / 10)) (n / 10)
      (parse_digits-decimal_digits max fuel (n / 10) (omega arith) (omega arith)) (omega arith)
      (omega arith) (omega arith),
)

decimal_digits-digit : (fuel n : ℕ) → (c : ℕ) × (cs : List ℕ) × (decimal_digits fuel n ≡ c ∷ cs)
unfolding decimal_digits
decimal_digits-digit zero n = (48 + n % 10, [], refl)
decimal_digits-digit (suc fuel) n = elim (Bool-cases (ltb n 10)) [
  | inl f ↦ (48 + n % 10, [], ground (arith, f))
  | inr f ↦
      let (c, cs, e) = decimal_digits-digit fuel (n / 10) in
      (c, cs ++ ((48 + n % 10) ∷ []), ground (arith, e, f))
]

parse_u16_digits :
    (n : ℕ) (ds cs : List ℕ) (c : ℕ)
    → ds ≡ c ∷ cs
    → parse_digits 65535 0 ds ≡ some n
    → parse_u16 ds ≡ some n
unfolding parse_u16 parse_magnitude parse_digits
parse_u16_digits n ds cs c f e = ground (arith, e, f)

-- A 16-bit number is read from its decimal digits.
pub parse_u16-decimal : (n : ℕ) → n < 2 ^ 16 → parse_u16 (decimal n) ≡ some n
unfolding decimal
parse_u16-decimal n h =
    let (c, cs, e) = decimal_digits-digit n n in
    parse_u16_digits n (decimal_digits n n) cs c e
      (parse_digits-decimal_digits 65535 n n (omega arith) (omega arith))
