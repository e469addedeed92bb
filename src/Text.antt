-- ===== src/Text.antt =====
-- The standard library's `String`: a sequence of bytes that is valid UTF-8; `String::from_utf8`;
-- and the decimal digits that `{}` prints for a number.
pub mod Parse
pub mod Strings
use Prim.Native.Char.{code}
use parsip.Base.{
  ℕ, zero, suc, ◌+◌, ◌-◌, ◌*◌, ◌/◌, ◌%◌, ◌≤◌, ◌≡◌, refl, sym, ap, ◌∙◌, List, [], ◌∷◌, ◌++◌, String,
  Bool, true, false, ◌&&◌, leb, ltb, Option, none, some, if◌then◌else◌, arith,
}

-- The text of a literal of ASCII characters.
unfoldable pub text : String → List ℕ
text String.[] = []
text (String.◌∷◌ c s) = code c ∷ text s

-- Where the decoder stands inside a character: how many continuation bytes are due, and the
-- narrower range of the first one after E0, ED, F0 and F4.
pub data Utf8 : Type 0 where
  start one two three after_e0 after_ed after_f0 after_f4 : Utf8

between : ℕ → ℕ → ℕ → Bool
between lo hi b = leb lo b && leb b hi

continue_with : ℕ → ℕ → ℕ → Utf8 → Option Utf8
unfolding between
continue_with lo hi b s = if between lo hi b then some s else none

unfoldable pub utf8_next : Utf8 → ℕ → Option Utf8
unfolding between continue_with
utf8_next start b =
    if ltb b 0x80
    then some start
    else if between 0xc2 0xdf b
    then some one
    else if b_is 0xe0
    then some after_e0
    else if b_is 0xed
    then some after_ed
    else if between 0xe1 0xef b
    then some two
    else if b_is 0xf0
    then some after_f0
    else if between 0xf1 0xf3 b
    then some three
    else if b_is 0xf4
    then some after_f4
    else none
  where
    b_is : ℕ → Bool
    b_is n = between n n b
utf8_next one b = continue_with 0x80 0xbf b start
utf8_next two b = continue_with 0x80 0xbf b one
utf8_next three b = continue_with 0x80 0xbf b two
utf8_next after_e0 b = continue_with 0xa0 0xbf b one
utf8_next after_ed b = continue_with 0x80 0x9f b one
utf8_next after_f0 b = continue_with 0x90 0xbf b two
utf8_next after_f4 b = continue_with 0x80 0x8f b two

unfoldable pub utf8_from : Utf8 → List ℕ → Bool
utf8_from start [] = true
utf8_from _ [] = false
utf8_from s (b ∷ bs) = elim (utf8_next s b) [ none ↦ false | some s' ↦ utf8_from s' bs ]

-- The invariant of a `String`.
abbrev pub IsText : List ℕ → Type 0
IsText bs = utf8_from start bs ≡ true

-- `String::from_utf8`
unfoldable pub from_utf8 : List ℕ → Option (List ℕ)
from_utf8 bs = if utf8_from start bs then some bs else none

-- `format!("{}", n)`: the decimal digits, most significant first. The digits left are at most `n`,
-- so the fuel `n` is enough.
unfoldable pub decimal_digits : ℕ → ℕ → List ℕ
decimal_digits zero n = (48 + n % 10) ∷ []
decimal_digits (suc fuel) n =
    let more = decimal_digits fuel (n / 10) in
    if ltb n 10 then (48 + n % 10) ∷ [] else more ++ ((48 + n % 10) ∷ [])

unfoldable pub decimal : ℕ → List ℕ
unfolding decimal_digits
decimal n = decimal_digits n n

unfoldable read_decimal : ℕ → List ℕ → ℕ
read_decimal acc [] = acc
read_decimal acc (c ∷ cs) = read_decimal (acc * 10 + (c - 48)) cs

read_decimal-append :
    (acc c : ℕ) (cs : List ℕ)
    → read_decimal acc (cs ++ (c ∷ [])) ≡ read_decimal acc cs * 10 + (c - 48)
unfolding read_decimal
read_decimal-append acc c [] = refl
read_decimal-append acc c (d ∷ cs) = read_decimal-append (acc * 10 + (d - 48)) c cs

read_decimal-decimal_digits : (fuel n : ℕ) → n ≤ fuel → read_decimal 0 (decimal_digits fuel n) ≡ n
unfolding decimal_digits read_decimal
read_decimal-decimal_digits zero n h = omega arith
read_decimal-decimal_digits (suc fuel) n h = ground (
  arith,
  read_decimal-append 0 (48 + n % 10) (decimal_digits fuel (n / 10)),
  read_decimal-decimal_digits fuel (n / 10) (omega arith),
)

-- The printed numbers are told apart.
pub decimal_injective : (n m : ℕ) → decimal n ≡ decimal m → n ≡ m
unfolding decimal
decimal_injective n m e =
    sym (read_decimal-decimal_digits n n (omega arith))
    ∙ ap (read_decimal 0) e
    ∙ read_decimal-decimal_digits m m (omega arith)
