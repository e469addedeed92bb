-- ===== src/Bytes.antt =====
-- The standard library's fixed-width integers as bytes: `to_be_bytes` and `from_be_bytes` of
-- u16, u32 and u64. A byte is a number below 256.
use parsip.Base.{
  ℕ, zero, suc, ◌+◌, ◌*◌, ◌/◌, ◌%◌, ◌^◌, ◌<◌, ◌≡◌, refl, List, [], ◌∷◌, ◌++◌, arith, length,
  length-append, All, All-append, append_assoc, append-nil,
}
use native.Mathlib.Nat.{pow-suc, zero-add, add-zero}

abbrev pub IsByte : ℕ → Type 0
IsByte b = b < 256

-- `x.to_be_bytes()` for an integer of `k` bytes.
unfoldable pub to_be_bytes : ℕ → ℕ → List ℕ
to_be_bytes zero x = []
to_be_bytes (suc k) x = to_be_bytes k (x / 256) ++ (x % 256 ∷ [])

unfoldable pub from_be_acc : ℕ → List ℕ → ℕ
from_be_acc acc [] = acc
from_be_acc acc (b ∷ bs) = from_be_acc (acc * 256 + b) bs

-- `from_be_bytes`, for an array of any length.
unfoldable pub from_be_bytes : List ℕ → ℕ
unfolding from_be_acc
from_be_bytes bs = from_be_acc 0 bs

pub length-to_be_bytes : (k x : ℕ) → length (to_be_bytes k x) ≡ k
unfolding to_be_bytes
length-to_be_bytes zero x = refl
length-to_be_bytes (suc k) x =
    omega (
      arith,
      length-append (to_be_bytes k (x / 256)) (x % 256 ∷ []),
      length-to_be_bytes k (x / 256),
    )

pub to_be_bytes-IsByte : (k x : ℕ) → All IsByte (to_be_bytes k x)
unfolding to_be_bytes
to_be_bytes-IsByte zero x = tt
to_be_bytes-IsByte (suc k) x =
    All-append IsByte (to_be_bytes k (x / 256)) (x % 256 ∷ []) (to_be_bytes-IsByte k (x / 256))
      (omega arith)

from_be_acc-append :
    (acc b : ℕ) (bs : List ℕ) → from_be_acc acc (bs ++ (b ∷ [])) ≡ from_be_acc acc bs * 256 + b
unfolding from_be_acc
from_be_acc-append acc b [] = refl
from_be_acc-append acc b (c ∷ bs) = from_be_acc-append (acc * 256 + c) b bs

-- An integer that fits its width is read back from its bytes.
pub from_be_bytes-to_be_bytes : (k x : ℕ) → x < 256 ^ k → from_be_bytes (to_be_bytes k x) ≡ x
unfolding from_be_bytes to_be_bytes
from_be_bytes-to_be_bytes zero x h = omega arith
from_be_bytes-to_be_bytes (suc k) x h = omega (
  arith,
  from_be_acc-append 0 (x % 256) (to_be_bytes k (x / 256)),
  from_be_bytes-to_be_bytes k (x / 256) (omega (arith, pow-suc 256 k)),
)

byte_split : (acc b : ℕ) → b < 256 → ((acc * 256 + b) / 256 ≡ acc) × ((acc * 256 + b) % 256 ≡ b)
byte_split acc b h = omega arith

to_be_bytes-from_be_acc :
    (k acc : ℕ) (bs : List ℕ)
    → All IsByte bs
    → to_be_bytes (length bs + k) (from_be_acc acc bs) ≡ to_be_bytes k acc ++ bs
unfolding from_be_acc
to_be_bytes-from_be_acc k acc [] h = rw (zero-add, append-nil)
to_be_bytes-from_be_acc k acc (b ∷ bs) (hb, hbs) =
    rw (shift k bs, to_be_bytes-from_be_acc (suc k) (acc * 256 + b) bs hbs, last_byte)
      (append_assoc (to_be_bytes k acc) (b ∷ []) bs)
  where
    shift : (k : ℕ) (bs : List ℕ) → suc (length bs) + k ≡ length bs + suc k
    shift k bs = omega arith

    last_byte : to_be_bytes (suc k) (acc * 256 + b) ≡ to_be_bytes k acc ++ (b ∷ [])
    last_byte = unfold to_be_bytes in rw ((byte_split acc b hb).0, (byte_split acc b hb).1)

-- The bytes of an integer are determined by its value.
pub to_be_bytes-from_be_bytes :
    (bs : List ℕ) → All IsByte bs → to_be_bytes (length bs) (from_be_bytes bs) ≡ bs
unfolding from_be_bytes
to_be_bytes-from_be_bytes bs h =
    rw (← add-zero (length bs)) (unfold to_be_bytes in to_be_bytes-from_be_acc 0 0 bs h)

from_be_acc-lt :
    (acc j : ℕ) (bs : List ℕ)
    → All IsByte bs
    → acc < 256 ^ j
    → from_be_acc acc bs < 256 ^ (length bs + j)
unfolding from_be_acc
from_be_acc-lt acc j [] h lt = rw zero-add lt
from_be_acc-lt acc j (b ∷ bs) (hb, hbs) lt =
    let e : suc (length bs) + j ≡ length bs + suc j = omega arith in
    rw e (from_be_acc-lt (acc * 256 + b) (suc j) bs hbs (omega (arith, pow-suc 256 j)))

pub from_be_bytes-lt : (bs : List ℕ) → All IsByte bs → from_be_bytes bs < 256 ^ length bs
unfolding from_be_bytes
from_be_bytes-lt bs h = rw (← add-zero (length bs)) (from_be_acc-lt 0 0 bs h (omega arith))
