-- ===== src/Io.antt =====
-- The standard library's `Result`, `std::io::Error` and byte streams.
use parsip.Base.{
  ℕ, ◌+◌, ◌≡◌, refl, Option, none, some, List, ◌++◌, leb, length, take, drop, if◌then◌else◌, min,
  ◌⊎◌, inl, inr,
}

pub data ErrorKind : Type 0 where
  invalid_data write_zero unexpected_eof connection_aborted : ErrorKind
  already_exists not_found broken_pipe not_connected would_block timed_out other : ErrorKind

-- An `std::io::Error`: its kind and its message.
pub record Error : Type 0 where
  pub kind : ErrorKind
  pub message : List ℕ

pub data Result {ℓ κ} (A : Type ℓ) (E : Type κ) : Type (ℓ ⊔ κ) where
  ok : A → Result A E
  err : E → Result A E

infixl 5 ◌>>=◌ ◌>>◌
abbrev pub ◌>>=◌ {ℓ κ ι} :
    {A : Type ℓ} {B : Type κ} {E : Type ι} → Result A E → (A → Result B E) → Result B E
ok a >>= f = f a
err e >>= f = err e

abbrev pub ◌>>◌ {ℓ κ} : {B : Type ℓ} {E : Type κ} → Result (Unit {0}) E → Result B E → Result B E
m >> k = m >>= λ _. k

pub Result-cases {ℓ κ} :
    {A : Type ℓ} {E : Type κ} (r : Result A E) → ((a : A) × (r ≡ ok a)) ⊎ ((e : E) × (r ≡ err e))
Result-cases (ok a) = inl (a, refl)
Result-cases (err e) = inr (e, refl)

-- A call whose result is not used; `none` as an answer stands for success.
abbrev pub answer : Option Error → Result (Unit {0}) Error
answer none = ok tt
answer (some e) = err e

-- What a reader still has to give: the bytes that will come, and the error that stands behind them;
-- `unexpected_eof` stands for the regular end of the stream.
pub record Input : Type 0 where
  pub bytes : List ℕ
  pub ends : Error

-- `read_exact` of `n` bytes.
unfoldable pub read_exact : ℕ → Input → Result (List ℕ × Input) Error
read_exact n s =
    if leb n (length s.bytes)
    then ok (take n s.bytes, record s { bytes = drop n s.bytes })
    else err s.ends

-- What one call of `write` does: it takes at most `n` bytes, or it fails.
pub data WriteOutcome : Type 0 where
  accepts : ℕ → WriteOutcome
  fails : Error → WriteOutcome

-- A writer: the bytes that it took so far, the calls so far, and how it answers each call.
pub record Output : Type 0 where
  pub written : List ℕ
  pub calls : ℕ
  pub answers : ℕ → WriteOutcome

-- `write_vectored` on slices whose concatenation is `bytes`: the number of bytes taken.
unfoldable pub write_vectored : List ℕ → Output → Result ℕ Error × Output
write_vectored bytes o = elim (o.answers o.calls) [
  | accepts n ↦
      let taken = min n (length bytes) in
      (ok taken, record o { written = o.written ++ take taken bytes; calls = o.calls + 1 })
  | fails e ↦ (err e, record o { calls = o.calls + 1 })
]

-- What holds of both cases holds of a case distinction.
pub Result-both {ℓ κ ι μ} :
    {A : Type ℓ} {E : Type κ} {C : Type ι} (P : C → Type μ) (r : Result A E) (f : A → C) (g : E → C)
    → ((a : A) → P (f a))
    → ((e : E) → P (g e))
    → P (elim r [ ok a ↦ f a | err e ↦ g e ])
Result-both P (ok a) f g pf pg = pf a
Result-both P (err e) f g pf pg = pg e
