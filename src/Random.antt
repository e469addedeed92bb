-- ===== src/Random.antt =====
-- src/random.rs: random bytes from the system, or the time in their place.
use parsip.Base.{ℕ, ◌≡◌, List, ◌++◌, length, drop, length-append, length-drop, arith}
use parsip.Bytes.{to_be_bytes, length-to_be_bytes}
use parsip.Io.{Result, ok, err}

-- `source` is the buffer of 32 bytes after `read_exact`, which has succeeded or not; `nanos` is the
-- clock, a u128.
unfoldable pub random_bytes_32 : Result (List ℕ) (List ℕ) → (nanos : ℕ) → List ℕ
random_bytes_32 (ok bytes) nanos = bytes
random_bytes_32 (err bytes) nanos = to_be_bytes 16 nanos ++ drop 16 bytes

-- The buffer.
abbrev pub buffer : Result (List ℕ) (List ℕ) → List ℕ
buffer (ok bytes) = bytes
buffer (err bytes) = bytes

pub length-random_bytes_32 :
    (source : Result (List ℕ) (List ℕ)) (nanos : ℕ)
    → length (buffer source) ≡ 32
    → length (random_bytes_32 source nanos) ≡ 32
unfolding random_bytes_32
length-random_bytes_32 (ok bytes) nanos h = h
length-random_bytes_32 (err bytes) nanos h = omega (
  arith,
  h,
  length-append (to_be_bytes 16 nanos) (drop 16 bytes),
  length-to_be_bytes 16 nanos,
  length-drop 16 bytes,
)
