-- ===== src/Connection/Established.antt =====
-- What the reader of a link makes of any bytes at all (src/connection/reader.rs).
use parsip.Base.{
  ℕ, zero, suc, ◌+◌, ◌<◌, ◌≡◌, refl, ap, List, [], ◌∷◌, ◌++◌, false, Option, none, some, length,
  length-append, All, arith, Bool-cases, inl, inr, All-right, All-left, ◌%◌, ◌^◌, subst,
}
use parsip.Bytes.{IsByte, to_be_bytes}
use parsip.Io.{Input, Error, Result, Result-cases, ok, err}
use parsip.Identity.{PeerId}
use parsip.Protocol.{Frame, Message, IsMessage}
use parsip.Protocol.Deserialize.{message_of}
use parsip.Protocol.Canonical.{message_of_sound}
use parsip.Protocol.Codec.{decode}
use parsip.Protocol.Codec.Wire.{wire_bytes, length-wire_bytes}
use parsip.Protocol.Codec.Read.{decode_sound}
use parsip.Connection.Reader.{is_handshake, read_loop, events, start_read_loop}
use parsip.Connection.Link.{start_read_loop_lem}

abbrev pub IsEstablished : Message → Type 0
IsEstablished m = IsMessage m × (is_handshake m ≡ false)

abbrev Sound : ℕ → Input → Type 0
Sound fuel s = (ms : List Message) × (read_loop fuel s ≡ some ms) × All IsEstablished ms

payload-IsByte : (f : Frame) → All IsByte (wire_bytes f) → All IsByte f.payload
unfolding wire_bytes
payload-IsByte f h =
    (All-right IsByte (to_be_bytes 4 ((1 + length f.payload) % 2 ^ 32)) (f.message_type ∷ f.payload)
      h).1

read_loop-Sound : (fuel : ℕ) (s : Input) → All IsByte s.bytes → length s.bytes < fuel → Sound fuel s
unfolding read_loop
read_loop-Sound zero s v lt = absurd (omega arith)
read_loop-Sound (suc fuel) s v lt = go (read_loop-Sound fuel) (decode s) refl
  where
    stop : read_loop (suc fuel) s ≡ some [] → Sound (suc fuel) s
    stop e = ([], e, tt)

    go :
        ((s : Input) → All IsByte s.bytes → length s.bytes < fuel → Sound fuel s)
        → (d : Result (Option (Frame × Input)) Error) → decode s ≡ d
        → Sound (suc fuel) s
    go later (err x) e = stop (rw (e, read_loop))
    go later (ok none) e = stop (rw (e, read_loop))
    go later (ok (some (f, s'))) e = elim (Result-cases (message_of f)) [
      | inr (x, bad) ↦ stop (ground (arith, e, bad))
      | inl (m, good) ↦ elim (Bool-cases (is_handshake m)) [
        | inl shake ↦ stop (ground (arith, e, good, shake))
        | inr plain ↦
            let (split, fits, ends) = decode_sound s s' f v e in
            let bytes : All IsByte (wire_bytes f ++ s'.bytes) = subst (All IsByte) split v in
            let (ms, ran, sound) = later s' (All-right IsByte (wire_bytes f) s'.bytes bytes) (
              omega (
                arith,
                ap length split,
                length-append (wire_bytes f) s'.bytes,
                length-wire_bytes f,
              )) in
            let (t, ranges) =
              message_of_sound f m
                (payload-IsByte f (All-left IsByte (wire_bytes f) s'.bytes bytes)) good in
            (m ∷ ms, ground (arith, e, good, plain, ran), ((ranges.2, plain), sound))
      ]
    ]

-- A reader ends on every stream of bytes: it reports messages of the established phase, with their fields
-- in range, and then, once, the disconnection.
pub start_read_loop_sound :
    (peer : PeerId) (s : Input)
    → All IsByte s.bytes
    → (ms : List Message) × (start_read_loop peer s ≡ some (events peer ms)) × All IsEstablished ms
start_read_loop_sound peer s v =
    let (ms, ran, sound) = read_loop-Sound (suc (length s.bytes)) s v (omega arith) in
    (ms, start_read_loop_lem peer s ms ran, sound)
