-- ===== src/Protocol/Codec.antt =====
-- src/protocol/codec.rs: `LengthPrefixCodec`. A frame on the wire is the length of its body (u32,
-- big-endian), the type byte and the payload.
pub mod Wire
pub mod Write
pub mod Read
use parsip.Base.{
  ℕ, zero, suc, ◌+◌, ◌-◌, ◌*◌, ◌%◌, ◌^◌, List, [], ◌∷◌, ◌++◌, length, drop, Bool, true, false, ltb,
  ◌==◌, Option, none, some, if◌then◌else◌,
}
use parsip.Bytes.{to_be_bytes, from_be_bytes}
use parsip.Text.{text, decimal}
use parsip.Io.{
  Error, ErrorKind, Result, ok, err, Input, Output, read_exact, write_vectored, invalid_data,
  write_zero, unexpected_eof,
}
use parsip.Protocol.Types.{Frame}

-- `MAX_FRAME_SIZE`
abbrev pub max_frame_size : ℕ
max_frame_size = 16 * 1024 * 1024

-- The bytes that the slices still hold.
unfoldable pub gathered : List (List ℕ) → List ℕ
gathered [] = []
gathered (s ∷ ss) = s ++ gathered ss

-- `for slice in &mut iov`: the slices without the first `advanced` bytes.
unfoldable pub advance : ℕ → List (List ℕ) → List (List ℕ)
advance advanced [] = []
advance advanced (s ∷ ss) =
    let stopped = drop advanced s ∷ advance 0 ss in
    let emptied = [] ∷ advance (advanced - length s) ss in
    if advanced == 0 then s ∷ ss else if ltb advanced (length s) then stopped else emptied

-- `while total_written < total_len`; `none` means that the fuel ran out.
unfoldable pub write_loop :
    ℕ → List (List ℕ) → ℕ → ℕ → Output → Option (Result (Unit {0}) Error × Output)
write_loop zero iov total_written total_len o = none
write_loop (suc fuel) iov total_written total_len o =
    let (result, o') = write_vectored (gathered iov) o in
    let round : Option (Result (Unit {0}) Error × Output) = elim result [
      | err e ↦ some (err e, o')
      | ok n ↦
          let written = total_written + n in
          let next = if ltb written total_len then advance n iov else iov in
          let rest = write_loop fuel next written total_len o' in
          if n == 0
          then some
              (err (record { kind = write_zero; message = text "failed to write whole frame" }), o')
          else rest
    ] in
    if ltb total_written total_len then round else some (ok tt, o)

-- Every round takes a byte at least, so one round more than there are bytes is enough.
unfoldable pub encode : Frame → Output → Option (Result (Unit {0}) Error × Output)
encode f o =
    let len_bytes = to_be_bytes 4 ((1 + length f.payload) % 2 ^ 32) in
    let total_len = 4 + 1 + length f.payload in
    write_loop (suc total_len) (len_bytes ∷ (f.message_type ∷ []) ∷ f.payload ∷ []) 0 total_len o

pub is_unexpected_eof : ErrorKind → Bool
is_unexpected_eof unexpected_eof = true
is_unexpected_eof _ = false

unfoldable pub frame_too_large : ℕ → Error
frame_too_large n = record {
  kind = invalid_data;
  message = text "Frame too large: " ++ (decimal n ++ text " bytes");
}

unfoldable pub frame_empty : Error
frame_empty = record {
  kind = invalid_data;
  message = text "Frame length must be at least 1 byte (for the type)";
}

-- `body[0]`, for a body that is not empty.
abbrev pub first : List ℕ → ℕ
first [] = 0
first (b ∷ bs) = b

-- The part of `decode` behind the length: the checks and the body.
unfoldable pub decode_body : ℕ → Input → Result (Option (Frame × Input)) Error
decode_body frame_length s =
    if frame_length == 0
    then err frame_empty
    else if ltb max_frame_size frame_length
    then err (frame_too_large frame_length)
    else elim (read_exact frame_length s) [
      | err e ↦ err e
      | ok (body, s') ↦ ok (some (record { message_type = first body; payload = drop 1 body }, s'))
    ]

-- `Ok(Some(frame))` with what is left to read, or `Ok(None)` at the end of the stream. After `none`
-- and after an error no caller reads on.
unfoldable pub decode : Input → Result (Option (Frame × Input)) Error
unfolding is_unexpected_eof
decode s = elim (read_exact 4 s) [
  | err e ↦ if is_unexpected_eof e.kind then ok none else err e
  | ok (length_buffer, s') ↦ decode_body (from_be_bytes length_buffer) s'
]
