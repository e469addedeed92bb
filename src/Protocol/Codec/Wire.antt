-- ===== src/Protocol/Codec/Wire.antt =====
-- The wire format that PROTOCOL.md gives under "Framing", independent of the writer's loop.
use parsip.Base.{ℕ, ◌+◌, ◌≡◌, ◌≤◌, ◌%◌, ◌^◌, List, ◌∷◌, ◌++◌, length, length-append, arith}
use parsip.Bytes.{to_be_bytes, length-to_be_bytes}
use parsip.Protocol.Types.{Frame}
use parsip.Protocol.Codec.{max_frame_size}

-- [ length (u32 BE) | type (u8) | payload ]
unfoldable pub wire_bytes : Frame → List ℕ
wire_bytes f = to_be_bytes 4 ((1 + length f.payload) % 2 ^ 32) ++ (f.message_type ∷ f.payload)

pub length-wire_bytes : (f : Frame) → length (wire_bytes f) ≡ 5 + length f.payload
unfolding wire_bytes
length-wire_bytes f = omega (
  arith,
  length-append (to_be_bytes 4 ((1 + length f.payload) % 2 ^ 32)) (f.message_type ∷ f.payload),
  length-to_be_bytes 4 ((1 + length f.payload) % 2 ^ 32),
)

-- The frames that a reader accepts.
abbrev pub FitsFrame : Frame → Type 0
FitsFrame f = 1 + length f.payload ≤ max_frame_size
