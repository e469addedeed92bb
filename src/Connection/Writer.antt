-- ===== src/Connection/Writer.antt =====
-- src/connection/mod.rs: the thread that writes the frames of a channel to the socket.
use parsip.Base.{List, [], ◌∷◌, Bool, true, false, Option, none, some}
use parsip.Io.{Output, ok, err}
use parsip.Protocol.{Frame}
use parsip.Protocol.Codec.{encode}

-- `while let Ok(frame) = rx.recv()`: the frames received, in order, up to the first error. The socket
-- when the thread ends, and whether it has been shut down. `none`: `encode` was out of fuel.
unfoldable pub write_frames : List Frame → Output → Option (Output × Bool)
write_frames [] o = some (o, false)
write_frames (f ∷ fs) o = elim (encode f o) [
  | none ↦ none
  | some (ok u, o') ↦ write_frames fs o'
  | some (err e, o') ↦ some (o', true)
]
