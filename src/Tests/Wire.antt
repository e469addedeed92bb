-- ===== src/Tests/Wire.antt =====
-- Frames and messages (src/protocol), at fixed inputs.
use parsip.Base.{◌+◌, ◌≡◌, ◌≢◌, refl, [], ◌∷◌, ◌++◌, some, arith, take, length}
use parsip.Bytes.{to_be_bytes, from_be_bytes, from_be_acc}
use parsip.Io.{Input, ok, err, read_exact}
use parsip.Protocol.{Frame, Message, list_resources, message_type}
use parsip.Protocol.Serialize.{frame_of}
use parsip.Protocol.Deserialize.{message_of, parse_list_resources}
use parsip.Protocol.Sound.{Printed}
use parsip.Protocol.Canonical.{message_of_sound}
use parsip.Protocol.RoundTrip.{message_of-frame_of}
use parsip.Protocol.Codec.{encode, decode, decode_body, max_frame_size, frame_too_large}
use parsip.Protocol.Codec.Wire.{wire_bytes, FitsFrame}
use parsip.Protocol.Codec.Write.{Wrote, encode-Wrote}
use parsip.Protocol.Codec.Read.{decode-wire_bytes_too_large, decode_sound, decode_cut}
use parsip.Tests.Samples.{filler, length-filler, eof, socket}

abbrev ping : Message
ping = list_resources 7

abbrev ping_frame : Frame
ping_frame = record { message_type = 3; payload = 0 ∷ 0 ∷ 0 ∷ 7 ∷ [] }

abbrev huge_frame : Frame
huge_frame = record { message_type = 9; payload = filler max_frame_size }

ping_wire : wire_bytes ping_frame ≡ 0 ∷ 0 ∷ 0 ∷ 5 ∷ 3 ∷ 0 ∷ 0 ∷ 0 ∷ 7 ∷ []
unfolding wire_bytes to_be_bytes
ping_wire = refl

message_of-frame_of_example : message_of (frame_of ping) ≡ ok ping
message_of-frame_of_example = message_of-frame_of ping (omega arith)

encode-Wrote_example : Wrote socket (wire_bytes ping_frame) (encode ping_frame socket)
encode-Wrote_example = encode-Wrote ping_frame socket

decode-wire_bytes_too_large_example :
    decode (record { bytes = wire_bytes huge_frame ++ []; ends = eof })
    ≡ err (frame_too_large (1 + length huge_frame.payload))
decode-wire_bytes_too_large_example =
    decode-wire_bytes_too_large huge_frame [] eof (omega (arith, length-filler max_frame_size))
      (omega (arith, length-filler max_frame_size))

abbrev ping_input : Input
ping_input = record { bytes = 0 ∷ 0 ∷ 0 ∷ 5 ∷ 3 ∷ 0 ∷ 0 ∷ 0 ∷ 7 ∷ 1 ∷ []; ends = eof }

abbrev after_ping : Input
after_ping = record { bytes = 1 ∷ []; ends = eof }

ping_decoded : decode ping_input ≡ ok (some (ping_frame, after_ping))
unfolding decode decode_body read_exact from_be_bytes from_be_acc
ping_decoded = refl

decode_sound_example :
    (ping_input.bytes ≡ wire_bytes ping_frame ++ after_ping.bytes)
    × FitsFrame ping_frame
    × (after_ping.ends ≡ ping_input.ends)
decode_sound_example = decode_sound ping_input after_ping ping_frame (ground arith) ping_decoded

decode_cut_example :
    decode (record { bytes = take 6 (wire_bytes ping_frame); ends = eof })
    ≢ ok (some (ping_frame, record { bytes = []; ends = eof }))
unfolding wire_bytes to_be_bytes
decode_cut_example =
    decode_cut ping_frame ping_frame 6 eof (record { bytes = []; ends = eof }) (omega arith)
      (ground arith) (omega arith)

ping_read : message_of ping_frame ≡ ok ping
unfolding message_of parse_list_resources from_be_bytes from_be_acc
ping_read = refl

message_of_sound_example :
    (ping_frame.message_type ≡ message_type ping) × Printed ping_frame.payload ping
message_of_sound_example = message_of_sound ping_frame ping (ground arith) ping_read
