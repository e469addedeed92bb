-- ===== src/Tests/Links.antt =====
-- Links and handshakes (src/connection), at fixed inputs.
use parsip.Base.{ℕ, ◌≡◌, refl, List, [], ◌∷◌, ◌++◌, map, Bool, false, some, All, arith, take}
use parsip.Bytes.{to_be_bytes, from_be_bytes}
use parsip.Protocol.Codec.{encode, write_loop, gathered, advance, decode, decode_body}
use parsip.Protocol.Deserialize.{message_of, parse_hello, parse_hello_proof}
use parsip.Io.{Input, Output, ok, accepts, read_exact, write_vectored}
use parsip.Protocol.{Message, list_resources, message_type}
use parsip.Protocol.Serialize.{frame_of, payload_of}
use parsip.Connection.Reader.{is_handshake, events, start_read_loop}
use parsip.Connection.Writer.{write_frames}
use parsip.Connection.Link.{wire_of, IsCarried, link_delivers}
use parsip.Connection.Established.{IsEstablished, start_read_loop_sound}
use parsip.Connection.Handshake.{identity_of, perform_handshake}
use parsip.Connection.Handshake.Mutual.{IsAuthentic, perform_handshake-IsAuthentic}
use parsip.Connection.Handshake.Honest.{sent_bytes, Meets, perform_handshake-Meets}
use parsip.Tests.Samples.{repeat, repeat-IsByte, eof, socket, bob, toy, toy-IsKeyPair}

abbrev pings : List Message
pings = list_resources 7 ∷ list_resources 8 ∷ []

pings-IsCarried : All IsCarried pings
unfolding is_handshake frame_of payload_of to_be_bytes
pings-IsCarried = ((omega arith, refl, omega arith), ((omega arith, refl, omega arith), tt))

link_delivers_example :
    (o' : Output) × (shut_down : Bool) × (j : ℕ) × (write_frames (map frame_of pings) socket
      ≡ some (o', shut_down))
    × (shut_down ≡ false → o'.written ≡ wire_of (map frame_of pings))
    × (start_read_loop bob (record { bytes = o'.written; ends = eof })
        ≡ some (events bob (take j pings)))
    × (o'.written ≡ wire_of (map frame_of pings) → take j pings ≡ pings)
link_delivers_example = link_delivers bob pings socket eof pings-IsCarried refl

abbrev noise : Input
noise = record { bytes = 0 ∷ 0 ∷ 0 ∷ 5 ∷ 3 ∷ 0 ∷ 0 ∷ 0 ∷ 7 ∷ 255 ∷ []; ends = eof }

start_read_loop_sound_example :
    (ms : List Message) × (start_read_loop bob noise ≡ some (events bob ms)) × All IsEstablished ms
start_read_loop_sound_example = start_read_loop_sound bob noise (ground arith)

abbrev incoming_bytes : Input
incoming_bytes = record {
  bytes = sent_bytes toy (9 ∷ []) (repeat 32 5) (repeat 32 4) ++ (1 ∷ []);
  ends = eof;
}

perform_handshake-Meets_example :
    Meets
      (identity_of toy (9 ∷ [])).peer_id
      (record { bytes = 1 ∷ []; ends = eof })
      socket
      (sent_bytes toy (8 ∷ []) (repeat 32 4) (repeat 32 5))
      (perform_handshake toy (identity_of toy (8 ∷ [])) (repeat 32 4) incoming_bytes socket)
perform_handshake-Meets_example =
    perform_handshake-Meets toy (8 ∷ []) (9 ∷ []) (repeat 32 4) (repeat 32 5) (1 ∷ []) eof socket
      (toy-IsKeyPair (9 ∷ [])) (refl, repeat-IsByte 32 5 (omega arith))

abbrev pub outcome : Output
outcome = record {
  written =
      0 ∷ 0 ∷ 0 ∷ 65 ∷ 1 ∷ (repeat 32 1 ++ (repeat 32 4 ++ (0 ∷ 0 ∷ 0 ∷ 65 ∷ 2 ∷ repeat 64 2)));
  calls = 46;
  answers = λ n. accepts 3;
}

abbrev pub received : Input
received = record {
  bytes =
      0
      ∷ 0
      ∷ 0
      ∷ 65
      ∷ 1
      ∷ (repeat 32 1 ++ (repeat 32 5 ++ (0 ∷ 0 ∷ 0 ∷ 65 ∷ 2 ∷ (repeat 64 2 ++ (1 ∷ [])))));
  ends = eof;
}

abbrev pub left : Input
left = record { bytes = 1 ∷ []; ends = eof }

pub handshake_run :
    perform_handshake toy (identity_of toy (8 ∷ [])) (repeat 32 4) received socket
    ≡ some (ok ((identity_of toy (9 ∷ [])).peer_id, left), outcome)
unfolding perform_handshake identity_of encode write_loop frame_of write_vectored gathered
    to_be_bytes advance decode read_exact decode_body from_be_bytes message_of parse_hello
    parse_hello_proof message_type
handshake_run = refl

perform_handshake-IsAuthentic_example :
    IsAuthentic toy (repeat 32 4) received (identity_of toy (9 ∷ [])).peer_id left
perform_handshake-IsAuthentic_example =
    perform_handshake-IsAuthentic toy (identity_of toy (8 ∷ [])) (repeat 32 4) received left socket
      outcome (identity_of toy (9 ∷ [])).peer_id (ground arith) handshake_run
