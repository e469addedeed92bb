-- ===== src/Connection/Link.antt =====
-- The two threads of a link together: what one node writes, the other one reports.
use parsip.Base.{
  ℕ, zero, suc, ◌+◌, ◌-◌, ◌≤◌, ◌<◌, ◌≡◌, ◌≢◌, refl, sym, ap, ◌∙◌, List, [], ◌∷◌, ◌++◌, Bool, true,
  false, Option, none, some, length, take, length-append, length-take, All, map, arith, dec_lt,
  append_assoc, append-nil, take-append-le, take-append-ge, take_all,
}
use parsip.Io.{Input, Output, Error, Result, ok, err}
use parsip.Identity.{PeerId}
use parsip.Protocol.{Frame, Message, IsMessage}
use parsip.Protocol.Serialize.{frame_of}
use parsip.Protocol.Deserialize.{message_of}
use parsip.Protocol.RoundTrip.{message_of-frame_of}
use parsip.Protocol.Ranges.{wire_bytes-IsByte}
use parsip.Protocol.Codec.{decode, encode}
use parsip.Protocol.Codec.Wire.{wire_bytes, length-wire_bytes, FitsFrame}
use parsip.Protocol.Codec.Write.{Wrote, encode-Wrote}
use parsip.Protocol.Codec.Read.{decode-wire_bytes, decode_short, decode_cut}
use parsip.Connection.Reader.{is_handshake, read_loop, events, start_read_loop}
use parsip.Connection.Writer.{write_frames}

unfoldable pub wire_of : List Frame → List ℕ
wire_of [] = []
wire_of (f ∷ fs) = wire_bytes f ++ wire_of fs

-- What the established phase may carry: no handshake message, fields in range, a small frame.
abbrev pub IsCarried : Message → Type 0
IsCarried m = IsMessage m × (is_handshake m ≡ false) × FitsFrame (frame_of m)

abbrev wire : List Message → List ℕ
wire ms = wire_of (map frame_of ms)

-- Of a stream that breaks off after `k` bytes the reader reports the first `j` messages.
abbrev Reports : ℕ → ℕ → List Message → Error → Type 0
Reports fuel k ms e =
    (j : ℕ) × (read_loop fuel (record { bytes = take k (wire ms); ends = e }) ≡ some (take j ms))
    × (length (wire ms) ≤ k → take j ms ≡ ms)

-- A round that reads no frame is the last one.
read_loop_stop :
    (fuel : ℕ) (s : Input) (d : Result (Option (Frame × Input)) Error)
    → decode s ≡ d
    → ((f : Frame) (s' : Input) → d ≢ ok (some (f, s')))
    → read_loop (suc fuel) s ≡ some []
unfolding read_loop
read_loop_stop fuel s (err e) h not_frame = rw (h, read_loop)
read_loop_stop fuel s (ok none) h not_frame = rw (h, read_loop)
read_loop_stop fuel s (ok (some (f, s'))) h not_frame = absurd (not_frame f s' refl)

read_loop_step :
    (fuel : ℕ) (s s' : Input) (f : Frame) (m : Message) (ms : List Message)
    → decode s ≡ ok (some (f, s'))
    → message_of f ≡ ok m
    → is_handshake m ≡ false
    → read_loop fuel s' ≡ some ms
    → read_loop (suc fuel) s ≡ some (m ∷ ms)
unfolding read_loop
read_loop_step fuel s s' f m ms d p est more = ground arith

take-nil : (k : ℕ) → take {A = ℕ} k [] ≡ []
take-nil zero = refl
take-nil (suc k) = refl

decode_nothing :
    (e : Error) (f : Frame) (s' : Input)
    → decode (record { bytes = []; ends = e }) ≢ ok (some (f, s'))
decode_nothing e f s' d =
    ground (arith, decode_short (record { bytes = []; ends = e }) (omega arith))

read_loop-cut :
    (fuel : ℕ) (ms : List Message) (k : ℕ) (e : Error)
    → All IsCarried ms
    → length (take k (wire ms)) < fuel
    → Reports fuel k ms e
unfolding wire_of
read_loop-cut zero ms k e v lt = absurd (omega arith)
read_loop-cut (suc fuel) [] k e v lt =
    (0, rw (take-nil k) (read_loop_stop fuel _ _ refl (decode_nothing e)), λ _. refl)
read_loop-cut (suc fuel) (m ∷ ms) k e ((ok_m, est, fits), vs) lt =
    elim (dec_lt k (length (wire_bytes (frame_of m)))) [
      | yes cut ↦ (
        0,
        rw (take-append-le k (wire_bytes (frame_of m)) (wire ms) (omega arith)) (
            read_loop_stop fuel _ _ refl
              (λ f s' d. decode_cut (frame_of m) f k e s' fits (wire_bytes-IsByte m ok_m) cut d)),
        λ all. absurd (
            omega (
              arith,
              length-append (wire_bytes (frame_of m)) (wire ms),
              length-wire_bytes (frame_of m),
            )),
      )
      | no whole ↦
          let n = length (wire_bytes (frame_of m)) in
          let shorter : length (take k (wire_bytes (frame_of m) ++ wire ms))
              ≡ n + length (take (k - n) (wire ms)) =
            ap length (take-append-ge k (wire_bytes (frame_of m)) (wire ms) (omega arith))
            ∙ length-append (wire_bytes (frame_of m)) (take (k - n) (wire ms)) in
          let (j, rest, complete) =
            read_loop-cut fuel ms (k - n) e vs
              (omega (arith, shorter, length-wire_bytes (frame_of m))) in
          (
            suc j,
            rw (take-append-ge k (wire_bytes (frame_of m)) (wire ms) (omega arith)) (
                read_loop_step fuel _ (record { bytes = take (k - n) (wire ms); ends = e })
                  (frame_of m) m (take j ms)
                  (decode-wire_bytes (frame_of m) (take (k - n) (wire ms)) e fits)
                  (message_of-frame_of m ok_m) est rest),
            λ all.
                ap (◌∷◌ m)
                  (complete (omega (arith, length-append (wire_bytes (frame_of m)) (wire ms)))),
          )
    ]

-- The writer leaves a prefix of the bytes of its frames on the wire, all of them unless it shuts the
-- socket down.
record Leaves (fs : List Frame) (o : Output) : Type 0 where
  after : Output
  shut_down : Bool
  count : ℕ
  ran : write_frames fs o ≡ some (after, shut_down)
  written : after.written ≡ o.written ++ take count (wire_of fs)
  complete : shut_down ≡ false → take count (wire_of fs) ≡ wire_of fs

write_frames-Leaves : (fs : List Frame) (o : Output) → Leaves fs o
unfolding write_frames wire_of
write_frames-Leaves [] o = record {
  after = o;
  shut_down = false;
  count = 0;
  ran = refl;
  written = sym (append-nil o.written);
  complete = λ e. refl;
}
write_frames-Leaves (f ∷ fs) o = go (write_frames-Leaves fs) (encode f o) refl (encode-Wrote f o)
  where
    go :
        ((o : Output) → Leaves fs o)
        → (r : Option (Result (Unit {0}) Error × Output)) → encode f o ≡ r
        → Wrote o (wire_bytes f) r
        → Leaves (f ∷ fs) o
    go later none e w = absurd w
    go later (some (err x, o')) e (k, lt, w) = record {
      after = o';
      shut_down = true;
      count = k;
      ran = rw (e, write_frames);
      written =
          w
          ∙ ap (λ (b : List ℕ). o.written ++ b)
              (sym (take-append-le k (wire_bytes f) (wire_of fs) (omega arith)));
      complete = λ e. absurd (ground (arith, e));
    }
    go later (some (ok u, o')) e w =
        let more = later o' in
        let n = length (wire_bytes f) in
        let k = more.count in
        let back : n + k - n ≡ k = omega arith in
        let split : take (n + k) (wire_bytes f ++ wire_of fs)
            ≡ wire_bytes f ++ take k (wire_of fs) =
          take-append-ge (n + k) (wire_bytes f) (wire_of fs) (omega arith)
          ∙ ap (λ i. wire_bytes f ++ take i (wire_of fs)) back in
        record {
          after = more.after;
          shut_down = more.shut_down;
          count = n + k;
          ran = rw (e, write_frames) more.ran;
          written =
              more.written
              ∙ ap (λ (b : List ℕ). b ++ take k (wire_of fs)) w
              ∙ append_assoc o.written (wire_bytes f) (take k (wire_of fs))
              ∙ ap (λ (b : List ℕ). o.written ++ b) (sym split);
          complete = λ e. split ∙ ap (λ b. wire_bytes f ++ b) (more.complete e);
        }

pub start_read_loop_lem :
    (peer : PeerId) (s : Input) (ms : List Message)
    → read_loop (suc (length s.bytes)) s ≡ some ms
    → start_read_loop peer s ≡ some (events peer ms)
unfolding start_read_loop
start_read_loop_lem peer s ms e = rw (e, start_read_loop)

-- From the bytes of messages that the established phase may carry, and of nothing else, the reader
-- reports these messages.
pub start_read_loop-wire_of :
    (peer : PeerId) (ms : List Message) (e : Error)
    → All IsCarried ms
    → start_read_loop peer (record { bytes = wire_of (map frame_of ms); ends = e })
      ≡ some (events peer ms)
start_read_loop-wire_of peer ms e v =
    let n = length (wire ms) in
    let whole = take_all (wire ms) in
    let (j, read, complete) = read_loop-cut (suc n) ms n e v (omega (arith, ap length whole)) in
    let all : read_loop (suc n) (record { bytes = wire ms; ends = e }) ≡ some ms =
      ap (λ bytes. read_loop (suc n) (record { bytes = bytes; ends = e })) (sym whole)
      ∙ read
      ∙ ap some (complete (omega arith)) in
    start_read_loop_lem peer _ ms all

-- For messages that the established phase may carry and a socket with nothing written yet: the
-- writer's thread ends, and unless it shuts the socket down all bytes of the messages are written.
-- From the bytes that it left, whatever error ends them, the reader reports the first messages, in
-- order, each once, and then the disconnection. If all bytes got through, it reports all the
-- messages.
pub link_delivers :
    (peer : PeerId) (ms : List Message) (o : Output) (e : Error)
    → All IsCarried ms
    → o.written ≡ []
    → (o' : Output) × (shut_down : Bool) × (j : ℕ) × (write_frames (map frame_of ms) o
        ≡ some (o', shut_down))
      × (shut_down ≡ false → o'.written ≡ wire_of (map frame_of ms))
      × (start_read_loop peer (record { bytes = o'.written; ends = e })
          ≡ some (events peer (take j ms)))
      × (o'.written ≡ wire_of (map frame_of ms) → take j ms ≡ ms)
link_delivers peer ms o e v empty =
    let left = write_frames-Leaves (map frame_of ms) o in
    let k = left.count in
    let bytes : left.after.written ≡ take k (wire ms) = left.written ∙ rw empty in
    let (j, read, complete) =
      read_loop-cut (suc (length (take k (wire ms)))) ms k e v (omega arith) in
    (
      left.after,
      left.shut_down,
      j,
      left.ran,
      λ up. bytes ∙ left.complete up,
      rw bytes (start_read_loop_lem peer _ (take j ms) read),
      λ all. complete (omega (arith, ap length all, ap length bytes, length-take k (wire ms))),
    )
