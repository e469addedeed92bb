-- ===== src/Connection/Handshake/Mutual.antt =====
-- src/connection/handshake.rs: who a handshake admits.
use parsip.Base.{
  String, ℕ, ◌≡◌, refl, ap, ◌∙◌, List, ◌++◌, true, none, some, All, All-right, Option-cases, subst,
  length-append, arith, inl, inr,
}
use parsip.Bytes.{IsByte}
use parsip.Io.{Error, Result-cases, ok, err, Input, Output}
use parsip.Identity.{PeerId}
use parsip.Protocol.{Frame, Message, hello, hello_proof, IsArray}
use parsip.Protocol.Serialize.{frame_of, payload_of}
use parsip.Protocol.Deserialize.{message_of}
use parsip.Protocol.RoundTrip.{message_of-frame_of}
use parsip.Protocol.Codec.{encode, decode}
use parsip.Protocol.Codec.Wire.{wire_bytes, FitsFrame}
use parsip.Protocol.Codec.Read.{decode-wire_bytes, decode_sound}
use parsip.Connection.Handshake.{
  Crypto, Identity, from_public_key, next_message, their_hello, their_proof, read_hello, read_proof,
  and_then, perform_handshake,
}

-- What `ed25519_dalek` documents of a key pair: its sizes, and that it verifies what it signs.
pub record IsKeyPair (c : Crypto) (seed : List ℕ) : Type 0 where
  pub key_array : IsArray 32 (c.public_key seed)
  pub key_accepted : c.is_key (c.public_key seed) ≡ true
  pub signature_array : (m : List ℕ) → IsArray 64 (c.sign seed m)
  pub verifies : (m : List ℕ) → c.verify (c.public_key seed) m (c.sign seed m) ≡ true

-- The bytes of a message on the wire.
abbrev pub message_bytes : Message → List ℕ
message_bytes m = wire_bytes (frame_of m)

next_message-bytes :
    (m : Message) (at_end : String) (rest : List ℕ) (e : Error)
    → FitsFrame (frame_of m)
    → message_of (frame_of m) ≡ ok m
    → next_message at_end (record { bytes = message_bytes m ++ rest; ends = e })
      ≡ ok (m, record { bytes = rest; ends = e })
unfolding next_message
next_message-bytes m at_end rest e fits back =
    rw (decode-wire_bytes (frame_of m) rest e fits, back) refl

module _ (c : Crypto) (seed : List ℕ) (k : IsKeyPair c seed) (rest : List ℕ) (e : Error) where
  open c use {public_key}

  -- An honest end's first message is accepted, whatever follows it.
  pub read_hello-honest :
      (nonce : List ℕ)
      → IsArray 32 nonce
      → read_hello c
          (record { bytes = message_bytes (hello (public_key seed) nonce) ++ rest; ends = e })
        ≡ ok (public_key seed, nonce, record { bytes = rest; ends = e })
  unfolding read_hello their_hello frame_of payload_of
  read_hello-honest nonce v =
      let m = hello (public_key seed) nonce in
      let fits : FitsFrame (frame_of m) =
        omega (arith, length-append (public_key seed) nonce, k.key_array.0, v.0) in
      let got =
        next_message-bytes m "Peer disconnected during handshake" rest e fits
          (message_of-frame_of m (k.key_array, v)) in
      rw (read_hello, got, k.key_accepted) refl

  pub read_proof-honest :
      (nonce : List ℕ)
      → read_proof c
          (public_key seed)
          nonce
          (record { bytes = message_bytes (hello_proof (c.sign seed nonce)) ++ rest; ends = e })
        ≡ ok (from_public_key c (public_key seed), record { bytes = rest; ends = e })
  unfolding read_proof their_proof frame_of payload_of
  read_proof-honest nonce =
      let m = hello_proof (c.sign seed nonce) in
      let fits : FitsFrame (frame_of m) = omega (arith, (k.signature_array nonce).0) in
      let got =
        next_message-bytes m "Peer disconnected during proof exchange" rest e fits
          (message_of-frame_of m (k.signature_array nonce)) in
      rw (read_proof, got, k.verifies nonce) refl

-- What has been read of the stream: the frame of a message.
record Came (m : Message) (s s' : Input) : Type 0 where
  pub frame : Frame
  pub split : s.bytes ≡ wire_bytes frame ++ s'.bytes
  pub means : message_of frame ≡ ok m

next_message-Came :
    (at_end : String) (s s' : Input) (m : Message)
    → All IsByte s.bytes
    → next_message at_end s ≡ ok (m, s')
    → Came m s s'
unfolding next_message
next_message-Came at_end s s' m v h = elim (Result-cases (decode s)) [
  | inr (e, d) ↦ absurd (ground (arith, d, h))
  | inl (none, d) ↦ absurd (ground (arith, d, h))
  | inl (some (frame, s2), d) ↦
      let (split, fits, ends) = decode_sound s s2 frame v d in
      elim (Result-cases (message_of frame)) [
        | inr (e, w) ↦ absurd (ground (arith, d, w, h))
        | inl (m2, w) ↦ record {
          frame = frame;
          split = ground (arith, d, w, h, split);
          means = ground (arith, d, w, h);
        }
      ]
]

read_hello-Came :
    (c : Crypto) (s s' : Input) (public_key nonce : List ℕ)
    → All IsByte s.bytes
    → read_hello c s ≡ ok (public_key, nonce, s')
    → Came (hello public_key nonce) s s' × (c.is_key public_key ≡ true)
unfolding read_hello their_hello
read_hello-Came c s s' public_key nonce v h =
    elim (Result-cases (next_message "Peer disconnected during handshake" s)) [
      | inr (e, n) ↦ absurd (ground (arith, n, h))
      | inl ((m, s2), n) ↦
          let came = next_message-Came _ s s2 m v n in
          (
            record {
              frame = came.frame;
              split = ground (arith, n, h, came.split);
              means = ground (arith, n, h, came.means);
            },
            ground (arith, n, h),
          )
    ]

their_proof-ok :
    (m : Message) (signature : List ℕ) → their_proof m ≡ ok signature → m ≡ hello_proof signature
unfolding their_proof
their_proof-ok m signature h = ground (arith, h)

read_proof-Came :
    (c : Crypto) (s s' : Input) (public_key nonce : List ℕ) (id : PeerId)
    → All IsByte s.bytes
    → read_proof c public_key nonce s ≡ ok (id, s')
    → (signature : List ℕ) × Came (hello_proof signature) s s'
      × (c.verify public_key nonce signature ≡ true)
      × (id ≡ from_public_key c public_key)
unfolding read_proof their_proof
read_proof-Came c s s' public_key nonce id v h =
    elim (Result-cases (next_message "Peer disconnected during proof exchange" s)) [
      | inr (e, n) ↦ absurd (ground (arith, n, h))
      | inl ((m, s2), n) ↦
          let came = next_message-Came _ s s2 m v n in
          elim (Result-cases (their_proof m)) [
            | inr (e, t) ↦ absurd (ground (arith, n, t, h))
            | inl (signature, t) ↦ (
              signature,
              record {
                frame = came.frame;
                split = ground (arith, n, t, h, came.split);
                means = came.means ∙ ap ok (their_proof-ok m signature t);
              },
              ground (arith, n, t, h),
              ground (arith, n, t, h),
            )
          ]
    ]

-- What a node has seen of the other end when it takes it to be `id`.
pub record IsAuthentic (c : Crypto) (my_nonce : List ℕ) (s : Input) (id : PeerId) (s' : Input)
    : Type 0 where
  pub public_key : List ℕ
  pub nonce : List ℕ
  pub signature : List ℕ
  pub hello_frame : Frame
  pub proof_frame : Frame
  pub read : s.bytes ≡ wire_bytes hello_frame ++ (wire_bytes proof_frame ++ s'.bytes)
  pub greeted : message_of hello_frame ≡ ok (hello public_key nonce)
  pub proved : message_of proof_frame ≡ ok (hello_proof signature)
  pub key_accepted : c.is_key public_key ≡ true
  pub verified : c.verify public_key my_nonce signature ≡ true
  pub named : id ≡ from_public_key c public_key

-- The reading half of the handshake.
read-IsAuthentic :
    (c : Crypto) (my_nonce : List ℕ) (s s1 s' : Input) (public_key nonce : List ℕ) (id : PeerId)
    → All IsByte s.bytes
    → read_hello c s ≡ ok (public_key, nonce, s1)
    → read_proof c public_key my_nonce s1 ≡ ok (id, s')
    → IsAuthentic c my_nonce s id s'
read-IsAuthentic c my_nonce s s1 s' public_key nonce id v h p =
    let (first, accepted) = read_hello-Came c s s1 public_key nonce v h in
    let v1 =
      All-right IsByte (wire_bytes first.frame) s1.bytes (subst (All IsByte) first.split v) in
    let (signature, second, verified, named) =
      read_proof-Came c s1 s' public_key my_nonce id v1 p in
    record {
      public_key = public_key;
      nonce = nonce;
      signature = signature;
      hello_frame = first.frame;
      proof_frame = second.frame;
      read = first.split ∙ ap (λ bs. wire_bytes first.frame ++ bs) second.split;
      greeted = first.means;
      proved = second.means;
      key_accepted = accepted;
      verified = verified;
      named = named;
    }

-- If a handshake ends well, the peer that it names is the hash of a key that came in a `Hello`, and
-- under this key a signature of this node's own nonce verifies that came in a `HelloProof`; exactly
-- these two frames have been read.
pub perform_handshake-IsAuthentic :
    (c : Crypto) (me : Identity) (my_nonce : List ℕ) (s s' : Input) (o o' : Output) (id : PeerId)
    → All IsByte s.bytes
    → perform_handshake c me my_nonce s o ≡ some (ok (id, s'), o')
    → IsAuthentic c my_nonce s id s'
unfolding perform_handshake and_then
perform_handshake-IsAuthentic c me my_nonce s s' o o' id v h =
    let first = encode (frame_of (hello (c.public_key me.signing_key) my_nonce)) o in
    elim (Option-cases first) [
      | inl e ↦ absurd (ground (arith, e, h))
      | inr ((err x, o1), e) ↦ absurd (ground (arith, e, h))
      | inr ((ok u, o1), e) ↦ elim (Result-cases (read_hello c s)) [
        | inr (x, r) ↦ absurd (ground (arith, e, r, h))
        | inl ((public_key, nonce, s1), r) ↦
            let second = encode (frame_of (hello_proof (c.sign me.signing_key nonce))) o1 in
            elim (Option-cases second) [
              | inl f ↦ absurd (ground (arith, e, r, f, h))
              | inr ((err x, o2), f) ↦ absurd (ground (arith, e, r, f, h))
              | inr ((ok u, o2), f) ↦
                  read-IsAuthentic c my_nonce s s1 s' public_key nonce id v r
                    (ground (arith, e, r, f, h))
            ]
      ]
    ]
