-- ===== src/Connection/Handshake/Honest.antt =====
-- src/connection/handshake.rs: a handshake with an honest peer.
use parsip.Base.{
  ℕ, ◌+◌, ◌-◌, ◌≡◌, ◌<◌, refl, sym, ap, ◌∙◌, List, ◌++◌, Option, none, some, length, length-append,
  take, take-append-le, take-append-ge, arith, append_assoc,
}
use parsip.Io.{Error, Result, ok, err, Input, Output}
use parsip.Identity.{PeerId}
use parsip.Protocol.{hello, hello_proof, IsArray}
use parsip.Protocol.Serialize.{frame_of}
use parsip.Protocol.Codec.Write.{Wrote, encode-Wrote}
use parsip.Connection.Handshake.{Crypto, identity_of, and_then, perform_handshake}
use parsip.Connection.Handshake.Mutual.{
  IsKeyPair, message_bytes, read_hello-honest, read_proof-honest,
}

-- What an end with the key `seed` and the nonce `nonce` sends to one with the nonce `their_nonce`.
unfoldable pub sent_bytes : Crypto → List ℕ → List ℕ → List ℕ → List ℕ
sent_bytes c seed nonce their_nonce =
    message_bytes (hello (c.public_key seed) nonce)
    ++ message_bytes (hello_proof (c.sign seed their_nonce))

-- A handshake that names `id` and leaves `rest` to read once all of `bytes` is written; only an
-- error of the writer, which has then taken less than that, ends it earlier.
abbrev pub Meets :
    PeerId → Input → Output → List ℕ → Option (Result (PeerId × Input) Error × Output) → Type 0
Meets id rest o bytes none = ⊥
Meets id rest o bytes (some (ok (id', s), o')) =
    (id' ≡ id) × (s ≡ rest) × (o'.written ≡ o.written ++ bytes)
Meets id rest o bytes (some (err e, o')) =
    (k : ℕ) × (k < length bytes) × (o'.written ≡ o.written ++ take k bytes)

-- Bytes written after others, as one.
cut_behind :
    (xs ys a b o : List ℕ) (k : ℕ)
    → a ≡ o ++ xs
    → b ≡ a ++ take k ys
    → b ≡ o ++ take (length xs + k) (xs ++ ys)
cut_behind xs ys a b o k e f =
    let back : length xs + k - length xs ≡ k = omega arith in
    let split =
      take-append-ge (length xs + k) xs ys (omega arith) ∙ ap (λ i. xs ++ take i ys) back in
    f
    ∙ ap (λ (h : List ℕ). h ++ take k ys) e
    ∙ append_assoc o xs (take k ys)
    ∙ ap (λ (t : List ℕ). o ++ t) (sym split)

second_message :
    (id : PeerId) (rest : Input) (o o1 : Output) (first second : List ℕ)
    (r : Option (Result (Unit {0}) Error × Output))
    → o1.written ≡ o.written ++ first
    → Wrote o1 second r
    → Meets id rest o (first ++ second) (and_then r (λ o2. some (ok (id, rest), o2)))
unfolding and_then
second_message id rest o o1 first second none e w = absurd w
second_message id rest o o1 first second (some (ok u, o2)) e w =
    (refl, refl, w ∙ ap (λ (h : List ℕ). h ++ second) e ∙ append_assoc o.written first second)
second_message id rest o o1 first second (some (err x, o2)) e (k, lt, w) = (
  length first + k,
  omega (arith, length-append first second),
  cut_behind first second o1.written o2.written o.written k e w,
)

first_message :
    (id : PeerId) (rest : Input) (o : Output) (first second : List ℕ)
    (r : Option (Result (Unit {0}) Error × Output))
    (k : Output → Option (Result (PeerId × Input) Error × Output))
    → Wrote o first r
    → ((o1 : Output) → o1.written ≡ o.written ++ first → Meets id rest o (first ++ second) (k o1))
    → Meets id rest o (first ++ second) (and_then r k)
unfolding and_then
first_message id rest o first second none k w h = absurd w
first_message id rest o first second (some (ok u, o1)) k w h = h o1 w
first_message id rest o first second (some (err x, o1)) k (n, lt, w) h = (
  n,
  omega (arith, length-append first second),
  w ∙ ap (λ (t : List ℕ). o.written ++ t) (sym (take-append-le n first second (omega arith))),
)

-- Two ends whose keys are key pairs, each of which reads what the other one sends: the handshake
-- names the identity that belongs to the other end's key, leaves what follows the two messages
-- unread, and has sent exactly its own two messages; the only other end is an error of its writer.
pub perform_handshake-Meets :
    (c : Crypto) (mine theirs my_nonce their_nonce rest : List ℕ) (e : Error) (o : Output)
    → IsKeyPair c theirs
    → IsArray 32 their_nonce
    → Meets
        (identity_of c theirs).peer_id
        (record { bytes = rest; ends = e })
        o
        (sent_bytes c mine my_nonce their_nonce)
        (perform_handshake c
          (identity_of c mine)
          my_nonce
          (record { bytes = sent_bytes c theirs their_nonce my_nonce ++ rest; ends = e })
          o)
unfolding perform_handshake sent_bytes identity_of
perform_handshake-Meets c mine theirs my_nonce their_nonce rest e o k v =
    let h = message_bytes (hello (c.public_key theirs) their_nonce) in
    let p = message_bytes (hello_proof (c.sign theirs my_nonce)) in
    let greeted = read_hello-honest c theirs k (p ++ rest) e their_nonce v in
    let proved = read_proof-honest c theirs k rest e my_nonce in
    rw (append_assoc h p rest) (
      first_message _ _ o _ _ _ _ (encode-Wrote (frame_of (hello (c.public_key mine) my_nonce)) o)
        (λ o1 e1.
          rw (greeted, proved)
            (second_message _ _ o o1 _ _ _ e1
              (encode-Wrote (frame_of (hello_proof (c.sign mine their_nonce))) o1))))
