-- ===== src/Connection/Handshake.antt =====
-- src/connection/handshake.rs: the exchange by which the two ends of a link prove who they are. The
-- stream is what comes in and what goes out.
pub mod Mutual
pub mod Honest
use parsip.Base.{ℕ, List, Bool, true, false, Option, none, some, String, if◌then◌else◌}
use parsip.Io.{
  Error, ErrorKind, Result, ok, err, Input, Output, invalid_data, connection_aborted, ◌>>=◌,
}
use parsip.Text.{text}
use parsip.Identity.{PeerId}
use parsip.Protocol.{Message, hello, hello_proof}
use parsip.Protocol.Serialize.{frame_of}
use parsip.Protocol.Deserialize.{message_of}
use parsip.Protocol.Codec.{encode, decode}

-- The libraries `ed25519_dalek` and `sha2`. A signing key is its seed, and a verifying key and a
-- signature are their bytes; `is_key` says whether `VerifyingKey::from_bytes` accepts them.
pub record Crypto : Type 0 where
  pub public_key : List ℕ → List ℕ
  pub is_key : List ℕ → Bool
  pub sign : List ℕ → List ℕ → List ℕ
  pub verify : List ℕ → List ℕ → List ℕ → Bool
  pub sha256 : List ℕ → List ℕ

pub record Identity : Type 0 where
  pub signing_key : List ℕ
  pub peer_id : PeerId

-- `PeerId::from_public_key`
unfoldable pub from_public_key : Crypto → List ℕ → PeerId
from_public_key c vk = record { bytes = c.sha256 vk }

-- The end of `load_or_generate`, for the seed that it has read or drawn.
unfoldable pub identity_of : Crypto → List ℕ → Identity
identity_of c seed = record { signing_key = seed; peer_id = from_public_key c (c.public_key seed) }

-- The two methods of `Identity` that use the key.
abbrev public_key_bytes : Crypto → Identity → List ℕ
public_key_bytes c identity = c.public_key identity.signing_key

abbrev pub sign : Crypto → Identity → List ℕ → List ℕ
sign c identity message = c.sign identity.signing_key message

abbrev pub io_error : ErrorKind → String → Error
io_error kind message = record { kind = kind; message = text message }

-- A frame and its message, where the end of the stream is the error that is given.
unfoldable pub next_message : String → Input → Result (Message × Input) Error
next_message at_end s = decode s >>= λ got. elim got [
  | none ↦ err (io_error connection_aborted at_end)
  | some (frame, s') ↦ message_of frame >>= λ m. ok (m, s')
]

unfoldable pub their_hello : Message → Result (List ℕ × List ℕ) Error
their_hello (hello public_key nonce) = ok (public_key, nonce)
their_hello _ = err (io_error invalid_data "Expected Hello message")

unfoldable pub their_proof : Message → Result (List ℕ) Error
their_proof (hello_proof signature) = ok signature
their_proof _ = err (io_error invalid_data "Expected HelloProof message")

-- The key and the nonce of the other end, after the check of the key.
unfoldable pub read_hello : Crypto → Input → Result (List ℕ × List ℕ × Input) Error
unfolding next_message their_hello
read_hello c s = next_message "Peer disconnected during handshake" s >>= λ (m, s').
    their_hello m >>= λ (public_key, nonce).
    if c.is_key public_key
    then ok (public_key, nonce, s')
    else err (io_error invalid_data "Invalid public key in Hello")

-- The other end's signature of `my_nonce`, and then its identity.
unfoldable pub read_proof : Crypto → List ℕ → List ℕ → Input → Result (PeerId × Input) Error
unfolding next_message their_proof from_public_key
read_proof c public_key my_nonce s =
    next_message "Peer disconnected during proof exchange" s >>= λ (m, s').
    their_proof m >>= λ signature.
    if c.verify public_key my_nonce signature
    then ok (from_public_key c public_key, s')
    else err (io_error invalid_data "Handshake signature verification failed")

-- `?` after a call of `encode`.
unfoldable pub and_then {ℓ} :
    {A : Type ℓ}
    → Option (Result (Unit {0}) Error × Output)
    → (Output → Option (Result A Error × Output))
    → Option (Result A Error × Output)
and_then none k = none
and_then (some (err e, o)) k = some (err e, o)
and_then (some (ok u, o)) k = k o

-- The identity of the other end and what is left to read. `none`: `encode` was out of fuel.
unfoldable pub perform_handshake :
    Crypto → Identity → List ℕ → Input → Output → Option (Result (PeerId × Input) Error × Output)
unfolding read_hello read_proof and_then
perform_handshake c identity my_nonce s o =
    and_then (encode (frame_of (hello (public_key_bytes c identity) my_nonce)) o) (λ o1.
      elim (read_hello c s) [
        | err e ↦ some (err e, o1)
        | ok (public_key, nonce, s1) ↦
            and_then (encode (frame_of (hello_proof (sign c identity nonce))) o1)
              (λ o2. some (read_proof c public_key my_nonce s1, o2))
      ])
