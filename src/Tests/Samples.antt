-- ===== src/Tests/Samples.antt =====
-- The inputs that the tests share.
use parsip.Base.{ℕ, zero, suc, ◌≡◌, refl, ap, List, [], ◌∷◌, true, All, length, ◌==◌, arith}
use parsip.Bytes.{IsByte}
use parsip.Io.{Error, Output, unexpected_eof, accepts}
use parsip.Text.{text}
use parsip.Identity.{PeerId}
use parsip.Protocol.{ResourceId, ResourceInfo}
use parsip.Connection.Handshake.{Crypto}
use parsip.Connection.Handshake.Mutual.{IsKeyPair}

abbrev pub repeat : ℕ → ℕ → List ℕ
repeat zero b = []
repeat (suc n) b = b ∷ repeat n b

pub repeat-IsByte : (n b : ℕ) → IsByte b → All IsByte (repeat n b)
repeat-IsByte zero b h = tt
repeat-IsByte (suc n) b h = (h, repeat-IsByte n b h)

-- A payload that is too long to be written out.
unfoldable pub filler : ℕ → List ℕ
filler zero = []
filler (suc n) = 0 ∷ filler n

pub length-filler : (n : ℕ) → length (filler n) ≡ n
unfolding filler
length-filler zero = refl
length-filler (suc n) = ap suc (length-filler n)

abbrev pub eof : Error
eof = record { kind = unexpected_eof; message = text "failed to fill whole buffer" }

-- A socket that takes three bytes at a time.
abbrev pub socket : Output
socket = record { written = []; calls = 0; answers = λ n. accepts 3 }

abbrev pub alice : PeerId
alice = record { bytes = 1 ∷ [] }

abbrev pub bob : PeerId
bob = record { bytes = 2 ∷ [] }

abbrev pub resource : ResourceId
resource = record { bytes = 7 ∷ [] }

abbrev pub info : ResourceInfo
info = record { id = resource; name = text "notes"; size = 5 }

-- A signature scheme in which a key signs with a fixed block.
abbrev pub toy : Crypto
toy = record {
  public_key = λ seed. repeat 32 1;
  is_key = λ k. true;
  sign = λ seed m. repeat 64 2;
  verify = λ k m s. length s == 64;
  sha256 = λ bs. bs;
}

pub toy-IsKeyPair : (seed : List ℕ) → IsKeyPair toy seed
toy-IsKeyPair seed = record {
  key_array = (refl, repeat-IsByte 32 1 (omega arith));
  key_accepted = refl;
  signature_array = λ m. (refl, repeat-IsByte 64 2 (omega arith));
  verifies = λ m. refl;
}
