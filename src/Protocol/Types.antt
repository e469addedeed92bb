-- ===== src/Protocol/Types.antt =====
-- src/protocol/frame.rs and src/protocol/message/types.rs: frames and messages. The fixed-size
-- arrays are lists of bytes; `IsMessage` says what the types of the source say of them.
use parsip.Base.{ℕ, ◌^◌, ◌<◌, ◌≡◌, List, length, All}
use parsip.Bytes.{IsByte}
use parsip.Text.{IsText}

pub record Frame : Type 0 where
  pub message_type : ℕ
  pub payload : List ℕ

-- `ResourceId(pub [u8; 32])`
pub record ResourceId : Type 0 where
  pub bytes : List ℕ

pub record ResourceInfo : Type 0 where
  pub id : ResourceId
  pub name : List ℕ
  pub size : ℕ

pub data Message : Type 0 where
  hello : (public_key nonce : List ℕ) → Message
  hello_proof : (signature : List ℕ) → Message
  list_resources : (request_id : ℕ) → Message
  resource_list : (request_id : ℕ) → (resources : List ResourceInfo) → Message
  download_resource : (request_id : ℕ) → (id : ResourceId) → Message
  resource_chunk : (request_id : ℕ) → (id : ResourceId) → (offset : ℕ) → (chunk : List ℕ) → Message
  resource_end : (request_id : ℕ) → (id : ResourceId) → Message

unfoldable pub message_type : Message → ℕ
message_type (hello public_key nonce) = 1
message_type (hello_proof signature) = 2
message_type (list_resources request_id) = 3
message_type (resource_list request_id resources) = 4
message_type (download_resource request_id id) = 5
message_type (resource_chunk request_id id offset chunk) = 6
message_type (resource_end request_id id) = 7

-- An array `[u8; n]`.
abbrev pub IsArray : ℕ → List ℕ → Type 0
IsArray n bs = (length bs ≡ n) × All IsByte bs

abbrev pub IsU32 : ℕ → Type 0
IsU32 x = x < 2 ^ 32

abbrev pub IsU64 : ℕ → Type 0
IsU64 x = x < 2 ^ 64

-- A name of 4 GiB or more would lose the high bits of its length on the wire.
pub record IsInfo (r : ResourceInfo) : Type 0 where
  pub id_array : IsArray 32 r.id.bytes
  pub name_bytes : All IsByte r.name
  pub name_text : IsText r.name
  pub name_short : IsU32 (length r.name)
  pub size_u64 : IsU64 r.size

-- The ranges of the fields of a message.
abbrev pub IsMessage : Message → Type 0
IsMessage (hello public_key nonce) = IsArray 32 public_key × IsArray 32 nonce
IsMessage (hello_proof signature) = IsArray 64 signature
IsMessage (list_resources request_id) = IsU32 request_id
IsMessage (resource_list request_id resources) =
    IsU32 request_id × IsU32 (length resources) × All IsInfo resources
IsMessage (download_resource request_id id) = IsU32 request_id × IsArray 32 id.bytes
IsMessage (resource_chunk request_id id offset chunk) =
    IsU32 request_id × IsArray 32 id.bytes × IsU64 offset × All IsByte chunk
IsMessage (resource_end request_id id) = IsU32 request_id × IsArray 32 id.bytes
