-- ===== src/Protocol.antt =====
-- src/protocol: frames, messages, their bytes and the length-prefix codec. `Types` has the data,
-- `Serialize` and `Deserialize` the two directions between a message and a frame.
mod Types
pub mod Serialize
pub mod Deserialize
mod Entries
pub mod RoundTrip
pub mod Sound
pub mod Canonical
pub mod Ranges
pub mod Codec
unfoldable pub use Types.*
