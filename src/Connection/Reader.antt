-- ===== src/Connection/Reader.antt =====
-- src/connection/reader.rs: the thread that turns the bytes of a peer into events. What its caller
-- gives as `on_disconnect` runs after that.
use parsip.Base.{
  ℕ, zero, suc, List, [], ◌∷◌, Bool, true, false, Option, none, some, length, if◌then◌else◌,
}
use parsip.Io.{Input, ok, err}
use parsip.Identity.{PeerId}
use parsip.Protocol.{Message, hello, hello_proof}
use parsip.Protocol.Codec.{decode}
use parsip.Protocol.Deserialize.{message_of}
use parsip.Peer.{PeerEvent, message, disconnected}

unfoldable pub is_handshake : Message → Bool
is_handshake (hello public_key nonce) = true
is_handshake (hello_proof signature) = true
is_handshake _ = false

-- The messages that the loop sends on before it breaks: at the end of the stream, at an error of
-- any kind, at a frame that is no message, and at a handshake message. `none`: out of fuel.
unfoldable pub read_loop : ℕ → Input → Option (List Message)
read_loop zero s = none
read_loop (suc fuel) s = elim (decode s) [
  | err e ↦ some []
  | ok none ↦ some []
  | ok (some (frame, s')) ↦ elim (message_of frame) [
    | err e ↦ some []
    | ok msg ↦
        let more : Option (List Message) = elim (read_loop fuel s') [
          | none ↦ none
          | some msgs ↦ some (msg ∷ msgs)
        ] in
        if is_handshake msg then some [] else more
  ]
]

abbrev pub events : PeerId → List Message → List PeerEvent
events peer_id [] = disconnected peer_id ∷ []
events peer_id (m ∷ ms) = message peer_id m ∷ events peer_id ms

-- The thread of `start_read_loop`: the events that it sends, the last of them when the loop is
-- over. Each round takes five bytes at least, so a round for each byte and one more are enough.
unfoldable pub start_read_loop : PeerId → Input → Option (List PeerEvent)
start_read_loop peer_id s = elim (read_loop (suc (length s.bytes)) s) [
  | none ↦ none
  | some msgs ↦ some (events peer_id msgs)
]
