-- ===== src/EventHandler/Sharing/Sent.antt =====
-- src/event_handler.rs: what a node puts into the channel of a connection, an upload above all.
use parsip.Base.{
  ℕ, ◌+◌, ◌%◌, ◌^◌, ◌≤◌, ◌≡◌, refl, sym, subst, ap, List, [], ◌∷◌, ◌++◌, false, none, some, map,
  append_assoc, append-nil, Option, length, length-append, All, arith,
}
use parsip.Bytes.{IsByte, length-to_be_bytes, to_be_bytes}
use parsip.Io.{Error, Result, ok}
use parsip.Map.{lookup, insert, lookup-insert, nat_key}
use parsip.Identity.{PeerId, peer_key}
use parsip.Protocol.{Frame, Message, resource_chunk, resource_end, IsArray, IsU32, IsU64}
use parsip.Protocol.Serialize.{frame_of, payload_of}
use parsip.Connection.Reader.{is_handshake}
use parsip.Connection.Link.{IsCarried}
use parsip.Protocol.Codec.Wire.{FitsFrame}
use parsip.ConnectionManager.{
  ConnectionManager, ConnectionEntry, send, send_on, indexed, push_frame,
}
use parsip.EventHandler.{Upload, stream_file}

-- The table has a connection to the peer that works, and `fs` is what was sent into its channel.
pub record Reaches (p : PeerId) (fs : List Frame) (m : ConnectionManager) : Type 0 where
  pub conn_id : ℕ
  pub entry : ConnectionEntry
  pub index_sane : m.index_poisoned ≡ false
  pub entries_sane : m.entries_poisoned ≡ false
  pub named : lookup p m.peer_index ≡ some conn_id
  pub found : lookup conn_id m.entries ≡ some entry
  pub open_channel : entry.connection.sender.receiver_gone ≡ false
  pub sent : entry.connection.sender.sent ≡ fs

-- A message that is sent stands behind the others.
abbrev pub Sends :
    PeerId → List Frame → Message → Result (Unit {0}) Error × ConnectionManager → Type 0
Sends p fs message (r, m) = (r ≡ ok tt) × Reaches p (fs ++ (frame_of message ∷ [])) m

pub send-Reaches :
    (p : PeerId) (fs : List Frame) (message : Message) (m : ConnectionManager)
    → Reaches p fs m
    → Sends p fs message (send p message m)
unfolding send send_on indexed
send-Reaches p fs message m v =
    let later = record v.entry { connection = push_frame (frame_of message) v.entry.connection } in
    let after : Result (Unit {0}) Error × ConnectionManager =
      (ok tt, record m { entries = insert v.conn_id later m.entries }) in
    let it : send p message m ≡ after =
      ground (arith, v.index_sane, v.entries_sane, v.named, v.found, v.open_channel) in
    subst (Sends p fs message) (sym it) (
      refl,
      record {
        conn_id = v.conn_id;
        entry = later;
        index_sane = v.index_sane;
        entries_sane = v.entries_sane;
        named = v.named;
        found = ground (arith, lookup-insert v.conn_id v.conn_id later m.entries);
        open_channel = v.open_channel;
        sent = ap (λ fs. fs ++ (frame_of message ∷ [])) v.sent;
      },
    )

-- The messages of an upload: a chunk for each read, and the end.
unfoldable pub upload_messages : Upload → ℕ → List (List ℕ) → List Message
upload_messages u offset [] = resource_end u.request_id u.id ∷ []
upload_messages u offset (bytes ∷ reads) =
    resource_chunk u.request_id u.id offset bytes
    ∷ upload_messages u ((offset + length bytes) % 2 ^ 64) reads

pub stream_file-Reaches :
    (u : Upload) (offset : ℕ) (reads : List (List ℕ)) (fs : List Frame) (m : ConnectionManager)
    → Reaches u.peer_id fs m
    → Reaches u.peer_id
        (fs ++ map frame_of (upload_messages u offset reads))
        (stream_file u offset reads none m)
unfolding stream_file upload_messages
stream_file-Reaches u offset [] fs m v =
    (send-Reaches u.peer_id fs (resource_end u.request_id u.id) m v).1
stream_file-Reaches u offset (bytes ∷ reads) fs m v =
    let chunk = resource_chunk u.request_id u.id offset bytes in
    let (went, v') = send-Reaches u.peer_id fs chunk m v in
    let m' = (send u.peer_id chunk m).1 in
    let next = (offset + length bytes) % 2 ^ 64 in
    let later = stream_file-Reaches u next reads (fs ++ (frame_of chunk ∷ [])) m' v' in
    let it : stream_file u offset (bytes ∷ reads) none m ≡ stream_file u next reads none m' =
      ground (arith, went) in
    subst (Reaches u.peer_id _) (sym it) (
      subst (λ gs. Reaches u.peer_id gs (stream_file u next reads none m'))
        (append_assoc fs (frame_of chunk ∷ []) (map frame_of (upload_messages u next reads))) later)

-- What one read gives into the buffer of 128 KiB.
abbrev pub IsRead : List ℕ → Type 0
IsRead bytes = All IsByte bytes × (length bytes ≤ 131072)

-- The link carries every message of an upload.
pub upload_messages-IsCarried :
    (u : Upload) (offset : ℕ) (reads : List (List ℕ))
    → IsU32 u.request_id
    → IsArray 32 u.id.bytes
    → IsU64 offset
    → All IsRead reads
    → All IsCarried (upload_messages u offset reads)
unfolding upload_messages frame_of payload_of is_handshake
upload_messages-IsCarried u offset [] number id o reads = (
  (
    (number, id),
    refl,
    omega (
      arith,
      length-append (to_be_bytes 4 u.request_id) u.id.bytes,
      length-to_be_bytes 4 u.request_id,
    ),
  ),
  tt,
)
upload_messages-IsCarried u offset (bytes ∷ more) number id o ((read, short), reads) = (
  (
    (number, id, o, read),
    refl,
    omega (
      arith,
      length-append (to_be_bytes 4 u.request_id) (u.id.bytes ++ (to_be_bytes 8 offset ++ bytes)),
      length-append u.id.bytes (to_be_bytes 8 offset ++ bytes),
      length-append (to_be_bytes 8 offset) bytes,
      length-to_be_bytes 4 u.request_id,
      length-to_be_bytes 8 offset,
    ),
  ),
  upload_messages-IsCarried u ((offset + length bytes) % 2 ^ 64) more number id (omega arith) reads,
)

-- Whatever is read of a file, by the buffer, and whether or not the reading ends with an error: where the
-- number of the request has 32 bits and the identifier 32 bytes, everything that the thread of an
-- upload puts into the channel of a connection that works is within the limit of a frame.
pub stream_file-fits :
    (u : Upload) (offset : ℕ) (reads : List (List ℕ)) (at_end : Option Error) (fs : List Frame)
    (m : ConnectionManager)
    → IsU32 u.request_id
    → IsArray 32 u.id.bytes
    → IsU64 offset
    → All IsRead reads
    → Reaches u.peer_id fs m
    → (gs : List Frame) × Reaches u.peer_id (fs ++ gs) (stream_file u offset reads at_end m)
      × All FitsFrame gs
unfolding stream_file upload_messages
stream_file-fits u offset [] (some e) fs m number id o reads v =
    ([], subst (λ gs. Reaches u.peer_id gs m) (sym (append-nil fs)) v, tt)
stream_file-fits u offset [] none fs m number id o reads v = (
  frame_of (resource_end u.request_id u.id) ∷ [],
  (send-Reaches u.peer_id fs (resource_end u.request_id u.id) m v).1,
  ((upload_messages-IsCarried u offset [] number id o tt).0.2, tt),
)
stream_file-fits u offset (bytes ∷ more) at_end fs m number id o (read, reads) v =
    let chunk = resource_chunk u.request_id u.id offset bytes in
    let (went, v') = send-Reaches u.peer_id fs chunk m v in
    let m' = (send u.peer_id chunk m).1 in
    let next = (offset + length bytes) % 2 ^ 64 in
    let (gs, later, fit) =
      stream_file-fits u next more at_end (fs ++ (frame_of chunk ∷ [])) m' number id (omega arith)
        reads v' in
    let it : stream_file u offset (bytes ∷ more) at_end m ≡ stream_file u next more at_end m' =
      ground (arith, went) in
    let fits = (upload_messages-IsCarried u offset (bytes ∷ []) number id o (read, tt)).0.2 in
    (
      frame_of chunk ∷ gs,
      subst (Reaches u.peer_id (fs ++ (frame_of chunk ∷ gs))) (sym it) (
          subst (λ hs. Reaches u.peer_id hs (stream_file u next more at_end m'))
            (append_assoc fs (frame_of chunk ∷ []) gs) later),
      (fits, fit),
    )
