-- ===== src/Tests/Sharing.antt =====
-- A file from one node to another (src/event_handler.rs), at a fixed input.
use parsip.Base.{ℕ, ◌≡◌, refl, List, [], ◌∷◌, none, some, map, All, concat, length, false, arith}
use parsip.Map.{lookup}
use parsip.Text.{text, decimal, utf8_from, utf8_next}
use parsip.Identity.{PeerId, peer_key}
use parsip.Protocol.{ResourceInfo, download_resource, resource_chunk, resource_end}
use parsip.Resource.Store.{get_path}
use parsip.Protocol.Serialize.{frame_of}
use parsip.Connection.{incoming}
use parsip.Connection.Reader.{events, start_read_loop}
use parsip.Connection.Link.{wire_of, start_read_loop-wire_of}
use parsip.ConnectionManager.{ConnectionManager, established}
use parsip.AliasRegistry as Aliases
use parsip.EventHandler.{DaemonContext, Upload, handle_message, stream_file}
use parsip.EventHandler.Dispatch.{handle_get_resource, handle_list_resources}
use parsip.EventHandler.Listing.{IsListing, handle_list_resources-lists}
use parsip.AliasRegistry.{add_peer, get_peer}
use parsip.AliasRegistry.Named.{IsRegistry, add_peer-IsRegistry, new-IsRegistry}
use parsip.Resource.Store.{list_resources}
use parsip.Protocol.{resource_list, list_resources as list_messages}
use parsip.Protocol.{IsInfo, Frame}
use parsip.Protocol.Codec.Wire.{FitsFrame}
use parsip.Protocol.Serialize.{payload_of, entries_bytes, entry_bytes}
use parsip.Bytes.{to_be_bytes}
use parsip.Connection.Reader.{is_handshake}
use parsip.Connection.Link.{IsCarried}
use parsip.EventHandler.Sharing.{upload_of, handle_get_resource-shares}
use parsip.EventHandler.Sharing.Sent.{
  stream_file-fits, Reaches, upload_messages, IsRead, upload_messages-IsCarried,
}
use parsip.EventHandler.Sharing.Fetched.{IsFetched, Step, hears, works, steps, heard}
use parsip.Tests.Samples.{alice, bob, eof, repeat, repeat-IsByte}
use parsip.Tests.Downloads.{waiting}
use parsip.Tests.Requests.{answers, control_answers}

-- Each node has one connection, to the other one.
abbrev connected_to : PeerId → ConnectionManager
connected_to p = record {
  entries =
      (
        1,
        record {
          connection = record {
            remote_peer_id = p;
            direction = incoming;
            sender = record { sent = []; receiver_gone = false };
          };
          state = established;
        },
      )
      ∷ [];
  peer_index = (p, 1) ∷ [];
  next_conn_id = 2;
  entries_poisoned = false;
  index_poisoned = false;
}

connected_to-Reaches : (p : PeerId) → Reaches p [] (connected_to p)
unfolding lookup
connected_to-Reaches p = record {
  conn_id = 1;
  entry = record {
    connection = record {
      remote_peer_id = p;
      direction = incoming;
      sender = record { sent = []; receiver_gone = false };
    };
    state = established;
  };
  index_sane = refl;
  entries_sane = refl;
  named = ground arith;
  found = ground arith;
  open_channel = refl;
  sent = refl;
}

abbrev notes : ResourceInfo
notes = record { id = record { bytes = repeat 32 7 }; name = text "notes"; size = 5 }

-- Alice has listed what bob shares.
abbrev asking : DaemonContext
asking = record waiting {
  manager = connected_to bob;
  aliases = record Aliases.new {
    peer_aliases = (text "p1", bob) ∷ [];
    resource_aliases = (text "r1", notes.id) ∷ [];
    resource_info = (notes.id, notes) ∷ [];
  };
}

-- Bob shares the file.
abbrev sharing : DaemonContext
sharing = record waiting {
  manager = connected_to alice;
  store = record waiting.store { index = (notes.id, (text "/home/bob/notes", notes)) ∷ [] };
}

abbrev file_reads : List (List ℕ)
file_reads = (1 ∷ 2 ∷ 3 ∷ []) ∷ (4 ∷ 5 ∷ []) ∷ []

file_reads-IsRead : All IsRead file_reads
file_reads-IsRead = ((ground arith, ground arith), ((ground arith, ground arith), tt))

abbrev bobs_upload : Upload
bobs_upload = upload_of alice 6 notes (text "/home/bob/notes")

abbrev arriving : List Step
arriving =
    hears 0 0 (resource_chunk 6 notes.id 0 (1 ∷ 2 ∷ 3 ∷ []))
    ∷ works
    ∷ hears 0 0 (resource_chunk 6 notes.id 3 (4 ∷ 5 ∷ []))
    ∷ hears 1 1 (resource_end 6 notes.id)
    ∷ works
    ∷ []

arriving-heard :
    start_read_loop bob (record {
      bytes = wire_of (map frame_of (upload_messages bobs_upload 0 file_reads));
      ends = eof;
    })
    ≡ some (events bob (heard arriving))
unfolding heard upload_messages
arriving-heard = start_read_loop-wire_of bob (upload_messages bobs_upload 0 file_reads) eof (
    upload_messages-IsCarried bobs_upload 0 file_reads (omega arith)
      (refl, repeat-IsByte 32 7 (omega arith)) (omega arith) file_reads-IsRead)

handle_get_resource-shares_example :
    let u = bobs_upload in
    let asked = handle_get_resource control_answers (text "p1") (text "r1") 9 asking in
    let request = download_resource 6 notes.id in
    let serving = handle_message answers alice request sharing in
    Reaches bob (frame_of request ∷ []) asked.manager
    × (serving.uploads ≡ u ∷ [])
    × Reaches alice
        (map frame_of (upload_messages u 0 file_reads))
        (stream_file u 0 file_reads none serving.manager)
    × IsFetched notes 6 9
        (text "/home/me/Downloads")
        (concat file_reads)
        (steps bob notes.id arriving asked)
unfolding Aliases.get_peer Aliases.get_resource Aliases.get_info get_path lookup
handle_get_resource-shares_example =
    handle_get_resource-shares control_answers answers (text "p1") (text "r1")
      (text "/home/bob/notes") 9 alice bob notes file_reads [] [] asking sharing eof arriving
      (ground arith) (ground arith) (ground arith) refl refl (omega arith)
      (refl, repeat-IsByte 32 7 (omega arith)) file_reads-IsRead (connected_to-Reaches bob)
      (ground arith) (connected_to-Reaches alice) arriving-heard

-- Alice knows bob by a short name.
abbrev knowing : DaemonContext
knowing = record waiting { manager = connected_to bob; aliases = (add_peer bob Aliases.new).1 }

bob_known : IsRegistry knowing.aliases × (get_peer (text "p1") knowing.aliases ≡ some bob)
unfolding Aliases.new add_peer text lookup decimal
bob_known =
    let (registry, known, earlier) =
      add_peer-IsRegistry bob Aliases.new new-IsRegistry (omega arith) in
    (registry, known)

notes-IsInfo : IsInfo notes
unfolding text utf8_from utf8_next
notes-IsInfo = record {
  id_array = (refl, repeat-IsByte 32 7 (omega arith));
  name_bytes = ground arith;
  name_text = refl;
  name_short = omega arith;
  size_u64 = omega arith;
}

-- Its frame has 4 bytes for the number, 4 for the count, and 49 for the entry.
bobs_frame : length (payload_of (resource_list 6 (notes ∷ []))) ≡ 57
unfolding payload_of entries_bytes entry_bytes text to_be_bytes
bobs_frame = refl

bobs_list-IsCarried : IsCarried (resource_list 6 (list_resources sharing.store))
unfolding list_resources frame_of payload_of is_handshake
bobs_list-IsCarried =
    ((omega arith, omega arith, (notes-IsInfo, tt)), refl, omega (arith, bobs_frame))

handle_list_resources-lists_example :
    let reply = resource_list 6 (notes ∷ []) in
    let asked = handle_list_resources (text "p1") 9 knowing in
    Reaches bob (frame_of (list_messages 6) ∷ []) asked.manager
    × (start_read_loop alice
          (record { bytes = wire_of (frame_of (list_messages 6) ∷ []); ends = eof })
        ≡ some (events alice (list_messages 6 ∷ [])))
    × Reaches alice
        (frame_of reply ∷ [])
        (handle_message answers alice (list_messages 6) sharing).manager
    × (start_read_loop bob (record { bytes = wire_of (frame_of reply ∷ []); ends = eof })
        ≡ some (events bob (reply ∷ [])))
    × IsListing (notes ∷ []) 6 9 asked (handle_message answers bob reply asked)
unfolding list_resources Aliases.new add_peer lookup
handle_list_resources-lists_example =
    handle_list_resources-lists answers answers (text "p1") 9 alice bob [] [] knowing sharing eof
      eof bob_known.1 (omega arith) (connected_to-Reaches bob) (connected_to-Reaches alice)
      bobs_list-IsCarried bob_known.0 (omega arith) (omega arith)

stream_file-fits_example :
    (gs : List Frame) × Reaches alice gs
      (stream_file bobs_upload 0 file_reads (some eof) (connected_to alice))
    × All FitsFrame gs
stream_file-fits_example =
    stream_file-fits bobs_upload 0 file_reads (some eof) [] (connected_to alice) (omega arith)
      (refl, repeat-IsByte 32 7 (omega arith)) (omega arith) file_reads-IsRead
      (connected_to-Reaches alice)
