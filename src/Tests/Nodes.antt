-- ===== src/Tests/Nodes.antt =====
-- The table of connections, the names and the event loop, at fixed inputs.
use parsip.Base.{ℕ, ◌≡◌, ◌≢◌, refl, [], false, none, some, arith}
use parsip.Map.{lookup, insert, remove}
use parsip.Identity.{bytes_gt}
use parsip.Connection.{Connection, Direction, incoming, outgoing}
use parsip.ConnectionManager.{
  ConnectionManager, new, established, insert_connection, remove_connection, keep_new,
  insert_locked, reserve_id, link,
}
use parsip.ConnectionManager.Index.{
  IsLinked, new-IsLinked, remote_at, insert_connection-IsLinked, remove_connection-IsLinked,
}
use parsip.ConnectionManager.Dedup.{
  IsRace, both_inserted, kept, opposite, race_agrees, remove_connection_replaced,
}
use parsip.Tests.Samples.{alice, bob}

abbrev to_bob : Direction → Connection
to_bob d = record {
  remote_peer_id = bob;
  direction = d;
  sender = record { sent = []; receiver_gone = false };
}

abbrev to_alice : Direction → Connection
to_alice d = record {
  remote_peer_id = alice;
  direction = d;
  sender = record { sent = []; receiver_gone = false };
}

IsRace-alice : IsRace new bob (to_bob incoming) (to_bob outgoing)
unfolding new lookup opposite
IsRace-alice = record {
  linked = new-IsLinked;
  entries_sound = refl;
  index_sound = refl;
  room = omega arith;
  stranger = refl;
  to_first = refl;
  to_second = refl;
  crossed = refl;
}

IsRace-bob : IsRace new alice (to_alice outgoing) (to_alice incoming)
unfolding new lookup opposite
IsRace-bob = record {
  linked = new-IsLinked;
  entries_sound = refl;
  index_sound = refl;
  room = omega arith;
  stranger = refl;
  to_first = refl;
  to_second = refl;
  crossed = refl;
}

race_agrees_example :
    (d : Direction) × (kept bob (both_inserted alice (to_bob incoming) (to_bob outgoing) new)
      ≡ some d)
    × (kept alice (both_inserted bob (to_alice outgoing) (to_alice incoming) new)
        ≡ some (opposite d))
race_agrees_example =
    race_agrees alice bob new new (to_bob incoming) (to_bob outgoing) (to_alice outgoing)
      (to_alice incoming) refl (ground arith) IsRace-alice IsRace-bob

-- A node that bob has dialled.
abbrev dialled : ConnectionManager
dialled = (insert_connection (to_bob incoming) alice new).1

dialled-IsLinked : IsLinked dialled
unfolding new
dialled-IsLinked = insert_connection-IsLinked new new-IsLinked (to_bob incoming) alice (omega arith)

insert_connection-IsLinked_example : IsLinked dialled
unfolding new
insert_connection-IsLinked_example =
    insert_connection-IsLinked new new-IsLinked (to_bob incoming) alice (omega arith)

entries_open : dialled.entries_poisoned ≡ false
unfolding insert_connection insert_locked reserve_id link new lookup insert remove
entries_open = refl

index_open : dialled.index_poisoned ≡ false
unfolding insert_connection insert_locked reserve_id link new lookup insert remove
index_open = refl

remove_connection-IsLinked_example :
    IsLinked (remove_connection 1 dialled)
    × (remote_at (remove_connection 1 dialled) 1 ≡ none)
    × ((id : ℕ) → id ≢ 1 → remote_at (remove_connection 1 dialled) id ≡ remote_at dialled id)
remove_connection-IsLinked_example =
    remove_connection-IsLinked dialled dialled-IsLinked 1 entries_open index_open

-- Bob, whose identity is the greater one, is dialled by alice and then dials her.
abbrev dialled_bob : ConnectionManager
dialled_bob = (insert_connection (to_alice incoming) bob new).1

remove_connection_replaced_example :
    remove_connection 1 (insert_connection (to_alice outgoing) bob dialled_bob).1
    ≡ (insert_connection (to_alice outgoing) bob dialled_bob).1
unfolding insert_connection insert_locked reserve_id link new lookup insert remove keep_new bytes_gt
remove_connection_replaced_example =
    remove_connection_replaced bob (to_alice outgoing) dialled_bob 1
      (record { connection = to_alice incoming; state = established })
      (insert_connection-IsLinked new new-IsLinked (to_alice incoming) bob (omega arith))
      (ground arith) (ground arith) (ground arith) (ground arith) (ground arith)
