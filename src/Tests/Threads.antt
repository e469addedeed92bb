-- ===== src/Tests/Threads.antt =====
-- A node with its threads (src/peer), at fixed inputs.
use parsip.Base.{
  ℕ, length, ◌+◌, ◌≡◌, ◌≢◌, refl, [], ◌∷◌, none, some, true, false, ap, arith, ℕ_discrete, Among,
}
use parsip.Io.{ok}
use parsip.Map.{lookup, insert, remove, nat_key}
use parsip.Identity.{PeerId, peer_key, bytes_gt}
use parsip.Connection.{Direction, incoming, outgoing}
use parsip.Connection.Reader.{read_loop, start_read_loop}
use parsip.Protocol.Codec.{decode}
use parsip.Io.{read_exact}
use parsip.Connection.Handshake.{identity_of, from_public_key}
use parsip.ConnectionManager as Connections
use parsip.ConnectionManager.{
  ConnectionManager, ConnectionEntry, established, insert_connection, insert_locked, reserve_id,
  link, keep_new, remove_connection,
}
use parsip.Connection.Open as Open
use parsip.Peer.{disconnected, new_connection}
use parsip.Peer.Register.{Registered, ReadLoop, after_handshake, insert_link, connect}
use parsip.Peer.Node.{
  Links, Stream, Runs, accepts, dials, announces, reports, removes, starts, goes_on, new, joined,
  accept, dial, emit, is_connected,
}
use parsip.Peer.Node.Tended.{IsTended}
use parsip.Peer.Node.Tended.Counts.{news, losses}
use parsip.Peer.Node.Released.{Runs-IsTended, Runs-released}
use parsip.Peer.Node.Replaced.{start_read_loop-replaced}
use parsip.EventHandler.{DaemonContext, handle_disconnected}
use parsip.EventHandler.Disconnect.{IsCancelled}
use parsip.Tests.Samples.{repeat, socket, toy, bob, resource}
use parsip.Resource.Transfer.{Transfer}
use parsip.Resource.Transfer.Keyed.{IsKeyed}
use parsip.Tests.Links.{received, left}
use parsip.Tests.Downloads.{bobs_address, waiting}
use parsip.Tests.Starts.{me, them, a_socket, a_link, linked}

abbrev fresh : Links
fresh = record { peer = new me bobs_address; announcing = []; readers = []; ending = [] }

abbrev a_stream : Stream
a_stream = record {
  bytes = received;
  output = socket;
  my_nonce = repeat 32 4;
  socket = a_socket;
  remote_addr = bobs_address;
}

-- A transfer from the peer.
abbrev from_them : Transfer
from_them = record {
  request_id = 4;
  peer_id = them;
  resource_id = resource;
  bytes_transferred = 3;
  bytes_total = 5;
  start_time = 0;
  last_report_time = 0;
  last_report_bytes = 0;
}

abbrev waiting_for_them : DaemonContext
waiting_for_them = record waiting { transfer_mgr = (4, from_them) ∷ [] }

-- The connection under the number, and the thread that reads from it.
abbrev entry : PeerId → Direction → ConnectionEntry
entry p d = record { connection = Open.new_link p d; state = established }

abbrev loop : PeerId → ℕ → ReadLoop
loop p n = record { conn_id = n; peer_id = p; reader = Open.new_reader a_socket bobs_address left }

abbrev table : PeerId → ℕ → Direction → ConnectionManager
table p n d = record {
  entries = (n, entry p d) ∷ [];
  peer_index = (p, n) ∷ [];
  next_conn_id = n + 1;
  entries_poisoned = false;
  index_poisoned = false;
}

abbrev registered : PeerId → ℕ → Direction → Registered
registered p n d = record {
  result = ok p;
  manager = table p n d;
  events = new_connection p ∷ [];
  reader = some (loop p n);
}

-- A peer has dialled the node.
abbrev one_link : Links
one_link = joined (registered them 1 incoming) fresh

them-ne : them ≢ bob
unfolding identity_of from_public_key
them-ne e = omega (arith, ap (λ (p : PeerId). length p.bytes) e)

link_first :
    (p : PeerId)
    → p ≢ bob
    → after_handshake bob incoming a_socket bobs_address (ok (p, left)) Connections.new
      ≡ registered p 1 incoming
unfolding after_handshake Open.new insert_link insert_connection insert_locked reserve_id link
    Connections.new lookup insert remove ℕ_discrete
link_first p ne = ground (arith, ne)

first_link : a_link incoming Connections.new ≡ registered them 1 incoming
first_link = link_first them them-ne

first_accepted : accept toy (ok a_stream) fresh ≡ some one_link
unfolding accept new
first_accepted = rw (accept, linked incoming Connections.new, first_link) refl

one_run : Runs toy me bobs_address one_link
unfolding new Connections.new
one_run = goes_on starts (accepts (ok a_stream) (omega arith) first_accepted)

-- Then the node dials the peer, whose identity is the smaller one.
abbrev two_links : Links
two_links = joined (registered them 2 outgoing) one_link

link_second :
    (p : PeerId)
    → p ≢ bob
    → bytes_gt bob.bytes p.bytes ≡ true
    → after_handshake bob outgoing a_socket bobs_address (ok (p, left)) (table p 1 incoming)
      ≡ registered p 2 outgoing
unfolding after_handshake Open.new insert_link insert_connection insert_locked reserve_id link
    keep_new lookup insert remove ℕ_discrete
link_second p ne greater = ground (arith, ne, greater)

bob_greater : bytes_gt bob.bytes them.bytes ≡ true
unfolding bytes_gt identity_of from_public_key
bob_greater = refl

second_link : a_link outgoing (table them 1 incoming) ≡ registered them 2 outgoing
second_link = link_second them them-ne bob_greater

second_dialled : dial toy none a_stream one_link ≡ some two_links
unfolding dial connect joined new
second_dialled = rw (dial, connect, linked outgoing (table them 1 incoming), second_link) refl

two_run : Runs toy me bobs_address two_links
unfolding joined
two_run = goes_on one_run (dials none a_stream (omega arith) second_dialled)

broken_off : start_read_loop them left ≡ some (disconnected them ∷ [])
unfolding start_read_loop read_loop decode read_exact
broken_off = refl

transfer-IsKeyed : IsKeyed waiting_for_them.transfer_mgr
unfolding IsKeyed lookup
transfer-IsKeyed = (refl, refl, tt)

transfer_found : lookup 4 waiting_for_them.transfer_mgr ≡ some from_them
unfolding lookup ℕ_discrete
transfer_found = refl

index_found : (p : PeerId) → lookup p (table p 2 outgoing).peer_index ≡ some 2
unfolding lookup
index_found p = ground arith

start_read_loop-replaced_example :
    Among (disconnected them) (disconnected them ∷ [])
    × (is_connected them
          (record two_links.peer { manager = remove_connection 1 two_links.peer.manager })
        ≡ true)
    × IsCancelled from_them waiting_for_them (handle_disconnected them waiting_for_them)
unfolding joined lookup
start_read_loop-replaced_example =
    start_read_loop-replaced toy me bobs_address two_links (loop them 1) 2 (disconnected them ∷ [])
      waiting_for_them from_them two_run (index_found them) (omega arith) broken_off
      transfer-IsKeyed transfer_found refl

Runs-IsTended_example : IsTended two_links
Runs-IsTended_example = Runs-IsTended toy me bobs_address two_links two_run

-- All the threads of the first connection have done their work.
abbrev reported : Links
reported = record one_link { announcing = []; peer = emit (new_connection them ∷ []) one_link.peer }

abbrev ended : Links
ended = record reported {
  readers = [];
  ending = loop them 1 ∷ [];
  peer = emit (disconnected them ∷ []) reported.peer;
}

abbrev over : Links
over = record ended {
  ending = [];
  peer = record ended.peer { manager = remove_connection 1 ended.peer.manager };
}

whole_run : Runs toy me bobs_address over
unfolding joined
whole_run =
    goes_on
      (goes_on (goes_on one_run (announces [] [] (new_connection them) refl refl))
        (reports [] [] (loop them 1) (disconnected them ∷ []) refl broken_off refl))
      (removes [] [] (loop them 1) refl refl)

Runs-released_example :
    ((id : ℕ) → lookup id over.peer.manager.entries ≡ none)
    × ((p : PeerId) → is_connected p over.peer ≡ false)
    × ((p : PeerId) → news p over.peer.event_tx ≡ losses p over.peer.event_tx)
Runs-released_example = Runs-released toy me bobs_address over whole_run refl refl refl
