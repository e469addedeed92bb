-- ===== src/Tests/Starts.antt =====
-- The start of a node and of its connections (src/identity, src/peer), at fixed inputs.
use parsip.Base.{◌≡◌, refl, [], ◌∷◌, none, some, true, false}
use parsip.Io.{ok, err}
use parsip.Disk.{written}
use parsip.Identity.{PeerId}
use parsip.Connection.{Direction, incoming}
use parsip.Connection.Open.{Socket}
use parsip.Connection.Handshake.{Identity, identity_of, perform_handshake}
use parsip.ConnectionManager as Connections
use parsip.ConnectionManager.{ConnectionManager}
use parsip.Random.{random_bytes_32}
use parsip.Identity.Load.{load_or_generate}
use parsip.Identity.Load.Stable.{load_or_generate-stable}
use parsip.Peer.Register.{Registered, after_handshake, register_connection}
use parsip.Peer.Register.Listed.{IsRegistered, register_connection-IsRegistered}
use parsip.Tests.Samples.{repeat, socket, toy, bob}
use parsip.Tests.Downloads.{empty_disk, bobs_address}
use parsip.Tests.Links.{received, left, outcome, handshake_run}

load_or_generate-stable_example :
    let (identity, d') =
      load_or_generate toy none none (random_bytes_32 (ok (repeat 32 5)) 0) written empty_disk in
    load_or_generate toy none none (random_bytes_32 (err (repeat 32 0)) 8) written d'
    ≡ (identity, d')
load_or_generate-stable_example =
    load_or_generate-stable toy none (ok (repeat 32 5)) (err (repeat 32 0)) 0 8 written empty_disk
      refl

-- A node with an identity other than the one of the other end.
abbrev pub me : Identity
me = record { signing_key = 8 ∷ []; peer_id = bob }

my_run :
    perform_handshake toy me (repeat 32 4) received socket
    ≡ some (ok ((identity_of toy (9 ∷ [])).peer_id, left), outcome)
unfolding perform_handshake identity_of
my_run = handshake_run

-- The system sets every option.
abbrev pub a_socket : Socket
a_socket = record {
  options = record { nonblocking = false; nodelay = false; keepalive = none; read_timeout = none };
  sets_nonblocking = true;
  sets_nodelay = true;
  sets_keepalive = true;
  sets_read_timeout = true;
  cloned = none;
}

abbrev pub them : PeerId
them = (identity_of toy (9 ∷ [])).peer_id

abbrev pub a_link : Direction → ConnectionManager → Registered
a_link d m = after_handshake bob d a_socket bobs_address (ok (them, left)) m

pub linked :
    (d : Direction) (m : ConnectionManager)
    → register_connection toy me (repeat 32 4) d a_socket bobs_address received socket m
      ≡ some (a_link d m, outcome)
unfolding register_connection
linked d m = rw (register_connection, my_run) refl

register_connection-IsRegistered_example :
    IsRegistered bob incoming a_socket bobs_address Connections.new
      (a_link incoming Connections.new)
register_connection-IsRegistered_example =
    register_connection-IsRegistered toy me (repeat 32 4) incoming a_socket bobs_address received
      socket outcome Connections.new (a_link incoming Connections.new)
      (linked incoming Connections.new)
