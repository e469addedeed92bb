-- ===== src/Lib.antt =====
-- Parsip shares files between the nodes of a local network. Each node has one connection to each of
-- its peers, a daemon with an event loop, and a command line that talks to the daemon.
--
-- The parts, and the modules that model them:
-- * The frame codec (src/protocol/codec.rs) is Protocol.Codec: `encode` with its loop of vectored
--   writes, and `decode`. The messages (src/protocol/message) are Protocol.Types, Protocol.Serialize
--   and Protocol.Deserialize, with the functions' names from the source.
-- * A link (src/connection/mod.rs, src/connection/reader.rs) is Connection: Connection.Open has
--   `Connection::new` and the options of the socket, `write_frames` is the writer's thread and
--   `start_read_loop` the reader's, which hands its messages to the event loop. The handshake before
--   it (src/connection/handshake.rs) is Connection.Handshake.
-- * The table of connections (src/connection_manager.rs) is ConnectionManager; its `remove` is
--   `remove_connection`. One field for each lock says whether it is poisoned.
-- * Downloads and their progress (src/resource/download.rs, src/resource/transfer.rs) are
--   Resource.Download and Resource.Transfer. The thread that writes a file takes its steps one by one
--   (`writer_step`), so that any interleaving with the event loop is a list of steps. Disk has the
--   names and contents of files. `cancel_download` leaves a thread to itself (`detached_step`).
-- * The store of shared files (src/resource/store.rs) is Resource.Store. Discovery
--   (src/discovery/mod.rs) is Discovery: `handle_datagram` is the reaction of the listening thread to
--   one datagram, Discovery.Listen has its socket and its loop, and Discovery.Broadcast has
--   `broadcast_scan` and the addresses that it sends to.
-- * The requests that wait (src/request_tracker.rs) are RequestTracker, whose `next_id` is `take_id`;
--   the short names (`AliasRegistry` of src/event_handler.rs) are AliasRegistry; and the rest of
--   src/event_handler.rs is EventHandler, with `handle_message`, the thread of an upload, and one
--   function for each event, and EventHandler.Dispatch, with one function for each request of the
--   command line (`handle_control`), `handle_event`, and the loop over the events of
--   src/daemon/mod.rs (`event_loop`; `take_turns` where other threads change the table of
--   connections in between). EventHandler.Listing and EventHandler.Sharing join two
--   nodes: what one asks for, the other sends.
-- * Peer.Register is the way from a stream to a connection (src/peer/acceptor.rs,
--   src/peer/connector.rs). Peer.Node is a node with its table and its threads (src/peer/mod.rs), which
--   take turns in any order: a step relation and its runs. Identity.Load is the file of the
--   identity (src/identity/mod.rs), with Random (src/random.rs).
-- * Config is src/config.rs. Cli is the client (src/cli/mod.rs): the requests and `config` are there,
--   the loop over the answers is in Cli.Responses. Daemon is the thread of src/daemon/mod.rs that
--   serves one client, and Daemon.Start is `run` up to its loop over the events. Main has the options
--   of the daemon and `stop_daemon` (src/main.rs), and Main.Program `start_daemon` and the whole of
--   `main`: what each does is listed as effects in their order.
-- * Control and Peer have the types of the messages between the threads (src/daemon/control.rs,
--   src/peer/event.rs). Base, Bytes, Map, Text and Io stand for what the source uses of Rust's
--   standard library; Identity has src/identity/peer_id.rs. Tests has runs at fixed inputs.
--
-- State is passed explicitly, errors are values of `Result`, and integers are natural numbers with the
-- wrap-around of the release build written out. Strings are lists of the bytes of their UTF-8 form.
--
-- Loops: `write_loop` has fuel for one round more than the frame has bytes, since each round takes one
-- byte at least; `read_loop` has a round for each byte of the stream and one more, since a frame has
-- five bytes. That this is enough is part of the theorems about `encode` and `start_read_loop`.
-- `wait_for_exit` has the 50 checks of the source. The other loops follow a list.
--
-- Parameters: what the system, a stream, a socket or a file answers to a call, the readings of the
-- clock, the environment, the random bytes, and the libraries: ed25519 and SHA-256 (`Crypto`, of which
-- `IsKeyPair` states what is relied on, and `Digests`), `toml` (`Toml`, `IsRead`), `serde_json`
-- (`Json`, `IsRead`, `IsRequest`), whether `daemonize` succeeds (`LaunchAnswers`), and what `format!`
-- makes of floating-point numbers (`Format`).
--
-- A panic of the event loop is the result `none` of `handle_event`; whether a `thread::spawn` or a
-- `println!` panics is an answer of the system (`call_panics`). That the other threads start, and that
-- what they print is taken, is assumed.
--
-- Not modelled: the lines of the log and what the threads print, the files of the log and of the
-- number of the process, the rounding of floating-point numbers, and how `daemonize` detaches the
-- process. A thread is started by giving its function the state that it captures.
pub mod Base
pub mod Bytes
pub mod Map
pub mod Text
pub mod Io
pub mod Protocol
pub mod Identity
pub mod Random
pub mod Connection
pub mod ConnectionManager
pub mod Control
pub mod Peer
pub mod RequestTracker
pub mod Resource
pub mod Disk
pub mod AliasRegistry
pub mod Discovery
pub mod Config
pub mod Cli
pub mod EventHandler
pub mod Daemon
pub mod Main
pub mod Tests
