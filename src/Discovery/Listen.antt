-- ===== src/Discovery/Listen.antt =====
-- src/discovery/mod.rs, `Discovery::start`: the socket and the thread that listens on it.
use parsip.Base.{ℕ, List, [], ◌∷◌, ◌++◌, Option, none, some}
use parsip.Io.{Error, Result, ok, err, answer, ◌>>◌}
use parsip.Control.{SocketAddr}
use parsip.Peer.{PeerEvent}
use parsip.Discovery.{Node, handle_datagram}

-- What the system answers to each call.
pub record DiscoveryAnswers : Type 0 where
  pub created : Option Error
  pub address_reused : Option Error
  pub port_reused : Option Error
  pub bound : Option Error
  pub broadcasts : Option Error
  pub cloned : Option Error

-- The node that the thread answers for, if it is started.
unfoldable pub start : DiscoveryAnswers → Node → Result Node Error
start w node = do
  answer w.created
  answer w.address_reused
  answer w.port_reused
  answer w.bound
  answer w.broadcasts
  answer w.cloned
  ok node

present {ℓ} : {A : Type ℓ} → Option A → List A
present none = []
present (some a) = a ∷ []

-- The loop of the thread, for what the socket gives: the datagrams that it sends, and the events.
unfoldable listen_loop :
    (List ℕ → List ℕ)
    → Node
    → List (Result (List ℕ × SocketAddr) Error)
    → List (List ℕ × SocketAddr) × List PeerEvent
unfolding present
listen_loop lossy node [] = ([], [])
listen_loop lossy node (err e ∷ received) = listen_loop lossy node received
listen_loop lossy node (ok (datagram, src) ∷ received) =
    let (reply, event) = handle_datagram lossy node datagram src in
    let (replies, events) = listen_loop lossy node received in
    (present reply ++ replies, present event ++ events)
