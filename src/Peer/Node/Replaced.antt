-- ===== src/Peer/Node/Replaced.antt =====
-- src/connection/reader.rs and src/event_handler.rs: the end of a reader whose connection has been
-- replaced by another one to the same peer.
use parsip.Base.{
  ℕ, suc, ◌≡◌, ◌≢◌, refl, subst, ◌∙◌, List, [], ◌∷◌, true, some, Option-cases, inl, inr, length,
  Among, arith,
}
use parsip.Io.{Input}
use parsip.Map.{lookup, nat_key}
use parsip.Identity.{PeerId, peer_key}
use parsip.Protocol.{Message}
use parsip.Connection.Handshake.{Crypto, Identity}
use parsip.Control.{SocketAddr}
use parsip.Connection.Reader.{events, read_loop, start_read_loop}
use parsip.ConnectionManager.{remove_connection}
use parsip.ConnectionManager.Index.{is_connected_iff, remove_connection-IsLinked}
use parsip.Resource.Transfer.{Transfer}
use parsip.Resource.Transfer.Keyed.{IsKeyed}
use parsip.EventHandler.{DaemonContext, handle_disconnected}
use parsip.EventHandler.Disconnect.{IsCancelled, handle_disconnected-IsCancelled}
use parsip.Peer.{PeerEvent, disconnected}
use parsip.Peer.Register.{ReadLoop}
use parsip.Peer.Node.{Links, Runs, is_connected}
use parsip.Peer.Node.Ended.{remove_connection-locks}
use parsip.Peer.Node.Released.{Runs-IsTended}

events-disconnected : (p : PeerId) (ms : List Message) → Among (disconnected p) (events p ms)
events-disconnected p [] = inl refl
events-disconnected p (m ∷ ms) = inr (events-disconnected p ms)

start_read_loop-disconnected :
    (p : PeerId) (s : Input) (es : List PeerEvent)
    → start_read_loop p s ≡ some es
    → Among (disconnected p) es
unfolding start_read_loop
start_read_loop-disconnected p s es e = elim (Option-cases (read_loop (suc (length s.bytes)) s)) [
  | inl f ↦ absurd (ground (arith, e, f))
  | inr (ms, f) ↦
      let same : events p ms ≡ es = ground (arith, e, f) in
      subst (Among (disconnected p)) same (events-disconnected p ms)
]

-- In a run of a node, where the index names another connection of a peer than the one that a reader
-- has: when this reader ends, it reports the peer as disconnected, although the peer counts as
-- connected even after the reader's connection has been removed; and what the event loop makes of the
-- report is that each transfer from the peer is cancelled.
pub start_read_loop-replaced :
    (c : Crypto) (identity : Identity) (address : SocketAddr) (l : Links) (r : ReadLoop) (id : ℕ)
    (es : List PeerEvent) (ctx : DaemonContext) (t : Transfer)
    → Runs c identity address l
    → lookup r.peer_id l.peer.manager.peer_index ≡ some id
    → id ≢ r.conn_id
    → start_read_loop r.peer_id r.reader.stream ≡ some es
    → IsKeyed ctx.transfer_mgr
    → lookup t.request_id ctx.transfer_mgr ≡ some t
    → t.peer_id ≡ r.peer_id
    → Among (disconnected r.peer_id) es
      × (is_connected r.peer_id
            (record l.peer { manager = remove_connection r.conn_id l.peer.manager })
          ≡ true)
      × IsCancelled t ctx (handle_disconnected r.peer_id ctx)
unfolding is_connected
start_read_loop-replaced c identity address l r id es ctx t run named other ran keyed found
      of_peer =
    let v = Runs-IsTended c identity address l run in
    let m = l.peer.manager in
    let m' = remove_connection r.conn_id m in
    let (linked, gone, others) =
      remove_connection-IsLinked m v.linked r.conn_id v.entries_sane v.index_sane in
    let sane = (remove_connection-locks r.conn_id m).1 ∙ v.index_sane in
    (
      start_read_loop-disconnected r.peer_id r.reader.stream es ran,
      (is_connected_iff m' r.peer_id linked sane).1
          (id, others id other ∙ (v.linked.linked r.peer_id id).0 named),
      handle_disconnected-IsCancelled r.peer_id ctx t keyed found of_peer,
    )
