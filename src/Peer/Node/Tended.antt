-- ===== src/Peer/Node/Tended.antt =====
-- src/peer: who looks after the connections of a node.
pub mod Counts
use parsip.Base.{
  ℕ, ◌+◌, ◌<◌, ◌^◌, ◌≡◌, ◌≢◌, refl, sym, subst, ap, ◌∙◌, List, [], ◌∷◌, ◌++◌, Bool, true, false,
  Option, none, some, Option-cases, Bool-cases, ◌⊎◌, inl, inr, ite, arith, ℕ_discrete,
}
use parsip.Io.{Error, Result, Result-cases, ok, err, Input, Output}
use parsip.Map.{lookup, nat_key}
use parsip.Identity.{PeerId, PeerId-discrete, peer_key}
use parsip.Control.{SocketAddr}
use parsip.Connection.{Direction, incoming, outgoing}
use parsip.Connection.Open.{Socket, new_link, new_reader}
use parsip.Connection.Reader.{events, start_read_loop}
use parsip.Connection.Handshake.{Crypto, Identity}
use parsip.ConnectionManager as Connections
use parsip.ConnectionManager.{ConnectionManager, insert_connection, remove_connection, unlink}
use parsip.ConnectionManager.Index.{
  IsLinked, remote_at, new-IsLinked, insert_connection-IsLinked, remove_connection-IsLinked,
}
use parsip.ConnectionManager.Sent.{send-IsLinked}
use parsip.ConnectionManager.Inserted.{insert_connection-Inserted}
use parsip.Peer.{PeerEvent, new_connection}
use parsip.Peer.Register.{Registered, ReadLoop, rejected, insert_link, register_connection, connect}
use parsip.Peer.Register.Cases.{register_connection-both}
use parsip.Peer.Node.{
  Peer, Links, Stream, Step, Runs, accepts, dials, announces, reports, removes, sends, starts,
  goes_on, new, joined, accept, dial, emit, send,
}
use parsip.Peer.Node.Tended.Counts.{
  news, losses, held, Tends, news-append, losses-append, news-middle, losses-middle, held-middle,
  Tends-middle, start_read_loop-counts,
}

-- Every connection of the table has a thread that reads from it or is about to remove it, so that none
-- is left over; and the connections to a peer that were or will be reported are those that were
-- reported as ended and those that are still read from.
pub record IsTended (l : Links) : Type 0 where
  pub linked : IsLinked l.peer.manager
  pub entries_sane : l.peer.manager.entries_poisoned ≡ false
  pub index_sane : l.peer.manager.index_poisoned ≡ false
  pub tended :
      (id : ℕ) (p : PeerId)
      → remote_at l.peer.manager id ≡ some p
      → Tends id p l.readers ⊎ Tends id p l.ending
  pub counted :
      (p : PeerId)
      → news p l.peer.event_tx + news p l.announcing ≡ losses p l.peer.event_tx + held p l.readers
  pub quiet : (p : PeerId) → losses p l.announcing ≡ 0

module _ (l : Links) (v : IsTended l) where
  -- A connection that is not accepted changes nothing but the next number.
  pub rejected-IsTended :
      (e : Error) (m : ConnectionManager)
      → IsLinked m
      → m.entries_poisoned ≡ l.peer.manager.entries_poisoned
      → m.index_poisoned ≡ l.peer.manager.index_poisoned
      → ((id : ℕ) (p : PeerId) → remote_at m id ≡ some p → remote_at l.peer.manager id ≡ some p)
      → IsTended (joined (rejected e m) l)
  unfolding joined rejected
  rejected-IsTended e m linked a b fewer = record {
    linked = linked;
    entries_sane = a ∙ v.entries_sane;
    index_sane = b ∙ v.index_sane;
    tended = λ id p there. v.tended id p (fewer id p there);
    counted = v.counted;
    quiet = v.quiet;
  }

  insert_link-IsTended :
      (my_id their_id : PeerId) (direction : Direction) (socket : Socket) (remote_addr : SocketAddr)
      (s : Input)
      → l.peer.manager.next_conn_id + 1 < 2 ^ 64
      → IsTended (
          joined
            (insert_link my_id their_id
              (new_link their_id direction)
              (new_reader socket remote_addr s)
              l.peer.manager)
            l)
  unfolding joined insert_link news losses held Tends
  insert_link-IsTended my_id their_id direction socket remote_addr s room =
      let m = l.peer.manager in
      let link = new_link their_id direction in
      let reader = new_reader socket remote_addr s in
      let (r, m') = insert_connection link my_id m in
      let done = insert_connection-Inserted link my_id m in
      let linked = insert_connection-IsLinked m v.linked link my_id room in
      let P = λ (x : Registered). IsTended (joined x l) in
      elim (Result-cases r) [
        | inr (e, f) ↦
            let it : insert_link my_id their_id link reader m ≡ rejected e m' = ground (arith, f) in
            subst P (sym it) (
              rejected-IsTended e m' linked done.same_entries_lock done.same_index_lock
                (λ id p there. elim (done.known id p there) [
                  | inl old ↦ old
                  | inr (fresh, _) ↦ absurd (ground (arith, f, fresh))
                ]))
        | inl (conn_id, f) ↦
            let loop : ReadLoop = record {
              conn_id = conn_id;
              peer_id = their_id;
              reader = reader;
            } in
            let it : insert_link my_id their_id link reader m ≡ record {
              result = ok their_id;
              manager = m';
              events = new_connection their_id ∷ [];
              reader = some loop;
            } =
              ground (arith, f) in
            subst P (sym it) (record {
              linked = linked;
              entries_sane = done.same_entries_lock ∙ v.entries_sane;
              index_sane = done.same_index_lock ∙ v.index_sane;
              tended = λ id p there. elim (done.known id p there) [
                | inl old ↦ elim (v.tended id p old) [ inl x ↦ inl (inr x) | inr x ↦ inr x ]
                | inr (fresh, same) ↦ inl (inl (ground (arith, f, fresh), same))
              ];
              counted = λ p. omega (arith, v.counted p);
              quiet = v.quiet;
            })
      ]

  pub register-IsTended :
      (c : Crypto) (identity : Identity) (direction : Direction) (a : Stream) (x : Registered)
      (o : Output)
      → l.peer.manager.next_conn_id + 1 < 2 ^ 64
      → register_connection c identity a.my_nonce direction a.socket a.remote_addr a.bytes a.output
          l.peer.manager
        ≡ some (x, o)
      → IsTended (joined x l)
  register-IsTended c identity direction a x o room =
      register_connection-both c identity a.my_nonce direction a.socket a.remote_addr a.bytes
        a.output o l.peer.manager x (λ x. IsTended (joined x l))
        (λ e. rejected-IsTended e l.peer.manager v.linked refl refl (λ id p there. there))
        (λ their_id s ne.
          insert_link-IsTended identity.peer_id their_id direction a.socket a.remote_addr s room)
