-- ===== src/Peer/Node/Released.antt =====
-- src/peer: what has become of the connections of a node after any run of its threads.
use parsip.Base.{
  ℕ, ◌+◌, ◌<◌, ◌^◌, ◌≡◌, refl, sym, subst, ap, ◌∙◌, [], false, Option, none, some, Option-cases,
  inl, inr, arith,
}
use parsip.Io.{Error, Result, ok, err}
use parsip.Map.{lookup, nat_key}
use parsip.Identity.{PeerId, peer_key}
use parsip.Control.{SocketAddr}
use parsip.Protocol.{Message}
use parsip.Connection.{incoming, outgoing}
use parsip.Connection.Handshake.{Crypto, Identity}
use parsip.ConnectionManager as Connections
use parsip.ConnectionManager.{ConnectionManager}
use parsip.ConnectionManager.Index.{remote_at, new-IsLinked}
use parsip.ConnectionManager.Sent.{send-IsLinked, send-remote_at, send-locks}
use parsip.Peer.Register.{register_connection, connect}
use parsip.Peer.Node.{
  Links, Stream, Step, Runs, accepts, dials, announces, reports, removes, sends, starts, goes_on,
  new, joined, accept, dial, send, is_connected,
}
use parsip.Peer.Node.Tended.{IsTended, rejected-IsTended, register-IsTended}
use parsip.Peer.Node.Ended.{announce-IsTended, report-IsTended, remove-IsTended}
use parsip.Peer.Node.Tended.Counts.{news, losses, held, Tends}

new-IsTended :
    (identity : Identity) (address : SocketAddr)
    → IsTended (record { peer = new identity address; announcing = []; readers = []; ending = [] })
unfolding new Connections.new news losses held lookup
new-IsTended identity address = record {
  linked = new-IsLinked;
  entries_sane = refl;
  index_sane = refl;
  tended = λ id p there. absurd (ground (arith, there));
  counted = λ p. refl;
  quiet = λ p. refl;
}

module _ (c : Crypto) (l l' : Links) (v : IsTended l) where
  accept-IsTended :
      (a : Result Stream Error)
      → l.peer.manager.next_conn_id + 1 < 2 ^ 64
      → accept c a l ≡ some l'
      → IsTended l'
  unfolding accept
  accept-IsTended (err e) room f = subst IsTended (ground (arith, f)) v
  accept-IsTended (ok a) room f =
      elim (Option-cases (
        register_connection c l.peer.identity a.my_nonce incoming a.socket a.remote_addr a.bytes
          a.output l.peer.manager)) [
            | inl g ↦ absurd (ground (arith, f, g))
            | inr ((x, o), g) ↦
                let same : joined x l ≡ l' = ground (arith, f, g) in
                subst IsTended same (register-IsTended l v c l.peer.identity incoming a x o room g)
          ]

  dial-IsTended :
      (refused : Option Error) (a : Stream)
      → l.peer.manager.next_conn_id + 1 < 2 ^ 64
      → dial c refused a l ≡ some l'
      → IsTended l'
  unfolding dial connect
  dial-IsTended (some e) a room f =
      let m = l.peer.manager in
      subst IsTended (ground (arith, f))
        (rejected-IsTended l v e m v.linked refl refl (λ id p there. there))
  dial-IsTended none a room f =
      elim (Option-cases (
        register_connection c l.peer.identity a.my_nonce outgoing a.socket a.remote_addr a.bytes
          a.output l.peer.manager)) [
            | inl g ↦ absurd (ground (arith, f, g))
            | inr ((x, o), g) ↦
                let same : joined x l ≡ l' = ground (arith, f, g) in
                subst IsTended same (register-IsTended l v c l.peer.identity outgoing a x o room g)
          ]

send-IsTended :
    (l : Links) (target : PeerId) (message : Message)
    → IsTended l
    → IsTended (record l { peer = (send target message l.peer).1 })
unfolding send
send-IsTended l target message v =
    let m = l.peer.manager in
    let locks = send-locks target message m in
    record {
      linked = send-IsLinked target message m v.linked;
      entries_sane = locks.0 ∙ v.entries_sane;
      index_sane = locks.1 ∙ v.index_sane;
      tended = λ id p there. v.tended id p (sym (send-remote_at target message m id) ∙ there);
      counted = v.counted;
      quiet = v.quiet;
    }

Step-IsTended : (c : Crypto) (l l' : Links) → Step c l l' → IsTended l → IsTended l'
Step-IsTended c l l' (accepts a room e) v = accept-IsTended c l l' v a room e
Step-IsTended c l l' (dials refused a room e) v = dial-IsTended c l l' v refused a room e
Step-IsTended c l l' (announces before after e f same) v =
    subst IsTended (sym same) (announce-IsTended l v before after e f)
Step-IsTended c l l' (reports before after r es f ran same) v =
    subst IsTended (sym same) (report-IsTended l v before after r es f ran)
Step-IsTended c l l' (removes before after r f same) v =
    subst IsTended (sym same) (remove-IsTended l v before after r f)
Step-IsTended c l l' (sends target message same) v =
    subst IsTended (sym same) (send-IsTended l target message v)

-- Whatever streams a new node accepts and dials, and however the threads that register, read from and
-- remove connections and send messages take turns, while numbers are left: index and table are
-- in step, every connection of the table has a thread that reads from it or is about to remove
-- it, and the connections to a peer that were reported, or soon will be, are as many as those
-- whose end was reported and those that are still read from.
pub Runs-IsTended :
    (c : Crypto) (identity : Identity) (address : SocketAddr) (l : Links)
    → Runs c identity address l
    → IsTended l
Runs-IsTended c identity address l starts = new-IsTended identity address
Runs-IsTended c identity address l (goes_on {l = k} before s) =
    Step-IsTended c k l s (Runs-IsTended c identity address k before)

-- Once none of these threads is left, no connection is left in the table, no peer counts as
-- connected, and for every peer as many ends of a connection were reported as connections.
pub Runs-released :
    (c : Crypto) (identity : Identity) (address : SocketAddr) (l : Links)
    → Runs c identity address l
    → l.announcing ≡ []
    → l.readers ≡ []
    → l.ending ≡ []
    → ((id : ℕ) → lookup id l.peer.manager.entries ≡ none)
      × ((p : PeerId) → is_connected p l.peer ≡ false)
      × ((p : PeerId) → news p l.peer.event_tx ≡ losses p l.peer.event_tx)
unfolding news losses held Tends is_connected Connections.is_connected
Runs-released c identity address l run a r e =
    let v = Runs-IsTended c identity address l run in
    let m = l.peer.manager in
    let nobody : (id : ℕ) (p : PeerId) → remote_at m id ≡ some p → ⊥ = λ id p there.
      elim (v.tended id p there) [
        | inl x ↦ absurd (subst (Tends id p) r x)
        | inr x ↦ absurd (subst (Tends id p) e x)
      ] in
    (
      λ id. elim (Option-cases (lookup id m.entries)) [
        | inl f ↦ f
        | inr (entry, f) ↦ absurd (nobody id entry.connection.remote_peer_id (ground (arith, f)))
      ],
      λ p. elim (Option-cases (lookup p m.peer_index)) [
        | inl f ↦ ground (arith, f)
        | inr (id, f) ↦ absurd (nobody id p ((v.linked.linked p id).0 f))
      ],
      λ p. omega (arith, v.counted p, ap (news p) a, ap (held p) r),
    )
