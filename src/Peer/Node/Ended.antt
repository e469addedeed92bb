-- ===== src/Peer/Node/Ended.antt =====
-- src/peer and src/connection/reader.rs: the events of a connection, its end, and its removal.
use parsip.Base.{
  ℕ, ◌≡◌, sym, subst, ap, ◌∙◌, List, [], ◌∷◌, ◌++◌, some, ◌⊎◌, inl, inr, arith, ℕ_discrete,
}
use parsip.Map.{nat_key}
use parsip.Identity.{PeerId, peer_key}
use parsip.Connection.Reader.{start_read_loop}
use parsip.ConnectionManager.{ConnectionManager, remove_connection, unlink}
use parsip.ConnectionManager.Index.{remote_at, remove_connection-IsLinked}
use parsip.Peer.{PeerEvent}
use parsip.Peer.Register.{ReadLoop}
use parsip.Peer.Node.{Links, emit}
use parsip.Peer.Node.Tended.Counts.{
  news, losses, held, Tends, news-append, losses-append, news-middle, losses-middle, held-middle,
  Tends-middle, start_read_loop-counts,
}
use parsip.Peer.Node.Tended.{IsTended}

-- The number of a thread that goes on tending is not the one that has been removed.
remove-Tended :
    (l : Links) (before after : List ReadLoop) (r : ReadLoop)
    → IsTended l
    → l.ending ≡ before ++ (r ∷ after)
    → (id : ℕ) (p : PeerId) → remote_at (remove_connection r.conn_id l.peer.manager) id ≡ some p
    → Tends id p l.readers ⊎ Tends id p (before ++ after)
remove-Tended l before after r v e id p there =
    let m = l.peer.manager in
    let (linked, gone, others) =
      remove_connection-IsLinked m v.linked r.conn_id v.entries_sane v.index_sane in
    elim (ℕ_discrete id r.conn_id) [
      | yes same ↦ absurd (
          ground (
            arith,
            gone,
            subst (λ i. remote_at (remove_connection r.conn_id m) i ≡ some p) same there,
          ))
      | no other ↦ elim (v.tended id p (sym (others id other) ∙ there)) [
        | inl reads ↦ inl reads
        | inr ends ↦ elim (Tends-middle id p before after r (subst (Tends id p) e ends)) [
          | inl this ↦ absurd (other (sym this.0))
          | inr that ↦ inr that
        ]
      ]
    ]

pub remove_connection-locks :
    (id : ℕ) (m : ConnectionManager)
    → ((remove_connection id m).entries_poisoned ≡ m.entries_poisoned)
      × ((remove_connection id m).index_poisoned ≡ m.index_poisoned)
unfolding remove_connection unlink
remove_connection-locks id m = ground arith

module _ (l : Links) (v : IsTended l) where
  pub announce-IsTended :
      (before after : List PeerEvent) (e : PeerEvent)
      → l.announcing ≡ before ++ (e ∷ after)
      → IsTended (record l { announcing = before ++ after; peer = emit (e ∷ []) l.peer })
  unfolding emit
  announce-IsTended before after e f = record {
    linked = v.linked;
    entries_sane = v.entries_sane;
    index_sane = v.index_sane;
    tended = v.tended;
    counted = λ p. omega (
      arith,
      v.counted p,
      ap (news p) f,
      ap (losses p) f,
      v.quiet p,
      news-middle p before after e,
      losses-middle p before after e,
      news-append p l.peer.event_tx (e ∷ []),
      losses-append p l.peer.event_tx (e ∷ []),
    );
    quiet = λ p. omega (arith, v.quiet p, ap (losses p) f, losses-middle p before after e);
  }

  pub report-IsTended :
      (before after : List ReadLoop) (r : ReadLoop) (es : List PeerEvent)
      → l.readers ≡ before ++ (r ∷ after)
      → start_read_loop r.peer_id r.reader.stream ≡ some es
      → IsTended
          (record l { readers = before ++ after; ending = r ∷ l.ending; peer = emit es l.peer })
  unfolding emit Tends
  report-IsTended before after r es f ran = record {
    linked = v.linked;
    entries_sane = v.entries_sane;
    index_sane = v.index_sane;
    tended = λ id p there. elim (v.tended id p there) [
      | inr ends ↦ inr (inr ends)
      | inl reads ↦ elim (Tends-middle id p before after r (subst (Tends id p) f reads)) [
        | inl this ↦ inr (inl this)
        | inr that ↦ inl that
      ]
    ];
    counted = λ p.
        let (no_news, one_loss) = start_read_loop-counts p r.peer_id r.reader.stream es ran in
        omega (
          arith,
          v.counted p,
          no_news,
          one_loss,
          ap (held p) f,
          held-middle p before after r,
          news-append p l.peer.event_tx es,
          losses-append p l.peer.event_tx es,
        );
    quiet = v.quiet;
  }

  pub remove-IsTended :
      (before after : List ReadLoop) (r : ReadLoop)
      → l.ending ≡ before ++ (r ∷ after)
      → IsTended (record l {
        ending = before ++ after;
        peer = record l.peer { manager = remove_connection r.conn_id l.peer.manager };
      })
  remove-IsTended before after r f =
      let m = l.peer.manager in
      let locks = remove_connection-locks r.conn_id m in
      record {
        linked = (remove_connection-IsLinked m v.linked r.conn_id v.entries_sane v.index_sane).0;
        entries_sane = locks.0 ∙ v.entries_sane;
        index_sane = locks.1 ∙ v.index_sane;
        tended = remove-Tended l before after r v f;
        counted = v.counted;
        quiet = v.quiet;
      }
