-- ===== src/Peer/Node/Tended/Counts.antt =====
-- src/peer: counting the connections that were reported, and those that are read from.
use parsip.Base.{
  ℕ, suc, length, ◌+◌, ◌≡◌, refl, ap, List, [], ◌∷◌, ◌++◌, some, Option-cases, sym, ◌∙◌, ◌⊎◌, inl,
  inr, ite, arith,
}
use parsip.Io.{Input}
use parsip.Identity.{PeerId, PeerId-discrete}
use parsip.Protocol.{Message}
use parsip.Peer.{PeerEvent, new_connection, disconnected}
use parsip.Peer.Register.{ReadLoop}
use parsip.Connection.Reader.{events, read_loop, start_read_loop}

abbrev one : PeerId → PeerId → ℕ
one q p = ite (PeerId-discrete q p) 1 0

-- How often a connection to the peer is reported, and the end of one.
unfoldable pub news : PeerId → List PeerEvent → ℕ
news p [] = 0
news p (new_connection q ∷ es) = one q p + news p es
news p (_ ∷ es) = news p es

unfoldable pub losses : PeerId → List PeerEvent → ℕ
losses p [] = 0
losses p (disconnected q ∷ es) = one q p + losses p es
losses p (_ ∷ es) = losses p es

-- How many of the threads read from the peer.
unfoldable pub held : PeerId → List ReadLoop → ℕ
held p [] = 0
held p (r ∷ rs) = one r.peer_id p + held p rs

-- One of the threads has the connection under the number, to the peer.
unfoldable pub Tends : ℕ → PeerId → List ReadLoop → Type 0
Tends id p [] = ⊥
Tends id p (r ∷ rs) = ((r.conn_id ≡ id) × (r.peer_id ≡ p)) ⊎ Tends id p rs

module _ (p : PeerId) where
  pub news-append : (xs ys : List PeerEvent) → news p (xs ++ ys) ≡ news p xs + news p ys
  unfolding news
  news-append [] ys = omega arith
  news-append (new_connection q ∷ xs) ys = omega (arith, news-append xs ys)
  news-append (_ ∷ xs) ys = news-append xs ys

  pub losses-append : (xs ys : List PeerEvent) → losses p (xs ++ ys) ≡ losses p xs + losses p ys
  unfolding losses
  losses-append [] ys = omega arith
  losses-append (disconnected q ∷ xs) ys = omega (arith, losses-append xs ys)
  losses-append (_ ∷ xs) ys = losses-append xs ys

  pub news-middle :
      (xs ys : List PeerEvent) (e : PeerEvent)
      → news p (xs ++ (e ∷ ys)) ≡ news p (e ∷ []) + news p (xs ++ ys)
  news-middle xs ys e =
      omega (arith, news-append xs (e ∷ ys), news-append (e ∷ []) ys, news-append xs ys)

  pub losses-middle :
      (xs ys : List PeerEvent) (e : PeerEvent)
      → losses p (xs ++ (e ∷ ys)) ≡ losses p (e ∷ []) + losses p (xs ++ ys)
  losses-middle xs ys e =
      omega (arith, losses-append xs (e ∷ ys), losses-append (e ∷ []) ys, losses-append xs ys)

  pub held-middle :
      (xs ys : List ReadLoop) (r : ReadLoop)
      → held p (xs ++ (r ∷ ys)) ≡ one r.peer_id p + held p (xs ++ ys)
  unfolding held
  held-middle [] ys r = refl
  held-middle (x ∷ xs) ys r = omega (arith, held-middle xs ys r)

module _ (id : ℕ) (p : PeerId) where
  -- A thread that is taken out of the list is the one that has the connection, or another one is.
  pub Tends-middle :
      (xs ys : List ReadLoop) (r : ReadLoop)
      → Tends id p (xs ++ (r ∷ ys))
      → ((r.conn_id ≡ id) × (r.peer_id ≡ p)) ⊎ Tends id p (xs ++ ys)
  unfolding Tends
  Tends-middle [] ys r t = t
  Tends-middle (x ∷ xs) ys r (inl here) = inr (inl here)
  Tends-middle (x ∷ xs) ys r (inr t) = elim (Tends-middle xs ys r t) [
    | inl this ↦ inl this
    | inr other ↦ inr (inr other)
  ]

events-news : (p q : PeerId) (ms : List Message) → news p (events q ms) ≡ 0
unfolding news
events-news p q [] = refl
events-news p q (m ∷ ms) = events-news p q ms

events-losses : (p q : PeerId) (ms : List Message) → losses p (events q ms) ≡ one q p
unfolding losses
events-losses p q [] = omega arith
events-losses p q (m ∷ ms) = events-losses p q ms

-- A reader reports no connection, and the end of one once.
pub start_read_loop-counts :
    (p q : PeerId) (s : Input) (es : List PeerEvent)
    → start_read_loop q s ≡ some es
    → (news p es ≡ 0) × (losses p es ≡ one q p)
unfolding start_read_loop
start_read_loop-counts p q s es e = elim (Option-cases (read_loop (suc (length s.bytes)) s)) [
  | inl f ↦ absurd (ground (arith, e, f))
  | inr (ms, f) ↦
      let same : events q ms ≡ es = ground (arith, e, f) in
      (ap (news p) (sym same) ∙ events-news p q ms, ap (losses p) (sym same) ∙ events-losses p q ms)
]
