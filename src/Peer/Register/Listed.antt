-- ===== src/Peer/Register/Listed.antt =====
-- src/peer/acceptor.rs: what stands in the table after a stream has been registered.
use parsip.Base.{
  ℕ, ◌≡◌, ◌≢◌, refl, List, [], ◌∷◌, none, some, Option-both, if-cases, sym, subst, ◌⊎◌, inl, inr,
  arith,
}
use parsip.Io.{Error, Result, ok, err, Input, Output}
use parsip.Map.{lookup, lookup-insert, nat_key}
use parsip.Identity.{PeerId, peer_key}
use parsip.Connection.{Connection, Direction}
use parsip.Connection.Handshake.{Crypto, Identity}
use parsip.ConnectionManager.{
  ConnectionManager, established, insert_connection, insert_locked, link, reserve_id, keep_new,
}
use parsip.Connection.Open.{Socket, new_link, new_reader}
use parsip.Control.{SocketAddr}
use parsip.Peer.{new_connection}
use parsip.Peer.Register.Cases.{register_connection-both}
use parsip.Peer.Register.{Registered, rejected, insert_link, register_connection}

-- The table as it was, but for the number that the next connection gets.
SameTable : ConnectionManager → ConnectionManager → Type 0
SameTable m m' = (m'.entries ≡ m.entries) × (m'.peer_index ≡ m.peer_index)

-- The connection stands in the table under the number, and the peer's index leads there.
IsListed : ℕ → Connection → ConnectionManager → Type 0
IsListed conn_id connection m =
    (lookup conn_id m.entries ≡ some (record { connection = connection; state = established }))
    × (lookup connection.remote_peer_id m.peer_index ≡ some conn_id)

link-IsListed :
    (conn_id : ℕ) (connection : Connection) (m : ConnectionManager)
    → IsListed conn_id connection (link conn_id connection m)
unfolding IsListed link
link-IsListed conn_id connection m = (
  ground (
    arith,
    lookup-insert conn_id conn_id (record { connection = connection; state = established })
        m.entries,
  ),
  ground (
    arith,
    lookup-insert connection.remote_peer_id connection.remote_peer_id conn_id m.peer_index,
  ),
)

-- Either nothing is inserted, or the connection.
Inserts : Connection → ConnectionManager → Result ℕ Error × ConnectionManager → Type 0
unfolding SameTable IsListed
Inserts connection m (r, m') =
    ((e : Error) × (r ≡ err e) × SameTable m m')
    ⊎ ((conn_id : ℕ) × (r ≡ ok conn_id) × IsListed conn_id connection m')

insert_locked-Inserts :
    (conn_id : ℕ) (connection : Connection) (my_id : PeerId) (m : ConnectionManager)
    → Inserts connection m (insert_locked conn_id connection my_id m)
unfolding insert_locked Inserts SameTable
insert_locked-Inserts conn_id connection my_id m =
    let P = Inserts connection m in
    let linked : (m' : ConnectionManager) → P (ok conn_id, link conn_id connection m') =
      λ m'. inr (conn_id, refl, link-IsListed conn_id connection m') in
    Option-both P (lookup connection.remote_peer_id m.peer_index) _ _ (linked m) (λ old_id.
      Option-both P (lookup old_id m.entries) _ _ (linked m) (λ old.
        if-cases P (keep_new connection.direction my_id connection.remote_peer_id) _ _ (linked _)
          (inl (_, refl, (refl, refl)))))

insert_connection-Inserts :
    (connection : Connection) (my_id : PeerId) (m : ConnectionManager)
    → Inserts connection m (insert_connection connection my_id m)
unfolding insert_connection Inserts SameTable reserve_id
insert_connection-Inserts connection my_id m =
    let P = Inserts connection m in
    if-cases P m.entries_poisoned _ _ (inl (_, refl, (refl, refl))) (
      if-cases P m.index_poisoned _ _ (inl (_, refl, (refl, refl)))
        (insert_locked-Inserts m.next_conn_id connection my_id (reserve_id m).1))

-- What registering a stream has done: it failed, and the table is as it was, nothing is reported and
-- nothing is read; or the connection to a peer other than the node itself stands in the table, the
-- peer is reported once, and a thread reads from the stream and will remove this connection.
unfoldable pub IsRegistered :
    PeerId → Direction → Socket → SocketAddr → ConnectionManager → Registered → Type 0
unfolding SameTable IsListed
IsRegistered my_id direction socket remote_addr m x =
    ((e : Error) × (x.result ≡ err e) × SameTable m x.manager × (x.events ≡ []) × (x.reader ≡ none))
    ⊎ ((their_id : PeerId) × (conn_id : ℕ) × (s : Input) × (x.result ≡ ok their_id)
        × (their_id ≢ my_id)
        × IsListed conn_id (new_link their_id direction) x.manager
        × (x.events ≡ new_connection their_id ∷ [])
        × (x.reader
            ≡ some (record {
              conn_id = conn_id;
              peer_id = their_id;
              reader = new_reader socket remote_addr s;
            })))

module _ (my_id : PeerId) (direction : Direction) (socket : Socket) (remote_addr : SocketAddr)
    (m : ConnectionManager) where
  insert_link-IsRegistered :
      (their_id : PeerId) (s : Input)
      → their_id ≢ my_id
      → IsRegistered my_id direction socket remote_addr m (
          insert_link my_id their_id
            (new_link their_id direction)
            (new_reader socket remote_addr s)
            m)
  unfolding insert_link IsRegistered Inserts
  insert_link-IsRegistered their_id s ne =
      let link = new_link their_id direction in
      let reader = new_reader socket remote_addr s in
      let m' = (insert_connection link my_id m).1 in
      let P = IsRegistered my_id direction socket remote_addr m in
      elim (insert_connection-Inserts link my_id m) [
        | inl (e, r, same) ↦
            let it : insert_link my_id their_id link reader m ≡ rejected e m' = ground (arith, r) in
            subst P (sym it) (inl (e, refl, same, refl, refl))
        | inr (conn_id, r, listed) ↦
            let it : insert_link my_id their_id link reader m ≡ record {
              result = ok their_id;
              manager = m';
              events = new_connection their_id ∷ [];
              reader = some (record { conn_id = conn_id; peer_id = their_id; reader = reader });
            } =
              ground (arith, r) in
            subst P (sym it) (inr (their_id, conn_id, s, refl, ne, listed, refl, refl))
      ]

-- A stream that is registered, at either end, leads to one of two things: a failure, after which the
-- table is as it was but for the next number, no event is sent and no reader runs; or the connection
-- to a peer other than the node itself, which stands in the table as the one of this peer, is reported
-- once, and has a reader that removes it in the end.
pub register_connection-IsRegistered :
    (c : Crypto) (identity : Identity) (my_nonce : List ℕ) (direction : Direction) (socket : Socket)
    (remote_addr : SocketAddr) (s : Input) (o o' : Output) (m : ConnectionManager) (x : Registered)
    → register_connection c identity my_nonce direction socket remote_addr s o m ≡ some (x, o')
    → IsRegistered identity.peer_id direction socket remote_addr m x
unfolding IsRegistered SameTable rejected
register_connection-IsRegistered c identity my_nonce direction socket remote_addr s o o' m x e =
    let my_id = identity.peer_id in
    register_connection-both c identity my_nonce direction socket remote_addr s o o' m x
      (IsRegistered my_id direction socket remote_addr m)
      (λ e. inl (e, refl, (refl, refl), refl, refl))
      (insert_link-IsRegistered my_id direction socket remote_addr m) e
