-- ===== src/Peer/Register/Cases.antt =====
-- src/peer/acceptor.rs: the two ends that registering a stream can come to.
use parsip.Base.{◌≡◌, ◌≢◌, List, ℕ, some, Option-cases, sym, subst, inl, inr, arith}
use mathlib.Core.Logic.{if_pos, if_neg}
use parsip.Io.{Error, Result, ok, err, Input, Output}
use parsip.Control.{SocketAddr}
use parsip.Identity.{PeerId, PeerId-discrete}
use parsip.Connection.{Direction}
use parsip.Connection.Open as Connection
use parsip.Connection.Open.{ConnectionReader, Socket, new_link, new_reader}
use parsip.Connection.Handshake.{Crypto, Identity, perform_handshake}
use parsip.ConnectionManager.{ConnectionManager}
use parsip.Peer.Register.{Registered, rejected, insert_link, after_handshake, register_connection}

module _ {κ} (my_id : PeerId) (direction : Direction) (socket : Socket) (remote_addr : SocketAddr)
    (m : ConnectionManager) (P : Registered → Type κ) (failed : (e : Error) → P (rejected e m))
    (linked : (their_id : PeerId) (s : Input)
      → their_id ≢ my_id
      → P (
          insert_link my_id their_id
            (new_link their_id direction)
            (new_reader socket remote_addr s)
            m)) where
  after_handshake-both :
      (theirs : Result (PeerId × Input) Error)
      → P (after_handshake my_id direction socket remote_addr theirs m)
  unfolding after_handshake Connection.new
  after_handshake-both (err e) = failed e
  after_handshake-both (ok (their_id, s)) =
      let opened : Registered = elim (Connection.new socket s remote_addr their_id direction) [
        | err e ↦ rejected e m
        | ok (connection, reader) ↦ insert_link my_id their_id connection reader m
      ] in
      elim (PeerId-discrete their_id my_id) [
        | yes same ↦ subst P (sym (if_pos (PeerId-discrete their_id my_id) same _ _)) (failed _)
        | no ne ↦
            let it : P opened = elim (Option-cases socket.cloned) [
              | inl e ↦
                  let same : opened
                      ≡ insert_link my_id their_id (new_link their_id direction)
                          (new_reader socket remote_addr s) m =
                    ground (arith, e) in
                  subst P (sym same) (linked their_id s ne)
              | inr (x, e) ↦
                  let same : opened ≡ rejected x m = ground (arith, e) in
                  subst P (sym same) (failed x)
            ] in
            subst P (sym (if_neg (PeerId-discrete their_id my_id) ne _ _)) it
      ]

-- What holds of a refusal and of a new connection holds of every stream that is registered.
pub register_connection-both {κ} :
    (c : Crypto) (identity : Identity) (my_nonce : List ℕ) (direction : Direction) (socket : Socket)
    (remote_addr : SocketAddr) (s : Input) (o o' : Output) (m : ConnectionManager) (x : Registered)
    (P : Registered → Type κ)
    → ((e : Error) → P (rejected e m))
    → ((their_id : PeerId) (s : Input)
        → their_id ≢ identity.peer_id
        → P (
            insert_link identity.peer_id their_id
              (new_link their_id direction)
              (new_reader socket remote_addr s)
              m))
    → register_connection c identity my_nonce direction socket remote_addr s o m ≡ some (x, o')
    → P x
unfolding register_connection
register_connection-both c identity my_nonce direction socket remote_addr s o o' m x P failed linked
      e =
    let my_id = identity.peer_id in
    elim (Option-cases (perform_handshake c identity my_nonce s o)) [
      | inl f ↦ absurd (ground (arith, e, f))
      | inr ((theirs, o''), f) ↦
          let same : after_handshake my_id direction socket remote_addr theirs m ≡ x =
            ground (arith, e, f) in
          subst P same
            (after_handshake-both my_id direction socket remote_addr m P failed linked theirs)
    ]
