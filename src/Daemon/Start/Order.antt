-- ===== src/Daemon/Start/Order.antt =====
-- src/daemon/mod.rs: what the start of the daemon does, in which order, and where it ends.
use parsip.Base.{
  ◌≡◌, refl, sym, subst, ap, ◌∙◌, List, [], ◌∷◌, ◌++◌, append_assoc, append-nil, Option, none, some,
  ◌⊎◌, inl, inr, concat, map, if◌then◌else◌, arith,
}
use parsip.Io.{Result-cases, Error, ok}
use parsip.Config.{Config, control_socket_path}
use parsip.Connection.Handshake.{Crypto}
use parsip.Disk.{Disk}
use parsip.Discovery.{Node}
use parsip.EventHandler.{DaemonContext}
use parsip.Peer.Node as Peer
use parsip.Daemon.Start.{
  Effect, StartAnswers, Started, loads_identity, accepts_on, removes_socket, prepares_parent,
  binds_socket, restricts_socket, serves_clients, any_address, run,
}
use parsip.Daemon.Start.Script.{
  ScriptStep, follow, script, discovering, node_of, outcome, error_of, run-follow,
}

-- The first call that is refused.
unfoldable pub first_refusal : List (Option Error) → Option Error
first_refusal [] = none
first_refusal (some e ∷ more) = some e
first_refusal (none ∷ more) = first_refusal more

-- The calls that may end the start, in order.
abbrev pub refusals : StartAnswers → List (Option Error)
refusals w =
    w.listening.created
    ∷ w.listening.reused
    ∷ w.listening.bound
    ∷ w.listening.listening
    ∷ (if w.socket_exists then w.socket_removed else none)
    ∷ w.socket_bound
    ∷ w.socket_restricted
    ∷ []

-- What the start does before it serves clients, if nothing is refused.
abbrev pub preparations : StartAnswers → Config → Node → List Effect
preparations w config node =
    let path = control_socket_path w.env in
    let listener : Peer.TcpListener = record {
      address = any_address config.listen_port;
      backlog = 128;
    } in
    let stale : List Effect = if w.socket_exists then removes_socket path ∷ [] else [] in
    (loads_identity ∷ accepts_on listener ∷ [])
    ++ (stale
        ++ ((prepares_parent path ∷ binds_socket path ∷ restricts_socket path ∷ [])
            ++ discovering w node))

-- The start goes through, and ends with serving clients; or it ends early, with an error, and has done
-- no more than a first part of what comes before that.
unfoldable pub IsOrdered : List Effect → List Effect × Option Error → Type 0
IsOrdered before (done, refusal) =
    ((refusal ≡ none) × (done ≡ before ++ (serves_clients ∷ [])))
    ⊎ ((e : Error) × (left : List Effect) × (refusal ≡ some e) × (done ++ left ≡ before))

follow-IsOrdered :
    (steps : List ScriptStep)
    → IsOrdered
        (concat (map (λ s. s.1) steps))
        (follow (steps ++ ((none, serves_clients ∷ []) ∷ [])))
unfolding follow IsOrdered concat
follow-IsOrdered [] = inl (refl, refl)
follow-IsOrdered ((some e, effects) ∷ steps) = inr (e, _, refl, refl)
follow-IsOrdered ((none, effects) ∷ steps) =
    let all = concat (map (λ (s : ScriptStep). s.1) steps) in
    elim (follow-IsOrdered steps) [
      | inl (through, done) ↦
          inl (through, ap (effects ++◌) done ∙ sym (append_assoc effects all _))
      | inr (e, left, refused, done) ↦
          inr (e, left, refused, append_assoc effects _ left ∙ ap (effects ++◌) done)
    ]

follow-first_refusal :
    (steps : List ScriptStep) → (follow steps).1 ≡ first_refusal (map (λ s. s.0) steps)
unfolding follow first_refusal
follow-first_refusal [] = refl
follow-first_refusal ((some e, effects) ∷ steps) = refl
follow-first_refusal ((none, effects) ∷ steps) = follow-first_refusal steps

-- The script but for its last step.
abbrev steps : StartAnswers → Config → Node → List ScriptStep
steps w config node =
    let path = control_socket_path w.env in
    let listener : Peer.TcpListener = record {
      address = any_address config.listen_port;
      backlog = 128;
    } in
    (none, loads_identity ∷ [])
    ∷ (w.listening.created, [])
    ∷ (w.listening.reused, [])
    ∷ (w.listening.bound, [])
    ∷ (w.listening.listening, accepts_on listener ∷ [])
    ∷ (
      if w.socket_exists then w.socket_removed else none,
      if w.socket_exists then removes_socket path ∷ [] else [],
    )
    ∷ (none, prepares_parent path ∷ [])
    ∷ (w.socket_bound, binds_socket path ∷ [])
    ∷ (w.socket_restricted, restricts_socket path ∷ [])
    ∷ (none, discovering w node)
    ∷ []

steps-preparations :
    (w : StartAnswers) (config : Config) (node : Node)
    → concat (map (λ s. s.1) (steps w config node)) ≡ preparations w config node
unfolding concat
steps-preparations w config node =
    let path = control_socket_path w.env in
    let listener : Peer.TcpListener = record {
      address = any_address config.listen_port;
      backlog = 128;
    } in
    let stale : List Effect = if w.socket_exists then removes_socket path ∷ [] else [] in
    let control : List Effect → List Effect =
      λ es. prepares_parent path ∷ binds_socket path ∷ restricts_socket path ∷ es in
    ap (λ es. loads_identity ∷ accepts_on listener ∷ (stale ++ control es))
      (append-nil (discovering w node))

script-refusals :
    (w : StartAnswers) (config : Config) (node : Node)
    → first_refusal (map (λ s. s.0) (script w config node)) ≡ first_refusal (refusals w)
unfolding first_refusal
script-refusals w config node = ground arith

-- However the system answers, and unless a file of the shared directory has no name: the start of the
-- daemon ends with the first call that is refused, of the four for the socket of the peers, the removal
-- of a control socket that is left from before, the binding of the new one and the restriction of
-- its permissions, in this order, or goes through if none is. If it goes through, it has loaded the
-- identity, listened for peers, removed the old control socket, if there was one, prepared its
-- directory, bound and restricted the new one, started discovery, if the system let it, and
-- then begun to serve clients, in this order; otherwise it has done a first part of this, and serves
-- nobody.
pub run-IsOrdered :
    (c : Crypto) (w : StartAnswers) (config : Config) (d d' : Disk) (s : Started)
    → run c w config d ≡ some (s, d')
    → IsOrdered (preparations w config (node_of w c config d)) (outcome s)
      × ((outcome s).1 ≡ first_refusal (refusals w))
run-IsOrdered c w config d d' s e =
    let node = node_of w c config d in
    let same = run-follow c w config d d' s e in
    (
      subst (λ es. IsOrdered es (outcome s)) (steps-preparations w config node)
          (subst (IsOrdered _) (sym same) (follow-IsOrdered (steps w config node))),
      ap (λ x. x.1) same
          ∙ follow-first_refusal (script w config node)
          ∙ script-refusals w config node,
    )

-- Where nothing is refused, the loop over the events begins.
pub run-goes_through :
    (c : Crypto) (w : StartAnswers) (config : Config) (d d' : Disk) (s : Started)
    → run c w config d ≡ some (s, d')
    → first_refusal (refusals w) ≡ none
    → (ctx : DaemonContext) × (s.result ≡ ok ctx)
unfolding error_of
run-goes_through c w config d d' s e calm = elim (Result-cases s.result) [
  | inl (ctx, f) ↦ (ctx, f)
  | inr (x, f) ↦
      let through : (outcome s).1 ≡ none = (run-IsOrdered c w config d d' s e).1 ∙ calm in
      absurd (ground (arith, f, through))
]
