-- ===== src/Daemon/Start/Begun.antt =====
-- src/daemon/mod.rs: the state of a daemon from its start on.
use parsip.Base.{
  sym, ℕ, ◌+◌, ◌<◌, ◌^◌, ◌≡◌, refl, subst, ap, ◌∙◌, List, [], ◌∷◌, Option, none, some, Option-cases,
  Bool-cases, some_injective, inl, inr, All, arith,
}
use parsip.Io.{Result-cases, ok}
use parsip.Map.{HashMap, lookup, nat_key}
use parsip.Identity.{peer_key}
use parsip.Config.{Config}
use parsip.Connection.Handshake.{Crypto}
use parsip.ConnectionManager.Index.{IsLinked, new-IsLinked}
use parsip.AliasRegistry as Aliases
use parsip.AliasRegistry.Named.{new-IsRegistry}
use parsip.Disk.{Disk}
use parsip.Protocol.{ResourceId, ResourceInfo}
use parsip.RequestTracker as Requests
use parsip.Resource.Keys.{resource_key}
use parsip.Resource.Store as Store
use parsip.Resource.Store.{Digests, DirEntry, LocalResourceStore, hash_file, hash_entries}
use parsip.Resource.Store.Content.{IsIndex, hash_file-IsIndex}
use parsip.Resource.Transfer as Transfers
use parsip.Resource.Transfer.Keyed.{IsKeyed}
use parsip.Identity.Load.{load_or_generate}
use parsip.Peer.Node as Peer
use parsip.Peer.Node.{Peer}
use parsip.EventHandler.{DaemonContext}
use parsip.EventHandler.Discover.{IsListed}
use parsip.EventHandler.Dispatch.Served.{IsFresh}
use parsip.EventHandler.Dispatch.Invariant.{IsDaemon}
use parsip.EventHandler.Dispatch.Invariant.Requests.{HasRoom}
use parsip.EventHandler.Dispatch.Invariant.Loop.{Turn, take_turns, total, take_turns-IsDaemon}
use parsip.Daemon.Start.{
  Effect, StartAnswers, Started, any_address, first_context, serve, bind_control, open_control, run,
  loads_identity, accepts_on,
}

hash_entries-IsIndex :
    (h : Digests) (entries : List DirEntry)
    (index index' : HashMap ResourceId (List ℕ × ResourceInfo))
    → IsIndex index
    → hash_entries h entries index ≡ some index'
    → IsIndex index'
unfolding hash_entries
hash_entries-IsIndex h [] index index' v e = subst IsIndex (some_injective index index' e) v
hash_entries-IsIndex h (entry ∷ entries) index index' v e = elim (Bool-cases entry.is_file) [
  | inr f ↦ hash_entries-IsIndex h entries index index' v (ground (arith, e, f))
  | inl f ↦ elim (Option-cases (hash_file h entry.path entry.opened index)) [
    | inl g ↦ absurd (ground (arith, e, f, g))
    | inr ((r, next), g) ↦
        hash_entries-IsIndex h entries next index'
          (hash_file-IsIndex h entry.path entry.opened index next r v g) (ground (arith, e, f, g))
  ]
]

new-IsIndex :
    (h : Digests) (dir : List ℕ) (entries : Option (List DirEntry)) (store : LocalResourceStore)
    → Store.new h dir entries ≡ some store
    → IsIndex store.index
unfolding Store.new IsIndex
new-IsIndex h dir none store e =
    subst (λ (s : LocalResourceStore). IsIndex s.index) (some_injective _ store e) tt
new-IsIndex h dir (some entries) store e = elim (Option-cases (hash_entries h entries [])) [
  | inl f ↦ absurd (ground (arith, e, f))
  | inr (index, f) ↦
      let same : index ≡ store.index = ground (arith, e, f) in
      subst IsIndex same (hash_entries-IsIndex h entries [] index tt f)
]

new-IsListed : IsListed Aliases.new
unfolding Aliases.new lookup
new-IsListed = record { registry = new-IsRegistry; listed = λ p i e. ground (arith, e) }

-- The loop over the events begins with nothing but what is shared.
first_context-IsDaemon :
    (config : Config) (peer : Peer) (store : LocalResourceStore) (d : Disk)
    → IsLinked peer.manager
    → IsIndex store.index
    → IsDaemon (first_context config peer store d)
unfolding first_context Transfers.new Requests.new IsKeyed IsFresh lookup
first_context-IsDaemon config peer store d linked index = record {
  names = new-IsListed;
  keyed = tt;
  index = index;
  fresh = λ id le. refl;
  linked = linked;
}

first_context-HasRoom :
    (n : ℕ) (config : Config) (peer : Peer) (store : LocalResourceStore) (d : Disk)
    → 1 + n < 2 ^ 32
    → HasRoom n (first_context config peer store d)
unfolding first_context Requests.new Aliases.new
first_context-HasRoom n config peer store d h = record { peers = h; resources = h; requests = h }

open_control-result :
    (w : StartAnswers) (ctx ctx' : DaemonContext) (effects : List Effect)
    → (open_control w ctx effects).result ≡ ok ctx'
    → ctx ≡ ctx'
unfolding open_control bind_control serve
open_control-result w ctx ctx' effects e = ground (arith, e)

-- Where the loop over the events begins, it is in its first state, over a new store.
pub run-first :
    (c : Crypto) (w : StartAnswers) (config : Config) (d d' : Disk) (s : Started)
    (ctx : DaemonContext)
    → run c w config d ≡ some (s, d')
    → s.result ≡ ok ctx
    → (peer : Peer) × (store : LocalResourceStore) × (Store.new w.digests config.shared_dir
          w.shared_files
        ≡ some store)
      × IsLinked peer.manager
      × (first_context config peer store d' ≡ ctx)
unfolding run Peer.new
run-first c w config d d' s ctx e started =
    let (identity, d2) =
      load_or_generate c w.env.home w.identity_refused w.seed w.identity_written d in
    let peer = Peer.new identity (any_address config.listen_port) in
    elim (Result-cases (Peer.listen w.listening peer)) [
      | inr (x, f) ↦ absurd (ground (arith, e, f, started))
      | inl (l, f) ↦ elim (Option-cases (Store.new w.digests config.shared_dir w.shared_files)) [
        | inl g ↦ absurd (ground (arith, e, f, g))
        | inr (store, g) ↦
            let first = first_context config peer store d2 in
            let before = loads_identity ∷ accepts_on l ∷ [] in
            let began : open_control w first before ≡ s = ground (arith, e, f, g) in
            let disk : d2 ≡ d' = ground (arith, e, f, g) in
            let same : first ≡ ctx =
              open_control-result w first ctx before
                (ap (λ (x : Started). x.result) began ∙ started) in
            (peer, store, g, new-IsLinked, ap (first_context config peer store) (sym disk) ∙ same)
      ]
    ]

-- The state in which the loop over the events begins is well-formed, and stays so over any events that
-- the daemon survives, while other threads change the table of connections in between and leave index and table in step, as long
-- as what the events may use up of each kind of numbers and names is less than 2 ^ 32 - 1.
pub run-IsDaemon :
    (c : Crypto) (w : StartAnswers) (config : Config) (d d' : Disk) (s : Started)
    (turns : List Turn) (ctx ctx' : DaemonContext)
    → run c w config d ≡ some (s, d')
    → s.result ≡ ok ctx
    → All (λ t. IsLinked t.0) turns
    → 1 + total turns < 2 ^ 32
    → take_turns turns ctx ≡ some ctx'
    → IsDaemon ctx × IsDaemon ctx'
run-IsDaemon c w config d d' s turns ctx ctx' e started linked room served =
    let (peer, store, g, tables, same) = run-first c w config d d' s ctx e started in
    let first = first_context config peer store d' in
    let v : IsDaemon first =
      first_context-IsDaemon config peer store d' tables
        (new-IsIndex w.digests config.shared_dir w.shared_files store g) in
    let h : HasRoom (total turns) first =
      first_context-HasRoom (total turns) config peer store d' room in
    (
      subst IsDaemon same v,
      take_turns-IsDaemon turns ctx ctx' (subst (HasRoom (total turns)) same h) linked
          (subst IsDaemon same v) served,
    )
