-- ===== src/Cli/Settings.antt =====
-- src/cli/mod.rs: what `parsip config` leaves for the next start.
use parsip.Base.{
  ℕ, ◌≡◌, refl, sym, subst, ap, ◌⊎◌, inl, inr, List, [], ◌∷◌, Option-cases, none, some, arith,
  Bool-cases, true, false,
}
use parsip.Text.{IsText, text}
use parsip.Text.Strings.{bytes_eq, bytes_eq_sound}
use parsip.Text.Parse.{parse_u16}
use parsip.Io.{ok, Result-cases}
use parsip.Disk.{Disk, written}
use parsip.Config.{Config, Toml, load, save}
use parsip.Config.Reload.{save-load}
use parsip.Cli.{Surroundings, Printed, out, set_key, set_config, run_config}

-- `toml` reads a configuration from the text that it prints for it.
abbrev pub IsRead : Toml → Config → Type 0
IsRead toml config =
    (content : List ℕ) × (toml.to_string config ≡ ok content)
    × IsText content
    × (toml.from_str content ≡ ok config)

-- The keys of `config set`, and what each one changes.
pub data Sets (val : List ℕ) (c : Config) : List ℕ → Config → Type 0 where
  sets_nickname : Sets val c (text "nickname") (record c { nickname = val })
  sets_shared : Sets val c (text "shared") (record c { shared_dir = val })
  sets_shared_dir : Sets val c (text "shared_dir") (record c { shared_dir = val })
  sets_downloads : Sets val c (text "downloads") (record c { downloads_dir = val })
  sets_downloads_dir : Sets val c (text "downloads_dir") (record c { downloads_dir = val })
  sets_port :
      (p : ℕ) → parse_u16 val ≡ some p → Sets val c (text "port") (record c { listen_port = p })
  sets_listen_port :
      (p : ℕ)
      → parse_u16 val ≡ some p
      → Sets val c (text "listen_port") (record c { listen_port = p })

module _ (key val : List ℕ) (c c' : Config) where
  -- The key is this word, and `changed` is what comes of it.
  called :
      (word : List ℕ) (changed : Config)
      → bytes_eq key word ≡ true
      → changed ≡ c'
      → Sets val c word changed
      → Sets val c key c'
  called word changed e same v =
      subst (λ k. Sets val c k c') (sym (bytes_eq_sound key word e))
        (subst (Sets val c word) same v)

  set_key-port :
      (bytes_eq key (text "nickname") ≡ false)
      → (bytes_eq key (text "shared") ≡ false)
      → (bytes_eq key (text "shared_dir") ≡ false)
      → (bytes_eq key (text "downloads") ≡ false)
      → (bytes_eq key (text "downloads_dir") ≡ false)
      → set_key key val c ≡ ok c'
      → Sets val c key c'
  unfolding set_key
  set_key-port n s t d x e = elim (Option-cases (parse_u16 val)) [
    | inl f ↦ absurd (ground (arith, e, n, s, t, d, x, f))
    | inr (p, f) ↦ elim (Bool-cases (bytes_eq key (text "port"))) [
      | inl k ↦ called (text "port") _ k (ground (arith, e, n, s, t, d, x, f, k)) (sets_port p f)
      | inr k ↦ elim (Bool-cases (bytes_eq key (text "listen_port"))) [
        | inl l ↦
            called (text "listen_port") _ l (ground (arith, e, n, s, t, d, x, f, k, l))
              (sets_listen_port p f)
        | inr l ↦ absurd (ground (arith, e, n, s, t, d, x, f, k, l))
      ]
    ]
  ]

  set_key-Sets : set_key key val c ≡ ok c' → Sets val c key c'
  unfolding set_key
  set_key-Sets e = elim (Bool-cases (bytes_eq key (text "nickname"))) [
    | inl n ↦ called (text "nickname") _ n (ground (arith, e, n)) sets_nickname
    | inr n ↦ elim (Bool-cases (bytes_eq key (text "shared"))) [
      | inl s ↦ called (text "shared") _ s (ground (arith, e, n, s)) sets_shared
      | inr s ↦ elim (Bool-cases (bytes_eq key (text "shared_dir"))) [
        | inl t ↦ called (text "shared_dir") _ t (ground (arith, e, n, s, t)) sets_shared_dir
        | inr t ↦ elim (Bool-cases (bytes_eq key (text "downloads"))) [
          | inl d ↦ called (text "downloads") _ d (ground (arith, e, n, s, t, d)) sets_downloads
          | inr d ↦ elim (Bool-cases (bytes_eq key (text "downloads_dir"))) [
            | inl x ↦
                called (text "downloads_dir") _ x (ground (arith, e, n, s, t, d, x))
                  sets_downloads_dir
            | inr x ↦ set_key-port n s t d x e
          ]
        ]
      ]
    ]
  ]

Sets-set_key : (key val : List ℕ) (c c' : Config) → Sets val c key c' → set_key key val c ≡ ok c'
unfolding set_key bytes_eq text
Sets-set_key key val c c' sets_nickname = refl
Sets-set_key key val c c' sets_shared = refl
Sets-set_key key val c c' sets_shared_dir = refl
Sets-set_key key val c c' sets_downloads = refl
Sets-set_key key val c c' sets_downloads_dir = refl
Sets-set_key key val c c' (sets_port p e) = ground (arith, e)
Sets-set_key key val c c' (sets_listen_port p e) = ground (arith, e)

-- The arguments ask for this configuration in place of the other one.
unfoldable pub Asks : List (List ℕ) → Config → Config → Type 0
Asks args config changed =
    (key val : List ℕ) × (rest : List (List ℕ)) × (args ≡ text "set" ∷ key ∷ val ∷ rest)
    × Sets val config key changed

-- What `config` prints and leaves: it sets a key, as it is asked to, and the next start finds it
-- so; or it is not asked to, and leaves the disk as it is.
unfoldable pub IsConfigured : Surroundings → List (List ℕ) → Disk → List Printed × Disk → Type 0
IsConfigured w args d (printed, d') =
    ((changed : Config) × Asks args (load w.toml w.env none d) changed
      × (load w.toml w.env none d' ≡ changed)
      × (printed ≡ out (text "Configuration updated.") ∷ []))
    ⊎ (¬ ((changed : Config) × Asks args (load w.toml w.env none d) changed)) × (d' ≡ d)

pub Asks-set_key :
    (action key val : List ℕ) (rest : List (List ℕ)) (config changed : Config)
    → Asks (action ∷ key ∷ val ∷ rest) config changed
    → (action ≡ text "set") × (set_key key val config ≡ ok changed)
unfolding Asks
Asks-set_key action key val rest config changed (key', val', rest', same, v) =
    let same_key : key' ≡ key = ground (arith, same) in
    let same_val : val' ≡ val = ground (arith, same) in
    let of_args : set_key key' val' config ≡ ok changed = Sets-set_key key' val' config changed v in
    (
      ground (arith, same),
      subst (λ x. set_key key x config ≡ ok changed) same_val
          (subst (λ x. set_key x val' config ≡ ok changed) same_key of_args),
    )

-- Only `set` asks for anything.
Asks-action :
    (action : List ℕ) (args : List (List ℕ)) (config changed : Config)
    → Asks (action ∷ args) config changed
    → action ≡ text "set"
unfolding Asks
Asks-action action args config changed (key, val, rest, same, v) = ground (arith, same)

Asks-nonempty : (config changed : Config) → Asks [] config changed → ⊥
unfolding Asks
Asks-nonempty config changed (key, val, rest, same, v) = absurd (ground (arith, same))

-- Nothing is asked for, and nothing is changed.
unasked :
    (w : Surroundings) (args : List (List ℕ)) (d : Disk) (after : List Printed × Disk)
    → ((changed : Config) → Asks args (load w.toml w.env none d) changed → ⊥)
    → after.1 ≡ d
    → IsConfigured w args d after
unfolding IsConfigured
unasked w args d after never same = inr ((λ (changed, asks). never changed asks), same)

not_set : (action : List ℕ) → bytes_eq action (text "set") ≡ false → action ≡ text "set" → ⊥
unfolding bytes_eq text
not_set action e same =
    let yes : bytes_eq action (text "set") ≡ true = ap (λ x. bytes_eq x (text "set")) same in
    absurd (ground (arith, e, yes))

set_not_show : (action : List ℕ) → action ≡ text "set" → bytes_eq action (text "show") ≡ false
unfolding bytes_eq text
set_not_show action same = ap (λ x. bytes_eq x (text "show")) same

module _ (w : Surroundings) (d : Disk) (created : w.created ≡ none) (a : w.answer ≡ written) where
  set_config-IsConfigured :
      (action : List ℕ) (args : List (List ℕ))
      → action ≡ text "set"
      → ((changed : Config)
          → Asks (action ∷ args) (load w.toml w.env none d) changed
          → IsRead w.toml changed)
      → IsConfigured w (action ∷ args) d (set_config w args (load w.toml w.env none d) d)
  unfolding set_config IsConfigured Asks
  set_config-IsConfigured action [] set reads =
      unasked w _ d _ (λ changed (key, val, rest, same, v). absurd (ground (arith, same))) refl
  set_config-IsConfigured action (key ∷ []) set reads =
      unasked w _ d _ (λ changed (k, val, rest, same, v). absurd (ground (arith, same))) refl
  set_config-IsConfigured action (key ∷ val ∷ rest) set reads =
      let config = load w.toml w.env none d in
      elim (Result-cases (set_key key val config)) [
        | inr (line, e) ↦
            unasked w _ d _
              (λ changed asks.
                absurd
                  (ground (arith, e, (Asks-set_key action key val rest config changed asks).1)))
              (ground (arith, e))
        | inl (changed, e) ↦
            let asks : Asks (action ∷ key ∷ val ∷ rest) config changed = (
              key,
              val,
              rest,
              ap (λ x. x ∷ key ∷ val ∷ rest) set,
              set_key-Sets key val config changed e,
            ) in
            let (content, prints, is_text, parses) = reads changed asks in
            let (saved, found) = save-load w.toml w.env changed content d prints is_text parses in
            let after = set_config w (key ∷ val ∷ rest) config d in
            let d' = (save w.toml w.env none written changed d).1 in
            let it : after ≡ (out (text "Configuration updated.") ∷ [], d') =
              ground (arith, e, created, a, saved) in
            subst (IsConfigured w (action ∷ key ∷ val ∷ rest) d) (sym it)
              (inl (changed, asks, found, refl))
      ]

  -- Where `toml` reads what it prints for a configuration asked for and the system refuses nothing: if the
  -- arguments of `parsip config` are `set`, a key and a value that it takes, the configuration in
  -- force with this key changed is the one that is loaded afterwards, and it says that it is updated;
  -- with all other arguments the disk stays as it is.
  pub run_config-IsConfigured :
      (args : List (List ℕ))
      → ((changed : Config) → Asks args (load w.toml w.env none d) changed → IsRead w.toml changed)
      → w.refused ≡ none
      → IsConfigured w args d (run_config w args d)
  unfolding run_config
  run_config-IsConfigured [] reads r =
      unasked w _ d _ (Asks-nonempty (load w.toml w.env none d)) refl
  run_config-IsConfigured (action ∷ args) reads r =
      let config = load w.toml w.env none d in
      elim (Bool-cases (bytes_eq action (text "set"))) [
        | inl e ↦
            let set = bytes_eq_sound action (text "set") e in
            let it : set_config w args config d ≡ run_config w (action ∷ args) d =
              ground (arith, e, r, set_not_show action set) in
            subst (IsConfigured w (action ∷ args) d) it
              (set_config-IsConfigured action args set reads)
        | inr e ↦
            unasked w _ d _
              (λ changed asks.
                absurd (not_set action e (Asks-action action args config changed asks)))
              (ground (arith, e))
      ]
