-- ===== src/Discovery/Broadcast/Targets.antt =====
-- src/discovery/mod.rs: the addresses that a request goes to.
use parsip.Base.{
  ℕ, ◌≡◌, refl, sym, ap, List, [], ◌∷◌, ◌++◌, false, Bool-cases, Option, none, some, inl, inr, ◌==◌,
  if◌then◌else◌, length, arith, All, All-append, Among, ◌⊎◌, if-cases,
}
use parsip.Control.{IpAddr, v4, v6}
use parsip.Text.{text}
use parsip.Text.Strings.{bytes_eq, lines_from, trim}
use parsip.Discovery.Broadcast.{
  Ipv4Addr, limited_broadcast, contains, push_broadcast, scan_trie, fallback,
  collect_broadcast_addrs, named_address, or_else, is_loopback,
}

-- No address twice.
abbrev Distinct : List Ipv4Addr → Type 0
Distinct [] = Unit {0}
Distinct (x ∷ xs) = ¬ Among x xs × Distinct xs

-- The limited broadcast comes first, each address is the last one of a network of 256, and none
-- comes twice.
pub record IsTargets (addrs : List Ipv4Addr) : Type 0 where
  pub others : List Ipv4Addr
  pub limited_first : addrs ≡ limited_broadcast ∷ others
  pub all_broadcast : All (λ ip. ip.d ≡ 255) addrs
  pub distinct : Distinct addrs

contains-Among :
    (addrs : List Ipv4Addr) (ip : Ipv4Addr) → contains addrs ip ≡ false → ¬ Among ip addrs
unfolding contains
contains-Among [] ip e h = h
contains-Among (x ∷ xs) ip e (inl p) = ground (arith, e, p)
contains-Among (x ∷ xs) ip e (inr h) = contains-Among xs ip (ground (arith, e)) h

Among-last_only :
    (x ip : Ipv4Addr) (xs : List Ipv4Addr) → Among x (xs ++ (ip ∷ [])) → (ip ≡ x) ⊎ Among x xs
Among-last_only x ip [] (inl e) = inl e
Among-last_only x ip [] (inr h) = absurd h
Among-last_only x ip (y ∷ ys) (inl e) = inr (inl e)
Among-last_only x ip (y ∷ ys) (inr h) = elim (Among-last_only x ip ys h) [
  | inl e ↦ inl e
  | inr k ↦ inr (inr k)
]

Distinct-last :
    (ip : Ipv4Addr) (xs : List Ipv4Addr) → ¬ Among ip xs → Distinct xs → Distinct (xs ++ (ip ∷ []))
Distinct-last ip [] n d = (λ h. h, tt)
Distinct-last ip (x ∷ xs) n (apart, d) = (
  λ h. elim (Among-last_only x ip xs h) [ inl e ↦ n (inl (sym e)) | inr k ↦ apart k ],
  Distinct-last ip xs (λ k. n (inr k)) d,
)

push_broadcast-IsTargets :
    (local : Ipv4Addr) (addrs : List Ipv4Addr)
    → IsTargets addrs
    → IsTargets (push_broadcast local addrs)
unfolding push_broadcast
push_broadcast-IsTargets local addrs v =
    let ip = record local { d = 255 } in
    elim (Bool-cases (contains addrs ip)) [
      | inl e ↦ rw (push_broadcast, e) v
      | inr e ↦
          rw (push_broadcast, e)
            (record {
              others = v.others ++ (ip ∷ []);
              limited_first = ap (λ (xs : List Ipv4Addr). xs ++ (ip ∷ [])) v.limited_first;
              all_broadcast =
                  All-append (λ ip. ip.d ≡ 255) addrs (ip ∷ []) v.all_broadcast (refl, tt);
              distinct = Distinct-last ip addrs (contains-Among addrs ip e) v.distinct;
            })
    ]

push_if-IsTargets :
    (current : Option Ipv4Addr) (addrs : List Ipv4Addr)
    → IsTargets addrs
    → IsTargets (elim current [ none ↦ addrs | some local ↦ push_broadcast local addrs ])
push_if-IsTargets none addrs v = v
push_if-IsTargets (some local) addrs v = push_broadcast-IsTargets local addrs v

scan_trie-IsTargets :
    (lines : List (List ℕ)) (current : Option Ipv4Addr) (addrs : List Ipv4Addr)
    → IsTargets addrs
    → IsTargets (scan_trie lines current addrs)
unfolding scan_trie
scan_trie-IsTargets [] current addrs v = v
scan_trie-IsTargets (line ∷ lines) current addrs v = scan_trie-IsTargets lines _ _ (
    if-cases IsTargets (bytes_eq (trim line) (text "LOCAL")) _ addrs
      (push_if-IsTargets (or_else (named_address (trim line)) current) addrs v) v)

fallback-IsTargets :
    (route : Option IpAddr) (addrs : List Ipv4Addr)
    → IsTargets addrs
    → IsTargets (fallback route addrs)
unfolding fallback
fallback-IsTargets (some (v4 a b c d)) addrs v =
    let ip : Ipv4Addr = record { a = a; b = b; c = c; d = d } in
    if-cases IsTargets (is_loopback ip) addrs (push_broadcast ip addrs) v
      (push_broadcast-IsTargets ip addrs v)
fallback-IsTargets (some (v6 segments)) addrs v = v
fallback-IsTargets none addrs v = v

limited-IsTargets : IsTargets (limited_broadcast ∷ [])
limited-IsTargets = record {
  others = [];
  limited_first = refl;
  all_broadcast = (refl, tt);
  distinct = (λ h. h, tt);
}

-- Whatever the system says of its addresses: a request goes to the limited broadcast first, then
-- only to last addresses of networks of 256, and to no address twice.
pub collect_broadcast_addrs-IsTargets :
    (trie : Option (List ℕ)) (route : Option IpAddr)
    → IsTargets (collect_broadcast_addrs trie route)
unfolding collect_broadcast_addrs
collect_broadcast_addrs-IsTargets trie route = go trie
  where
    last :
        (addrs : List Ipv4Addr)
        → IsTargets addrs
        → IsTargets (if length addrs == 1 then fallback route addrs else addrs)
    last addrs v =
        if-cases IsTargets (length addrs == 1) (fallback route addrs) addrs
          (fallback-IsTargets route addrs v) v

    go : (trie : Option (List ℕ)) → IsTargets (collect_broadcast_addrs trie route)
    go none = last (limited_broadcast ∷ []) limited-IsTargets
    go (some entries) = last _ (
        scan_trie-IsTargets (lines_from [] entries) none (limited_broadcast ∷ []) limited-IsTargets)
