-- ===== src/Discovery/Broadcast.antt =====
-- src/discovery/mod.rs, `broadcast_scan`: where a request is sent. The text of /proc/net/fib_trie, of
-- ASCII characters, and the answers of the sockets are arguments.
pub mod Targets
use parsip.Base.{
  ℕ, zero, suc, ◌+◌, ◌-◌, ◌*◌, List, [], ◌∷◌, ◌++◌, Bool, true, false, not, ◌&&◌, ◌||◌, Option,
  none, some, ltb, leb, ◌==◌, if◌then◌else◌, length, drop, map, ℕ_discrete,
}
use parsip.Text.{text}
use parsip.Io.{Error, Result, ok, err}
use parsip.Identity.{PeerId}
use parsip.Control.{SocketAddr, IpAddr, v4}
use parsip.Discovery.{Node, payload, magic_request, discovery_port}
use parsip.Text.Strings.{bytes_eq, lines_from, trim}

pub record Ipv4Addr : Type 0 where
  pub a : ℕ
  pub b : ℕ
  pub c : ℕ
  pub d : ℕ

pub Ipv4Addr-discrete : Discrete Ipv4Addr
Ipv4Addr-discrete = hlevel ℕ_discrete

abbrev pub limited_broadcast : Ipv4Addr
limited_broadcast = record { a = 255; b = 255; c = 255; d = 255 }

is_loopback : Ipv4Addr → Bool
is_loopback ip = ip.a == 127

is_unspecified : Ipv4Addr → Bool
is_unspecified ip = ip.a == 0 && ip.b == 0 && ip.c == 0 && ip.d == 0

is_digit : ℕ → Bool
is_digit c = leb b'0' c && leb c b'9'

-- The digits in front, and what follows.
span_digits : List ℕ → List ℕ × List ℕ
unfolding is_digit
span_digits [] = ([], [])
span_digits (c ∷ cs) =
    let (ds, rest) = span_digits cs in if is_digit c then (c ∷ ds, rest) else ([], c ∷ cs)

decimal_value : ℕ → List ℕ → ℕ
decimal_value n [] = n
decimal_value n (c ∷ cs) = decimal_value (n * 10 + (c - b'0')) cs

starts_with_zero : List ℕ → Bool
starts_with_zero [] = false
starts_with_zero (c ∷ cs) = c == b'0'

-- One to three digits, at most 255, with no zero in front of another digit.
parse_octet : List ℕ → Option (ℕ × List ℕ)
unfolding span_digits decimal_value starts_with_zero
parse_octet cs =
    let (ds, rest) = span_digits cs in
    let n = decimal_value 0 ds in
    if leb 1 (length ds)
      && leb (length ds) 3
      && leb n 255
      && not (starts_with_zero ds && ltb 1 (length ds))
    then some (n, rest)
    else none

parse_dot : List ℕ → Option (List ℕ)
parse_dot [] = none
parse_dot (c ∷ cs) = if c == b'.' then some cs else none

infixl 5 ◌>>=◌
abbrev ◌>>=◌ : {A B : Type 0} → Option A → (A → Option B) → Option B
none >>= f = none
some a >>= f = f a

-- `str::parse::<Ipv4Addr>`
unfoldable pub parse_ipv4 : List ℕ → Option Ipv4Addr
unfolding parse_octet parse_dot
parse_ipv4 s = do
  (a, s1) ← parse_octet s
  s2 ← parse_dot s1
  (b, s3) ← parse_octet s2
  s4 ← parse_dot s3
  (c, s5) ← parse_octet s4
  s6 ← parse_dot s5
  (d, rest) ← parse_octet s6
  elim rest [ [] ↦ some (record { a = a; b = b; c = c; d = d }) | x ∷ xs ↦ none ]

-- `str::lines`: the text between the newlines, with no line behind the last one; a carriage return
strip_prefix : List ℕ → List ℕ → Option (List ℕ)
strip_prefix [] s = some s
strip_prefix (p ∷ ps) [] = none
strip_prefix (p ∷ ps) (c ∷ cs) = let rest = strip_prefix ps cs in if p == c then rest else none

or_else : {A : Type 0} → Option A → Option A → Option A
or_else none b = b
or_else (some a) b = some a

-- The address that a line names, if it is one that others can reach.
unfoldable pub named_address : List ℕ → Option Ipv4Addr
unfolding strip_prefix or_else is_loopback is_unspecified
named_address trimmed = do
  addr_str ← or_else (strip_prefix (text "|-- ") trimmed) (strip_prefix (text "+-- ") trimmed)
  ip ← parse_ipv4 (trim addr_str)
  if is_loopback ip || is_unspecified ip then none else some ip

pub contains : List Ipv4Addr → Ipv4Addr → Bool
contains [] ip = false
contains (x ∷ xs) ip = x.a == ip.a && x.b == ip.b && x.c == ip.c && x.d == ip.d || contains xs ip

-- `if !addrs.contains(&broadcast) { addrs.push(broadcast) }`, for the /24 network of an address.
unfoldable pub push_broadcast : Ipv4Addr → List Ipv4Addr → List Ipv4Addr
unfolding contains
push_broadcast local addrs =
    let broadcast = record local { d = 255 } in
    if contains addrs broadcast then addrs else addrs ++ (broadcast ∷ [])

-- The loop over the lines, with the last address named and the broadcast addresses so far.
unfoldable pub scan_trie : List (List ℕ) → Option Ipv4Addr → List Ipv4Addr → List Ipv4Addr
unfolding or_else
scan_trie [] current_local addrs = addrs
scan_trie (line ∷ lines) current_local addrs =
    let trimmed = trim line in
    let current = or_else (named_address trimmed) current_local in
    let is_local = bytes_eq trimmed (text "LOCAL") in
    let pushed : List Ipv4Addr = elim current [
      | none ↦ addrs
      | some local ↦ push_broadcast local addrs
    ] in
    scan_trie lines (if is_local then none else current) (if is_local then pushed else addrs)

-- `route` is the address that a socket to a public host would use, if the system names one.
unfoldable pub fallback : Option IpAddr → List Ipv4Addr → List Ipv4Addr
unfolding is_loopback
fallback (some (v4 a b c d)) addrs =
    let ip : Ipv4Addr = record { a = a; b = b; c = c; d = d } in
    if is_loopback ip then addrs else push_broadcast ip addrs
fallback _ addrs = addrs

unfoldable pub collect_broadcast_addrs : Option (List ℕ) → Option IpAddr → List Ipv4Addr
unfolding lines_from
collect_broadcast_addrs trie route =
    let start = limited_broadcast ∷ [] in
    let addrs : List Ipv4Addr = elim trie [
      | none ↦ start
      | some entries ↦ scan_trie (lines_from [] entries) none start
    ] in
    if length addrs == 1 then fallback route addrs else addrs

abbrev at_discovery_port : Ipv4Addr → SocketAddr
at_discovery_port ip = record { ip = v4 ip.a ip.b ip.c ip.d; port = discovery_port }

-- The datagrams that are sent, each with its target; `opened` is the answer to the socket's set-up.
unfoldable pub broadcast_scan :
    Option Error
    → Option (List ℕ)
    → Option IpAddr
    → Node
    → Result (Unit {0}) Error × List (List ℕ × SocketAddr)
broadcast_scan (some e) trie route node = (err e, [])
broadcast_scan none trie route node =
    let request = payload magic_request node.tcp_listen_port node.my_id node.my_nickname in
    (ok tt, map (λ ip. (request, at_discovery_port ip)) (collect_broadcast_addrs trie route))
