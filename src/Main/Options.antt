-- ===== src/Main/Options.antt =====
-- src/main.rs: the options of `parsip daemon`.
use parsip.Base.{
  ℕ, ◌<◌, ◌^◌, ◌≡◌, refl, ap, List, [], ◌∷◌, false, none, arith, Bool-cases, Option-cases, inl, inr,
}
use parsip.Text.{text, decimal}
use parsip.Text.Strings.{bytes_eq, bytes_eq_sound}
use parsip.Text.Parse.{parse_u16, parse_u16_bound, parse_u16-decimal, parse_digits, parse_magnitude}
use parsip.Io.{ok}
use parsip.Config.{Config}
use parsip.Main.{parse_options}

-- The arguments that give every option.
abbrev pub options : Config → List (List ℕ)
options c =
    text "--nickname"
    ∷ c.nickname
    ∷ text "--shared"
    ∷ c.shared_dir
    ∷ text "--downloads"
    ∷ c.downloads_dir
    ∷ decimal c.listen_port
    ∷ []

-- A number is not one of the names of the options.
decimal_name :
    (n : ℕ) (name : List ℕ) → n < 2 ^ 16 → parse_u16 name ≡ none → bytes_eq (decimal n) name ≡ false
decimal_name n name h e = elim (Bool-cases (bytes_eq (decimal n) name)) [
  | inr f ↦ f
  | inl f ↦
      let same : parse_u16 (decimal n) ≡ parse_u16 name =
        ap parse_u16 (bytes_eq_sound (decimal n) name f) in
      absurd (ground (arith, parse_u16-decimal n h, same, e))
]

port_option :
    (n : ℕ) (c : Config)
    → n < 2 ^ 16
    → parse_options (decimal n ∷ []) c ≡ ok (record c { listen_port = n })
unfolding parse_options text parse_u16 parse_magnitude parse_digits
port_option n c h = ground (
  arith,
  parse_u16-decimal n h,
  decimal_name n (text "--nickname") h refl,
  decimal_name n (text "--shared") h refl,
  decimal_name n (text "--downloads") h refl,
)

-- The options given for a configuration, with a port of 16 bits, make any other one agree with it
-- in the nickname, the two directories and the port, and in nothing else.
pub parse_options-options :
    (c before : Config)
    → c.listen_port < 2 ^ 16
    → parse_options (options c) before
      ≡ ok (record before {
        nickname = c.nickname;
        shared_dir = c.shared_dir;
        downloads_dir = c.downloads_dir;
        listen_port = c.listen_port;
      })
unfolding parse_options text bytes_eq
parse_options-options c before h =
    port_option c.listen_port
      (record before {
        nickname = c.nickname;
        shared_dir = c.shared_dir;
        downloads_dir = c.downloads_dir;
      })
      h

-- Whatever the arguments are, the port stays a number of 16 bits, and the log file stays.
parse_options_bound :
    (args : List (List ℕ)) (c c' : Config)
    → c.listen_port < 2 ^ 16
    → parse_options args c ≡ ok c'
    → (c'.listen_port < 2 ^ 16) × (c'.log_file ≡ c.log_file)
unfolding parse_options
parse_options_bound [] c c' h e = ground (arith, h, e)
parse_options_bound (arg ∷ []) c c' h e = elim (Option-cases (parse_u16 arg)) [
  | inl f ↦ absurd (ground (arith, e, f))
  | inr (p, f) ↦ ground (arith, e, f, parse_u16_bound arg p f)
]
parse_options_bound (arg ∷ value ∷ args) c c' h e =
    elim (Bool-cases (bytes_eq arg (text "--nickname"))) [
      | inl f ↦ parse_options_bound args (record c { nickname = value }) c' h (ground (arith, e, f))
      | inr f ↦ elim (Bool-cases (bytes_eq arg (text "--shared"))) [
        | inl g ↦
            parse_options_bound args (record c { shared_dir = value }) c' h
              (ground (arith, e, f, g))
        | inr g ↦ elim (Bool-cases (bytes_eq arg (text "--downloads"))) [
          | inl k ↦
              parse_options_bound args (record c { downloads_dir = value }) c' h
                (ground (arith, e, f, g, k))
          | inr k ↦ elim (Option-cases (parse_u16 arg)) [
            | inl m ↦ absurd (ground (arith, e, f, g, k, m))
            | inr (p, m) ↦
                parse_options_bound (value ∷ args) (record c { listen_port = p }) c'
                  (parse_u16_bound arg p m) (ground (arith, e, f, g, k, m))
          ]
        ]
      ]
    ]
