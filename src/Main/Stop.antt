-- ===== src/Main/Stop.antt =====
-- src/main.rs: which process is stopped.
use parsip.Base.{
  ℕ, ◌<◌, ◌≡◌, refl, sym, ap, ◌∙◌, List, ◌++◌, [], ◌∷◌, true, false, ◌||◌, Option, none, some, leb,
  arith, Bool-cases, Option-cases, inl, inr,
}
use parsip.Text.{text}
use parsip.Text.Strings.{bytes_eq_sound, has_slice_sound, trim, has_slice, starts_with}
use parsip.Text.Parse.{parse_i32}
use parsip.Resource.Store.{file_name, file_name_empty}
use parsip.Main.{Process, stop_daemon, stop_process, is_parsip, or_empty}

-- A process that runs the program `parsip`, and of whose arguments, each of which a 0 ends, one has
-- `daemon` as its last bytes.
unfoldable pub IsParsip : Process → Type 0
IsParsip p =
    (path : List ℕ) × (cmdline : List ℕ) × (p.exe ≡ some path)
    × (p.cmdline ≡ some cmdline)
    × (file_name path ≡ some (text "parsip"))
    × ((before after : List ℕ) × (cmdline ≡ before ++ ((text "daemon" ++ (0 ∷ [])) ++ after)))

-- What `kill` was run for.
unfoldable pub IsKilled : Option (List ℕ) → (ℕ → Process) → Type 0
IsKilled content process =
    (s : List ℕ) × (n : ℕ) × (content ≡ some s)
    × (parse_i32 (trim s) ≡ some (false, n))
    × (1 < n)
    × ((process n).exists ≡ true)
    × IsParsip (process n)

is_parsip-IsParsip : (p : Process) → is_parsip p ≡ true → IsParsip p
unfolding is_parsip IsParsip or_empty has_slice starts_with text
is_parsip-IsParsip p e = elim (Option-cases p.exe) [
  | inl f ↦ absurd (ground (arith, e, f, file_name_empty))
  | inr (path, f) ↦ elim (Option-cases p.cmdline) [
    | inl g ↦ absurd (ground (arith, e, g))
    | inr (cmdline, g) ↦ elim (Option-cases (file_name path)) [
      | inl k ↦ absurd (ground (arith, e, f, k))
      | inr (name, k) ↦
          let same : name ≡ text "parsip" =
            bytes_eq_sound name (text "parsip") (ground (arith, e, f, k)) in
          let found : has_slice (text "daemon" ++ (0 ∷ [])) cmdline ≡ true =
            ground (arith, e, f, g) in
          (
            path,
            cmdline,
            f,
            g,
            k ∙ ap some same,
            has_slice_sound (text "daemon" ++ (0 ∷ [])) cmdline found,
          )
    ]
  ]
]

stop_process-killed :
    (p : Process) → (stop_process p).killed ≡ true → (p.exists ≡ true) × IsParsip p
unfolding stop_process
stop_process-killed p e = elim (Bool-cases p.exists) [
  | inr f ↦ absurd (ground (arith, e, f))
  | inl f ↦ elim (Bool-cases (is_parsip p)) [
    | inr g ↦ absurd (ground (arith, e, f, g))
    | inl g ↦ (f, is_parsip-IsParsip p g)
  ]
]

stop_process-result : (p : Process) → (stop_process p).result ≡ (stop_process p).file_removed
unfolding stop_process
stop_process-result p = ground arith

-- `kill` is run only for a process that exists, has the number in the file, which is above 1, and
-- runs the program `parsip` with an argument that ends in `daemon`; and where `stop_daemon` says that
-- it failed the file with the number is kept.
pub stop_daemon-IsKilled :
    (content : Option (List ℕ)) (process : ℕ → Process)
    → ((stop_daemon content process).killed ≡ true → IsKilled content process)
      × ((stop_daemon content process).result ≡ false
          → (stop_daemon content process).file_removed ≡ false)
unfolding stop_daemon IsKilled
stop_daemon-IsKilled none process =
    (λ e. absurd (ground (arith, e)), λ e. absurd (ground (arith, e)))
stop_daemon-IsKilled (some s) process = elim (Option-cases (parse_i32 (trim s))) [
  | inl f ↦ (λ e. absurd (ground (arith, e, f)), λ e. absurd (ground (arith, e, f)))
  | inr ((negative, n), f) ↦ elim (Bool-cases (negative || leb n 1)) [
    | inl g ↦ (λ e. absurd (ground (arith, e, f, g)), λ e. ground (arith, e, f, g))
    | inr g ↦
        let same : stop_daemon (some s) process ≡ stop_process (process n) = ground (arith, f, g) in
        (
          λ e.
              let (exists, parsip) =
                stop_process-killed (process n) (ap (λ x. x.killed) (sym same) ∙ e) in
              (s, n, refl, ground (arith, f, g), ground (arith, g), exists, parsip),
          λ e.
              ap (λ x. x.file_removed) same
              ∙ sym (stop_process-result (process n))
              ∙ ap (λ x. x.result) (sym same)
              ∙ e,
        )
  ]
]
