-- ===== src/Identity/Load.antt =====
-- src/identity/mod.rs: the identity of a node, kept in a file.
pub mod Stable
use parsip.Base.{ℕ, List, Bool, true, false, Option, none, some, length, ◌==◌, if◌then◌else◌}
use parsip.Text.{text}
use parsip.Io.{Error, Result, ok, err}
use parsip.Map.{lookup, bytes_key}
use parsip.Disk.{Disk, WriteAnswer, join, read_file, write_file}
use parsip.Connection.Handshake.{Crypto, Identity, identity_of}

-- `home` is the variable `HOME`.
unfoldable pub identity_path : Option (List ℕ) → List ℕ
identity_path home =
    let base : List ℕ = elim home [ none ↦ text "." | some dir ↦ dir ] in
    join (join base (text ".parsip")) (text "identity")

-- The seed in the file, if there is one of the right length; `refused` is the answer to the reading.
unfoldable pub stored_seed : Option Error → List ℕ → Disk → Option (List ℕ)
stored_seed refused path d = elim (lookup path d.names) [
  | none ↦ none
  | some file ↦ elim (read_file refused path d) [
    | err e ↦ none
    | ok content ↦ if length content == 32 then some content else none
  ]
]

-- `seed` is what `random_bytes_32` gives; that the directory cannot be created shows in the answer
-- to the writing.
unfoldable pub load_or_generate :
    Crypto → Option (List ℕ) → Option Error → (seed : List ℕ) → WriteAnswer → Disk → Identity × Disk
load_or_generate c home refused seed answer d =
    let path = identity_path home in
    elim (stored_seed refused path d) [
      | some content ↦ (identity_of c content, d)
      | none ↦ (identity_of c seed, (write_file answer path seed d).1)
    ]
