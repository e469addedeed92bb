-- ===== src/Identity/Load/Stable.antt =====
-- src/identity/mod.rs: the identity of a node at its later starts.
use parsip.Base.{
  ℕ, ◌≡◌, sym, subst, List, Option, none, some, Option-cases, length, inl, inr, arith,
}
use parsip.Io.{Result}
use parsip.Map.{lookup, bytes_key, lookup-insert}
use parsip.Disk.{
  Disk, WriteAnswer, written, write_file, open_truncated, append_to, write_file-read_file,
}
use parsip.Connection.Handshake.{Crypto, Identity, identity_of}
use parsip.Random.{random_bytes_32, buffer, length-random_bytes_32}
use parsip.Identity.Load.{identity_path, stored_seed, load_or_generate}

write_file-named :
    (path bytes : List ℕ) (d : Disk)
    → (file : ℕ) × (lookup path (write_file written path bytes d).1.names ≡ some file)
unfolding write_file open_truncated append_to
write_file-named path bytes d = elim (Option-cases (lookup path d.names)) [
  | inl e ↦ (d.next_file, ground (arith, e, lookup-insert path path d.next_file d.names))
  | inr (file, e) ↦ (file, ground (arith, e))
]

stored_seed-write_file :
    (path seed : List ℕ) (d : Disk)
    → length seed ≡ 32
    → stored_seed none path (write_file written path seed d).1 ≡ some seed
unfolding stored_seed
stored_seed-write_file path seed d size =
    let (file, named) = write_file-named path seed d in
    ground (arith, named, size, write_file-read_file path seed d)

-- A node that could read its file, if there was one, and could write it, if there was none, has the
-- same identity at every later start at which the file can be read, whatever is drawn then, and
-- the disk stays as it is.
pub load_or_generate-stable :
    (c : Crypto) (home : Option (List ℕ)) (source source' : Result (List ℕ) (List ℕ))
    (nanos nanos' : ℕ) (answer : WriteAnswer) (d : Disk)
    → length (buffer source) ≡ 32
    → let (identity, d') = load_or_generate c home none (random_bytes_32 source nanos) written d in
      load_or_generate c home none (random_bytes_32 source' nanos') answer d' ≡ (identity, d')
unfolding load_or_generate
load_or_generate-stable c home source source' nanos nanos' answer d h =
    let path = identity_path home in
    let seed = random_bytes_32 source nanos in
    let seed' = random_bytes_32 source' nanos' in
    let kept = λ (x : Identity × Disk). load_or_generate c home none seed' answer x.1 ≡ x in
    elim (Option-cases (stored_seed none path d)) [
      | inr (content, e) ↦
          let first : load_or_generate c home none seed written d ≡ (identity_of c content, d) =
            ground (arith, e) in
          subst kept (sym first) (ground (arith, e))
      | inl e ↦
          let d' = (write_file written path seed d).1 in
          let first : load_or_generate c home none seed written d ≡ (identity_of c seed, d') =
            ground (arith, e) in
          let stored = stored_seed-write_file path seed d (length-random_bytes_32 source nanos h) in
          subst kept (sym first) (ground (arith, stored))
    ]
