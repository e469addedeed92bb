-- ===== src/Disk.antt =====
-- The part of the file system that a node writes to: names, and the files behind them. An open file
-- goes on to exist when its name is moved or removed. `refuses_removal` says which names the system
-- does not let be removed. `none` as an answer stands for success.
use parsip.Base.{
  ℕ, ◌+◌, List, [], ◌∷◌, ◌++◌, Option, none, some, Option-cases, inl, inr, ◌≡◌, take, arith, Bool,
  false, ◌==◌, if◌then◌else◌,
}
use parsip.Map.{HashMap, lookup, insert, remove, bytes_key, nat_key, lookup-insert}
use parsip.Io.{Error, Result, ok, err, not_found}
use parsip.Text.{text}

pub record Disk : Type 0 where
  pub names : HashMap (List ℕ) ℕ
  pub contents : HashMap ℕ (List ℕ)
  pub next_file : ℕ
  pub refuses_removal : List ℕ → Bool

ends_in_slash : List ℕ → Bool
ends_in_slash [] = false
ends_in_slash (c ∷ []) = c == b'/'
ends_in_slash (c ∷ cs) = ends_in_slash cs

starts_with_slash : List ℕ → Bool
starts_with_slash [] = false
starts_with_slash (c ∷ cs) = c == b'/'

-- `PathBuf::join` on Unix: an absolute second path replaces the first one.
unfoldable pub join : List ℕ → List ℕ → List ℕ
unfolding ends_in_slash starts_with_slash
join [] path = path
join (c ∷ dir) path =
    if starts_with_slash path
    then path
    else if ends_in_slash (c ∷ dir)
    then (c ∷ dir) ++ path
    else (c ∷ dir) ++ (b'/' ∷ path)

-- What a file holds.
abbrev pub content_of : ℕ → Disk → List ℕ
content_of file d = elim (lookup file d.contents) [ none ↦ [] | some bytes ↦ bytes ]

unfoldable pub append_to : ℕ → List ℕ → Disk → Disk
append_to file bytes d = record d { contents = insert file (content_of file d ++ bytes) d.contents }

-- `OpenOptions::new().write(true).create(true).truncate(true).open(path)`
unfoldable pub open_truncated : List ℕ → Disk → ℕ × Disk
open_truncated path d = elim (lookup path d.names) [
  | some file ↦ (file, record d { contents = insert file [] d.contents })
  | none ↦ (
    d.next_file,
    record d {
      names = insert path d.next_file d.names;
      contents = insert d.next_file [] d.contents;
      next_file = d.next_file + 1;
    },
  )
]

-- `fs::rename`: what was behind the new name is gone.
unfoldable pub rename : List ℕ → List ℕ → Disk → Result (Unit {0}) Error × Disk
rename from to d = elim (lookup from d.names) [
  | some file ↦ (ok tt, record d { names = insert to file (remove from d.names) })
  | none ↦ (err (record { kind = not_found; message = text "No such file or directory" }), d)
]

-- `fs::remove_file`, whose error is ignored.
unfoldable pub remove_file : List ℕ → Disk → Disk
remove_file path d = if d.refuses_removal path then d else record d { names = remove path d.names }

-- What the name leads to.
abbrev pub read_path : List ℕ → Disk → Option (List ℕ)
read_path path d = elim (lookup path d.names) [ none ↦ none | some file ↦ some (content_of file d) ]

-- What the system answers to `fs::write`: success, no open file, or an error after some bytes.
pub data WriteAnswer : Type 0 where
  written : WriteAnswer
  not_opened : Error → WriteAnswer
  cut_off : ℕ → Error → WriteAnswer

-- `fs::write`
unfoldable pub write_file : WriteAnswer → List ℕ → List ℕ → Disk → Result (Unit {0}) Error × Disk
write_file written path bytes d =
    let (file, d') = open_truncated path d in (ok tt, append_to file bytes d')
write_file (not_opened e) path bytes d = (err e, d)
write_file (cut_off n e) path bytes d =
    let (file, d') = open_truncated path d in (err e, append_to file (take n bytes) d')

-- `fs::read`, where the system may refuse.
unfoldable pub read_file : Option Error → List ℕ → Disk → Result (List ℕ) Error
read_file (some e) path d = err e
read_file none path d = elim (read_path path d) [
  | none ↦ err (record { kind = not_found; message = text "No such file or directory" })
  | some bytes ↦ ok bytes
]

pub write_file-read_file :
    (path bytes : List ℕ) (d : Disk)
    → read_file none path (write_file written path bytes d).1 ≡ ok bytes
unfolding write_file read_file open_truncated append_to
write_file-read_file path bytes d = elim (Option-cases (lookup path d.names)) [
  | inl e ↦ ground (
    arith,
    e,
    lookup-insert path path d.next_file d.names,
    lookup-insert d.next_file d.next_file [] d.contents,
    lookup-insert d.next_file d.next_file bytes (insert d.next_file [] d.contents),
  )
  | inr (file, e) ↦ ground (
    arith,
    e,
    lookup-insert file file [] d.contents,
    lookup-insert file file bytes (insert file [] d.contents),
  )
]
