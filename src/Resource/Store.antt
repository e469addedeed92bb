-- ===== src/Resource/Store.antt =====
-- src/resource/store.rs: the files that a node shares, by the hash of their content. What the file
-- system says of a file is an argument, as are SHA-256 and `to_string_lossy`.
pub mod Content
use parsip.Base.{
  ℕ, ◌≡◌, refl, List, [], ◌∷◌, ◌++◌, Bool, true, false, ◌==◌, if◌then◌else◌, Option, none, some,
  concat,
}
use parsip.Io.{Error, Result, ok, err}
use parsip.Map.{HashMap, lookup, insert, values}
use parsip.Protocol.{ResourceId, ResourceInfo}
use parsip.Resource.Keys.{resource_key}

pub record LocalResourceStore : Type 0 where
  pub shared_dir : List ℕ
  pub index : HashMap ResourceId (List ℕ × ResourceInfo)

-- An open file: the answer of `metadata`, its length, and what the reads give until one gives
-- nothing or fails.
pub record OpenFile : Type 0 where
  pub metadata : Result ℕ Error
  pub reads : List (List ℕ)

-- `sha2`, and the text of a file name.
pub record Digests : Type 0 where
  pub sha256 : List ℕ → List ℕ
  pub lossy : List ℕ → List ℕ

-- The components of a path, without empty ones and `.`; `seen` is the start of the current one.
unfoldable pub push_component : List ℕ → List (List ℕ) → List (List ℕ)
push_component [] cs = cs
push_component (c ∷ []) cs = if c == b'.' then cs else (c ∷ []) ∷ cs
push_component seen cs = seen ∷ cs

unfoldable pub components : List ℕ → List ℕ → List (List ℕ)
unfolding push_component
components seen [] = push_component seen []
components seen (c ∷ cs) =
    let next = push_component seen (components [] cs) in
    let more = components (seen ++ (c ∷ [])) cs in if c == b'/' then next else more

unfoldable pub is_parent : List ℕ → Bool
is_parent (c ∷ d ∷ []) = if c == b'.' then d == b'.' else false
is_parent _ = false

unfoldable pub last_name : List (List ℕ) → Option (List ℕ)
unfolding is_parent
last_name [] = none
last_name (name ∷ []) = if is_parent name then none else some name
last_name (name ∷ names) = last_name names

-- `Path::file_name`
unfoldable pub file_name : List ℕ → Option (List ℕ)
unfolding components last_name
file_name path = last_name (components [] path)

pub file_name_empty : file_name [] ≡ none
unfolding file_name components last_name push_component
file_name_empty = refl

-- What `hash_file` returns and leaves of the index; `none`: it panics.
abbrev pub Hashed : Type 0
Hashed =
    Option (Result (ResourceId × ResourceInfo) Error × HashMap ResourceId (List ℕ × ResourceInfo))

-- The hasher takes what is read piece by piece; `unwrap` panics at a path with no file name.
unfoldable pub hash_file :
    Digests → List ℕ → Result OpenFile Error → HashMap ResourceId (List ℕ × ResourceInfo) → Hashed
hash_file h path (err e) index = some (err e, index)
hash_file h path (ok file) index = elim file.metadata [
  | err e ↦ some (err e, index)
  | ok len ↦
      let id : ResourceId = record { bytes = h.sha256 (concat file.reads) } in
      elim (file_name path) [
        | none ↦ none
        | some name ↦
            let info : ResourceInfo = record { id = id; name = h.lossy name; size = len } in
            some (ok (id, info), insert id (path, info) index)
      ]
]

-- An entry of the shared directory: its path, whether its metadata says that it is a file, and the
-- answer to opening it.
pub record DirEntry : Type 0 where
  pub path : List ℕ
  pub is_file : Bool
  pub opened : Result OpenFile Error

unfoldable pub hash_entries :
    Digests
    → List DirEntry
    → HashMap ResourceId (List ℕ × ResourceInfo)
    → Option (HashMap ResourceId (List ℕ × ResourceInfo))
hash_entries h [] index = some index
hash_entries h (entry ∷ entries) index =
    let skipped = hash_entries h entries index in
    let hashed : Option (HashMap ResourceId (List ℕ × ResourceInfo)) =
      elim (hash_file h entry.path entry.opened index) [
        | none ↦ none
        | some (result, index') ↦ hash_entries h entries index'
      ] in
    if entry.is_file then hashed else skipped

-- `entries` is what `read_dir` gives, if it succeeds.
unfoldable pub new : Digests → List ℕ → Option (List DirEntry) → Option LocalResourceStore
new h shared_dir none = some (record { shared_dir = shared_dir; index = [] })
new h shared_dir (some entries) = elim (hash_entries h entries []) [
  | none ↦ none
  | some index ↦ some (record { shared_dir = shared_dir; index = index })
]

unfoldable pub add_resource :
    Digests
    → List ℕ
    → Result OpenFile Error
    → LocalResourceStore
    → Option (Result (ResourceId × ResourceInfo) Error × LocalResourceStore)
add_resource h path opened store = elim (hash_file h path opened store.index) [
  | none ↦ none
  | some (result, index) ↦ some (result, record store { index = index })
]

infos : List (List ℕ × ResourceInfo) → List ResourceInfo
infos [] = []
infos ((path, info) ∷ rest) = info ∷ infos rest

unfoldable pub list_resources : LocalResourceStore → List ResourceInfo
unfolding infos
list_resources store = infos (values store.index)

unfoldable pub get_path : ResourceId → LocalResourceStore → Option (List ℕ)
get_path id store = elim (lookup id store.index) [ none ↦ none | some (path, info) ↦ some path ]
