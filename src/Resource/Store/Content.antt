-- ===== src/Resource/Store/Content.antt =====
-- src/resource/store.rs: what is shared under a hash.
use parsip.Base.{
  ℕ, ◌≡◌, ◌≢◌, refl, sym, subst, ap, List, [], ◌∷◌, true, Bool-cases, none, some, Option-cases, inl,
  inr, ◌⊎◌, Among, concat, arith,
}
use parsip.Io.{Error, Result, ok, err, Result-cases}
use parsip.Map.{HashMap, lookup, insert, remove, lookup-insert, lookup-remove}
use parsip.Protocol.{ResourceId, ResourceInfo}
use parsip.Resource.Keys.{resource_key}
use parsip.Resource.Store.{
  LocalResourceStore, OpenFile, Digests, DirEntry, file_name, hash_file, hash_entries, new,
  add_resource, list_resources, get_path, infos,
}

-- Each entry of the index stands under the identifier that its information names.
unfoldable pub IsIndex : HashMap ResourceId (List ℕ × ResourceInfo) → Type 0
IsIndex [] = Unit
IsIndex ((id, e) ∷ m) = (e.1.id ≡ id) × (lookup id m ≡ none) × IsIndex m

remove-IsIndex :
    (k : ResourceId) (m : HashMap ResourceId (List ℕ × ResourceInfo))
    → IsIndex m
    → IsIndex (remove k m)
unfolding IsIndex remove
remove-IsIndex k [] h = tt
remove-IsIndex k ((j, x) ∷ m) (e, f, h) =
    ground (arith, e, f, remove-IsIndex k m h, lookup-remove k j m)

-- What `hash_file` does: nothing to the index, or one entry under the hash of what it read.
Hashes :
    Digests
    → List ℕ
    → Result OpenFile Error
    → HashMap ResourceId (List ℕ × ResourceInfo)
    → HashMap ResourceId (List ℕ × ResourceInfo)
    → Type 0
Hashes h path opened index index' =
    (index' ≡ index)
    ⊎ ((file : OpenFile) × (id : ResourceId) × (info : ResourceInfo) × (opened ≡ ok file)
        × (id.bytes ≡ h.sha256 (concat file.reads))
        × (info.id ≡ id)
        × (index' ≡ insert id (path, info) index))

hash_file-Hashes :
    (h : Digests) (path : List ℕ) (opened : Result OpenFile Error)
    (index index' : HashMap ResourceId (List ℕ × ResourceInfo))
    (r : Result (ResourceId × ResourceInfo) Error)
    → hash_file h path opened index ≡ some (r, index')
    → Hashes h path opened index index'
unfolding hash_file Hashes
hash_file-Hashes h path (err x) index index' r e = inl (ground (arith, e))
hash_file-Hashes h path (ok file) index index' r e = elim (Result-cases file.metadata) [
  | inr (x, f) ↦ inl (ground (arith, e, f))
  | inl (len, f) ↦ elim (Option-cases (file_name path)) [
    | inl g ↦ absurd (ground (arith, e, f, g))
    | inr (name, g) ↦
        let id : ResourceId = record { bytes = h.sha256 (concat file.reads) } in
        let info : ResourceInfo = record { id = id; name = h.lossy name; size = len } in
        let both : index' ≡ insert id (path, info) index = ground (arith, e, f, g) in
        inr (file, id, info, refl, refl, refl, both)
  ]
]

insert-IsIndex :
    (id : ResourceId) (path : List ℕ) (info : ResourceInfo)
    (m : HashMap ResourceId (List ℕ × ResourceInfo))
    → info.id ≡ id
    → IsIndex m
    → IsIndex (insert id (path, info) m)
unfolding IsIndex insert
insert-IsIndex id path info m e v = ground (arith, e, remove-IsIndex id m v, lookup-remove id id m)

pub hash_file-IsIndex :
    (h : Digests) (path : List ℕ) (opened : Result OpenFile Error)
    (index index' : HashMap ResourceId (List ℕ × ResourceInfo))
    (r : Result (ResourceId × ResourceInfo) Error)
    → IsIndex index
    → hash_file h path opened index ≡ some (r, index')
    → IsIndex index'
unfolding Hashes
hash_file-IsIndex h path opened index index' r v e =
    elim (hash_file-Hashes h path opened index index' r e) [
      | inl same ↦ subst IsIndex (sym same) v
      | inr (file, id, info, opened_as, hash, names, grows) ↦
          subst IsIndex (sym grows) (insert-IsIndex id path info index names v)
    ]

-- An index whose entries stand under the identifiers that they name, one for each, stays so when a
-- file is added, whether it can be opened or not.
pub add_resource-IsIndex :
    (h : Digests) (path : List ℕ) (opened : Result OpenFile Error)
    (store store' : LocalResourceStore) (r : Result (ResourceId × ResourceInfo) Error)
    → IsIndex store.index
    → add_resource h path opened store ≡ some (r, store')
    → IsIndex store'.index
unfolding add_resource
add_resource-IsIndex h path opened store store' r v e =
    elim (Option-cases (hash_file h path opened store.index)) [
      | inl f ↦ absurd (ground (arith, e, f))
      | inr ((r', index), f) ↦
          let same : index ≡ store'.index = ground (arith, e, f) in
          subst IsIndex same (hash_file-IsIndex h path opened store.index index r' v f)
    ]

-- A regular file of the directory, whose bytes have this hash.
unfoldable pub IsShared : Digests → List DirEntry → ResourceId → List ℕ → Type 0
IsShared h entries id path =
    (entry : DirEntry) × (file : OpenFile) × Among entry entries
    × (entry.path ≡ path)
    × (entry.is_file ≡ true)
    × (entry.opened ≡ ok file)
    × (id.bytes ≡ h.sha256 (concat file.reads))

lookup-insert_cases :
    (id j : ResourceId) (x y : List ℕ × ResourceInfo)
    (m : HashMap ResourceId (List ℕ × ResourceInfo))
    → lookup j (insert id x m) ≡ some y
    → (id ≡ j) × (x ≡ y) ⊎ (lookup j m ≡ some y)
lookup-insert_cases id j x y m e = ground (arith, e, lookup-insert id j x m)

hash_entries_sound :
    (h : Digests) (entries : List DirEntry)
    (index index' : HashMap ResourceId (List ℕ × ResourceInfo)) (id : ResourceId) (path : List ℕ)
    (info : ResourceInfo)
    → hash_entries h entries index ≡ some index'
    → lookup id index' ≡ some (path, info)
    → IsShared h entries id path ⊎ (lookup id index ≡ some (path, info))
unfolding hash_entries IsShared Hashes
hash_entries_sound h [] index index' id path info e f = inr (ground (arith, e, f))
hash_entries_sound h (entry ∷ entries) index index' id path info e f =
    let later : IsShared h entries id path → IsShared h (entry ∷ entries) id path =
      λ (x, file, among, p, q, r, t). (x, file, inr among, p, q, r, t) in
    elim (Bool-cases entry.is_file) [
      | inr dir ↦
          elim (hash_entries_sound h entries index index' id path info (ground (arith, e, dir)) f) [
            | inl shared ↦ inl (later shared)
            | inr old ↦ inr old
          ]
      | inl is_file ↦ elim (Option-cases (hash_file h entry.path entry.opened index)) [
        | inl g ↦ absurd (ground (arith, e, g, is_file))
        | inr ((r, next), g) ↦
            elim (hash_entries_sound h entries next index' id path info
              (ground (arith, e, g, is_file)) f) [
                | inl shared ↦ inl (later shared)
                | inr old ↦ elim (hash_file-Hashes h entry.path entry.opened index next r g) [
                  | inl same ↦ inr (ground (arith, old, same))
                  | inr (file, id', info', opened_as, hash, names, grows) ↦
                      elim (lookup-insert_cases id' id (entry.path, info') (path, info) index
                        (ground (arith, old, grows))) [
                          | inr older ↦ inr older
                          | inl (same_id, same_entry) ↦ inl (
                            entry,
                            file,
                            inl refl,
                            ap (λ x. x.0) same_entry,
                            is_file,
                            opened_as,
                            ground (arith, hash, same_id),
                          )
                        ]
                ]
              ]
      ]
    ]

-- What a new store finds under an identifier is a regular file of the shared directory that could
-- be opened, and the identifier is the hash of the bytes that it was read to hold.
pub new_sound :
    (h : Digests) (shared_dir : List ℕ) (entries : List DirEntry) (store : LocalResourceStore)
    (id : ResourceId) (path : List ℕ)
    → new h shared_dir (some entries) ≡ some store
    → get_path id store ≡ some path
    → IsShared h entries id path
unfolding new get_path lookup
new_sound h shared_dir entries store id path e f = elim (Option-cases (hash_entries h entries [])) [
  | inl g ↦ absurd (ground (arith, e, g))
  | inr (index, g) ↦ elim (Option-cases (lookup id index)) [
    | inl k ↦ absurd (ground (arith, e, f, g, k))
    | inr ((path', info), k) ↦
        let same : path' ≡ path = ground (arith, e, f, g, k) in
        elim (hash_entries_sound h entries [] index id path' info g k) [
          | inl shared ↦ subst (IsShared h entries id) same shared
          | inr old ↦ absurd (ground (arith, old))
        ]
  ]
]

-- A file that can be opened and measured, under a path with a file name, is shared under the hash
-- of what was read: its path is found under it and it is listed with its name and its length, and
-- what is found under other identifiers is as before.
pub add_resource_lem :
    (h : Digests) (path name : List ℕ) (file : OpenFile) (len : ℕ) (store : LocalResourceStore)
    → file.metadata ≡ ok len
    → file_name path ≡ some name
    → (id : ResourceId) × (info : ResourceInfo) × (store' : LocalResourceStore) × (id
        ≡ record { bytes = h.sha256 (concat file.reads) })
      × (info ≡ record { id = id; name = h.lossy name; size = len })
      × (add_resource h path (ok file) store ≡ some (ok (id, info), store'))
      × (get_path id store' ≡ some path)
      × Among info (list_resources store')
      × ((j : ResourceId) → j ≢ id → get_path j store' ≡ get_path j store)
unfolding add_resource hash_file get_path list_resources insert infos
add_resource_lem h path name file len store e f =
    let id : ResourceId = record { bytes = h.sha256 (concat file.reads) } in
    let info : ResourceInfo = record { id = id; name = h.lossy name; size = len } in
    let store' = record store { index = insert id (path, info) store.index } in
    (
      id,
      info,
      store',
      refl,
      refl,
      ground (arith, e, f),
      ground (arith, lookup-insert id id (path, info) store.index),
      inl refl,
      λ j ne. ground (arith, ne, lookup-insert id j (path, info) store.index),
    )
