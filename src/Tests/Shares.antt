-- ===== src/Tests/Shares.antt =====
-- The shared files (src/resource/store.rs), at fixed inputs.
use parsip.Base.{ℕ, ◌≡◌, ◌≢◌, refl, List, [], ◌∷◌, some, true, false, Among, concat, arith}
use parsip.Map.{lookup, insert, remove}
use parsip.Text.{text}
use parsip.Io.{ok}
use parsip.Protocol.{ResourceId, ResourceInfo}
use parsip.Resource.Store.{
  LocalResourceStore, DirEntry, file_name, hash_file, hash_entries, new, add_resource, get_path,
  list_resources, components, push_component, last_name, is_parent,
}
use parsip.Resource.Store.Content.{IsShared, new_sound, add_resource_lem}
use parsip.Tests.Requests.{a_file, toy_digests}

abbrev notes : List ℕ
notes = text "/home/me/./notes"

notes_name : file_name notes ≡ some (text "notes")
unfolding file_name components push_component last_name is_parent text
notes_name = refl

abbrev id : ResourceId
id = record { bytes = 1 ∷ 2 ∷ 3 ∷ [] }

abbrev notes_info : ResourceInfo
notes_info = record { id = id; name = text "notes"; size = 3 }

abbrev empty : LocalResourceStore
empty = record { shared_dir = text "/home/me/shared"; index = [] }

abbrev one : LocalResourceStore
one = record empty { index = (id, (notes, notes_info)) ∷ [] }

add_resource_lem_example :
    (id : ResourceId) × (info : ResourceInfo) × (store' : LocalResourceStore) × (id
      ≡ record { bytes = 1 ∷ 2 ∷ 3 ∷ [] })
    × (info ≡ record { id = id; name = text "notes"; size = 3 })
    × (add_resource toy_digests notes (ok a_file) empty ≡ some (ok (id, info), store'))
    × (get_path id store' ≡ some notes)
    × Among info (list_resources store')
    × ((j : ResourceId) → j ≢ id → get_path j store' ≡ get_path j empty)
unfolding concat
add_resource_lem_example =
    add_resource_lem toy_digests notes (text "notes") a_file 3 empty refl notes_name

abbrev directory : List DirEntry
directory =
    record { path = text "/home/me/shared/old"; is_file = false; opened = ok a_file }
    ∷ record { path = notes; is_file = true; opened = ok a_file }
    ∷ []

started : new toy_digests (text "/home/me/shared") (some directory) ≡ some one
unfolding new hash_entries hash_file file_name components push_component last_name is_parent text
    concat insert remove
started = refl

found : get_path id one ≡ some notes
unfolding get_path lookup
found = ground arith

new_sound_example : IsShared toy_digests directory id notes
new_sound_example =
    new_sound toy_digests (text "/home/me/shared") directory one id notes started found
