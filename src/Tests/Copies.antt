-- ===== src/Tests/Copies.antt =====
-- A location whose list of dependencies is edited in place.
use addressables_tools_py.Prelude.{
  Bool, true, false, ◌&&◌, List, [], ◌∷◌, Option, none, some, pos, ◌≡◌, refl,
}
use addressables_tools_py.Models.Object.{Object, nothing, location, codes}
use addressables_tools_py.Models.Catalog.{ResourceLocation}
use addressables_tools_py.Compat.Dependencies.{Copies, copy_of, dependencies, delete_dependencies}
use addressables_tools_py.Compat.Copies.{dependencies-edited}

-- There is one list.
abbrev is_list : Option (List Object) → Bool
is_list none = false
is_list (some xs) = true

abbrev same_list : Option (List Object) → Option (List Object) → Bool
same_list xs ys = is_list xs && is_list ys

abbrev before : ResourceLocation
before = record {
  internal_id = some (codes "a");
  provider_id = none;
  dependency_key = nothing;
  dependencies = some (location 1 ∷ []);
  payload = nothing;
  hash_code = pos 0;
  dependency_hash_code = pos 0;
  primary_key = some (codes "a");
  type = nothing;
  data_type = none;
}

abbrev after : ResourceLocation
after = record before { dependencies = some (location 2 ∷ location 1 ∷ []) }

abbrev no_copies : Copies
no_copies = record { kept = none; next = 0 }

dependencies-edited_example :
    (dependencies same_list after (dependencies same_list before no_copies).1
      ≡ dependencies same_list before no_copies)
    × ((dependencies same_list after
          (delete_dependencies (dependencies same_list before no_copies).1)).0
        ≡ copy_of
            (some (location 2 ∷ location 1 ∷ []))
            (dependencies same_list before no_copies).1.next)
dependencies-edited_example = dependencies-edited same_list before after no_copies refl (λ x h. h)
