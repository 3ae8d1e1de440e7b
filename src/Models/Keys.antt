-- ===== src/Models/Keys.antt =====
-- The keys of a catalog's resources, in src/addressablestools/models.py: a dictionary has no key twice.
use addressables_tools_py.Prelude.{◌≡◌, false, [], ◌∷◌}
use addressables_tools_py.Models.Object.{Object}
use addressables_tools_py.Models.Catalog.{Resources, key_eq, object_key}

-- No key of a dictionary is equal to an earlier one.
abbrev pub IsNew : Object → Resources → Type 0
IsNew key [] = Unit
IsNew key ((k, _) ∷ rest) = (key_eq key k ≡ false) × IsNew key rest

abbrev pub HasDistinctKeys : Resources → Type 0
HasDistinctKeys [] = Unit
HasDistinctKeys ((key, _) ∷ rest) = IsNew key rest × HasDistinctKeys rest
