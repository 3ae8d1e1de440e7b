-- ===== src/Catalog/Json/Prefixes.antt =====
-- The prefixes of internal IDs: `_apply_internal_id_prefix` of src/addressablestools/catalog.py.
use addressables_tools_py.Prelude.{
  ℕ, ℤ, List, [], ◌∷◌, ◌++◌, Option, none, some, ◌==◌, if◌then◌else◌,
}
use addressables_tools_py.Python.Exec.{Result, ok, err, is_value_error}
use addressables_tools_py.Python.Result.{◌>>=◌}
use addressables_tools_py.Python.Sequence.{get_item}
use addressables_tools_py.Python.Codec.{Str}
use addressables_tools_py.Python.Json.{Builtins}
use addressables_tools_py.Catalog.Json.Fields.{is_index}

-- What stands before and after the first "#".
abbrev extend : ℕ → Option (Str × Str) → Option (Str × Str)
extend c none = none
extend c (some (before, after)) = some (c ∷ before, after)

unfoldable pub split_at_hash : Str → Option (Str × Str)
split_at_hash [] = none
split_at_hash (c ∷ s) =
    let rest = split_at_hash s in if c == b'#' then some ([], s) else extend c rest

abbrev pub put_before : Str → Result Str → Result Str
put_before rest found = do prefix ← found; ok (prefix ++ rest)

abbrev pub with_prefix : List Str → Str → Str → Result ℤ → Result Str
with_prefix prefixes internal_id rest (ok index) =
    if is_index prefixes index then put_before rest (get_item prefixes index) else ok internal_id
with_prefix prefixes internal_id rest (err e) = if is_value_error e then ok internal_id else err e

module _ (b : Builtins) where
  abbrev pub prefixed : List Str → Str → Option (Str × Str) → Result Str
  prefixed prefixes internal_id none = ok internal_id
  prefixed prefixes internal_id (some (before, rest)) =
      with_prefix prefixes internal_id rest (b.int_of_text before)

  unfoldable pub apply_internal_id_prefix : List Str → Str → Result Str
  unfolding split_at_hash
  apply_internal_id_prefix prefixes internal_id =
      prefixed prefixes internal_id (split_at_hash internal_id)
