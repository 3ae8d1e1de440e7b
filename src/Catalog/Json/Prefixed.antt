-- ===== src/Catalog/Json/Prefixed.antt =====
-- What the prefixes make of internal IDs: `_apply_internal_id_prefix` of
-- src/addressablestools/catalog.py.
use addressables_tools_py.Prelude.{
  ℤ, ◌≡◌, refl, false, List, [], ◌∷◌, ◌++◌, none, some, ◌==◌, All, Bool-cases, inl, inr,
}
use addressables_tools_py.Python.Exec.{PyError, Result, ok, err, value_error}
use addressables_tools_py.Python.Codec.{Str}
use addressables_tools_py.Python.Json.{Builtins}
use addressables_tools_py.Catalog.Json.Fields.{is_index, item_at}
use addressables_tools_py.Catalog.Json.Entries.{item_at-IsOk, item_at-inside, item_at-outside}
use addressables_tools_py.Catalog.Json.Prefixes.{
  split_at_hash, with_prefix, apply_internal_id_prefix,
}

-- A text with no "#".
abbrev pub HasNoHash : Str → Type 0
HasNoHash s = All (λ c. (c == b'#') ≡ false) s

split-none : (s : Str) → HasNoHash s → split_at_hash s ≡ none
unfolding split_at_hash
split-none [] h = refl
split-none (c ∷ s) h = rw (h.0, split-none s h.1) refl

split-some :
    (before rest : Str)
    → HasNoHash before
    → split_at_hash (before ++ (b'#' ∷ rest)) ≡ some (before, rest)
unfolding split_at_hash
split-some [] rest h = refl
split-some (c ∷ s) rest h = rw (h.0, split-some s rest h.1) refl

-- The prefix that an internal ID starts with, or the ID itself.
abbrev pub chosen : List Str → Str → Str → Result ℤ → Result Str
chosen prefixes id rest (err e) = ok id
chosen prefixes id rest (ok n) = elim (item_at prefixes n) [
  | ok prefix ↦ ok (prefix ++ rest)
  | err e ↦ ok id
]

module _ (b : Builtins)
    (documented : (s : Str) (e : PyError) → b.int_of_text s ≡ err e → e ≡ value_error)
    (prefixes : List Str) where
  number-chosen :
      (id rest : Str) (r : Result ℤ)
      → ((e : _) → r ≡ err e → e ≡ value_error)
      → with_prefix prefixes id rest r ≡ chosen prefixes id rest r
  number-chosen id rest (err e) h = rw (h e refl) refl
  number-chosen id rest (ok n) h = elim (Bool-cases (is_index prefixes n)) [
    | inl k ↦
        let (p, there) = item_at-IsOk prefixes n k in
        rw (k, ← item_at-inside prefixes n k, there, chosen) refl
    | inr k ↦ rw (k, item_at-outside prefixes n k, chosen) refl
  ]

  -- If int() of a text raises nothing but ValueError: an internal ID with no "#" stays as it
  -- is; the text before the first "#" of any other is the number of a prefix, which is put before the
  -- text after the "#", or the ID stays as it is.
  pub apply_internal_id_prefix-chosen :
      (before rest : Str)
      → HasNoHash before
      → (apply_internal_id_prefix b prefixes before ≡ ok before)
        × (apply_internal_id_prefix b prefixes (before ++ (b'#' ∷ rest))
            ≡ chosen prefixes (before ++ (b'#' ∷ rest)) rest (b.int_of_text before))
  unfolding apply_internal_id_prefix
  apply_internal_id_prefix-chosen before rest h = (
    rw (split-none before h) refl,
    rw (split-some before rest h)
        (number-chosen (before ++ (b'#' ∷ rest)) rest (b.int_of_text before) (documented before)),
  )
