-- ===== src/Compat/Dependencies.antt =====
-- `CompatResourceLocation.Dependencies` of src/AddressablesTools.py: a copy that is kept.
use addressables_tools_py.Prelude.{ℕ, suc, Bool, List, map, Option, none, some, if◌then◌else◌}
use addressables_tools_py.Models.Object.{Object}
use addressables_tools_py.Models.Catalog.{ResourceLocation}
use addressables_tools_py.Compat.Values.{Legacy, wrap_legacy}

-- wrap_legacy of a list, or of None
abbrev pub wrap_list : Option (List Object) → Option (List Legacy)
wrap_list none = none
wrap_list (some xs) = some (map wrap_legacy xs)

-- The list that was wrapped, as it was then, and the list of wrappers, with the number of its making.
pub record Copy : Type 0 where
  pub source : Option (List Object)
  pub wrapped : Option (List Legacy)
  pub identity : ℕ

-- `__dict__["_dependencies_cache"]`, and the number of the next list that is made.
pub record Copies : Type 0 where
  pub kept : Option Copy
  pub next : ℕ

abbrev pub copy_of : Option (List Object) → ℕ → Copy
copy_of source identity = record {
  source = source;
  wrapped = wrap_list source;
  identity = identity;
}

abbrev pub new_copy : Option (List Object) → Copies → Copy × Copies
new_copy source s =
    (copy_of source s.next, record { kept = some (copy_of source s.next); next = suc s.next })

-- The test is Python's `is`, of two lists or of None: a list that is edited stays the same.
module _ (same : Option (List Object) → Option (List Object) → Bool) where
  unfoldable pub dependencies : ResourceLocation → Copies → Copy × Copies
  dependencies l s = elim s.kept [
    | none ↦ new_copy l.dependencies s
    | some cached ↦
        if same cached.source l.dependencies then (cached, s) else new_copy l.dependencies s
  ]

-- The deleter.
abbrev pub delete_dependencies : Copies → Copies
delete_dependencies s = record s { kept = none }
