-- ===== src/Compat/Copies.antt =====
-- When `CompatResourceLocation.Dependencies` of src/AddressablesTools.py gives an old copy.
use addressables_tools_py.Prelude.{
  Bool, true, List, Option, ◌≡◌, refl, inl, inr, Option-cases, Bool-cases,
}
use addressables_tools_py.Models.Object.{Object}
use addressables_tools_py.Models.Catalog.{ResourceLocation}
use addressables_tools_py.Compat.Dependencies.{
  Copies, new_copy, copy_of, dependencies, delete_dependencies,
}

module _ (same : Option (List Object) → Option (List Object) → Bool) where
  made_again :
      (l edited : ResourceLocation) (s : Copies)
      → same l.dependencies edited.dependencies ≡ true
      → dependencies same edited (new_copy l.dependencies s).1 ≡ new_copy l.dependencies s
  unfolding dependencies
  made_again l edited s h = rw h refl

  kept_again :
      (l edited : ResourceLocation) (s : Copies)
      → same l.dependencies edited.dependencies ≡ true
      → ((x : Option (List Object))
          → same x l.dependencies ≡ true
          → same x edited.dependencies ≡ true)
      → dependencies same edited (dependencies same l s).1 ≡ dependencies same l s
  unfolding dependencies
  kept_again l edited s h still = elim (Option-cases s.kept) [
    | inl nothing_kept ↦ rw nothing_kept (made_again l edited s h)
    | inr (cached, kept) ↦ elim (Bool-cases (same cached.source l.dependencies)) [
      | inl e ↦ rw (kept, e, still cached.source e) refl
      | inr e ↦ rw (kept, e) (made_again l edited s h)
    ]
  ]

  -- When a location's list of dependencies was edited in place, so that it is still the same list,
  -- Dependencies gives the copy that it gave before the edit; after its deletion it gives a new list,
  -- with wrappers of what is there now.
  pub dependencies-edited :
      (l edited : ResourceLocation) (s : Copies)
      → same l.dependencies edited.dependencies ≡ true
      → ((x : Option (List Object))
          → same x l.dependencies ≡ true
          → same x edited.dependencies ≡ true)
      → (dependencies same edited (dependencies same l s).1 ≡ dependencies same l s)
        × ((dependencies same edited (delete_dependencies (dependencies same l s).1)).0
            ≡ copy_of edited.dependencies (dependencies same l s).1.next)
  unfolding dependencies
  dependencies-edited l edited s h still = (kept_again l edited s h still, refl)
