-- ===== src/Models/Locations.antt =====
-- The iteration over a catalog's locations: each identity comes once, and none is left out.
use addressables_tools_py.Prelude.{
  ℕ, true, false, not, List, [], ◌∷◌, ◌++◌, ◌≡◌, refl, inl, inr, contains, arith, Bool-cases, ◌==◌,
  ap, ==_iff, ◌||◌, ◌&&◌,
}
use addressables_tools_py.Prelude.Distinct.{IsDistinct}
use addressables_tools_py.Models.Object.{Object}
use addressables_tools_py.Models.Catalog.{
  ContentCatalogData, Resources, iter_list, iter_resources, iter_locations,
}

same_seen : (seen : List ℕ) (m n : ℕ) → (m == n) ≡ true → contains seen m ≡ contains seen n
same_seen seen m n h = ap (contains seen) ((==_iff m n).0 h)

-- The locations of all lists, one list after the other.
abbrev pub listed : Resources → List Object
listed [] = []
listed ((_, locations) ∷ rest) = locations ++ listed rest

module _ (id : Object → ℕ) where
  abbrev pub ids : List Object → List ℕ
  ids [] = []
  ids (x ∷ xs) = id x ∷ ids xs

  contains-ids :
      (xs ys : List Object) (n : ℕ)
      → contains (ids (xs ++ ys)) n ≡ (contains (ids xs) n || contains (ids ys) n)
  contains-ids [] ys n = refl
  contains-ids (x ∷ xs) ys n = ground (arith, contains-ids xs ys n)

  -- Lists without repetition that have nothing in common.
  ids-IsDistinct :
      (xs ys : List Object)
      → IsDistinct (ids xs)
      → IsDistinct (ids ys)
      → ((n : ℕ) → contains (ids xs) n ≡ true → contains (ids ys) n ≡ false)
      → IsDistinct (ids (xs ++ ys))
  ids-IsDistinct [] ys h k apart = k
  ids-IsDistinct (x ∷ xs) ys h k apart = (
    ground (arith, contains-ids xs ys (id x), apart (id x)),
    ids-IsDistinct xs ys h.1 k λ n there. apart n (ground arith),
  )

  seen-iter_list :
      (xs : List Object) (seen : List ℕ) (n : ℕ)
      → contains (iter_list id xs seen).1 n ≡ (contains seen n || contains (ids xs) n)
  unfolding iter_list
  seen-iter_list [] seen n = ground arith
  seen-iter_list (x ∷ xs) seen n = elim (Bool-cases (contains seen (id x))) [
    | inl e ↦ rw e (ground (arith, seen-iter_list xs seen n, same_seen seen (id x) n, e))
    | inr e ↦ rw e (ground (arith, seen-iter_list xs (id x ∷ seen) n))
  ]

  contains-iter_list :
      (xs : List Object) (seen : List ℕ) (n : ℕ)
      → contains (ids (iter_list id xs seen).0) n ≡ (not (contains seen n) && contains (ids xs) n)
  unfolding iter_list
  contains-iter_list [] seen n = ground arith
  contains-iter_list (x ∷ xs) seen n = elim (Bool-cases (contains seen (id x))) [
    | inl e ↦ rw e (ground (arith, contains-iter_list xs seen n, same_seen seen (id x) n, e))
    | inr e ↦
        rw e (ground (arith, contains-iter_list xs (id x ∷ seen) n, same_seen seen (id x) n, e))
  ]

  iter_list-IsDistinct :
      (xs : List Object) (seen : List ℕ) → IsDistinct (ids (iter_list id xs seen).0)
  unfolding iter_list
  iter_list-IsDistinct [] seen = tt
  iter_list-IsDistinct (x ∷ xs) seen = elim (Bool-cases (contains seen (id x))) [
    | inl e ↦ rw e (iter_list-IsDistinct xs seen)
    | inr e ↦ rw e (
      ground (arith, contains-iter_list xs (id x ∷ seen) (id x)),
      iter_list-IsDistinct xs (id x ∷ seen),
    )
  ]

  contains-iter_resources :
      (resources : Resources) (seen : List ℕ) (n : ℕ)
      → contains (ids (iter_resources id resources seen)) n
        ≡ (not (contains seen n) && contains (ids (listed resources)) n)
  unfolding iter_resources
  contains-iter_resources [] seen n = ground arith
  contains-iter_resources ((k, locations) ∷ rest) seen n =
      rw
        (
          contains-ids (iter_list id locations seen).0 _ n,
          contains-ids locations (listed rest) n,
          contains-iter_resources rest (iter_list id locations seen).1 n,
          contains-iter_list locations seen n,
          seen-iter_list locations seen n,
        )
        (ground arith)

  iter_resources-IsDistinct :
      (resources : Resources) (seen : List ℕ) → IsDistinct (ids (iter_resources id resources seen))
  unfolding iter_resources
  iter_resources-IsDistinct [] seen = tt
  iter_resources-IsDistinct ((k, locations) ∷ rest) seen =
      ids-IsDistinct _ _ (iter_list-IsDistinct locations seen) (iter_resources-IsDistinct rest _)
        λ n there. ground (
          arith,
          contains-iter_list locations seen n,
          seen-iter_list locations seen n,
          contains-iter_resources rest (iter_list id locations seen).1 n,
        )

  -- iter_locations yields no identity twice, and the identities of all the locations in the lists
  -- of the catalog and no others.
  pub iter_locations-IsDistinct :
      (catalog : ContentCatalogData)
      → IsDistinct (ids (iter_locations id catalog))
        × ((n : ℕ)
            → contains (ids (iter_locations id catalog)) n
              ≡ contains (ids (listed catalog.resources)) n)
  unfolding iter_locations
  iter_locations-IsDistinct catalog = (
    iter_resources-IsDistinct catalog.resources [],
    λ n. contains-iter_resources catalog.resources [] n,
  )
