-- ===== src/Catalog/Json/Entries.antt =====
-- The entries of a bucket, in `_decode_json_resources` of src/addressablestools/catalog.py: the tests
-- on the whole list against a checked access for each entry.
use addressables_tools_py.Prelude.{
  ℕ, zero, suc, ℤ, pos, negsuc, ◌≡◌, refl, Bool, true, false, not, ◌||◌, List, [], ◌∷◌, length, ltb,
  leb_ℤ, ltb_ℤ, inl, inr, arith, Bool-cases, if◌then◌else◌,
}
use addressables_tools_py.Python.Exec.{ok, err, catalog_parse_error}
use addressables_tools_py.Python.Result.{◌>>=◌, for_each}
use addressables_tools_py.Python.Sequence.{nth, get_item, least, greatest}
use addressables_tools_py.Models.Object.{Object}
use addressables_tools_py.Catalog.Json.Fields.{item_at, is_index}
use addressables_tools_py.Catalog.Json.Resources.{any_outside, check_entries, bucket_locations}

nth-IsOk :
    {A : Type 0} (xs : List A) (n : ℕ) → ltb n (length xs) ≡ true → (x : A) × (nth xs n ≡ ok x)
nth-IsOk [] n h = absurd (ground arith)
nth-IsOk (x ∷ xs) zero h = (x, refl)
nth-IsOk (x ∷ xs) (suc n) h = nth-IsOk xs n (ground (arith, h))

pub item_at-IsOk :
    {A : Type 0} (xs : List A) (e : ℤ) → is_index xs e ≡ true → (x : A) × (item_at xs e ≡ ok x)
unfolding item_at
item_at-IsOk xs (pos n) h =
    let (x, there) = nth-IsOk xs n (ground (arith, h)) in (x, rw (h, there) refl)
item_at-IsOk xs (negsuc n) h = absurd (ground (arith, h))

module _ {A : Type 0} (locations : List A) where
  pub item_at-inside :
      (e : ℤ) → is_index locations e ≡ true → item_at locations e ≡ get_item locations e
  unfolding item_at
  item_at-inside e h = rw h refl

  pub item_at-outside :
      (e : ℤ) → is_index locations e ≡ false → item_at locations e ≡ err catalog_parse_error
  unfolding item_at
  item_at-outside e h = rw h refl

module _ (locations : List Object) where
  abbrev some_outside : List ℤ → Bool
  some_outside [] = false
  some_outside (e ∷ es) = not (is_index locations e) || some_outside es

  -- The smallest and the largest of what came before stand for all of it.
  extremes :
      (m n : ℤ) (es : List ℤ)
      → (ltb_ℤ (least m es) (pos 0) || leb_ℤ (pos (length locations)) (greatest n es))
        ≡ (ltb_ℤ m (pos 0) || leb_ℤ (pos (length locations)) n || some_outside es)
  extremes m n [] = ground arith
  extremes m n (e ∷ es) =
      ground (arith, extremes (if ltb_ℤ e m then e else m) (if ltb_ℤ n e then e else n) es)

  outside-raises :
      (es : List ℤ)
      → some_outside es ≡ true
      → for_each (item_at locations) es ≡ err catalog_parse_error
  unfolding for_each
  outside-raises [] h = absurd cc
  outside-raises (e ∷ es) h = elim (Bool-cases (is_index locations e)) [
    | inl k ↦
        let (x, there) = item_at-IsOk locations e k in
        rw (there, outside-raises es (ground (arith, h, k))) refl
    | inr k ↦ rw (item_at-outside locations e k) refl
  ]

  inside-same :
      (es : List ℤ)
      → some_outside es ≡ false
      → for_each (item_at locations) es ≡ for_each (get_item locations) es
  unfolding for_each
  inside-same [] h = refl
  inside-same (e ∷ es) h =
      rw (item_at-inside locations e (ground (arith, h)), inside-same es (ground (arith, h))) refl

  checked :
      (es : List ℤ)
      → (if some_outside es then check_entries locations es else ok tt)
          >>= (λ _. for_each (get_item locations) es)
        ≡ for_each (item_at locations) es
  checked es = elim (Bool-cases (some_outside es)) [
    | inl k ↦ rw (k, outside-raises es k) refl
    | inr k ↦ rw (k, inside-same es k) refl
  ]

  one_entry : (e : ℤ) → bucket_locations locations (e ∷ []) ≡ for_each (item_at locations) (e ∷ [])
  unfolding bucket_locations for_each
  one_entry e = elim (Bool-cases (is_index locations e)) [
    | inl k ↦ rw (k, ← item_at-inside locations e k) refl
    | inr k ↦ rw k refl
  ]

  outside-test : (d : ℤ) (es : List ℤ) → any_outside locations (d ∷ es) ≡ some_outside (d ∷ es)
  outside-test d es = ground (arith, extremes d d es)

  -- The locations of a bucket are those at its entries, and a bucket with an entry that is out of
  -- range raises CatalogParseError: the tests on the whole list do what a test of each entry does.
  pub bucket_locations-item_at :
      (es : List ℤ) → bucket_locations locations es ≡ for_each (item_at locations) es
  unfolding bucket_locations
  bucket_locations-item_at [] = refl
  bucket_locations-item_at (e ∷ []) = one_entry e
  bucket_locations-item_at (d ∷ e ∷ es) = rw (outside-test d (e ∷ es)) (checked (d ∷ e ∷ es))
