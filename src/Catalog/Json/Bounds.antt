-- ===== src/Catalog/Json/Bounds.antt =====
-- What the table of a JSON catalog holds, in `_decode_json_resources` of
-- src/addressablestools/catalog.py: each of its lists is that of a bucket, by places that are in range.
use addressables_tools_py.Prelude.{
  ℕ, zero, suc, ◌+◌, ◌<◌, ℤ, pos, negsuc, ◌≡◌, ◌∙◌, refl, true, ap, List, [], ◌∷◌, length, map, All,
  inl, inr, ◌⊎◌, arith, Bool-cases, Option,
}
use addressables_tools_py.Prelude.Dict
use addressables_tools_py.Python.Exec.{ok}
use addressables_tools_py.Python.Result.{for_each}
use addressables_tools_py.Python.Result.Returns.{
  Returns, Returns-ok, Returns-err, Returns-if, Returns-itself, Returns-bind, Returns-weaken,
}
use addressables_tools_py.Python.Sequence.{nth}
use addressables_tools_py.Python.Codec.{Str}
use addressables_tools_py.Python.Text.{codes}
use addressables_tools_py.Python.Json.{Json, Members, Builtins}
use addressables_tools_py.Python.Json.Convert.{get_member, to_str}
use addressables_tools_py.Models.Object.{Object, location}
use addressables_tools_py.Models.Catalog.{
  ContentCatalogData, Resources, set_resource, is_hashable, object_key, key_eq,
}
use addressables_tools_py.Catalog.Json.Fields.{item_at, is_index}
use addressables_tools_py.Catalog.Json.Resources.{
  Decoded, places, read_locations, bucket_locations, fill_table, decode_json_resources,
}
use addressables_tools_py.Catalog.Json.Buckets.{read_buckets}
use addressables_tools_py.Catalog.Json.Keys.{read_keys}
use addressables_tools_py.Catalog.Json.Entries.{item_at-outside, bucket_locations-item_at}

-- The entries of the bucket are these places, of n, and the list has the locations there.
abbrev pub HasEntries : ℕ → List ℤ → List Object → Type 0
HasEntries n entries found =
    (ns : List ℕ) × (entries ≡ map pos ns) × All (λ i. i < n) ns × (found ≡ map location ns)

-- A key and its list in the table: those of one of the buckets, whose key is this one or equal to it.
abbrev pub IsOfBucket : ℕ → List Object → List (List ℤ) → Object → List Object → Type 0
IsOfBucket n [] buckets key found = ⊥
IsOfBucket n (k ∷ keys) [] key found = ⊥
IsOfBucket n (k ∷ keys) (entries ∷ buckets) key found =
    (((key ≡ k) ⊎ (key_eq key k ≡ true)) × HasEntries n entries found)
    ⊎ IsOfBucket n keys buckets key found

-- A rule for each key and list of a table.
abbrev pub Entries : (Object → List Object → Type 0) → Resources → Type 0
Entries P [] = Unit
Entries P ((key, found) ∷ rest) = P key found × Entries P rest

nth-places :
    {A : Type 0} (m n : ℕ) (xs : List A)
    → Returns (λ x. (x ≡ location (m + n)) × (n < length xs)) (nth (places m xs) n)
unfolding places
nth-places m n [] = Returns-err _
nth-places m zero (x ∷ xs) = Returns-ok (ap location (omega arith), omega arith)
nth-places m (suc n) (x ∷ xs) =
    Returns-weaken (nth-places (suc m) n xs)
      λ y (same, small). (rw same (ap location (omega arith)), omega (arith, small))

-- An entry that is in range, and the location there.
abbrev IsEntry : ℕ → ℤ → Object → Type 0
IsEntry n e x = (i : ℕ) × (e ≡ pos i) × (i < n) × (x ≡ location i)

item_at-IsEntry :
    {A : Type 0} (xs : List A) (e : ℤ) → Returns (IsEntry (length xs) e) (item_at (places 0 xs) e)
unfolding item_at
item_at-IsEntry xs (pos n) =
    Returns-if (is_index (places 0 xs) (pos n))
      (Returns-weaken (nth-places 0 n xs)
        λ x (same, small). (n, refl, small, same ∙ ap location (omega arith)))
      (Returns-err _)
item_at-IsEntry xs (negsuc n) =
    rw (item_at-outside (places 0 xs) (negsuc n) (ground arith)) (Returns-err _)

module _ {A : Type 0} (xs : List A) where
  entries-HasEntries :
      (es : List ℤ) → Returns (HasEntries (length xs) es) (for_each (item_at (places 0 xs)) es)
  unfolding for_each
  entries-HasEntries [] = Returns-ok ([], refl, tt, refl)
  entries-HasEntries (e ∷ es) = Returns-bind (item_at-IsEntry xs e) λ x (i, here, small, there).
      Returns-bind (entries-HasEntries es) λ found (ns, same, all, listed).
        Returns-ok (i ∷ ns, rw (here, same) refl, (small, all), rw (there, listed) refl)

  bucket-HasEntries :
      (es : List ℤ) → Returns (HasEntries (length xs) es) (bucket_locations (places 0 xs) es)
  bucket-HasEntries es = rw (bucket_locations-item_at (places 0 xs) es) (entries-HasEntries es)

module _ (P : Object → List Object → Type 0) where
  put-Entries :
      (table : Resources) (key : Object) (found : List Object)
      → Entries P table
      → ((k : Object) → (k ≡ key) ⊎ (key_eq k key ≡ true) → P k found)
      → Entries P (Dict.put table key found)
  unfolding Dict.put
  put-Entries [] key found h new = (new key (inl refl), tt)
  put-Entries ((j, old) ∷ table) key found h new = elim (Bool-cases (key_eq j key)) [
    | inl e ↦ rw e (new j (inr e), h.1)
    | inr e ↦ rw e (h.0, put-Entries table key found h.1 new)
  ]

  set_resource-Entries :
      (table : Resources) (key : Object) (found : List Object)
      → Entries P table
      → ((k : Object) → (k ≡ key) ⊎ (key_eq k key ≡ true) → P k found)
      → Returns (Entries P) (set_resource table key found)
  unfolding set_resource
  set_resource-Entries table key found h new =
      Returns-if (is_hashable key) (Returns-ok (put-Entries table key found h new)) (Returns-err _)

  fill_table-Entries :
      {A : Type 0} (xs : List A) (keys : List Object) (buckets : List (List ℤ)) (table : Resources)
      → Entries P table
      → ((k : Object) (found : List Object)
          → IsOfBucket (length xs) keys buckets k found
          → P k found)
      → Returns (Entries P) (fill_table (places 0 xs) keys buckets table)
  unfolding fill_table
  fill_table-Entries xs (key ∷ keys) (es ∷ buckets) table h new =
      Returns-bind (bucket-HasEntries xs es) λ found listed.
        Returns-bind
          (set_resource-Entries table key found h λ k same. new k found (inl (same, listed)))
          λ table' h'.
            fill_table-Entries xs keys buckets table' h' λ k found' of. new k found' (inr of)
  fill_table-Entries xs [] buckets table h new = Returns-ok h
  fill_table-Entries xs (key ∷ keys) [] table h new = Returns-ok h

module _ (b : Builtins) (hash : Option Str → ℤ) (text_of_object : Object → Str)
    (catalog : ContentCatalogData) (raw : Members) where
  -- The keys and the buckets that the catalog's data has, and the table of these buckets, over the
  -- locations that were read.
  abbrev pub IsOfCatalog : Decoded → Type 0
  IsOfCatalog (table, locations) =
      (bucket_data : Json) × (key_data : Json) × (offsets : List ℕ) × (buckets : List (List ℤ))
      × (keys : List Object) × (get_member raw (codes "m_BucketDataString") ≡ ok bucket_data)
      × (read_buckets (to_str b bucket_data) ≡ ok (offsets, buckets))
      × (get_member raw (codes "m_KeyDataString") ≡ ok key_data)
      × (read_keys b (to_str b key_data) offsets ≡ ok keys)
      × (read_locations b hash text_of_object catalog raw keys ≡ ok locations)
      × Entries (IsOfBucket (length locations) keys buckets) table

  -- Every key of the table that decode_json_resources returns is, or equals, a key that was read, and
  -- its list has, in order, the locations at the entries of that key's bucket, none of which is
  -- negative or beyond the locations that were read.
  pub decode_json_resources-IsOfCatalog :
      Returns IsOfCatalog (decode_json_resources b hash text_of_object catalog raw)
  unfolding decode_json_resources
  decode_json_resources-IsOfCatalog =
      Returns-bind (Returns-itself (get_member raw (codes "m_BucketDataString"))) λ bucket_data h.
        Returns-bind (Returns-itself (read_buckets (to_str b bucket_data))) λ (offsets, buckets) h'.
          Returns-bind (Returns-itself (get_member raw (codes "m_KeyDataString"))) λ key_data k.
            Returns-bind (Returns-itself (read_keys b (to_str b key_data) offsets)) λ keys k'.
              Returns-bind (Returns-itself (read_locations b hash text_of_object catalog raw keys))
                λ locations l.
                  Returns-bind
                    (fill_table-Entries (IsOfBucket (length locations) keys buckets) locations keys
                      buckets [] tt λ key found of. of)
                    λ table all.
                      Returns-ok
                        (bucket_data, key_data, offsets, buckets, keys, h, h', k, k', l, all)
