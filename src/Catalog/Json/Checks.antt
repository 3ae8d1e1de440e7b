-- ===== src/Catalog/Json/Checks.antt =====
-- The checks of a location's indexes, in `_read_locations` of src/addressablestools/catalog.py.
use addressables_tools_py.Prelude.{
  ℕ, ℤ, pos, negsuc, ◌≡◌, refl, Bool, true, false, ◌&&◌, List, length, leb_ℤ, ltb_ℤ, inl, inr, ◌⊎◌,
  arith, Bool-cases, if◌then◌else◌, suc, map, some, Option, ap, [], ◌∷◌,
}
use addressables_tools_py.Python.Exec.{Result-cases, Result, ok, err, catalog_parse_error}
use addressables_tools_py.Python.Result.{◌>>◌}
use addressables_tools_py.Python.Sequence.{get_item}
use addressables_tools_py.Python.Codec.{Str}
use addressables_tools_py.Python.Json.{Builtins}
use addressables_tools_py.Models.Object.{Object, nothing, SerializedType}
use addressables_tools_py.Models.Catalog.{ContentCatalogData, ResourceLocation}
use addressables_tools_py.Catalog.Json.Locations.{tables, read_location, read_data}
use addressables_tools_py.Binary.Reader.{BinaryReader}
use addressables_tools_py.Catalog.Json.Fields.{item_at, is_index}
use addressables_tools_py.Catalog.Json.Entries.{item_at-IsOk, item_at-inside, item_at-outside}
use addressables_tools_py.Catalog.Json.Records.{
  Tables, LocationRecord, is_valid, done, check_key, check_fields, check_record, key_at,
}

-- What an access says, when only the success counts.
item_at-done :
    {A : Type 0} (xs : List A) (i : ℤ)
    → done (item_at xs i) ≡ (if is_index xs i then ok tt else err catalog_parse_error)
item_at-done xs i = elim (Bool-cases (is_index xs i)) [
  | inl e ↦ let (x, there) = item_at-IsOk xs i e in rw (there, e) refl
  | inr e ↦ rw (item_at-outside xs i e, e) refl
]

abbrev passes : Bool → Result (Unit {0})
passes b = if b then ok tt else err catalog_parse_error

module _ {A : Type 0} where
  -- A check, and what follows it.
  check-then :
      (xs : List A) (i : ℤ) (b : Bool) (rest : Result (Unit {0}))
      → rest ≡ passes b
      → (item_at xs i >> rest) ≡ passes (is_index xs i && b)
  check-then xs i b rest h = elim (Bool-cases (is_index xs i)) [
    | inl e ↦ let (x, there) = item_at-IsOk xs i e in rw (there, e) h
    | inr e ↦ rw (item_at-outside xs i e, e) refl
  ]

negative-below : (i : ℤ) (n : ℕ) → leb_ℤ (pos 0) i ≡ false → ltb_ℤ i (pos n) ≡ true
negative-below (pos i) n h = ground (arith, h)
negative-below (negsuc i) n h = ground arith

pass-then :
    {r : Result (Unit {0})} (a b : Bool) (rest : Result (Unit {0}))
    → r ≡ passes a
    → rest ≡ passes b
    → (r >> rest) ≡ passes (a && b)
pass-then true b rest h k = rw h k
pass-then false b rest h k = rw h refl

module _ (t : Tables) (x : LocationRecord) where
  abbrev key_below : Bool
  key_below = ltb_ℤ x.dependency_key_index (pos (length t.keys))

  -- A dependency is checked if its index is not negative.
  check_key-passes : check_key t x ≡ passes key_below
  check_key-passes = elim (Bool-cases (leb_ℤ (pos 0) x.dependency_key_index)) [
    | inl e ↦ rw (e, item_at-done t.keys x.dependency_key_index, e) refl
    | inr e ↦ rw (e, negative-below x.dependency_key_index (length t.keys) e) refl
  ]

  valid_nested : is_valid t x ≡ (
      is_index t.internal_ids x.internal_id_index
      && (is_index t.provider_ids x.provider_index
          && (key_below
              && (is_index t.primary_keys x.primary_key_index
                  && (is_index t.resource_types x.resource_type_index && true)))))
  valid_nested = ground arith

  check_fields-passes : check_fields t x ≡ passes (is_valid t x)
  unfolding check_fields
  check_fields-passes = rw valid_nested (
      check-then t.internal_ids x.internal_id_index _ _ (
        check-then t.provider_ids x.provider_index _ _ (
          pass-then key_below _ _ check_key-passes (
            check-then t.primary_keys x.primary_key_index _ _
              (check-then t.resource_types x.resource_type_index true _ refl)))))

abbrev pub Found : {A : Type 0} → Result A → Type 0
Found {A} r = (a : A) × (r ≡ ok a)

get_item-Found : {A : Type 0} (xs : List A) (i : ℤ) → is_index xs i ≡ true → Found (get_item xs i)
get_item-Found xs i h =
    let (x, there) = item_at-IsOk xs i h in (x, rw (item_at-inside xs i h) at there)

-- The accesses that the loop makes without a check.
abbrev pub IsReadable : Tables → LocationRecord → Type 0
IsReadable t x =
    Found (get_item t.internal_ids x.internal_id_index)
    × Found (get_item t.provider_ids x.provider_index)
    × Found (key_at t x)
    × Found (get_item t.primary_keys x.primary_key_index)
    × Found (get_item t.provider_hashes x.provider_index)
    × Found (get_item t.resource_types x.resource_type_index)

module _ (t : Tables) (x : LocationRecord) where
  key_at-Found : key_below t x ≡ true → Found (key_at t x)
  key_at-Found h = elim (Bool-cases (leb_ℤ (pos 0) x.dependency_key_index)) [
    | inl e ↦ rw e (get_item-Found t.keys x.dependency_key_index (ground (arith, e, h)))
    | inr e ↦ rw e (nothing, refl)
  ]

  -- The lists of provider IDs and of their hashes have one length.
  abbrev IsHashed : Type 0
  IsHashed = length t.provider_ids ≡ length t.provider_hashes

  valid-IsReadable : IsHashed → is_valid t x ≡ true → IsReadable t x
  valid-IsReadable hashed h = (
    get_item-Found t.internal_ids x.internal_id_index (ground (arith, h)),
    get_item-Found t.provider_ids x.provider_index (ground (arith, h)),
    key_at-Found (ground (arith, h)),
    get_item-Found t.primary_keys x.primary_key_index (ground (arith, h)),
    get_item-Found t.provider_hashes x.provider_index (ground (arith, h, hashed)),
    get_item-Found t.resource_types x.resource_type_index (ground (arith, h)),
  )

  -- What the checks say: the record can be read, or a CatalogParseError.
  abbrev pub CheckedAs : Result (Unit {0}) → Type 0
  CheckedAs (ok _) = IsReadable t x
  CheckedAs (err e) = (is_valid t x ≡ false) × (e ≡ catalog_parse_error)

  fields-CheckedAs : IsHashed → CheckedAs (check_fields t x)
  fields-CheckedAs hashed = rw (check_fields-passes t x) (elim (Bool-cases (is_valid t x)) [
    | inl e ↦ rw (e, CheckedAs, passes) (valid-IsReadable hashed e)
    | inr e ↦ rw (e, CheckedAs, passes) (e, refl)
  ])

  -- Why a record is not read: an index of it is out of range, or its data raises.
  abbrev pub RaisedBy : Result ResourceLocation → Result (Object × Option SerializedType) → Type 0
  RaisedBy (ok _) payload = Unit
  RaisedBy (err e) payload =
      ((is_valid t x ≡ false) × (e ≡ catalog_parse_error)) ⊎ (payload ≡ err e)

  checked_once : check_record t x ≡ check_fields t x
  unfolding check_record
  checked_once = elim (Bool-cases (is_valid t x)) [
    | inl e ↦ rw (e, check_fields-passes t x, e) refl
    | inr e ↦ rw e refl
  ]

length-map : {A B : Type 0} (f : A → B) (xs : List A) → length xs ≡ length (map f xs)
length-map f [] = refl
length-map f (x ∷ xs) = ap suc (length-map f xs)

module _ (b : Builtins) (hash : Option Str → ℤ) (text_of_object : Object → Str) (t : Tables)
    (x : LocationRecord) where
  read_location-RaisedBy :
      (r : BinaryReader)
      → IsHashed t x
      → RaisedBy t x (read_location b hash text_of_object t x r).0 (read_data b x.data_index r).0
  unfolding read_location
  read_location-RaisedBy r hashed = elim (Bool-cases (is_valid t x)) [
    | inr e ↦ rw (checked_once t x, check_fields-passes t x, e) (inl (e, refl))
    | inl e ↦
        let ((_, id), (_, provider), (_, key), (_, primary), (_, hashes), (_, type)) =
          valid-IsReadable t x hashed e in
        let checked : check_record t x ≡ ok tt =
          rw (checked_once t x, check_fields-passes t x, e) refl in
        elim (Result-cases (read_data b x.data_index r).0) [
          | inl (v, d) ↦ rw (checked, id, provider, key, d, primary, hashes, type) tt
          | inr (y, d) ↦ rw (checked, id, provider, key, d) (inr refl)
        ]
  ]

module _ (b : Builtins) (hash : Option Str → ℤ) (text_of_object : Object → Str)
    (catalog : ContentCatalogData) (keys : List Object) (ids : List Str) (x : LocationRecord)
    (r : BinaryReader) where
  -- The test of the loop stands for the five checks: together they do what the checks alone do. After
  -- them every access that the loop makes to the lists of a catalog and to the hashes of its provider
  -- IDs succeeds, or they raise CatalogParseError. So the body of the loop raises CatalogParseError for
  -- an index out of range, and nothing else but what decoding the data of the location raises.
  pub check_record-CheckedAs :
      (check_record (tables b hash text_of_object catalog keys ids) x
        ≡ check_fields (tables b hash text_of_object catalog keys ids) x)
      × CheckedAs
          (tables b hash text_of_object catalog keys ids)
          x
          (check_record (tables b hash text_of_object catalog keys ids) x)
      × RaisedBy
          (tables b hash text_of_object catalog keys ids)
          x
          (read_location b hash text_of_object
            (tables b hash text_of_object catalog keys ids)
            x
            r).0
          (read_data b x.data_index r).0
  check_record-CheckedAs =
      let t = tables b hash text_of_object catalog keys ids in
      let hashed = length-map (λ s. hash (some s)) catalog.provider_ids in
      (
        checked_once t x,
        rw (checked_once t x) (fields-CheckedAs t x hashed),
        read_location-RaisedBy b hash text_of_object t x r hashed,
      )
