-- ===== src/Catalog/Json/Refusals.antt =====
-- The exceptions of the keys and the locations of a JSON catalog.
use addressables_tools_py.Prelude.{
  ℕ, ◌+◌, ◌*◌, ℤ, pos, refl, not, ◌==◌, List, [], ◌∷◌, Option, none, some, leb, ltb, leb_ℤ, length,
  drop, inl, inr,
}
use addressables_tools_py.Python.Exec.{
  Result, ok, err, Result-cases, is_value_error, catalog_parse_error,
}
use addressables_tools_py.Python.Exec.Raises.{
  Raises, RaisesIn, RaisesIn-pure, RaisesIn-lift, RaisesIn-bind, RaisesIn-if, RaisesIn-raise_if,
  RaisesIn-for_each,
}
use addressables_tools_py.Python.Result.Raises.{
  Raises-ok, Raises-err, Raises-if, Raises-bind, Raises-for_each,
}
use addressables_tools_py.Python.Stream.{Bytes}
use addressables_tools_py.Python.Struct.{int32}
use addressables_tools_py.Python.Base64.{b64decode}
use addressables_tools_py.Python.Codec.{Str}
use addressables_tools_py.Python.Json.{Builtins, RaisesAsDocumented}
use addressables_tools_py.Models.Object.{Object}
use addressables_tools_py.Models.Catalog.{ContentCatalogData}
use addressables_tools_py.Binary.Reader.Errors.{
  IsDataError, seek-errors, read_int32-errors, ascii-Raises, utf16-Raises,
}
use addressables_tools_py.Decoder.Json.Errors.{options-errors}
use addressables_tools_py.Decoder.Version1.Errors.{decode_v1_typed-errors, decode_v1-errors}
use addressables_tools_py.Catalog.Json.Texts.{as_str, read_text_key}
use addressables_tools_py.Catalog.Json.Keys.{
  keys_of, decode_at, read_key, read_key_bytes, read_keys, reader_over,
}
use addressables_tools_py.Catalog.Json.Prefixes.{
  with_prefix, prefixed, apply_internal_id_prefix, split_at_hash,
}
use addressables_tools_py.Catalog.Json.Records.{
  Tables, LocationRecord, done, key_at, check_fields, check_record, is_valid, records,
}
use addressables_tools_py.Catalog.Json.Fields.{is_index}
use addressables_tools_py.Catalog.Json.Locations.{
  read_data, prefixed_ids, read_location, read_location_bytes, tables,
}
use addressables_tools_py.Catalog.Json.Errors.{
  get_item-errors, item_at-errors, unpack_from-errors, b64decode-errors, natural-errors,
}

as_str-errors : (r : Result Str) → Raises IsDataError r → Raises IsDataError (as_str r)
as_str-errors (ok s) h = Raises-ok _
as_str-errors (err e) h = Raises-err h.at

text_key-errors : (t : ℕ) (bs : Bytes) (p : ℕ) → Raises IsDataError (read_text_key t bs p)
unfolding read_text_key
text_key-errors t bs p = Raises-bind (unpack_from-errors (int32 ∷ []) bs (p + 1)) λ found.
    Raises-bind (natural-errors found.0) λ count.
      Raises-if (ltb (length bs) (p + 5 + count)) (Raises-err refl)
        (as_str-errors _ (Raises-if (t == 0) (ascii-Raises _) (utf16-Raises _)))

prefixed-errors :
    (prefixes : List Str) (id rest : Str) (r : Result ℤ)
    → Raises IsDataError r
    → Raises IsDataError (with_prefix prefixes id rest r)
prefixed-errors prefixes id rest (ok n) h =
    Raises-if (is_index prefixes n) (Raises-bind (get_item-errors prefixes n) λ found. Raises-ok _)
      (Raises-ok id)
prefixed-errors prefixes id rest (err e) h =
    Raises-if (is_value_error e) (Raises-ok id) (Raises-err h.at)

done-errors : {A : Type 0} (r : Result A) → Raises IsDataError r → Raises IsDataError (done r)
done-errors (ok a) h = Raises-ok tt
done-errors (err e) h = Raises-err h.at

module _ (t : Tables) (x : LocationRecord) where
  check_record-errors : Raises IsDataError (check_record t x)
  unfolding check_record check_fields
  check_record-errors = Raises-if (is_valid t x) (Raises-ok tt) (
      Raises-bind (item_at-errors t.internal_ids x.internal_id_index) λ _.
        Raises-bind (item_at-errors t.provider_ids x.provider_index) λ _.
          Raises-bind
            (Raises-if (leb_ℤ (pos 0) x.dependency_key_index)
              (done-errors _ (item_at-errors t.keys x.dependency_key_index)) (Raises-ok tt))
            λ _. Raises-bind (item_at-errors t.primary_keys x.primary_key_index) λ _.
              Raises-bind (item_at-errors t.resource_types x.resource_type_index) λ _. Raises-ok tt)

  key_at-errors : Raises IsDataError (key_at t x)
  key_at-errors =
      Raises-if (leb_ℤ (pos 0) x.dependency_key_index)
        (get_item-errors t.keys x.dependency_key_index) (Raises-ok _)

module _ (b : Builtins) (documented : RaisesAsDocumented b) where
  decode_at-errors : (p : ℕ) → RaisesIn IsDataError (decode_at b p)
  unfolding decode_at
  decode_at-errors p =
      RaisesIn-bind (seek-errors (pos p)) λ _. decode_v1-errors _ (options-errors b documented)

  read_key-errors : (bs : Bytes) (p : ℕ) → RaisesIn IsDataError (read_key b bs p)
  unfolding read_key
  read_key-errors bs p =
      RaisesIn-bind (RaisesIn-lift (get_item-errors bs (pos p)))
        λ t. RaisesIn-if (leb t 1) (RaisesIn-lift (text_key-errors t bs p)) (decode_at-errors p)

  key_bytes-errors : (ps : List ℕ) (bs : Bytes) → RaisesIn IsDataError (read_key_bytes b ps bs)
  unfolding read_key_bytes
  key_bytes-errors ps bs = RaisesIn-bind read_int32-errors λ found.
      RaisesIn-bind (RaisesIn-lift (natural-errors found)) λ count.
        RaisesIn-bind (RaisesIn-raise_if (not (count == length ps)) catalog_parse_error refl)
          λ _. RaisesIn-for_each ps (read_key-errors bs)

  keys_of-errors :
      (ps : List ℕ) (r : Result Bytes) → Raises IsDataError r → Raises IsDataError (keys_of b ps r)
  keys_of-errors ps (ok bs) h = record { at = (key_bytes-errors ps bs).at (reader_over bs) }
  keys_of-errors ps (err e) h = Raises-err h.at

  pub read_keys-errors : (s : Str) (ps : List ℕ) → Raises IsDataError (read_keys b s ps)
  unfolding read_keys
  read_keys-errors s ps = keys_of-errors ps (b64decode s) (b64decode-errors s)

  int_of_text-errors : (s : Str) → Raises IsDataError (b.int_of_text s)
  int_of_text-errors s = elim (Result-cases (b.int_of_text s)) [
    | inl (n, e) ↦ rw e (Raises-ok n)
    | inr (x, e) ↦ rw (e, documented.text_raises s x e) (Raises-err refl)
  ]

  split-errors :
      (prefixes : List Str) (id : Str) (found : Option (Str × Str))
      → Raises IsDataError (prefixed b prefixes id found)
  split-errors prefixes id none = Raises-ok id
  split-errors prefixes id (some (before, rest)) =
      prefixed-errors prefixes id rest _ (int_of_text-errors before)

  prefix-errors :
      (prefixes : List Str) (id : Str) → Raises IsDataError (apply_internal_id_prefix b prefixes id)
  unfolding apply_internal_id_prefix
  prefix-errors prefixes id = split-errors prefixes id (split_at_hash id)

  prefixed_ids-errors : (ps ids : List Str) → Raises IsDataError (prefixed_ids b ps ids)
  unfolding prefixed_ids
  prefixed_ids-errors [] ids = Raises-ok ids
  prefixed_ids-errors (p ∷ ps) ids = Raises-for_each ids (prefix-errors (p ∷ ps))

  payload-errors : (n : ℤ) → RaisesIn IsDataError (read_data b n)
  unfolding read_data
  payload-errors n =
      RaisesIn-if (leb_ℤ (pos 0) n)
        (RaisesIn-bind (seek-errors n) λ _. decode_v1_typed-errors _ (options-errors b documented))
        (RaisesIn-pure _)

  module _ (hash : Option Str → ℤ) (text_of_object : Object → Str) where
    location-errors :
        (t : Tables) (x : LocationRecord)
        → RaisesIn IsDataError (read_location b hash text_of_object t x)
    unfolding read_location
    location-errors t x = RaisesIn-bind (RaisesIn-lift (check_record-errors t x)) λ _.
        RaisesIn-bind (RaisesIn-lift (get_item-errors t.internal_ids x.internal_id_index)) λ id.
          RaisesIn-bind (RaisesIn-lift (get_item-errors t.provider_ids x.provider_index))
            λ provider. RaisesIn-bind (RaisesIn-lift (key_at-errors t x)) λ key.
              RaisesIn-bind (payload-errors x.data_index) λ value.
                RaisesIn-bind (RaisesIn-lift (get_item-errors t.primary_keys x.primary_key_index))
                  λ primary.
                    RaisesIn-bind
                      (RaisesIn-lift (get_item-errors t.provider_hashes x.provider_index))
                      λ provider_hash.
                        RaisesIn-bind
                          (RaisesIn-lift (get_item-errors t.resource_types x.resource_type_index))
                          λ type. RaisesIn-pure _

    pub location_bytes-errors :
        (catalog : ContentCatalogData) (keys : List Object) (bs : Bytes)
        → RaisesIn IsDataError (read_location_bytes b hash text_of_object catalog keys bs)
    unfolding read_location_bytes
    location_bytes-errors catalog keys bs =
        RaisesIn-bind (RaisesIn-lift (unpack_from-errors (int32 ∷ []) bs 0)) λ found.
          RaisesIn-bind (RaisesIn-lift (natural-errors found.0)) λ count.
            RaisesIn-bind
              (RaisesIn-raise_if (ltb (length bs) (4 + count * 28)) catalog_parse_error refl)
              λ _.
                RaisesIn-bind
                  (RaisesIn-lift
                    (prefixed_ids-errors catalog.internal_id_prefixes catalog.internal_ids))
                  λ ids.
                    RaisesIn-for_each (records count (drop 4 bs))
                      (location-errors (tables b hash text_of_object catalog keys ids))
