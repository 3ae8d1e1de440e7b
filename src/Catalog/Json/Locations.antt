-- ===== src/Catalog/Json/Locations.antt =====
-- The locations of a JSON catalog: `_read_locations` of src/addressablestools/catalog.py.
use addressables_tools_py.Prelude.{
  ◌+◌, ◌*◌, ℤ, pos, ◌+ℤ◌, List, [], ◌∷◌, map, Option, none, some, length, drop, ltb, leb_ℤ,
  if◌then◌else◌,
}
use addressables_tools_py.Python.Exec.{
  Result, ok, Exec, pure, lift, raise_if, for_each, ◌>>=◌, ◌>>◌, catalog_parse_error,
}
use addressables_tools_py.Python.Result
use addressables_tools_py.Python.Stream
use addressables_tools_py.Python.Stream.{Bytes}
use addressables_tools_py.Python.Struct.{int32, unpack_from}
use addressables_tools_py.Python.Sequence.{get_item}
use addressables_tools_py.Python.Codec.{Str}
use addressables_tools_py.Python.Json.{Builtins}
use addressables_tools_py.Models.Object.{Object, nothing, str, serialized_type, SerializedType}
use addressables_tools_py.Models.Catalog.{ResourceLocation, ContentCatalogData}
use addressables_tools_py.Binary.Reader.{BinaryReader, on_stream}
use addressables_tools_py.Decoder.Version1.{decode_v1_typed}
use addressables_tools_py.Decoder.Json.{decode_asset_bundle_request_options_json}
use addressables_tools_py.Catalog.Locations.{times_31}
use addressables_tools_py.Catalog.Json.Buckets.{natural}
use addressables_tools_py.Catalog.Json.Prefixes.{apply_internal_id_prefix}
use addressables_tools_py.Catalog.Json.Records.{
  Tables, LocationRecord, records, check_record, key_at,
}

module _ (b : Builtins) where
  -- The data of a location, from the extra data.
  unfoldable pub read_data : ℤ → Exec BinaryReader (Object × Option SerializedType)
  unfolding Stream.seek decode_v1_typed decode_asset_bundle_request_options_json
  read_data data_index =
      if leb_ℤ (pos 0) data_index
      then (on_stream (Stream.seek data_index (pos 0))
          >> decode_v1_typed (decode_asset_bundle_request_options_json b))
      else pure (nothing, none)

  -- The internal IDs with their prefixes, where the catalog has prefixes.
  unfoldable pub prefixed_ids : List Str → List Str → Result (List Str)
  unfolding apply_internal_id_prefix Result.for_each
  prefixed_ids [] ids = ok ids
  prefixed_ids (p ∷ ps) ids = Result.for_each (apply_internal_id_prefix b (p ∷ ps)) ids

-- `hash` is Python's hash, and `text_of_object` str() of a key that is not a text.
module _ (b : Builtins) (hash : Option Str → ℤ) (text_of_object : Object → Str) where
  -- str(primary_key)
  abbrev pub key_text : Object → Str
  key_text (str s) = s
  key_text x = text_of_object x

  -- The body of the loop over the records.
  unfoldable pub read_location : Tables → LocationRecord → Exec BinaryReader ResourceLocation
  unfolding check_record read_data
  read_location t x = do
    lift (check_record t x)
    internal_id ← lift (get_item t.internal_ids x.internal_id_index)
    provider_id ← lift (get_item t.provider_ids x.provider_index)
    dependency_key ← lift (key_at t x)
    (value, value_type) ← read_data b x.data_index
    primary_key ← lift (get_item t.primary_keys x.primary_key_index)
    provider_hash ← lift (get_item t.provider_hashes x.provider_index)
    resource_type ← lift (get_item t.resource_types x.resource_type_index)
    pure (record {
      internal_id = some internal_id;
      provider_id = some provider_id;
      dependency_key = dependency_key;
      dependencies = none;
      payload = value;
      hash_code = times_31 (hash (some internal_id)) +ℤ provider_hash;
      dependency_hash_code = x.dependency_hash;
      primary_key = some (key_text primary_key);
      type = serialized_type resource_type;
      data_type = value_type;
    })

  abbrev keys_or : Option (List Str) → List Object → List Object
  keys_or none keys = keys
  keys_or (some texts) keys = map str texts

  abbrev pub tables : ContentCatalogData → List Object → List Str → Tables
  tables catalog keys internal_ids = record {
    internal_ids = internal_ids;
    provider_ids = catalog.provider_ids;
    provider_hashes = map (λ s. hash (some s)) catalog.provider_ids;
    keys = keys;
    primary_keys = keys_or catalog.keys keys;
    resource_types = catalog.resource_types;
  }

  -- What is read of the two byte strings, over a reader of the second.
  unfoldable pub read_location_bytes :
      ContentCatalogData → List Object → Bytes → Exec BinaryReader (List ResourceLocation)
  unfolding unpack_from records prefixed_ids for_each read_location
  read_location_bytes catalog keys entry_data = do
    (raw_count, _) ← lift (unpack_from (int32 ∷ []) entry_data 0)
    entry_count ← lift (natural raw_count)
    raise_if (ltb (length entry_data) (4 + entry_count * 28)) catalog_parse_error
    internal_ids ← lift (prefixed_ids b catalog.internal_id_prefixes catalog.internal_ids)
    for_each (read_location (tables catalog keys internal_ids))
        (records entry_count (drop 4 entry_data))
