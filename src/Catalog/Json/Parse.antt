-- ===== src/Catalog/Json/Parse.antt =====
-- `parse_json_catalog` of src/addressablestools/catalog.py.
use addressables_tools_py.Prelude.{
  ℤ, pos, Bool, true, false, List, [], map, Option, none, some, if◌then◌else◌,
}
use addressables_tools_py.Python.Exec.{
  PyError, Result, ok, err, rescue, is_catalog_parse_error, is_value_error, catalog_parse_error,
  key_error, index_error, type_error, overflow_error, struct_error, json_decode_error,
}
use addressables_tools_py.Python.Result.{◌>>=◌, ◌>>◌, for_each}
use addressables_tools_py.Python.Codec.{Str}
use addressables_tools_py.Python.Text.{codes}
use addressables_tools_py.Python.Json.{Json, null, array, object, no_items, Members, Builtins}
use addressables_tools_py.Python.Json.Convert.{get_or, get_member, is_null, to_str}
use addressables_tools_py.Models.Object.{Object, SerializedType}
use addressables_tools_py.Models.Catalog.{
  ContentCatalogData, ResourceLocation, ObjectInitializationData,
}
use addressables_tools_py.Backend.{Backend, Decoders, select_decoder, validate_backend}
use addressables_tools_py.Catalog.Json.Fields.{
  mapping_of, list_of, optional_text, serialized_type_from_json,
  object_initialization_data_from_json,
}
use addressables_tools_py.Catalog.Json.Resources.{Decoded, decode_json_resources}

-- The exceptions that are turned into a CatalogParseError.
abbrev pub is_invalid_data : PyError → Bool
is_invalid_data key_error = true
is_invalid_data index_error = true
is_invalid_data type_error = true
is_invalid_data overflow_error = true
is_invalid_data struct_error = true
is_invalid_data e = is_value_error e

abbrev pub parse_error : PyError → PyError
parse_error e =
    if is_catalog_parse_error e then e else if is_invalid_data e then catalog_parse_error else e

abbrev pub json_error : PyError → PyError
json_error json_decode_error = catalog_parse_error
json_error e = e

-- What the extension's entry point is given.
abbrev pub JsonDecoder : Type 0
JsonDecoder = ContentCatalogData → Members → Result Decoded

module _ (b : Builtins) where
  abbrev pub mapping_member : Members → Str → Result Members
  mapping_member raw name = do found ← get_member raw name; mapping_of found

  abbrev pub list_member : Members → Str → Result (List Json)
  list_member raw name = do found ← get_member raw name; list_of found

  abbrev pub text_list : Members → Str → Result (List Str)
  text_list raw name = do items ← list_member raw name; ok (map (to_str b) items)

  -- The keys, where there are some.
  abbrev pub optional_keys : Members → Result (Option (List Str))
  optional_keys raw =
      if is_null (get_or null raw (codes "m_Keys"))
      then ok none
      else (text_list raw (codes "m_Keys") >>= λ keys. ok (some keys))

  abbrev pub provider_from_json : Json → Result ObjectInitializationData
  provider_from_json j = do members ← mapping_of j; object_initialization_data_from_json b members

  abbrev pub type_from_json : Json → Result SerializedType
  type_from_json j = do members ← mapping_of j; serialized_type_from_json b members

  -- The catalog without its resources.
  unfoldable pub catalog_fields : Members → Result ContentCatalogData
  unfolding get_or get_member for_each serialized_type_from_json
      object_initialization_data_from_json
  catalog_fields raw = do
    instance_members ← mapping_member raw (codes "m_InstanceProviderData")
    instance_data ← object_initialization_data_from_json b instance_members
    scene_members ← mapping_member raw (codes "m_SceneProviderData")
    scene_data ← object_initialization_data_from_json b scene_members
    providers ← list_member raw (codes "m_ResourceProviderData")
    provider_data ← for_each provider_from_json providers
    provider_ids ← text_list raw (codes "m_ProviderIds")
    internal_ids ← text_list raw (codes "m_InternalIds")
    keys ← optional_keys raw
    types ← list_member raw (codes "m_resourceTypes")
    resource_types ← for_each type_from_json types
    prefixes ← list_of (get_or (array no_items) raw (codes "m_InternalIdPrefixes"))
    ok (record {
      version = pos 0;
      locator_id = optional_text b (get_or null raw (codes "m_LocatorId"));
      build_result_hash = optional_text b (get_or null raw (codes "m_BuildResultHash"));
      instance_provider_data = some instance_data;
      scene_provider_data = some scene_data;
      resource_provider_data = provider_data;
      provider_ids = provider_ids;
      internal_ids = internal_ids;
      keys = keys;
      resource_types = resource_types;
      internal_id_prefixes = map (to_str b) prefixes;
      resources = [];
    })

module _ (b : Builtins) (hash : Option Str → ℤ) (text_of_object : Object → Str) where
  abbrev pub decoder_or : Option JsonDecoder → JsonDecoder
  decoder_or none = decode_json_resources b hash text_of_object
  decoder_or (some decoder) = decoder

module _ (b : Builtins) (hash : Option Str → ℤ) (text_of_object : Object → Str)
    (native : Decoders JsonDecoder) (backend : Backend) where
  -- What the second `try` covers. The locations that the catalog refers to come beside it.
  unfoldable pub catalog_of_members : Members → Result (ContentCatalogData × List ResourceLocation)
  unfolding catalog_fields select_decoder decode_json_resources
  catalog_of_members raw = do
    catalog ← catalog_fields b raw
    decoder ← select_decoder backend native.decode_json_resources false
    (resources, locations) ← decoder_or b hash text_of_object decoder catalog raw
    ok (record catalog { resources = resources }, locations)

  abbrev pub of_root : Json → Result (ContentCatalogData × List ResourceLocation)
  of_root (object raw) = rescue parse_error (catalog_of_members raw)
  of_root _ = err catalog_parse_error

  unfoldable pub parse_json_catalog : Str → Result (ContentCatalogData × List ResourceLocation)
  unfolding validate_backend catalog_of_members
  parse_json_catalog payload = do
    validate_backend backend
    raw ← rescue json_error (b.loads payload)
    of_root raw
