-- ===== src/Catalog/Json/Raised.antt =====
-- The exceptions of parse_json_catalog.
use addressables_tools_py.Prelude.{ℤ, refl, List, [], ◌∷◌, Option, none}
use addressables_tools_py.Python.Exec.{Exec}
use addressables_tools_py.Python.Exec.Raises.{Raises, RaisesIn}
use addressables_tools_py.Python.Result.Raises.{
  Raises-ok, Raises-err, Raises-if, Raises-bind, Raises-for_each,
}
use addressables_tools_py.Python.Stream.{Bytes}
use addressables_tools_py.Python.Codec.{Str}
use addressables_tools_py.Python.Text.{codes}
use addressables_tools_py.Python.Json.{null, Members, Builtins, RaisesAsDocumented}
use addressables_tools_py.Python.Json.Convert.{to_str}
use addressables_tools_py.Models.Object.{Object}
use addressables_tools_py.Models.Catalog.{ContentCatalogData, Resources, set_resource, is_hashable}
use addressables_tools_py.Binary.Reader.{BinaryReader}
use addressables_tools_py.Binary.Reader.Errors.{IsDataError}
use addressables_tools_py.Catalog.Json.Keys.{over_bytes, reader_over}
use addressables_tools_py.Catalog.Json.Fields.{is_index}
use addressables_tools_py.Catalog.Json.Errors.{
  get_item-errors, item_at-errors, b64decode-errors, get_member-errors, mapping_of-errors,
  list_of-errors, read_buckets-errors,
}
use addressables_tools_py.Catalog.Json.Fields.{
  serialized_type_from_json, object_initialization_data_from_json,
}
use addressables_tools_py.Catalog.Json.Refusals.{read_keys-errors, location_bytes-errors}
use addressables_tools_py.Catalog.Json.Resources.{
  places, any_outside, bucket_locations, fill_table, decoded_member, read_locations,
  decode_json_resources,
}
use addressables_tools_py.Catalog.Json.Parse.{
  mapping_member, list_member, text_list, optional_keys, catalog_fields,
}
use addressables_tools_py.Python.Json.Convert.{is_null, get_or}

set_resource-errors :
    (table : Resources) (key : Object) (found : List Object)
    → Raises IsDataError (set_resource table key found)
unfolding set_resource
set_resource-errors table key found = Raises-if (is_hashable key) (Raises-ok _) (Raises-err refl)

entries-errors :
    (locations : List Object) (es : List ℤ) → Raises IsDataError (bucket_locations locations es)
unfolding bucket_locations
entries-errors locations (e ∷ []) =
    Raises-bind
      (Raises-if (is_index locations e) (Raises-ok tt)
        (Raises-bind (item_at-errors locations e) λ _. Raises-ok tt))
      λ _. Raises-bind (get_item-errors locations e) λ found. Raises-ok _
entries-errors locations [] = Raises-ok _
entries-errors locations (d ∷ e ∷ es) =
    Raises-bind
      (Raises-if (any_outside locations (d ∷ e ∷ es))
        (Raises-bind (Raises-for_each (d ∷ e ∷ es) (item_at-errors locations)) λ _. Raises-ok tt)
        (Raises-ok tt))
      λ _. Raises-for_each (d ∷ e ∷ es) (get_item-errors locations)

fill_table-errors :
    (locations keys : List Object) (buckets : List (List ℤ)) (table : Resources)
    → Raises IsDataError (fill_table locations keys buckets table)
unfolding fill_table
fill_table-errors locations (key ∷ keys) (es ∷ rest) table =
    Raises-bind (entries-errors locations es) λ found.
      Raises-bind (set_resource-errors table key found)
        λ table'. fill_table-errors locations keys rest table'
fill_table-errors locations [] buckets table = Raises-ok table
fill_table-errors locations (key ∷ keys) [] table = Raises-ok table

module _ (b : Builtins) (documented : RaisesAsDocumented b) where
  member-errors : (raw : Members) (name : Str) → Raises IsDataError (decoded_member b raw name)
  member-errors raw name =
      Raises-bind (get_member-errors raw name) λ found. b64decode-errors (to_str b found)

  mapping-errors : (raw : Members) (name : Str) → Raises IsDataError (mapping_member b raw name)
  mapping-errors raw name = Raises-bind (get_member-errors raw name) mapping_of-errors

  list-errors : (raw : Members) (name : Str) → Raises IsDataError (list_member b raw name)
  list-errors raw name = Raises-bind (get_member-errors raw name) list_of-errors

  texts-errors : (raw : Members) (name : Str) → Raises IsDataError (text_list b raw name)
  texts-errors raw name = Raises-bind (list-errors raw name) λ js. Raises-ok _

  keys-errors : (raw : Members) → Raises IsDataError (optional_keys b raw)
  keys-errors raw =
      Raises-if (is_null (get_or null raw (codes "m_Keys"))) (Raises-ok none)
        (Raises-bind (texts-errors raw (codes "m_Keys")) λ keys. Raises-ok _)

  type-errors : (raw : Members) → Raises IsDataError (serialized_type_from_json b raw)
  unfolding serialized_type_from_json
  type-errors raw =
      Raises-bind (get_member-errors raw (codes "m_AssemblyName"))
        λ assembly. Raises-bind (get_member-errors raw (codes "m_ClassName")) λ class. Raises-ok _

  data-errors : (raw : Members) → Raises IsDataError (object_initialization_data_from_json b raw)
  unfolding object_initialization_data_from_json
  data-errors raw = Raises-bind (get_member-errors raw (codes "m_ObjectType")) λ found.
      Raises-bind (mapping_of-errors found) λ ms. Raises-bind (type-errors ms) λ type. Raises-ok _

  pub fields-errors : (raw : Members) → Raises IsDataError (catalog_fields b raw)
  unfolding catalog_fields
  fields-errors raw =
      Raises-bind (mapping-errors raw (codes "m_InstanceProviderData")) λ instance_members.
        Raises-bind (data-errors instance_members) λ instance_data.
          Raises-bind (mapping-errors raw (codes "m_SceneProviderData")) λ scene_members.
            Raises-bind (data-errors scene_members) λ scene_data.
              Raises-bind (list-errors raw (codes "m_ResourceProviderData")) λ providers.
                Raises-bind
                  (Raises-for_each providers λ j. Raises-bind (mapping_of-errors j) data-errors)
                  λ provider_data.
                    Raises-bind (texts-errors raw (codes "m_ProviderIds")) λ provider_ids.
                      Raises-bind (texts-errors raw (codes "m_InternalIds")) λ internal_ids.
                        Raises-bind (keys-errors raw) λ keys.
                          Raises-bind (list-errors raw (codes "m_resourceTypes")) λ types.
                            Raises-bind
                              (Raises-for_each types
                                λ j. Raises-bind (mapping_of-errors j) type-errors)
                              λ resource_types.
                                Raises-bind (list_of-errors _) λ prefixes. Raises-ok _

  module _ (hash : Option Str → ℤ) (text_of_object : Object → Str) where
    over_bytes-errors :
        {A : Type 0} {m : Exec BinaryReader A} (bs : Bytes)
        → RaisesIn IsDataError m
        → Raises IsDataError (over_bytes m bs)
    over_bytes-errors bs h = record { at = h.at (reader_over bs) }

    locations-errors :
        (catalog : ContentCatalogData) (raw : Members) (keys : List Object)
        → Raises IsDataError (read_locations b hash text_of_object catalog raw keys)
    unfolding read_locations
    locations-errors catalog raw keys =
        Raises-bind (member-errors raw (codes "m_EntryDataString")) λ entry_data.
          Raises-bind (member-errors raw (codes "m_ExtraDataString")) λ extra_data.
            over_bytes-errors extra_data
              (location_bytes-errors b documented hash text_of_object catalog keys entry_data)

    pub resources-errors :
        (catalog : ContentCatalogData) (raw : Members)
        → Raises IsDataError (decode_json_resources b hash text_of_object catalog raw)
    unfolding decode_json_resources
    resources-errors catalog raw =
        Raises-bind (get_member-errors raw (codes "m_BucketDataString")) λ buckets.
          Raises-bind (read_buckets-errors (to_str b buckets)) λ found.
            Raises-bind (get_member-errors raw (codes "m_KeyDataString")) λ key_data.
              Raises-bind (read_keys-errors b documented (to_str b key_data) found.0) λ keys.
                Raises-bind (locations-errors catalog raw keys) λ locations.
                  Raises-bind (fill_table-errors (places 0 locations) keys found.1 [])
                    λ table. Raises-ok _
