-- ===== src/Catalog/Json/Fields.antt =====
-- The checked access to a JSON catalog's members in src/addressablestools/catalog.py: `_mapping`,
-- `_list`, `_optional_str`, `_item_at`, and the types and providers that are read with them.
use addressables_tools_py.Prelude.{
  ℤ, pos, Bool, ◌&&◌, List, Option, none, some, length, leb_ℤ, ltb_ℤ, if◌then◌else◌,
}
use addressables_tools_py.Python.Exec.{Result, ok, err, catalog_parse_error}
use addressables_tools_py.Python.Result.{◌>>=◌}
use addressables_tools_py.Python.Sequence.{get_item}
use addressables_tools_py.Python.Codec.{Str}
use addressables_tools_py.Python.Text.{codes}
use addressables_tools_py.Python.Json.{Json, null, array, object, Members, Builtins}
use addressables_tools_py.Python.Json.Convert.{elements, get_or, get_member, to_str}
use addressables_tools_py.Models.Object.{SerializedType, serialized_type}
use addressables_tools_py.Models.Catalog.{ObjectInitializationData}

-- _mapping
abbrev pub mapping_of : Json → Result Members
mapping_of (object ms) = ok ms
mapping_of _ = err catalog_parse_error

-- _list
abbrev pub list_of : Json → Result (List Json)
list_of (array js) = ok (elements js)
list_of _ = err catalog_parse_error

-- _item_at
module _ {ℓ} {A : Type ℓ} where
  -- 0 <= index < len(values)
  abbrev pub is_index : List A → ℤ → Bool
  is_index values index = leb_ℤ (pos 0) index && ltb_ℤ index (pos (length values))

  unfoldable pub item_at : List A → ℤ → Result A
  item_at values index =
      if is_index values index then get_item values index else err catalog_parse_error

module _ (b : Builtins) where
  -- _optional_str
  abbrev pub optional_text : Json → Option Str
  optional_text null = none
  optional_text j = some (to_str b j)

  unfoldable pub serialized_type_from_json : Members → Result SerializedType
  unfolding get_member
  serialized_type_from_json raw = do
    assembly_name ← get_member raw (codes "m_AssemblyName")
    class_name ← get_member raw (codes "m_ClassName")
    ok (record {
      assembly_name = some (to_str b assembly_name);
      class_name = some (to_str b class_name);
    })

  unfoldable pub object_initialization_data_from_json : Members → Result ObjectInitializationData
  unfolding get_or get_member serialized_type_from_json
  object_initialization_data_from_json raw = do
    found ← get_member raw (codes "m_ObjectType")
    members ← mapping_of found
    object_type ← serialized_type_from_json members
    ok (record {
      id = optional_text (get_or null raw (codes "m_Id"));
      object_type = serialized_type object_type;
      payload = optional_text (get_or null raw (codes "m_Data"));
    })
