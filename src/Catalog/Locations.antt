-- ===== src/Catalog/Locations.antt =====
-- Resource locations and initialization data of a binary catalog: `_resource_location_from_binary`
-- and `_object_initialization_data_from_binary` of src/addressablestools/catalog.py.
use addressables_tools_py.Prelude.{
  ℕ, zero, suc, ◌*◌, ℤ, pos, pos_part, neg_part, sub_ℕ, ◌+ℤ◌, [], ◌∷◌, ◌++◌, Option, none, some,
  length,
}
use addressables_tools_py.Python.Exec.{ok, err, Exec, pure, ◌>>=◌, for_each, recursion_error}
use addressables_tools_py.Python.Struct.{Struct, int32, uint32}
use addressables_tools_py.Python.Codec.{Str}
use addressables_tools_py.Models.Object.{Object, nothing, location, codes}
use addressables_tools_py.Models.Catalog.{ResourceLocation, ObjectInitializationData}
use addressables_tools_py.Binary.Reader.{read_struct_from}
use addressables_tools_py.Binary.State.{CatalogBinaryReader, on_base, cached_object, cache_object}
use addressables_tools_py.Binary.Strings.{read_encoded_string, no_separator}
use addressables_tools_py.Binary.Arrays.{read_offset_array, read_serialized_type}
use addressables_tools_py.Decoder.Registry.{Registry}
use addressables_tools_py.Decoder.Object.{decode_v2_typed}

unfoldable pub object_initialization_data_from_binary :
    ℕ → Exec CatalogBinaryReader ObjectInitializationData
unfolding read_encoded_string read_serialized_type
object_initialization_data_from_binary offset = do
  (id_offset, (type_offset, (data_offset, _))) ←
      on_base (read_struct_from (uint32 ∷ uint32 ∷ uint32 ∷ []) (pos offset))
  id ← read_encoded_string id_offset no_separator
  object_type ← read_serialized_type type_offset
  payload ← read_encoded_string data_offset no_separator
  pure (record { id = id; object_type = object_type; payload = payload })

-- hash(internal_id) * 31 + hash(provider_id)
abbrev pub times_31 : ℤ → ℤ
times_31 n = sub_ℕ (pos_part n * 31) (neg_part n * 31)

abbrev pub location_layout : Struct
location_layout = uint32 ∷ uint32 ∷ uint32 ∷ uint32 ∷ int32 ∷ uint32 ∷ uint32 ∷ []

-- A location that was made gets the next place among the locations, and is cached at its offset.
abbrev pub add_location : ℕ → ResourceLocation → Exec CatalogBinaryReader Object
add_location offset made r = (
  ok (location (length r.locations)),
  (cache_object offset (location (length r.locations))
      (record r { locations = r.locations ++ made ∷ [] })).1,
)

-- `hash` is Python's hash of a text or of None, which differs between processes.
module _ (hash : Option Str → ℤ) where
  -- What is read when the offset is not cached, over the function that reads a dependency.
  unfoldable pub location_by :
      (ℕ → Exec CatalogBinaryReader Object) → Option Registry → ℕ → Exec CatalogBinaryReader Object
  unfolding read_encoded_string read_offset_array read_serialized_type decode_v2_typed for_each
  location_by read_dependency registry offset = do
    (
      primary_offset,
      (
        internal_offset,
        (
          provider_offset,
          (dependencies_offset, (dependency_hash, (data_offset, (type_offset, _)))),
        ),
      ),
    ) ←
        on_base (read_struct_from location_layout (pos offset))
    primary_key ← read_encoded_string primary_offset (codes "/")
    internal_id ← read_encoded_string internal_offset (codes "/")
    provider_id ← read_encoded_string provider_offset (codes ".")
    dependency_offsets ← read_offset_array dependencies_offset
    dependencies ← for_each read_dependency dependency_offsets
    (value, value_type) ← decode_v2_typed registry data_offset
    type ← read_serialized_type type_offset
    add_location offset (record {
      internal_id = internal_id;
      provider_id = provider_id;
      dependency_key = nothing;
      dependencies = some dependencies;
      payload = value;
      hash_code = times_31 (hash internal_id) +ℤ hash provider_id;
      dependency_hash_code = dependency_hash;
      primary_key = primary_key;
      type = type;
      data_type = value_type;
    })

  -- The first argument is how many nested calls of this function are allowed: it stands for the limit
  -- that Python sets on all nested calls, of which the other methods that each call makes take a fixed
  -- number more. A dependency is read by a call of its own, and a location is cached only when it is
  -- complete.
  unfoldable pub resource_location_from_binary :
      ℕ → Option Registry → ℕ → Exec CatalogBinaryReader Object
  unfolding location_by
  resource_location_from_binary zero registry offset r = (err recursion_error, r)
  resource_location_from_binary (suc calls) registry offset r = elim (cached_object offset r) [
    | some cached ↦ (ok cached, r)
    | none ↦ location_by (resource_location_from_binary calls registry) registry offset r
  ]
