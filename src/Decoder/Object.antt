-- ===== src/Decoder/Object.antt =====
-- The binary decoding of `class SerializedObjectDecoder` in src/addressablestools/decoder.py.
pub mod Kept
pub mod Sound
pub mod Options
use addressables_tools_py.Prelude.{
  ℕ, ℤ, pos, negsuc, Bool, true, false, not, ◌||◌, [], ◌∷◌, Option, none, some, ◌==◌, if◌then◌else◌,
}
use addressables_tools_py.Prelude.Dict
use addressables_tools_py.Prelude.Dict.{nat_key}
use addressables_tools_py.Python.Exec.{
  Result, ok, Exec, pure, raise, lift, gets, modify, ◌>>=◌, ◌>>◌, attribute_error,
  unsupported_serialized_object_error,
}
use addressables_tools_py.Python.Json.Convert.{of_optional}
use addressables_tools_py.Python.Struct.{int16, int32, uint32, uint8, chars}
use addressables_tools_py.Python.Codec.{Str}
use addressables_tools_py.Models.Object.{
  Object, nothing, int, bool, hash128, serialized_type, common_info, options, optional_str,
  SerializedType, CommonInfo, AssetBundleRequestOptions, requested_asset_and_dependencies,
  all_packed_assets_and_dependencies, match_name_for_version, from_uint32s, hex, codes, str_eq,
}
use addressables_tools_py.Models.Catalog.{int_eq}
use addressables_tools_py.Binary.Reader.{
  seek, read_int32, read_int64, read_boolean, read_four_uint32, read_struct_from, two_uint32,
}
use addressables_tools_py.Binary.State.{
  CatalogBinaryReader, uint32_max, on_base, cached_object, cache_object,
}
use addressables_tools_py.Binary.Strings.{has_bit, read_encoded_string}
use addressables_tools_py.Binary.Arrays.{read_serialized_type}
use addressables_tools_py.Decoder.Names.{
  BuiltIn, int_case, long_case, bool_case, string_case, hash_case, options_case, unsupported,
  built_in,
}
use addressables_tools_py.Decoder.Registry.{Registry, BinaryDecodeContext, ObjectDecoder}

-- flags & bit, for a power of two; the complement of a negative integer is not negative.
abbrev pub has_flag : ℕ → ℤ → Bool
has_flag bit (pos n) = has_bit bit n
has_flag bit (negsuc n) = not (has_bit bit n)

unfoldable pub decode_common_info_binary : ℕ → Exec CatalogBinaryReader CommonInfo
decode_common_info_binary offset = do
  (timeout, (redirect_limit, (retry_count, (flags, _)))) ←
      on_base (read_struct_from (int16 ∷ uint8 ∷ uint8 ∷ int32 ∷ []) (pos offset))
  pure (record {
    timeout = timeout;
    redirect_limit = pos redirect_limit;
    retry_count = pos retry_count;
    asset_load_mode =
        if has_flag 1 flags
        then all_packed_assets_and_dependencies
        else requested_asset_and_dependencies;
    chunked_transfer = has_flag 2 flags;
    use_crc_for_cached_bundle = has_flag 4 flags;
    use_unity_web_request_for_local_bundles = has_flag 8 flags;
    clear_other_cached_versions_when_loaded = has_flag 16 flags;
    version = pos 0;
  })

-- The common info that the cache gives, or that is read and cached.
unfoldable pub cached_common_info : ℕ → Exec CatalogBinaryReader Object
unfolding decode_common_info_binary
cached_common_info offset r = elim (cached_object offset r) [
  | some cached ↦ (ok cached, r)
  | none ↦
      (do
        info ← decode_common_info_binary offset
        cache_object offset (common_info info)
        pure (common_info info))
        r
]

-- `common_info.version = 3`: the cache holds the same object. Other objects take no such attribute.
unfoldable pub set_version : ℕ → Object → Exec CatalogBinaryReader CommonInfo
set_version offset (common_info info) = do
  cache_object offset (common_info (record info { version = pos 3 }))
  pure (record info { version = pos 3 })
set_version offset _ = raise attribute_error

unfoldable pub decode_asset_bundle_request_options_binary :
    ℕ → Exec CatalogBinaryReader AssetBundleRequestOptions
unfolding cached_common_info set_version read_encoded_string
decode_asset_bundle_request_options_binary offset = do
  (hash_offset, (name_offset, (crc, (bundle_size, (info_offset, _))))) ←
      on_base (read_struct_from (uint32 ∷ uint32 ∷ uint32 ∷ uint32 ∷ uint32 ∷ []) (pos offset))
  (hash, _) ← on_base (read_struct_from (chars 16 ∷ []) (pos hash_offset))
  cached ← cached_common_info info_offset
  info ← set_version info_offset cached
  name ← read_encoded_string name_offset (codes "_")
  pure (record {
    hash = hex hash;
    crc = pos crc;
    common_info = some info;
    bundle_name = of_optional name;
    bundle_size = pos bundle_size;
  })

abbrev pub as_serialized_type : Object → Exec CatalogBinaryReader SerializedType
as_serialized_type (serialized_type t) = pure t
as_serialized_type _ = raise attribute_error

-- The cached type and name, if they are there and for the reader's version.
abbrev pub for_version : ℤ → Option (ℤ × SerializedType × Str) → Option (SerializedType × Str)
for_version version none = none
for_version version (some (v, t, name)) = if int_eq v version then some (t, name) else none

-- The type at an offset and its match name, by the cache of names.
unfoldable pub type_and_name : ℕ → Exec CatalogBinaryReader (SerializedType × Str)
unfolding read_serialized_type
type_and_name offset r = elim (for_version r.version (Dict.get r.type_name_cache offset)) [
  | some found ↦ (ok found, r)
  | none ↦
      (do
        object ← read_serialized_type offset
        t ← as_serialized_type object
        version ← gets (λ r. r.version)
        name ← lift (match_name_for_version t version)
        modify (λ r. record r {
          type_name_cache = Dict.put r.type_name_cache offset (version, t, name);
        })
        pure (t, name))
        r
]

abbrev pub read_int_object : Exec CatalogBinaryReader Object
read_int_object = do n ← on_base read_int32; pure (int n)

abbrev pub read_long_object : Exec CatalogBinaryReader Object
read_long_object = do n ← on_base read_int64; pure (int n)

abbrev pub read_bool_object : Exec CatalogBinaryReader Object
read_bool_object = do b ← on_base read_boolean; pure (bool b)

unfoldable pub read_string_object : ℕ → Exec CatalogBinaryReader Object
unfolding read_encoded_string
read_string_object offset = do
  (string_offset, (separator, _)) ← on_base (read_struct_from (uint32 ∷ uint8 ∷ []) (pos offset))
  text ← read_encoded_string string_offset (separator ∷ [])
  pure (optional_str text)

unfoldable pub read_hash_object : Exec CatalogBinaryReader Object
read_hash_object = do
  (a, (b, (c, (d, _)))) ← on_base read_four_uint32
  text ← lift (from_uint32s a b c d)
  pure (hash128 text)

unfoldable pub read_options_object : ℕ → Exec CatalogBinaryReader Object
unfolding decode_asset_bundle_request_options_binary
read_options_object offset r = elim (cached_object offset r) [
  | some cached ↦ (ok cached, r)
  | none ↦
      (do
        decoded ← decode_asset_bundle_request_options_binary offset
        cache_object offset (options decoded)
        pure (options decoded))
        r
]

abbrev pub at_offset : ℕ → Exec CatalogBinaryReader Object → Exec CatalogBinaryReader Object
at_offset offset m = do on_base (seek (pos offset) (pos 0)); m

-- The value of a built-in type; the offset of a default value is the null offset.
unfoldable pub decode_built_in : BuiltIn → Bool → ℕ → Exec CatalogBinaryReader Object
unfolding read_string_object read_hash_object read_options_object
decode_built_in int_case true offset = pure (int (pos 0))
decode_built_in int_case false offset = at_offset offset read_int_object
decode_built_in long_case true offset = pure (int (pos 0))
decode_built_in long_case false offset = at_offset offset read_long_object
decode_built_in bool_case true offset = pure (bool false)
decode_built_in bool_case false offset = at_offset offset read_bool_object
decode_built_in string_case true offset = pure nothing
decode_built_in string_case false offset = read_string_object offset
decode_built_in hash_case true offset = pure nothing
decode_built_in hash_case false offset = at_offset offset read_hash_object
decode_built_in options_case true offset = pure nothing
decode_built_in options_case false offset = read_options_object offset
decode_built_in unsupported is_default offset = raise unsupported_serialized_object_error

abbrev pub resolve_with : Option Registry → Str → Result Str
resolve_with none name = ok name
resolve_with (some g) name = g.resolve_name name

abbrev pub decoder_with : Option Registry → Str → Option ObjectDecoder
decoder_with none name = none
decoder_with (some g) name = g.decoder_of name

-- A custom decoder for the resolved name comes before the built-in types.
abbrev pub decode_as :
    Option ObjectDecoder → BinaryDecodeContext → Str → Exec CatalogBinaryReader Object
decode_as (some decoder) context name = decoder context
decode_as none context name = decode_built_in (built_in name) context.is_default context.offset

-- _decode_v2
unfoldable pub decode_v2_typed :
    Option Registry → ℕ → Exec CatalogBinaryReader (Object × Option SerializedType)
unfolding type_and_name decode_built_in built_in
decode_v2_typed registry offset r =
    if offset == uint32_max
    then (ok (nothing, none), r)
    else (do
      (type_offset, (object_offset, _)) ← on_base (read_struct_from two_uint32 (pos offset))
      (t, match_name) ← type_and_name type_offset
      name ← lift (resolve_with registry match_name)
      value ←
          decode_as (decoder_with registry name)
            (record {
              offset = object_offset;
              is_default = object_offset == uint32_max;
              serialized_type = t;
            })
            name
      pure (value, some t))
        r

unfoldable pub decode_v2 : Option Registry → ℕ → Exec CatalogBinaryReader Object
unfolding decode_v2_typed
decode_v2 registry offset = do (value, _) ← decode_v2_typed registry offset; pure value
