-- ===== src/Binary/Arrays.antt =====
-- Offset arrays and serialized types of `CatalogBinaryReader` in src/addressablestools/binary.py.
pub mod Wire
use addressables_tools_py.Prelude.{
  ℕ, zero, suc, ◌/◌, ◌%◌, ℤ, pos, negsuc, List, [], ◌∷◌, Option, none, some, take, drop, ◌==◌,
  if◌then◌else◌,
}
use addressables_tools_py.Prelude.Dict
use addressables_tools_py.Prelude.Dict.{nat_key}
use addressables_tools_py.Python.Exec.{Exec, pure, raise, ◌>>=◌, ◌>>◌, binary_read_error}
use addressables_tools_py.Python.Stream.{Bytes}
use addressables_tools_py.Python.Struct.{little_endian}
use addressables_tools_py.Models.Object.{Object, offsets, serialized_type, codes}
use addressables_tools_py.Binary.Reader.{BinaryReader, read_two_uint32_from}
use addressables_tools_py.Binary.State.{
  CatalogBinaryReader, uint32_max, on_base, cached_object, cache_object,
}
use addressables_tools_py.Binary.Strings.{read_byte_size, read_payload, read_encoded_string}

-- unpack(f"<{count}I", data), for data of that size
unfoldable pub words : ℕ → Bytes → List ℕ
words zero bs = []
words (suc n) bs = little_endian (take 4 bs) ∷ words n (drop 4 bs)

abbrev pub array_count : ℤ → Exec BinaryReader ℕ
array_count (negsuc _) = raise binary_read_error
array_count (pos n) = if n % 4 == 0 then pure n else raise binary_read_error

-- The part of read_offset_array that reads.
unfoldable pub fetch_offset_array : ℕ → Exec BinaryReader (List ℕ)
unfolding words read_byte_size read_payload
fetch_offset_array offset = do
  size ← read_byte_size offset
  count ← array_count size
  found ← read_payload offset count
  pure (words (count / 4) found)

abbrev pub as_list : Option Object → Option (List ℕ)
as_list (some (offsets xs)) = some xs
as_list _ = none

unfoldable pub read_offset_array : ℕ → Exec CatalogBinaryReader (List ℕ)
unfolding fetch_offset_array
read_offset_array encoded r =
    if encoded == uint32_max then pure [] r else elim (as_list (Dict.get r.object_cache encoded)) [
      | some cached ↦ pure cached r
      | none ↦
          (do
            found ← on_base (fetch_offset_array encoded)
            cache_object encoded (offsets found)
            pure found)
            r
    ]

-- The function _read_serialized_type.
unfoldable pub fetch_serialized_type : ℕ → Exec CatalogBinaryReader Object
unfolding read_encoded_string
fetch_serialized_type offset = do
  (assembly_offset, (class_offset, _)) ← on_base (read_two_uint32_from (pos offset))
  assembly ← read_encoded_string assembly_offset (codes ".")
  name ← read_encoded_string class_offset (codes ".")
  pure (serialized_type (record { assembly_name = assembly; class_name = name }))

-- What the cache holds is returned, whatever its class.
unfoldable pub read_serialized_type : ℕ → Exec CatalogBinaryReader Object
unfolding fetch_serialized_type
read_serialized_type offset r = elim (cached_object offset r) [
  | some cached ↦ pure cached r
  | none ↦ (do value ← fetch_serialized_type offset; cache_object offset value; pure value) r
]
