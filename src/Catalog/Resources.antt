-- ===== src/Catalog/Resources.antt =====
-- The resource table of a binary catalog: `_decode_binary_resources` and
-- `_decode_binary_resources_python` of src/addressablestools/catalog.py.
use addressables_tools_py.Prelude.{
  ℕ, ◌+◌, ◌/◌, ◌%◌, ℤ, pos, negsuc, sub_ℕ, Bool, true, false, not, ◌&&◌, List, [], ◌∷◌, Option,
  none, some, length, ltb, ◌==◌, if◌then◌else◌,
}
use addressables_tools_py.Python.Exec.{
  Result, ok, err, Exec, pure, raise, lift, raise_if, ◌>>=◌, ◌>>◌, for_each, binary_read_error,
}
use addressables_tools_py.Python.Stream.{Bytes, slice}
use addressables_tools_py.Python.Struct.{int32}
use addressables_tools_py.Python.Codec.{Str}
use addressables_tools_py.Models.Catalog.{Resources, set_resource}
use addressables_tools_py.Binary.Reader.{read_struct_at}
use addressables_tools_py.Binary.State.{CatalogBinaryReader, uint32_max, on_base}
use addressables_tools_py.Binary.Arrays.{read_offset_array, words}
use addressables_tools_py.Backend.{Backend, Decoders, select_decoder}
use addressables_tools_py.Decoder.Registry.{Registry}
use addressables_tools_py.Decoder.Object.{decode_v2}
use addressables_tools_py.Catalog.Locations.{resource_location_from_binary}

-- zip(offsets, offsets) over one iterator
unfoldable pub pair_up : List ℕ → List (ℕ × ℕ)
pair_up [] = []
pair_up (a ∷ []) = []
pair_up (a ∷ b ∷ rest) = (a, b) ∷ pair_up rest

abbrev pub index_size : ℤ → Exec CatalogBinaryReader ℕ
index_size (negsuc _) = raise binary_read_error
index_size (pos n) = if n % 4 == 0 && n % 8 == 0 then pure n else raise binary_read_error

-- The pairs of a key's offset and its location list's, from the offset array at the index.
unfoldable pub array_pairs : ℕ → Exec CatalogBinaryReader (List (ℕ × ℕ))
unfolding read_offset_array pair_up
array_pairs keys_offset = do
  offsets ← read_offset_array keys_offset
  raise_if (not (length offsets % 2 == 0)) binary_read_error
  pure (pair_up offsets)

-- The same from the buffer, where the array is not cached.
unfoldable pub buffer_pairs : ℕ → Bytes → Exec CatalogBinaryReader (List (ℕ × ℕ))
unfolding words pair_up
buffer_pairs keys_offset bytes = do
  (size, _) ← on_base (read_struct_at (int32 ∷ []) (sub_ℕ keys_offset 4))
  count ← index_size size
  raise_if (ltb (length bytes) (keys_offset + count)) binary_read_error
  pure (pair_up (words (count / 4) (slice keys_offset count bytes)))

unfoldable pub key_location_pairs : ℕ → Exec CatalogBinaryReader (List (ℕ × ℕ))
unfolding array_pairs buffer_pairs
key_location_pairs keys_offset r = elim r.base.buffer [
  | none ↦ array_pairs keys_offset r
  | some bytes ↦
      if keys_offset == uint32_max
      then array_pairs keys_offset r
      else buffer_pairs keys_offset bytes r
]

module _ (hash : Option Str → ℤ) (calls : ℕ) (registry : Option Registry) where
  -- The loop over the pairs.
  unfoldable pub fill_resources : List (ℕ × ℕ) → Resources → Exec CatalogBinaryReader Resources
  unfolding decode_v2 read_offset_array for_each resource_location_from_binary
  fill_resources [] resources = pure resources
  fill_resources ((key_offset, list_offset) ∷ pairs) resources = do
    key ← decode_v2 registry key_offset
    offsets ← read_offset_array list_offset
    locations ← for_each (resource_location_from_binary hash calls registry) offsets
    resources' ← lift (set_resource resources key locations)
    fill_resources pairs resources'

  unfoldable pub decode_binary_resources_python : ℕ → Exec CatalogBinaryReader Resources
  unfolding key_location_pairs fill_resources
  decode_binary_resources_python keys_offset = do
    pairs ← key_location_pairs keys_offset
    fill_resources pairs []

-- A native decoder is given the offset of the keys and what it needs of the reader.
abbrev pub NativeDecoder : Type 0
NativeDecoder = Option Registry → ℕ → Exec CatalogBinaryReader Resources

abbrev pub has_buffer : CatalogBinaryReader → Bool
has_buffer r = elim r.base.buffer [ none ↦ false | some _ ↦ true ]

abbrev pub is_standard : Option Registry → Bool
is_standard none = false
is_standard (some g) = g.is_standard

-- With a registry, the fast entry point is for a standard registry.
abbrev with_registry :
    Decoders NativeDecoder
    → Option Registry
    → ℕ
    → NativeDecoder
    → Exec CatalogBinaryReader Resources
with_registry d registry keys_offset decoder = elim d.decode_registry_resources_fast [
  | some fast ↦
      if is_standard registry then fast registry keys_offset else decoder registry keys_offset
  | none ↦ decoder registry keys_offset
]

-- `native` is what the extension gives; `plain_bytes` tells whether the buffer is exactly `bytes`.
module _ (native : Decoders NativeDecoder) (hash : Option Str → ℤ) (calls : ℕ) (backend : Backend)
    (plain_bytes : Bool) where
  abbrev run :
      Option Registry
      → ℕ
      → (NativeDecoder → Exec CatalogBinaryReader Resources)
      → Result (Option NativeDecoder)
      → Exec CatalogBinaryReader Resources
  run registry keys_offset call (err x) r = (err x, r)
  run registry keys_offset call (ok none) r =
      decode_binary_resources_python hash calls registry keys_offset r
  run registry keys_offset call (ok (some decoder)) r =
      if has_buffer r
      then call decoder r
      else decode_binary_resources_python hash calls registry keys_offset r

  unfoldable pub decode_binary_resources : Option Registry → ℕ → Exec CatalogBinaryReader Resources
  unfolding select_decoder decode_binary_resources_python
  decode_binary_resources none keys_offset r =
      run none keys_offset (λ decoder. decoder none keys_offset)
        (select_decoder backend native.decode_resources (not (has_buffer r && plain_bytes))) r
  decode_binary_resources (some g) keys_offset r =
      run (some g) keys_offset (with_registry native (some g) keys_offset)
        (select_decoder backend native.decode_registry_resources
          (not (has_buffer r && plain_bytes)))
        r
