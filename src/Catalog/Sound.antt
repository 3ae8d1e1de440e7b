-- ===== src/Catalog/Sound.antt =====
-- Reading a binary catalog keeps the caches of strings sound, if the custom decoders do.
use addressables_tools_py.Prelude.{
  ℕ, ◌%◌, ◌&&◌, ℤ, pos, negsuc, true, false, if◌then◌else◌, sub_ℕ, Bool, List, [], ◌∷◌, Option,
  ◌==◌, inl, inr, Bool-cases,
}
use addressables_tools_py.Python.Exec.Keeps.{
  Keeps, Keeps-pure, Keeps-raise, Keeps-lift, Keeps-bind, Keeps-raise_if, Keeps-for_each,
}
use addressables_tools_py.Python.Stream.{Bytes}
use addressables_tools_py.Python.Struct.{int32}
use addressables_tools_py.Python.Codec.{Str}
use addressables_tools_py.Models.Catalog.{Resources, set_resource}
use addressables_tools_py.Binary.State.{CatalogBinaryReader, uint32_max}
use addressables_tools_py.Binary.Reader.Buffer.{read_struct_at-HasBuffer}
use addressables_tools_py.Binary.Strings.Sound.{IsSound}
use addressables_tools_py.Binary.Sound.{on_base-IsSound, read_offset_array-IsSound}
use addressables_tools_py.Decoder.Registry.{Registry}
use addressables_tools_py.Decoder.Object.Sound.{RegistryKeeps, decode_v2-IsSound}
use addressables_tools_py.Catalog.Locations.{resource_location_from_binary}
use addressables_tools_py.Binary.Stable.{IsSound-IsStable}
use addressables_tools_py.Catalog.Kept.{location-Keeps}
use addressables_tools_py.Catalog.Resources.{
  array_pairs, buffer_pairs, key_location_pairs, fill_resources, decode_binary_resources_python,
  pair_up, index_size,
}

module _ (bytes : Bytes) (hash : Option Str → ℤ) (registry : Option Registry)
    (keeps : RegistryKeeps bytes registry) where
  location-IsSound :
      (calls offset : ℕ)
      → Keeps (IsSound bytes) (resource_location_from_binary hash calls registry offset)
  location-IsSound =
      location-Keeps bytes (IsSound bytes) (IsSound-IsStable bytes) hash registry keeps

  array_pairs-IsSound : (keys_offset : ℕ) → Keeps (IsSound bytes) (array_pairs keys_offset)
  unfolding array_pairs
  array_pairs-IsSound keys_offset =
      Keeps-bind (read_offset_array-IsSound bytes keys_offset)
        λ offsets. Keeps-bind (Keeps-raise_if _ _) λ _. Keeps-pure (pair_up offsets)

  index_size-IsSound : (n : ℤ) → Keeps (IsSound bytes) (index_size n)
  index_size-IsSound (pos n) = elim (Bool-cases (n % 4 == 0 && n % 8 == 0)) [
    | inl e ↦ rw e (Keeps-pure n)
    | inr e ↦ rw e (Keeps-raise _)
  ]
  index_size-IsSound (negsuc n) = Keeps-raise _

  buffer_pairs-IsSound :
      (keys_offset : ℕ) (content : Bytes) → Keeps (IsSound bytes) (buffer_pairs keys_offset content)
  unfolding buffer_pairs
  buffer_pairs-IsSound keys_offset content =
      Keeps-bind
        (on_base-IsSound bytes (read_struct_at-HasBuffer bytes (int32 ∷ []) (sub_ℕ keys_offset 4)))
        λ size.
          Keeps-bind (index_size-IsSound size.0)
            λ count. Keeps-bind (Keeps-raise_if _ _) λ _. Keeps-pure _

  either_pairs-IsSound :
      (null : Bool) (keys_offset : ℕ) (r : CatalogBinaryReader)
      → IsSound bytes r
      → IsSound bytes
          (if null then array_pairs keys_offset r else buffer_pairs keys_offset bytes r).1
  either_pairs-IsSound true keys_offset r h = (array_pairs-IsSound keys_offset).at r h
  either_pairs-IsSound false keys_offset r h = (buffer_pairs-IsSound keys_offset bytes).at r h

  key_location_pairs-IsSound :
      (keys_offset : ℕ) → Keeps (IsSound bytes) (key_location_pairs keys_offset)
  unfolding key_location_pairs
  key_location_pairs-IsSound keys_offset = record {
    at = λ r h.
        rw (h.buffered, key_location_pairs)
          (either_pairs-IsSound (keys_offset == uint32_max) keys_offset r h);
  }

  fill_resources-IsSound :
      (calls : ℕ) (pairs : List (ℕ × ℕ)) (resources : Resources)
      → Keeps (IsSound bytes) (fill_resources hash calls registry pairs resources)
  unfolding fill_resources
  fill_resources-IsSound calls [] resources = Keeps-pure resources
  fill_resources-IsSound calls ((key_offset, list_offset) ∷ pairs) resources =
      Keeps-bind (decode_v2-IsSound bytes registry keeps key_offset) λ key.
        Keeps-bind (read_offset_array-IsSound bytes list_offset) λ offsets.
          Keeps-bind (Keeps-for_each offsets (location-IsSound calls)) λ locations.
            Keeps-bind (Keeps-lift (set_resource resources key locations))
              λ more. fill_resources-IsSound calls pairs more

  -- Decoding the resources of a binary catalog in Python, with custom decoders that keep the caches
  -- of strings sound, keeps them sound, whether it returns or raises.
  pub decode_binary_resources_python-IsSound :
      (calls keys_offset : ℕ)
      → Keeps (IsSound bytes) (decode_binary_resources_python hash calls registry keys_offset)
  unfolding decode_binary_resources_python
  decode_binary_resources_python-IsSound calls keys_offset =
      Keeps-bind (key_location_pairs-IsSound keys_offset)
        λ pairs. fill_resources-IsSound calls pairs []
