-- ===== src/Catalog/Sharing.antt =====
-- A location that was read is shared: reading it again gives the same one.
use addressables_tools_py.Prelude.{
  ℕ, suc, pos, length, ℤ, Option, some, ◌≡◌, refl, inl, inr, Option-cases, ==_refl,
}
use addressables_tools_py.Prelude.Dict
use addressables_tools_py.Prelude.Dict.{Dict, nat_key, nat_key-IsLawful, get-put}
use addressables_tools_py.Python.Exec.{Exec, ok, for_each}
use addressables_tools_py.Python.Exec.Ensures.{Post, Ensures, Ensures-bind, Ensures-any}
use addressables_tools_py.Python.Codec.{Str}
use addressables_tools_py.Models.Object.{Object, location, codes}
use addressables_tools_py.Models.Catalog.{ResourceLocation}
use addressables_tools_py.Binary.State.{CatalogBinaryReader, on_base, cached_object, not_none}
use addressables_tools_py.Binary.Reader.{read_struct_from}
use addressables_tools_py.Binary.Strings.{read_encoded_string}
use addressables_tools_py.Binary.Arrays.{read_offset_array, read_serialized_type}
use addressables_tools_py.Decoder.Object.{decode_v2_typed}
use addressables_tools_py.Decoder.Registry.{Registry}
use addressables_tools_py.Catalog.Locations.{
  location_layout, add_location, location_by, resource_location_from_binary,
}

module _ (hash : Option Str → ℤ) (offset : ℕ) where
  -- However many nested calls are allowed and whatever the registry, there is nothing to read.
  abbrev pub ReadsAs : Object → CatalogBinaryReader → Type 0
  ReadsAs x r =
      (calls : ℕ) (registry : Option Registry)
      → resource_location_from_binary hash (suc calls) registry offset r ≡ (ok x, r)

  cached-ReadsAs :
      (x : Object) (r : CatalogBinaryReader) → cached_object offset r ≡ some x → ReadsAs x r
  unfolding resource_location_from_binary
  cached-ReadsAs x r h calls registry = rw (h, resource_location_from_binary) refl

  cached-put :
      (d : Dict ℕ Object) (n : ℕ)
      → not_none (Dict.get (Dict.put d offset (location n)) offset) ≡ some (location n)
  cached-put d n = rw (get-put nat_key-IsLawful d offset offset (location n), ==_refl offset) refl

  add_location-ReadsAs :
      (made : ResourceLocation) → Ensures (λ _. Unit) (add_location offset made) ReadsAs
  add_location-ReadsAs made = record {
    at = λ r _.
        cached-ReadsAs (location (length r.locations)) _
          (cached-put r.object_cache (length r.locations));
  }

  location_by-ReadsAs :
      (read_dependency : ℕ → Exec CatalogBinaryReader Object) (registry : Option Registry)
      → Ensures (λ _. Unit) (location_by hash read_dependency registry offset) ReadsAs
  unfolding location_by
  location_by-ReadsAs read_dependency registry =
      Ensures-bind (Ensures-any (on_base (read_struct_from location_layout (pos offset)))) λ fields.
        Ensures-bind (Ensures-any (read_encoded_string fields.0 (codes "/"))) λ primary_key.
          Ensures-bind (Ensures-any (read_encoded_string fields.1.0 (codes "/"))) λ internal_id.
            Ensures-bind (Ensures-any (read_encoded_string fields.1.1.0 (codes "."))) λ provider_id.
              Ensures-bind (Ensures-any (read_offset_array fields.1.1.1.0)) λ dependency_offsets.
                Ensures-bind (Ensures-any (for_each read_dependency dependency_offsets))
                  λ dependencies.
                    Ensures-bind (Ensures-any (decode_v2_typed registry fields.1.1.1.1.1.0))
                      λ value.
                        Ensures-bind (Ensures-any (read_serialized_type fields.1.1.1.1.1.1.0))
                          λ type. add_location-ReadsAs _

  -- A location that was read is cached: reading its offset again, with any registry, gives the same
  -- object and leaves the reader as it is.
  pub resource_location_from_binary-ReadsAs :
      (calls : ℕ) (registry : Option Registry) (r : CatalogBinaryReader)
      → Post ReadsAs (resource_location_from_binary hash (suc calls) registry offset r)
  unfolding resource_location_from_binary
  resource_location_from_binary-ReadsAs calls registry r =
      elim (Option-cases (cached_object offset r)) [
        | inr (x, cached) ↦
            rw (cached, resource_location_from_binary, Post) (cached-ReadsAs x r cached)
        | inl missing ↦
            rw (missing, resource_location_from_binary, Post)
              ((location_by-ReadsAs (resource_location_from_binary hash calls registry) registry).at
                r tt)
      ]
