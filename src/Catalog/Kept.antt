-- ===== src/Catalog/Kept.antt =====
-- Reading a resource location keeps an invariant of the reader that is stable, if the custom decoders
-- do.
use addressables_tools_py.Prelude.{
  ℕ, zero, suc, ℤ, pos, [], ◌∷◌, ◌++◌, length, Option, inl, inr, Option-cases, refl,
}
use addressables_tools_py.Python.Exec.{Exec}
use addressables_tools_py.Python.Exec.Keeps.{Keeps, Keeps-bind, Keeps-for_each}
use addressables_tools_py.Python.Stream.{Bytes}
use addressables_tools_py.Python.Codec.{Str}
use addressables_tools_py.Models.Object.{Object, location, codes}
use addressables_tools_py.Models.Catalog.{ResourceLocation}
use addressables_tools_py.Binary.State.{CatalogBinaryReader, cached_object}
use addressables_tools_py.Binary.Stable.{IsStable, read_serialized_type-Keeps}
use addressables_tools_py.Decoder.Registry.{Registry}
use addressables_tools_py.Decoder.Object.Kept.{
  DecodersKeep, read_fields-Keeps, decode_v2_typed-Keeps,
}
use addressables_tools_py.Catalog.Locations.{
  location_layout, add_location, location_by, resource_location_from_binary,
}

module _ (bytes : Bytes) (P : CatalogBinaryReader → Type 0) (stable : IsStable bytes P)
    (hash : Option Str → ℤ) (registry : Option Registry)
    (keeps : DecodersKeep bytes P stable registry) where
  add_location-Keeps : (offset : ℕ) (made : ResourceLocation) → Keeps P (add_location offset made)
  add_location-Keeps offset made = record {
    at = λ r h.
        stable.object _ offset (location (length r.locations)) refl
          (stable.place r (r.locations ++ made ∷ []) h);
  }

  location_by-Keeps :
      (read : ℕ → Exec CatalogBinaryReader Object)
      → ((offset : ℕ) → Keeps P (read offset))
      → (offset : ℕ) → Keeps P (location_by hash read registry offset)
  unfolding location_by
  location_by-Keeps read k offset =
      Keeps-bind (read_fields-Keeps bytes P stable location_layout (pos offset)) λ fields.
        Keeps-bind (stable.string fields.0 (codes "/")) λ primary_key.
          Keeps-bind (stable.string fields.1.0 (codes "/")) λ internal_id.
            Keeps-bind (stable.string fields.1.1.0 (codes ".")) λ provider_id.
              Keeps-bind (stable.array fields.1.1.1.0) λ offsets.
                Keeps-bind (Keeps-for_each offsets k) λ dependencies.
                  Keeps-bind
                    (decode_v2_typed-Keeps bytes P stable registry keeps fields.1.1.1.1.1.0)
                    λ value.
                      Keeps-bind (read_serialized_type-Keeps bytes P stable fields.1.1.1.1.1.1.0)
                        λ type. add_location-Keeps offset _

  pub location-Keeps :
      (calls offset : ℕ) → Keeps P (resource_location_from_binary hash calls registry offset)
  unfolding resource_location_from_binary
  location-Keeps zero offset = record { at = λ r h. h }
  location-Keeps (suc calls) offset = record {
    at = λ r h. elim (Option-cases (cached_object offset r)) [
      | inl missing ↦
          rw (missing, resource_location_from_binary)
            ((location_by-Keeps _ (location-Keeps calls) offset).at r h)
      | inr (x, cached) ↦ rw (cached, resource_location_from_binary) h
    ];
  }
