-- ===== src/Binary/Stable.antt =====
-- Invariants of `CatalogBinaryReader` that its methods keep because the parts of its state that they
-- change do.
use addressables_tools_py.Prelude.{
  ℕ, ℤ, pos, none, some, List, Option-cases, inl, inr, ◌≡◌, ◌≢◌, refl, ap, ◌∙◌, sym,
}
use addressables_tools_py.Prelude.Dict
use addressables_tools_py.Prelude.Dict.{Dict, nat_key, nat_key-IsLawful, get-put_cases}
use addressables_tools_py.Python.Exec.{Exec}
use addressables_tools_py.Python.Exec.Keeps.{
  Keeps, Keeps-pure, Keeps-bind, Makes, Makes-pure, Makes-bind, Keeps-bind_made,
}
use addressables_tools_py.Python.Stream.{Bytes}
use addressables_tools_py.Python.Codec.{Str}
use addressables_tools_py.Models.Object.{Object, SerializedType, offsets, codes}
use addressables_tools_py.Models.Catalog.{ResourceLocation}
use addressables_tools_py.Binary.Reader.{BinaryReader, read_two_uint32_from, two_uint32}
use addressables_tools_py.Binary.Reader.Buffer.{HasBuffer, read_struct_from-HasBuffer}
use addressables_tools_py.Binary.State.{CatalogBinaryReader, on_base, cached_object, cache_object}
use addressables_tools_py.Binary.Strings.{read_encoded_string}
use addressables_tools_py.Binary.Strings.Sound.{IsSound}
use addressables_tools_py.Binary.Arrays.{
  as_list, fetch_serialized_type, read_serialized_type, read_offset_array,
}
use addressables_tools_py.Binary.Arrays.Wire.{ArraysSound, read_offset_array-array_at}
use addressables_tools_py.Binary.Sound.{read_encoded_string-IsSound, read_offset_array-IsSound}
use addressables_tools_py.Binary.Strings.Transparent.{read_encoded_string_transparent}

-- What an invariant of a reader over these bytes allows to change.
pub record IsStable (bytes : Bytes) (P : CatalogBinaryReader → Type 0) : Type 0 where
  pub buffered : (r : CatalogBinaryReader) → P r → r.base.buffer ≡ some bytes
  pub base :
      (r : CatalogBinaryReader) (b : BinaryReader)
      → b.buffer ≡ some bytes
      → P r
      → P (record r { base = b })
  pub string : (encoded : ℕ) (separator : Str) → Keeps P (read_encoded_string encoded separator)
  pub array : (offset : ℕ) → Keeps P (read_offset_array offset)
  pub object :
      (r : CatalogBinaryReader) (offset : ℕ) (value : Object)
      → as_list (some value) ≡ none
      → P r
      → P (record r { object_cache = Dict.put r.object_cache offset value })
  pub name :
      (r : CatalogBinaryReader) (names : Dict ℕ (ℤ × SerializedType × Str))
      → P r
      → P (record r { type_name_cache = names })
  pub place :
      (r : CatalogBinaryReader) (locations : List ResourceLocation)
      → P r
      → P (record r { locations = locations })

module _ (bytes : Bytes) (P : CatalogBinaryReader → Type 0) (stable : IsStable bytes P) where
  pub on_base-Keeps :
      {A : Type 0} {m : Exec BinaryReader A}
      → Keeps (HasBuffer (some bytes)) m
      → Keeps P (on_base m)
  on_base-Keeps {m} k = record {
    at = λ r h. stable.base r (m r.base).1 (k.at r.base (stable.buffered r h)) h;
  }

  pub cache_object-Keeps :
      (offset : ℕ) (value : Object)
      → as_list (some value) ≡ none
      → Keeps P (cache_object offset value)
  cache_object-Keeps offset value e = record { at = λ r h. stable.object r offset value e h }

  read_two-Keeps : (p : ℤ) → Keeps P (on_base (read_two_uint32_from p))
  unfolding read_two_uint32_from
  read_two-Keeps p = on_base-Keeps (read_struct_from-HasBuffer bytes two_uint32 p)

  fetch_serialized_type-Makes :
      (offset : ℕ) → Makes P (λ value. as_list (some value) ≡ none) (fetch_serialized_type offset)
  unfolding fetch_serialized_type
  fetch_serialized_type-Makes offset = Makes-bind (read_two-Keeps (pos offset)) λ fields.
      Makes-bind (stable.string fields.0 (codes ".")) λ assembly.
        Makes-bind (stable.string fields.1.0 (codes ".")) λ class_name. Makes-pure _ refl

  pub read_serialized_type-Keeps : (offset : ℕ) → Keeps P (read_serialized_type offset)
  unfolding read_serialized_type
  read_serialized_type-Keeps offset = record {
    at = λ r h. elim (Option-cases (cached_object offset r)) [
      | inl missing ↦
          rw (missing, read_serialized_type)
            ((Keeps-bind_made (fetch_serialized_type-Makes offset)
                λ value e. Keeps-bind (cache_object-Keeps offset value e) λ _. Keeps-pure value).at
              r h)
      | inr (x, cached) ↦ rw (cached, read_serialized_type) h
    ];
  }

pub IsSound-IsStable : (bytes : Bytes) → IsStable bytes (IsSound bytes)
IsSound-IsStable bytes = record {
  buffered = λ r h. h.buffered;
  base = λ r b e h. record { buffered = e; strings = h.strings; tails = h.tails };
  string = read_encoded_string-IsSound bytes;
  array = read_offset_array-IsSound bytes;
  object =
      λ r offset value e h. record { buffered = h.buffered; strings = h.strings; tails = h.tails };
  name = λ r names h. record { buffered = h.buffered; strings = h.strings; tails = h.tails };
  place = λ r locations h. record { buffered = h.buffered; strings = h.strings; tails = h.tails };
}

-- The caches of strings and the cached arrays are sound.
pub record AllSound (bytes : Bytes) (r : CatalogBinaryReader) : Type 0 where
  pub strings : IsSound bytes r
  pub arrays : ArraysSound bytes r.object_cache

no_array : (xs : List ℕ) → some xs ≢ none
no_array xs h = cc

module _ (bytes : Bytes) where
  put_other-ArraysSound :
      (cache : Dict ℕ Object) (offset : ℕ) (value : Object)
      → as_list (some value) ≡ none
      → ArraysSound bytes cache
      → ArraysSound bytes (Dict.put cache offset value)
  put_other-ArraysSound cache offset value e sound = record {
    entry = λ o ys h. elim (get-put_cases nat_key-IsLawful cache offset o value (offsets ys) h) [
      | inl (same, equal) ↦ absurd (no_array ys (ap (λ v. as_list (some v)) (sym equal) ∙ e))
      | inr old ↦ sound.entry o ys old
    ];
  }

  string-AllSound :
      (encoded : ℕ) (separator : Str)
      → Keeps (AllSound bytes) (read_encoded_string encoded separator)
  string-AllSound encoded separator = record {
    at = λ r h.
        let (_, sound, same) =
          read_encoded_string_transparent bytes encoded separator r h.strings in
        record {
          strings = sound;
          arrays = rw (ap (λ (x : CatalogBinaryReader). x.object_cache) same) h.arrays;
        };
  }

  array-AllSound : (offset : ℕ) → Keeps (AllSound bytes) (read_offset_array offset)
  array-AllSound offset = record {
    at = λ r h.
        let (cache, out, arrays) =
          read_offset_array-array_at bytes offset r h.strings.buffered h.arrays in
        record {
          strings = (read_offset_array-IsSound bytes offset).at r h.strings;
          arrays = rw out arrays;
        };
  }

  pub AllSound-IsStable : IsStable bytes (AllSound bytes)
  AllSound-IsStable = record {
    buffered = λ r h. h.strings.buffered;
    base = λ r b e h. record {
      strings = (IsSound-IsStable bytes).base r b e h.strings;
      arrays = h.arrays;
    };
    string = string-AllSound;
    array = array-AllSound;
    object = λ r offset value e h. record {
      strings = (IsSound-IsStable bytes).object r offset value e h.strings;
      arrays = put_other-ArraysSound r.object_cache offset value e h.arrays;
    };
    name = λ r names h. record {
      strings = (IsSound-IsStable bytes).name r names h.strings;
      arrays = h.arrays;
    };
    place = λ r locations h. record {
      strings = (IsSound-IsStable bytes).place r locations h.strings;
      arrays = h.arrays;
    };
  }
