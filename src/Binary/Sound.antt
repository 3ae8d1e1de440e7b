-- ===== src/Binary/Sound.antt =====
-- The methods of `CatalogBinaryReader` keep the caches of strings sound.
use addressables_tools_py.Prelude.{ℕ, ℤ, some, Option-cases, Bool-cases, ◌==◌, inl, inr}
use addressables_tools_py.Python.Exec.{Exec}
use addressables_tools_py.Python.Exec.Keeps.{Keeps, Keeps-pure, Keeps-bind}
use addressables_tools_py.Python.Stream.{Bytes}
use addressables_tools_py.Python.Codec.{Str}
use addressables_tools_py.Models.Object.{Object, offsets}
use addressables_tools_py.Binary.Reader.{BinaryReader, read_two_uint32_from, two_uint32}
use addressables_tools_py.Binary.Reader.Buffer.{HasBuffer, read_struct_from-HasBuffer}
use addressables_tools_py.Binary.State.{uint32_max, on_base, cached_object, cache_object}
use addressables_tools_py.Binary.Strings.{read_encoded_string}
use addressables_tools_py.Binary.Strings.Sound.{IsSound}
use addressables_tools_py.Binary.Strings.Transparent.{read_encoded_string_transparent}
use addressables_tools_py.Binary.Arrays.{
  as_list, fetch_offset_array, read_offset_array, fetch_serialized_type, read_serialized_type,
}
use addressables_tools_py.Binary.Arrays.Wire.{fetch_offset_array-array_at}
use addressables_tools_py.Prelude.Dict
use addressables_tools_py.Prelude.Dict.{nat_key}

module _ (bytes : Bytes) where
  pub on_base-IsSound :
      {A : Type 0} {m : Exec BinaryReader A}
      → Keeps (HasBuffer (some bytes)) m
      → Keeps (IsSound bytes) (on_base m)
  on_base-IsSound k = record {
    at = λ r h. record { buffered = k.at r.base h.buffered; strings = h.strings; tails = h.tails };
  }

  pub cache_object-IsSound :
      (offset : ℕ) (value : Object) → Keeps (IsSound bytes) (cache_object offset value)
  cache_object-IsSound offset value = record {
    at = λ r h. record { buffered = h.buffered; strings = h.strings; tails = h.tails };
  }

  pub read_encoded_string-IsSound :
      (encoded : ℕ) (separator : Str)
      → Keeps (IsSound bytes) (read_encoded_string encoded separator)
  read_encoded_string-IsSound encoded separator = record {
    at = λ r h. (read_encoded_string_transparent bytes encoded separator r h).1;
  }

  pub read_two-IsSound : (p : ℤ) → Keeps (IsSound bytes) (on_base (read_two_uint32_from p))
  unfolding read_two_uint32_from
  read_two-IsSound p = on_base-IsSound (read_struct_from-HasBuffer bytes two_uint32 p)

  fetch_serialized_type-IsSound :
      (offset : ℕ) → Keeps (IsSound bytes) (fetch_serialized_type offset)
  unfolding fetch_serialized_type
  fetch_serialized_type-IsSound offset =
      search (Keeps-bind, Keeps-pure, read_two-IsSound, read_encoded_string-IsSound)

  pub read_serialized_type-IsSound :
      (offset : ℕ) → Keeps (IsSound bytes) (read_serialized_type offset)
  unfolding read_serialized_type
  read_serialized_type-IsSound offset = record {
    at = λ r h. elim (Option-cases (cached_object offset r)) [
      | inl missing ↦
          rw (missing, read_serialized_type)
            ((Keeps-bind (fetch_serialized_type-IsSound offset)
                λ value. Keeps-bind (cache_object-IsSound offset value) λ _. Keeps-pure value).at
              r h)
      | inr (x, cached) ↦ rw (cached, read_serialized_type) h
    ];
  }

  fetch_offset_array-HasBuffer :
      (offset : ℕ) → Keeps (HasBuffer (some bytes)) (fetch_offset_array offset)
  fetch_offset_array-HasBuffer offset = record {
    at = λ b h. rw (fetch_offset_array-array_at bytes b offset h) h;
  }

  pub read_offset_array-IsSound : (offset : ℕ) → Keeps (IsSound bytes) (read_offset_array offset)
  unfolding read_offset_array
  read_offset_array-IsSound offset = record {
    at = λ r h. elim (Bool-cases (offset == uint32_max)) [
      | inl e ↦ rw (e, read_offset_array) h
      | inr e ↦ elim (Option-cases (as_list (Dict.get r.object_cache offset))) [
        | inl missing ↦
            rw (e, missing, read_offset_array)
              ((Keeps-bind (on_base-IsSound (fetch_offset_array-HasBuffer offset)) λ found.
                  Keeps-bind (cache_object-IsSound offset (offsets found)) λ _. Keeps-pure found).at
                r h)
        | inr (xs, cached) ↦ rw (e, cached, read_offset_array) h
      ]
    ];
  }
