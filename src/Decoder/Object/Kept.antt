-- ===== src/Decoder/Object/Kept.antt =====
-- Decoding a value keeps an invariant of the reader that is stable, if the custom decoders do.
use addressables_tools_py.Prelude.{
  ℕ, ℤ, pos, Bool, true, false, Option, some, ◌≡◌, refl, ◌==◌, inl, inr, Option-cases, Bool-cases,
}
use addressables_tools_py.Prelude.Dict
use addressables_tools_py.Prelude.Dict.{nat_key}
use addressables_tools_py.Python.Exec.{Exec, pure, modify, ◌>>=◌}
use addressables_tools_py.Python.Exec.Keeps.{
  Keeps, Keeps-pure, Keeps-raise, Keeps-lift, Keeps-gets, Keeps-bind,
}
use addressables_tools_py.Python.Stream.{Bytes}
use addressables_tools_py.Python.Struct.{Struct}
use addressables_tools_py.Python.Codec.{Str}
use addressables_tools_py.Models.Object.{
  Object, int, bool, serialized_type, SerializedType, match_name_for_version, common_info, options,
}
use addressables_tools_py.Binary.Reader.{BinaryReader, read_struct_from, two_uint32}
use addressables_tools_py.Binary.Reader.Buffer.{
  HasBuffer, seek-HasBuffer, read_int32-HasBuffer, read_int64-HasBuffer, read_boolean-HasBuffer,
  read_four_uint32-HasBuffer, read_struct_from-HasBuffer,
}
use addressables_tools_py.Binary.State.{CatalogBinaryReader, uint32_max, on_base, cached_object}
use addressables_tools_py.Binary.Stable.{
  IsStable, on_base-Keeps, cache_object-Keeps, read_serialized_type-Keeps,
}
use addressables_tools_py.Decoder.Names.{
  BuiltIn, int_case, long_case, bool_case, string_case, hash_case, options_case, unsupported,
  built_in,
}
use addressables_tools_py.Decoder.Registry.{Registry, ObjectDecoder, BinaryDecodeContext}
use addressables_tools_py.Decoder.Object.{
  decode_common_info_binary, cached_common_info, set_version,
  decode_asset_bundle_request_options_binary, type_and_name, for_version, as_serialized_type,
  read_string_object, read_hash_object, read_options_object, at_offset, decode_built_in,
  resolve_with, decode_as, decoder_with, decode_v2_typed, decode_v2,
}

module _ (bytes : Bytes) (P : CatalogBinaryReader → Type 0) (stable : IsStable bytes P) where
  pub read_fields-Keeps : (layout : Struct) (p : ℤ) → Keeps P (on_base (read_struct_from layout p))
  read_fields-Keeps layout p =
      on_base-Keeps bytes P stable (read_struct_from-HasBuffer bytes layout p)

  common_info-Keeps : (offset : ℕ) → Keeps P (decode_common_info_binary offset)
  unfolding decode_common_info_binary
  common_info-Keeps offset = search (Keeps-bind, Keeps-pure, read_fields-Keeps)

  cached_common_info-Keeps : (offset : ℕ) → Keeps P (cached_common_info offset)
  unfolding cached_common_info
  cached_common_info-Keeps offset = record {
    at = λ r h. elim (Option-cases (cached_object offset r)) [
      | inl missing ↦
          rw (missing, cached_common_info)
            ((Keeps-bind (common_info-Keeps offset) λ info.
                Keeps-bind (cache_object-Keeps bytes P stable offset (common_info info) refl)
                  λ _. Keeps-pure (common_info info)).at
              r h)
      | inr (x, cached) ↦ rw (cached, cached_common_info) h
    ];
  }

  set_version-Keeps : (offset : ℕ) (x : Object) → Keeps P (set_version offset x)
  unfolding set_version
  set_version-Keeps offset (common_info info) =
      Keeps-bind (cache_object-Keeps bytes P stable offset _ refl)
        λ _. Keeps-pure (record info { version = pos 3 })
  set_version-Keeps offset _ = Keeps-raise _

  options-Keeps : (offset : ℕ) → Keeps P (decode_asset_bundle_request_options_binary offset)
  unfolding decode_asset_bundle_request_options_binary
  options-Keeps offset =
      search
        (
          Keeps-bind, Keeps-pure, read_fields-Keeps, cached_common_info-Keeps, set_version-Keeps,
          stable.string,
        )
        depth 12

  read_options_object-Keeps : (offset : ℕ) → Keeps P (read_options_object offset)
  unfolding read_options_object
  read_options_object-Keeps offset = record {
    at = λ r h. elim (Option-cases (cached_object offset r)) [
      | inl missing ↦
          rw (missing, read_options_object)
            ((Keeps-bind (options-Keeps offset) λ o.
                Keeps-bind (cache_object-Keeps bytes P stable offset (options o) refl)
                  λ _. Keeps-pure (options o)).at
              r h)
      | inr (x, cached) ↦ rw (cached, read_options_object) h
    ];
  }

  as_type-Keeps : (x : Object) → Keeps P (as_serialized_type x)
  as_type-Keeps (serialized_type t) = Keeps-pure t
  as_type-Keeps _ = Keeps-raise _

  cache_name-Keeps :
      (offset : ℕ) (version : ℤ) (t : SerializedType) (name : Str)
      → Keeps P (
          modify (λ r. record r {
            type_name_cache = Dict.put r.type_name_cache offset (version, t, name);
          }))
  cache_name-Keeps offset version t name = record {
    at = λ r h. stable.name r (Dict.put r.type_name_cache offset (version, t, name)) h;
  }

  type_and_name-Keeps : (offset : ℕ) → Keeps P (type_and_name offset)
  unfolding type_and_name
  type_and_name-Keeps offset = record {
    at = λ r h. elim (Option-cases (for_version r.version (Dict.get r.type_name_cache offset))) [
      | inl missing ↦
          rw (missing, type_and_name)
            ((Keeps-bind (read_serialized_type-Keeps bytes P stable offset) λ object.
                Keeps-bind (as_type-Keeps object) λ t.
                  Keeps-bind (Keeps-gets (λ r. r.version)) λ version.
                    Keeps-bind (Keeps-lift (match_name_for_version t version)) λ name.
                      Keeps-bind (cache_name-Keeps offset version t name)
                        λ _. Keeps-pure (t, name)).at
              r h)
      | inr (x, cached) ↦ rw (cached, type_and_name) h
    ];
  }

  read_string_object-Keeps : (offset : ℕ) → Keeps P (read_string_object offset)
  unfolding read_string_object
  read_string_object-Keeps offset =
      search (Keeps-bind, Keeps-pure, read_fields-Keeps, stable.string) depth 12

  read_hash_object-Keeps : Keeps P read_hash_object
  unfolding read_hash_object
  read_hash_object-Keeps =
      Keeps-bind (on_base-Keeps bytes P stable (read_four_uint32-HasBuffer (some bytes)))
        λ v. search (Keeps-bind, Keeps-pure, Keeps-lift) depth 12

  at_offset-Keeps :
      (offset : ℕ) {m : Exec CatalogBinaryReader Object} → Keeps P m → Keeps P (at_offset offset m)
  at_offset-Keeps offset k =
      Keeps-bind (on_base-Keeps bytes P stable (seek-HasBuffer (some bytes) (pos offset) (pos 0)))
        λ _. k

  base_value-Keeps :
      {A : Type 0} {m : Exec BinaryReader A} (f : A → Object)
      → Keeps (HasBuffer (some bytes)) m
      → Keeps P (on_base m >>= λ a. pure (f a))
  base_value-Keeps f k = Keeps-bind (on_base-Keeps bytes P stable k) λ a. Keeps-pure (f a)

  decode_built_in-Keeps :
      (t : BuiltIn) (is_default : Bool) (offset : ℕ) → Keeps P (decode_built_in t is_default offset)
  unfolding decode_built_in
  decode_built_in-Keeps int_case true offset = Keeps-pure _
  decode_built_in-Keeps int_case false offset =
      at_offset-Keeps offset (base_value-Keeps int (read_int32-HasBuffer (some bytes)))
  decode_built_in-Keeps long_case true offset = Keeps-pure _
  decode_built_in-Keeps long_case false offset =
      at_offset-Keeps offset (base_value-Keeps int (read_int64-HasBuffer (some bytes)))
  decode_built_in-Keeps bool_case true offset = Keeps-pure _
  decode_built_in-Keeps bool_case false offset =
      at_offset-Keeps offset (base_value-Keeps bool (read_boolean-HasBuffer (some bytes)))
  decode_built_in-Keeps string_case true offset = Keeps-pure _
  decode_built_in-Keeps string_case false offset = read_string_object-Keeps offset
  decode_built_in-Keeps hash_case true offset = Keeps-pure _
  decode_built_in-Keeps hash_case false offset = at_offset-Keeps offset read_hash_object-Keeps
  decode_built_in-Keeps options_case true offset = Keeps-pure _
  decode_built_in-Keeps options_case false offset = read_options_object-Keeps offset
  decode_built_in-Keeps unsupported is_default offset = Keeps-raise _

  -- Every decoder that a registry gives keeps it.
  abbrev pub DecodersKeep : Option Registry → Type 0
  DecodersKeep registry =
      (name : Str) (decoder : ObjectDecoder) (context : BinaryDecodeContext)
      → decoder_with registry name ≡ some decoder
      → Keeps P (decoder context)

  decode_as-Keeps :
      (registry : Option Registry) (context : BinaryDecodeContext) (name : Str)
      → DecodersKeep registry
      → Keeps P (decode_as (decoder_with registry name) context name)
  decode_as-Keeps registry context name k = elim (Option-cases (decoder_with registry name)) [
    | inl missing ↦
        rw missing (decode_built_in-Keeps (built_in name) context.is_default context.offset)
    | inr (decoder, found) ↦ rw found (k name decoder context found)
  ]

  module _ (registry : Option Registry) (keeps : DecodersKeep registry) where
    pub decode_v2_typed-Keeps : (offset : ℕ) → Keeps P (decode_v2_typed registry offset)
    unfolding decode_v2_typed
    decode_v2_typed-Keeps offset = record {
      at = λ r h. elim (Bool-cases (offset == uint32_max)) [
        | inl e ↦ rw (e, decode_v2_typed) h
        | inr e ↦
            rw (e, decode_v2_typed)
              ((Keeps-bind (read_fields-Keeps two_uint32 (pos offset)) λ fields.
                  Keeps-bind (type_and_name-Keeps fields.0) λ found.
                    Keeps-bind (Keeps-lift (resolve_with registry found.1)) λ name.
                      Keeps-bind
                        (decode_as-Keeps registry
                          (record {
                            offset = fields.1.0;
                            is_default = fields.1.0 == uint32_max;
                            serialized_type = found.0;
                          })
                          name keeps)
                        λ value. Keeps-pure (value, some found.0)).at
                r h)
      ];
    }

    pub decode_v2-Keeps : (offset : ℕ) → Keeps P (decode_v2 registry offset)
    unfolding decode_v2
    decode_v2-Keeps offset = Keeps-bind (decode_v2_typed-Keeps offset) λ found. Keeps-pure found.0
