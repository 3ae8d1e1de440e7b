-- ===== src/Catalog/Caches.antt =====
-- A parse of a binary catalog leaves sound caches of strings.
use addressables_tools_py.Prelude.{
  ℕ, ◌&&◌, ◌==◌, ℤ, pos, true, false, if◌then◌else◌, Bool, [], Option, none, some, ◌≡◌, refl,
}
use addressables_tools_py.Python.Exec.{Exec, Result, ok, err, pure, lift, modify, ◌>>=◌, ◌>>◌}
use addressables_tools_py.Python.Exec.Keeps.{
  Keeps, Keeps-pure, Keeps-raise, Keeps-gets, Keeps-bind, Keeps-raise_if, Keeps-for_each,
  after-Keeps,
}
use addressables_tools_py.Python.Stream.{Bytes}
use addressables_tools_py.Python.Codec.{Str}
use addressables_tools_py.Models.Catalog.{Resources, int_eq}
use addressables_tools_py.Binary.State.{CatalogBinaryReader, uint32_max, on_base, new_reader}
use addressables_tools_py.Binary.Reader.{BinaryReader, read_uint32, read_int32}
use addressables_tools_py.Binary.Reader.Buffer.{
  HasBuffer, read_int32-HasBuffer, read_uint32-HasBuffer,
}
use addressables_tools_py.Binary.Strings.{no_separator}
use addressables_tools_py.Binary.Strings.Sound.{IsSound}
use addressables_tools_py.Binary.Strings.Transparent.{no_strings, no_tails}
use addressables_tools_py.Binary.Sound.{
  read_encoded_string-IsSound, read_offset_array-IsSound, read_serialized_type-IsSound,
}
use addressables_tools_py.Binary.Header.{CatalogBinaryHeader, read_header}
use addressables_tools_py.Backend.{Backend, auto, python, rust, unknown, Decoders, validate_backend}
use addressables_tools_py.Decoder.Registry.{Registry}
use addressables_tools_py.Decoder.Object.Sound.{RegistryKeeps, read_fields-IsSound}
use addressables_tools_py.Catalog.Locations.{object_initialization_data_from_binary}
use addressables_tools_py.Catalog.Resources.{
  NativeDecoder, has_buffer, decode_binary_resources, decode_binary_resources_python,
}
use addressables_tools_py.Catalog.Backends.{
  entry_point, by_backend, native_or, decode_binary_resources-by_backend,
}
use addressables_tools_py.Catalog.Sound.{decode_binary_resources_python-IsSound}
use addressables_tools_py.Catalog.Parse.{read_contents, read_catalog, parse_binary_catalog}

module _ (bytes : Bytes) where
  -- A reader over a buffer that has read no strings yet.
  record Fresh (r : CatalogBinaryReader) : Type 0 where
    pub buffered : r.base.buffer ≡ some bytes
    pub strings : r.string_cache ≡ []
    pub tails : r.dynamic_tail_cache ≡ []

  on_base-Fresh :
      {A : Type 0} {m : Exec BinaryReader A}
      → Keeps (HasBuffer (some bytes)) m
      → Keeps Fresh (on_base m)
  on_base-Fresh k = record {
    at = λ r h. record { buffered = k.at r.base h.buffered; strings = h.strings; tails = h.tails };
  }

  read_uint32-Fresh : Keeps Fresh (on_base read_uint32)
  read_uint32-Fresh = on_base-Fresh (read_uint32-HasBuffer (some bytes))

  read_int32-Fresh : Keeps Fresh (on_base read_int32)
  read_int32-Fresh = on_base-Fresh (read_int32-HasBuffer (some bytes))

  set_version-Fresh :
      (v : ℤ) → Keeps Fresh (modify (λ (r : CatalogBinaryReader). record r { version = v }))
  set_version-Fresh v = record {
    at = λ r h. record { buffered = h.buffered; strings = h.strings; tails = h.tails };
  }

  build-Fresh :
      (short : Bool) → Keeps Fresh (if short then pure uint32_max else on_base read_uint32)
  build-Fresh true = Keeps-pure uint32_max
  build-Fresh false = read_uint32-Fresh

  read_header-Fresh : Keeps Fresh read_header
  unfolding read_header
  read_header-Fresh = Keeps-bind read_int32-Fresh λ magic. Keeps-bind read_int32-Fresh λ version.
      Keeps-bind (Keeps-raise_if _ _) λ _. Keeps-bind (set_version-Fresh version) λ _.
        Keeps-bind read_uint32-Fresh λ keys. Keeps-bind read_uint32-Fresh λ id.
          Keeps-bind read_uint32-Fresh λ instance_provider.
            Keeps-bind read_uint32-Fresh λ scene_provider.
              Keeps-bind read_uint32-Fresh λ init_objects.
                Keeps-bind (build-Fresh (int_eq version (pos 1) && keys == 0x20)) λ build.
                  Keeps-pure (record {
                    magic = magic;
                    version = version;
                    keys_offset = keys;
                    id_offset = id;
                    instance_provider_offset = instance_provider;
                    scene_provider_offset = scene_provider;
                    init_objects_array_offset = init_objects;
                    build_result_hash_offset = build;
                  })

  Fresh-IsSound : (r : CatalogBinaryReader) → Fresh r → IsSound bytes r
  Fresh-IsSound r h = record {
    buffered = h.buffered;
    strings = rw h.strings (no_strings bytes r.version);
    tails = rw h.tails (no_tails bytes);
  }

  initialization-IsSound :
      (offset : ℕ) → Keeps (IsSound bytes) (object_initialization_data_from_binary offset)
  unfolding object_initialization_data_from_binary
  initialization-IsSound offset =
      search
        (
          Keeps-bind, Keeps-pure, read_fields-IsSound, read_encoded_string-IsSound,
          read_serialized_type-IsSound,
        )
        depth 12

module _ (bytes : Bytes) (native : Decoders NativeDecoder) (hash : Option Str → ℤ) (calls : ℕ)
    (registry : Option Registry) (keeps : RegistryKeeps bytes registry)
    (native_keeps : (decoder : NativeDecoder) (keys_offset : ℕ)
      → entry_point native registry ≡ some decoder
      → Keeps (IsSound bytes) (decoder registry keys_offset)) where
  python-IsSound :
      (keys_offset : ℕ)
      → Keeps (IsSound bytes) (decode_binary_resources_python hash calls registry keys_offset)
  python-IsSound = decode_binary_resources_python-IsSound bytes hash registry keeps calls

  native_or-IsSound :
      (keys_offset : ℕ) (o : Option NativeDecoder) (otherwise : Exec CatalogBinaryReader Resources)
      → entry_point native registry ≡ o
      → Keeps (IsSound bytes) otherwise
      → Keeps (IsSound bytes) (native_or native hash calls keys_offset registry otherwise o)
  native_or-IsSound keys_offset none otherwise e k = k
  native_or-IsSound keys_offset (some decoder) otherwise e k = native_keeps decoder keys_offset e

  by_backend-IsSound :
      (backend : Backend) (plain : Bool) (keys_offset : ℕ)
      → Keeps (IsSound bytes) (by_backend native hash calls keys_offset backend plain registry)
  by_backend-IsSound unknown plain keys_offset = Keeps-raise _
  by_backend-IsSound python plain keys_offset = python-IsSound keys_offset
  by_backend-IsSound rust false keys_offset = Keeps-raise _
  by_backend-IsSound rust true keys_offset = native_or-IsSound keys_offset _ _ refl (Keeps-raise _)
  by_backend-IsSound auto false keys_offset = python-IsSound keys_offset
  by_backend-IsSound auto true keys_offset =
      native_or-IsSound keys_offset _ _ refl (python-IsSound keys_offset)

  resources-IsSound :
      (backend : Backend) (plain : Bool) (keys_offset : ℕ)
      → Keeps
          (IsSound bytes)
          (decode_binary_resources native hash calls backend plain registry keys_offset)
  resources-IsSound backend plain keys_offset = record {
    at = λ r h.
        rw
          (decode_binary_resources-by_backend native hash calls keys_offset backend plain registry
            r)
          ((by_backend-IsSound backend (has_buffer r && plain) keys_offset).at r h);
  }

  read_contents-IsSound :
      (backend : Backend) (plain : Bool) (header : CatalogBinaryHeader)
      → Keeps (IsSound bytes) (read_contents native hash calls backend plain registry header)
  unfolding read_contents
  read_contents-IsSound backend plain header =
      Keeps-bind (read_offset_array-IsSound bytes header.init_objects_array_offset) λ offsets.
        Keeps-bind (Keeps-gets (λ r. r.version)) λ version.
          Keeps-bind (read_encoded_string-IsSound bytes header.id_offset no_separator) λ id.
            Keeps-bind
              (read_encoded_string-IsSound bytes header.build_result_hash_offset no_separator)
              λ build.
                Keeps-bind (initialization-IsSound bytes header.instance_provider_offset)
                  λ instance_data.
                    Keeps-bind (initialization-IsSound bytes header.scene_provider_offset)
                      λ scene_data.
                        Keeps-bind (Keeps-for_each offsets (initialization-IsSound bytes))
                          λ provider_data.
                            Keeps-bind (resources-IsSound backend plain header.keys_offset)
                              λ resources. Keeps-pure _

  read_from-IsSound :
      (backend : Backend) (plain : Bool) (valid : Result (Unit {0})) (r : CatalogBinaryReader)
      → Fresh bytes r
      → IsSound bytes
          ((lift valid >> (read_header >>= read_contents native hash calls backend plain registry))
            r).1
  read_from-IsSound backend plain (err e) r h = Fresh-IsSound bytes r h
  read_from-IsSound backend plain (ok _) r h =
      after-Keeps read_header r (Fresh-IsSound bytes _ ((read_header-Fresh bytes).at r h))
        (read_contents-IsSound backend plain)

  -- Whatever the bytes and the backend, parse_binary_catalog leaves a reader whose caches of strings
  -- and of tails hold what the bytes say, if each custom decoder and the entry point of the extension
  -- keep such caches.
  pub parse_binary_catalog-IsSound :
      (backend : Backend) (plain : Bool)
      → IsSound bytes (parse_binary_catalog native hash calls backend plain registry bytes).1
  unfolding parse_binary_catalog read_catalog
  parse_binary_catalog-IsSound backend plain =
      read_from-IsSound backend plain (validate_backend backend) (new_reader bytes (some bytes))
        (record { buffered = refl; strings = refl; tails = refl })
