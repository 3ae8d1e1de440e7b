-- ===== src/Catalog/Backends.antt =====
-- What each backend makes of a binary catalog's resources.
use addressables_tools_py.Prelude.{
  ℕ, ℤ, Bool, true, false, ◌&&◌, Option, none, some, ◌≡◌, arith, if◌then◌else◌,
}
use addressables_tools_py.Python.Exec.{Exec, raise, value_error, native_backend_unavailable_error}
use addressables_tools_py.Python.Codec.{Str}
use addressables_tools_py.Models.Catalog.{Resources}
use addressables_tools_py.Binary.State.{CatalogBinaryReader}
use addressables_tools_py.Backend.{
  Backend, auto, python, rust, unknown, Decoders, select_decoder, validate_backend,
}
use addressables_tools_py.Decoder.Registry.{Registry}
use addressables_tools_py.Catalog.Resources.{
  NativeDecoder, has_buffer, decode_binary_resources, decode_binary_resources_python,
}

-- The entry point of the extension that suits a registry.
abbrev pub entry_point : Decoders NativeDecoder → Option Registry → Option NativeDecoder
entry_point native none = native.decode_resources
entry_point native (some g) = elim native.decode_registry_resources [
  | none ↦ none
  | some decoder ↦ elim native.decode_registry_resources_fast [
    | none ↦ some decoder
    | some fast ↦ some (if g.is_standard then fast else decoder)
  ]
]

module _ (native : Decoders NativeDecoder) (hash : Option Str → ℤ) (calls : ℕ)
    (keys_offset : ℕ) where
  abbrev pub native_or :
      Option Registry
      → Exec CatalogBinaryReader Resources
      → Option NativeDecoder
      → Exec CatalogBinaryReader Resources
  native_or registry otherwise none = otherwise
  native_or registry otherwise (some decoder) = decoder registry keys_offset

  -- `plain` tells whether the bytes are at hand, as a plain `bytes`.
  abbrev pub by_backend : Backend → Bool → Option Registry → Exec CatalogBinaryReader Resources
  by_backend unknown plain registry = raise value_error
  by_backend python plain registry = decode_binary_resources_python hash calls registry keys_offset
  by_backend rust false registry = raise native_backend_unavailable_error
  by_backend rust true registry =
      native_or registry (raise native_backend_unavailable_error) (entry_point native registry)
  by_backend auto false registry = decode_binary_resources_python hash calls registry keys_offset
  by_backend auto true registry =
      native_or registry (decode_binary_resources_python hash calls registry keys_offset)
        (entry_point native registry)

  -- The Python backend never calls the extension; the Rust backend never falls back to Python, but
  -- raises NativeBackendUnavailableError without plain bytes or without an entry point; the
  -- automatic choice takes the entry point if there are both, and Python otherwise. An entry point
  -- gets the registry and the reader as they are.
  pub decode_binary_resources-by_backend :
      (backend : Backend) (plain_bytes : Bool) (registry : Option Registry)
      (r : CatalogBinaryReader)
      → decode_binary_resources native hash calls backend plain_bytes registry keys_offset r
        ≡ by_backend backend (has_buffer r && plain_bytes) registry r
  unfolding decode_binary_resources select_decoder validate_backend
  decode_binary_resources-by_backend backend plain_bytes none r = ground arith
  decode_binary_resources-by_backend backend plain_bytes (some g) r = ground arith
