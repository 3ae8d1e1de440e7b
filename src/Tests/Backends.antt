-- ===== src/Tests/Backends.antt =====
-- Backends, with and without an extension.
use addressables_tools_py.Prelude.{pos, true, ◌&&◌, none, some, ◌≡◌, ◌↔◌, ◌⊎◌}
use addressables_tools_py.Python.Exec.{raise, type_error}
use addressables_tools_py.Backend.{auto, Extension, load}
use addressables_tools_py.Backend.Available.{load_lem}
use addressables_tools_py.Catalog.Resources.{NativeDecoder, has_buffer, decode_binary_resources}
use addressables_tools_py.Catalog.Backends.{by_backend, decode_binary_resources-by_backend}
use addressables_tools_py.Tests.Data.{over, catalog_bytes, no_hash}

-- An extension whose decoders raise TypeError.
abbrev failing : NativeDecoder
failing registry keys_offset = raise type_error

abbrev extension : Extension NativeDecoder
extension = record {
  api_version = some (pos 2);
  binary = some failing;
  json = some failing;
  registry = none;
  registry_fast = none;
}

load_lem_example :
    (((load (some extension)).decode_resources ≡ some failing) ↔ (
      (extension.binary ≡ some failing)
      × ((extension.api_version ≡ some (pos 1))
          ⊎ ((extension.api_version ≡ some (pos 2)) ⊎ (extension.api_version ≡ some (pos 3))))))
    × (((load (some extension)).decode_json_resources ≡ some failing) ↔ (
        (extension.json ≡ some failing)
        × ((extension.api_version ≡ some (pos 2)) ⊎ (extension.api_version ≡ some (pos 3)))))
    × (((load (some extension)).decode_registry_resources ≡ some failing)
        ↔ ((extension.registry ≡ some failing) × (extension.api_version ≡ some (pos 3))))
load_lem_example = load_lem extension failing

decode_binary_resources-by_backend_example :
    decode_binary_resources
      (load (some extension))
      no_hash
      9
      auto
      true
      none
      136
      (over catalog_bytes)
    ≡ by_backend
        (load (some extension))
        no_hash
        9
        136
        auto
        (has_buffer (over catalog_bytes) && true)
        none
        (over catalog_bytes)
decode_binary_resources-by_backend_example =
    decode_binary_resources-by_backend (load (some extension)) no_hash 9 136 auto true none
      (over catalog_bytes)
