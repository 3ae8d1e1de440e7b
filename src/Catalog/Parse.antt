-- ===== src/Catalog/Parse.antt =====
-- `parse_binary_catalog` of src/addressablestools/catalog.py.
use addressables_tools_py.Prelude.{ℕ, ℤ, Bool, [], Option, none, some}
use addressables_tools_py.Python.Exec.{Result, Exec, pure, lift, gets, ◌>>=◌, ◌>>◌, for_each}
use addressables_tools_py.Python.Stream.{Bytes}
use addressables_tools_py.Python.Codec.{Str}
use addressables_tools_py.Models.Catalog.{ContentCatalogData}
use addressables_tools_py.Binary.State.{CatalogBinaryReader, new_reader}
use addressables_tools_py.Binary.Strings.{read_encoded_string, no_separator}
use addressables_tools_py.Binary.Arrays.{read_offset_array}
use addressables_tools_py.Binary.Header.{CatalogBinaryHeader, read_header}
use addressables_tools_py.Backend.{Backend, Decoders, validate_backend}
use addressables_tools_py.Decoder.Registry.{Registry}
use addressables_tools_py.Catalog.Locations.{object_initialization_data_from_binary}
use addressables_tools_py.Catalog.Resources.{NativeDecoder, decode_binary_resources}

module _ (native : Decoders NativeDecoder) (hash : Option Str → ℤ) (calls : ℕ) (backend : Backend)
    (plain_bytes : Bool) (registry : Option Registry) where
  -- What the function reads after the header.
  unfoldable pub read_contents : CatalogBinaryHeader → Exec CatalogBinaryReader ContentCatalogData
  unfolding read_offset_array read_encoded_string for_each object_initialization_data_from_binary
      decode_binary_resources
  read_contents header = do
    provider_offsets ← read_offset_array header.init_objects_array_offset
    version ← gets (λ r. r.version)
    locator_id ← read_encoded_string header.id_offset no_separator
    build_result_hash ← read_encoded_string header.build_result_hash_offset no_separator
    instance_data ← object_initialization_data_from_binary header.instance_provider_offset
    scene_data ← object_initialization_data_from_binary header.scene_provider_offset
    provider_data ← for_each object_initialization_data_from_binary provider_offsets
    resources ←
        decode_binary_resources native hash calls backend plain_bytes registry header.keys_offset
    pure (record {
      version = version;
      locator_id = locator_id;
      build_result_hash = build_result_hash;
      instance_provider_data = some instance_data;
      scene_provider_data = some scene_data;
      resource_provider_data = provider_data;
      provider_ids = [];
      internal_ids = [];
      keys = none;
      resource_types = [];
      internal_id_prefixes = [];
      resources = resources;
    })

  unfoldable pub read_catalog : Exec CatalogBinaryReader ContentCatalogData
  unfolding validate_backend read_header read_contents
  read_catalog = do lift (validate_backend backend); header ← read_header; read_contents header

  -- The locations that the catalog refers to are in the reader that comes with it.
  unfoldable pub parse_binary_catalog : Bytes → Result ContentCatalogData × CatalogBinaryReader
  unfolding read_catalog
  parse_binary_catalog content = read_catalog (new_reader content (some content))
