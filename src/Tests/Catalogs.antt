-- ===== src/Tests/Catalogs.antt =====
-- A whole catalog.
use addressables_tools_py.Prelude.{ℕ, pos, true, [], ◌∷◌, none, ◌≡◌, refl, contains, arith}
use addressables_tools_py.Prelude.Dict
use addressables_tools_py.Prelude.Distinct.{IsDistinct}
use addressables_tools_py.Python.Exec.{Result, ok, err}
use addressables_tools_py.Python.Exec.Ensures.{Post}
use addressables_tools_py.Python.Stream
use addressables_tools_py.Python.Struct.{unpack, unpack_from, values}
use addressables_tools_py.Python.Codec.{decode_ascii}
use addressables_tools_py.Models.Object.{
  Object, location, bool, str, codes, match_name_for_version, str_eq,
}
use addressables_tools_py.Models.Catalog.{
  ContentCatalogData, Resources, set_resource, iter_locations,
}
use addressables_tools_py.Models.Lookup.{StoredAt, TextStored, locate-set_resource}
use addressables_tools_py.Models.Locations.{ids, listed, iter_locations-IsDistinct}
use addressables_tools_py.Binary.Reader.{
  read_int32, read_uint32, read_struct_at, read_struct_from, read_two_uint32_from,
}
use addressables_tools_py.Binary.Strings.{read_basic_string}
use addressables_tools_py.Binary.Strings.Sound.{IsSound}
use addressables_tools_py.Backend.{python, no_decoders}
use addressables_tools_py.Catalog.Locations.{resource_location_from_binary}
use addressables_tools_py.Catalog.Sharing.{ReadsAs, resource_location_from_binary-ReadsAs}
use addressables_tools_py.Catalog.Parse.{parse_binary_catalog}
use addressables_tools_py.Catalog.Caches.{parse_binary_catalog-IsSound}
use addressables_tools_py.Tests.Data.{over, catalog_bytes, no_hash}

resource_location_from_binary-ReadsAs_example :
    Post (ReadsAs no_hash 96) (resource_location_from_binary no_hash 6 none 96 (over catalog_bytes))
resource_location_from_binary-ReadsAs_example =
    resource_location_from_binary-ReadsAs no_hash 96 5 none (over catalog_bytes)

parse_binary_catalog-IsSound_example :
    IsSound catalog_bytes
      (parse_binary_catalog no_decoders no_hash 9 python true none catalog_bytes).1
parse_binary_catalog-IsSound_example =
    parse_binary_catalog-IsSound catalog_bytes no_decoders no_hash 9 none
      (λ name decoder context h. absurd (ground arith))
      (λ decoder keys_offset h. absurd (ground arith)) python true

abbrev place : Object → ℕ
place (location n) = n
place _ = 0

abbrev shared : ContentCatalogData
shared = record {
  version = pos 2;
  locator_id = none;
  build_result_hash = none;
  instance_provider_data = none;
  scene_provider_data = none;
  resource_provider_data = [];
  provider_ids = [];
  internal_ids = [];
  keys = none;
  resource_types = [];
  internal_id_prefixes = [];
  resources =
      (str (codes "a"), location 0 ∷ location 1 ∷ []) ∷ (str (codes "b"), location 1 ∷ []) ∷ [];
}

iter_locations-IsDistinct_example :
    IsDistinct (ids place (iter_locations place shared))
    × ((n : ℕ)
        → contains (ids place (iter_locations place shared)) n
          ≡ contains (ids place (listed shared.resources)) n)
iter_locations-IsDistinct_example = iter_locations-IsDistinct place shared

abbrev resources_of : Result ContentCatalogData → Resources
resources_of (ok c) = c.resources
resources_of (err e) = []

one_resource :
    resources_of (parse_binary_catalog no_decoders no_hash 9 python true none catalog_bytes).0
    ≡ (str (codes "a"), location 0 ∷ []) ∷ []
unfolding parse_binary_catalog read_int32 read_uint32 read_struct_at read_struct_from
    read_two_uint32_from read_basic_string Stream.read unpack unpack_from values decode_ascii
    Dict.get Dict.put match_name_for_version str_eq set_resource
one_resource = refl

locate-set_resource_example :
    StoredAt shared
      (bool true)
      (location 2 ∷ [])
      (set_resource shared.resources (bool true) (location 2 ∷ []))
    × TextStored shared (codes "a") (codes "b") (location 2 ∷ [])
locate-set_resource_example =
    locate-set_resource shared (bool true) (codes "a") (codes "b") (location 2 ∷ [])
