-- ===== src/Tests/Compat.antt =====
-- The interface with the old names, on concrete data.
use addressables_tools_py.Prelude.{
  ℕ, pos, ◌≡◌, ◌↔◌, refl, inl, inr, [], ◌∷◌, none, some, Bool, true, false, ◌==◌, arith, Option,
}
use addressables_tools_py.Prelude.Dict
use addressables_tools_py.Python.Exec.{ok, pure}
use addressables_tools_py.Models.Object.{
  Object, str, int, location, codes, nothing, common_info, CommonInfo, SerializedType,
  requested_asset_and_dependencies,
}
use addressables_tools_py.Models.Catalog.{ContentCatalogData, object_key}
use addressables_tools_py.Decoder.Object.{decode_v2_typed}
use addressables_tools_py.Compat.Registry.{Patcher, Handler, legacy_registry}
use addressables_tools_py.Compat.Handler.{patched_v2, decode_v2_typed-patched}
use addressables_tools_py.Compat.Values.{wrap_legacy, legacy_key}
use addressables_tools_py.Compat.Snapshot.{Wrapper, Snapshot, resources_snapshot}
use addressables_tools_py.Compat.Sharing.{resources_snapshot-shares}
use addressables_tools_py.Compat.Entries.{source_ids_of, ids_of, resources_snapshot-get}
use addressables_tools_py.Compat.Cached.{Slots, made_of, wrap_cached}
use addressables_tools_py.Compat.Fresh.{wrap_cached-again}
use addressables_tools_py.Tests.Data.{over, catalog_bytes}

abbrev place : Object → ℕ
place (location n) = n
place _ = 0

abbrev two_keys : ContentCatalogData
two_keys = record {
  version = pos 2;
  locator_id = none;
  build_result_hash = none;
  instance_provider_data = none;
  scene_provider_data = none;
  resource_provider_data = [];
  provider_ids = [];
  internal_ids = [];
  keys = none;
  resource_types = [];
  internal_id_prefixes = [];
  resources = (str (codes "a"), location 3 ∷ location 4 ∷ []) ∷ (int (pos 1), location 4 ∷ []) ∷ [];
}

abbrev wrapper_3 : Wrapper
wrapper_3 = record { identity = 0; source = location 3 }

abbrev wrapper_4 : Wrapper
wrapper_4 = record { identity = 1; source = location 4 }

abbrev snapshot : Snapshot
snapshot =
    (wrap_legacy (str (codes "a")), wrapper_3 ∷ wrapper_4 ∷ [])
    ∷ (wrap_legacy (int (pos 1)), wrapper_4 ∷ [])
    ∷ []

snapshot_made : resources_snapshot place two_keys ≡ ok snapshot
unfolding resources_snapshot Dict.get
snapshot_made = refl

resources_snapshot-shares_example :
    (wrapper_3.identity ≡ wrapper_4.identity) ↔ (place wrapper_3.source ≡ place wrapper_4.source)
resources_snapshot-shares_example =
    resources_snapshot-shares place two_keys snapshot wrapper_3 wrapper_4 snapshot_made
      (inl (inl refl)) (inr (inl (inl refl)))

resources_snapshot-get_example :
    source_ids_of place (Dict.get snapshot (wrap_legacy (int (pos 1))))
    ≡ ids_of place (Dict.get two_keys.resources (int (pos 1)))
resources_snapshot-get_example =
    resources_snapshot-get place two_keys snapshot (int (pos 1)) ((refl, tt), (tt, tt))
      snapshot_made

-- Gives up every name.
abbrev no_names : Patcher
no_names name = ok none

abbrev nine : Handler
nine offset is_default = pure (int (pos 9))

decode_v2_typed-patched_example :
    decode_v2_typed (some (legacy_registry (some no_names) (some nine))) 88 (over catalog_bytes)
    ≡ patched_v2 no_names (some nine) 88 (over catalog_bytes)
decode_v2_typed-patched_example =
    decode_v2_typed-patched no_names (some nine) 88 (over catalog_bytes) λ name. tt

abbrev info : CommonInfo
info = record {
  timeout = pos 1;
  redirect_limit = pos 0;
  retry_count = pos 0;
  asset_load_mode = requested_asset_and_dependencies;
  chunked_transfer = false;
  use_crc_for_cached_bundle = false;
  use_unity_web_request_for_local_bundles = false;
  clear_other_cached_versions_when_loaded = false;
  version = pos 3;
}

-- There is one common info.
abbrev tag : Object → ℕ
tag (common_info _) = 1
tag nothing = 2
tag _ = 0

abbrev same_tag : Object → Object → Bool
same_tag x y = tag x == tag y

abbrev any_type : Option SerializedType → Option SerializedType → Bool
any_type s t = true

abbrev no_slots : Slots
no_slots = record { slots = []; next = 0 }

tags_apart : (x : Object) → same_tag x (common_info info) ≡ true → same_tag x nothing ≡ false
tags_apart x h = ground (arith, h)

wrap_cached-again_example :
    (wrap_cached same_tag any_type
        (codes "_common_info_cache")
        (common_info info)
        none
        (wrap_cached same_tag any_type
          (codes "_common_info_cache")
          (common_info info)
          none
          no_slots).1
      ≡ wrap_cached same_tag any_type (codes "_common_info_cache") (common_info info) none no_slots)
    × ((wrap_cached same_tag any_type
          (codes "_common_info_cache")
          nothing
          none
          (wrap_cached same_tag any_type
            (codes "_common_info_cache")
            (common_info info)
            none
            no_slots).1).0
        ≡ ok (record {
          identity =
              (wrap_cached same_tag any_type
                (codes "_common_info_cache")
                (common_info info)
                none
                no_slots).1.next;
          value = made_of nothing none;
        }))
wrap_cached-again_example =
    wrap_cached-again same_tag any_type (codes "_common_info_cache") (common_info info) nothing none
      none no_slots refl refl refl refl tags_apart
