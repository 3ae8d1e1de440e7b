-- ===== src/Decoder/Json.antt =====
-- The options of an asset bundle in a JSON catalog: `decode_asset_bundle_request_options_json` in
-- `class SerializedObjectDecoder` of src/addressablestools/decoder.py.
pub mod Errors
use addressables_tools_py.Prelude.{ℤ, pos, true, false, ◌&&◌, some, if◌then◌else◌, ◌==◌, negsuc}
use addressables_tools_py.Python.Exec.{PyError, Result, ok, err, value_error, json_decode_error}
use addressables_tools_py.Python.Result.{◌>>=◌}
use addressables_tools_py.Python.Codec.{Str}
use addressables_tools_py.Python.Json.{
  Json, null, boolean, integer, text, object, Members, no_members, Builtins,
}
use addressables_tools_py.Python.Json.Convert.{get_or, is_null, to_int, to_bool, to_str}
use addressables_tools_py.Models.Object.{
  AssetLoadMode, requested_asset_and_dependencies, all_packed_assets_and_dependencies, CommonInfo,
  AssetBundleRequestOptions, default_options, codes,
}

-- AssetLoadMode(n)
abbrev pub asset_load_mode_of : ℤ → Result AssetLoadMode
asset_load_mode_of (pos n) =
    if n == 0
    then ok requested_asset_and_dependencies
    else if n == 1
    then ok all_packed_assets_and_dependencies
    else err value_error
asset_load_mode_of (negsuc _) = err value_error

-- The version of the common info, by the members that there are.
unfoldable pub common_info_version : Members → ℤ
unfolding get_or
common_info_version payload =
    if is_null (get_or null payload (codes "m_ChunkedTransfer"))
    then pos 1
    else if is_null (get_or null payload (codes "m_AssetLoadMode"))
        && is_null (get_or null payload (codes "m_UseCrcForCachedBundle"))
        && is_null (get_or null payload (codes "m_UseCrcForCachedBundles"))
        && is_null (get_or null payload (codes "m_UseUWRForLocalBundles"))
        && is_null (get_or null payload (codes "m_ClearOtherCachedVersionsWhenLoaded"))
    then pos 2
    else pos 3

module _ (b : Builtins) where
  abbrev int_member : Members → Str → Result ℤ
  int_member payload name = to_int b (get_or (integer (pos 0)) payload name)

  -- The options of an object that is not empty.
  unfoldable pub options_of_members : Members → Result AssetBundleRequestOptions
  unfolding get_or common_info_version
  options_of_members payload = do
    crc ← int_member payload (codes "m_Crc")
    bundle_size ← int_member payload (codes "m_BundleSize")
    timeout ← int_member payload (codes "m_Timeout")
    redirect_limit ← int_member payload (codes "m_RedirectLimit")
    retry_count ← int_member payload (codes "m_RetryCount")
    mode_number ← int_member payload (codes "m_AssetLoadMode")
    mode ← asset_load_mode_of mode_number
    ok (record {
      hash = to_str b (get_or (text (codes "")) payload (codes "m_Hash"));
      crc = crc;
      common_info = some (record {
        timeout = timeout;
        redirect_limit = redirect_limit;
        retry_count = retry_count;
        asset_load_mode = mode;
        chunked_transfer = to_bool b (get_or (boolean false) payload (codes "m_ChunkedTransfer"));
        use_crc_for_cached_bundle = to_bool b (
            get_or (get_or (boolean false) payload (codes "m_UseCrcForCachedBundles")) payload
              (codes "m_UseCrcForCachedBundle"));
        use_unity_web_request_for_local_bundles =
            to_bool b (get_or (boolean false) payload (codes "m_UseUWRForLocalBundles"));
        clear_other_cached_versions_when_loaded =
            to_bool b
              (get_or (boolean false) payload (codes "m_ClearOtherCachedVersionsWhenLoaded"));
        version = common_info_version payload;
      });
      bundle_name = get_or null payload (codes "m_BundleName");
      bundle_size = bundle_size;
    })

  abbrev of_payload : Json → Result AssetBundleRequestOptions
  of_payload (object no_members) = ok default_options
  of_payload (object payload) = options_of_members payload
  of_payload _ = ok default_options

  abbrev of_loaded : Result Json → Result AssetBundleRequestOptions
  of_loaded (ok payload) = of_payload payload
  of_loaded (err json_decode_error) = ok default_options
  of_loaded (err e) = err e

  unfoldable pub decode_asset_bundle_request_options_json : Str → Result AssetBundleRequestOptions
  unfolding options_of_members
  decode_asset_bundle_request_options_json json_text = of_loaded (b.loads json_text)
