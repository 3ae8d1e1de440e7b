-- ===== src/Compat/Values.antt =====
-- `wrap_legacy` and the equality of wrappers, `_CompatValue.__eq__`, of src/AddressablesTools.py.
-- What custom decoders make is returned as it is; lists and dictionaries of theirs are not modelled.
use addressables_tools_py.Prelude.{ℕ, Bool, false, List}
use addressables_tools_py.Prelude.Dict.{Key}
use addressables_tools_py.Models.Object.{
  Object, hash128, type_reference, serialized_type, class_json_object, offsets, common_info,
  options, location,
}
use addressables_tools_py.Models.Catalog.{key_eq, is_hashable}

pub data CompatClass : Type 0 where
  compat_serialized_type compat_type_reference compat_hash128 : CompatClass
  compat_class_json_object compat_common_info : CompatClass
  compat_asset_bundle_request_options compat_resource_location : CompatClass

-- A value as it is, an instance of a class with its `_value`, or a list of integers.
pub data Legacy : Type 0 where
  plain : Object → Legacy
  compat : CompatClass → Object → Legacy
  int_list : List ℕ → Legacy

-- wrap_legacy
abbrev pub wrap_legacy : Object → Legacy
wrap_legacy (location n) = compat compat_resource_location (location n)
wrap_legacy (options o) = compat compat_asset_bundle_request_options (options o)
wrap_legacy (common_info i) = compat compat_common_info (common_info i)
wrap_legacy (class_json_object t s) = compat compat_class_json_object (class_json_object t s)
wrap_legacy (serialized_type t) = compat compat_serialized_type (serialized_type t)
wrap_legacy (hash128 s) = compat compat_hash128 (hash128 s)
wrap_legacy (type_reference s) = compat compat_type_reference (type_reference s)
wrap_legacy (offsets ns) = int_list ns
wrap_legacy x = plain x

-- `_value`, or the value itself.
abbrev pub unwrap : Legacy → Object
unwrap (plain x) = x
unwrap (compat _ x) = x
unwrap (int_list ns) = offsets ns

-- `==` compares what is wrapped, on either side.
abbrev pub legacy_eq : Legacy → Legacy → Bool
legacy_eq a b = key_eq (unwrap a) (unwrap b)

instance abbrev pub legacy_key : Key Legacy
legacy_key = record { same = legacy_eq }

-- The hash is that of what is wrapped; a list has none.
abbrev pub legacy_is_hashable : Legacy → Bool
legacy_is_hashable (int_list _) = false
legacy_is_hashable a = is_hashable (unwrap a)
