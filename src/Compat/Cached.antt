-- ===== src/Compat/Cached.antt =====
-- `_CompatValue._wrap_cached` of src/AddressablesTools.py, and the properties that use it.
use addressables_tools_py.Prelude.{
  ℕ, suc, Bool, true, false, ◌&&◌, Option, none, some, if◌then◌else◌, [], ◌∷◌,
}
use addressables_tools_py.Prelude.Dict
use addressables_tools_py.Prelude.Dict.{Dict}
use addressables_tools_py.Python.Exec.{Exec, ok}
use addressables_tools_py.Python.Codec.{Str}
use addressables_tools_py.Python.Text.{codes, str_eq}
use addressables_tools_py.Models.Object.{
  Object, nothing, common_info, options, offsets, SerializedType, AssetBundleRequestOptions,
  CommonInfo,
}
use addressables_tools_py.Models.Catalog.{ResourceLocation}
use addressables_tools_py.Decoder.Registry.{str_key}
use addressables_tools_py.Compat.Values.{wrap_legacy}
use addressables_tools_py.Compat.Parse.{Decoded, wrapped_object, legacy}

-- What was made for a property, and the number of its making: two with one number are one object.
pub record Made : Type 0 where
  pub identity : ℕ
  pub value : Decoded

-- What is kept for a property: the object and the type that were wrapped, and the wrapper.
pub record Slot : Type 0 where
  pub source : Object
  pub type : Option SerializedType
  pub wrapper : Made

-- The `__dict__` of a wrapper, and the number of the next thing that is made.
pub record Slots : Type 0 where
  pub slots : Dict Str Slot
  pub next : ℕ

-- isinstance(value, (list, dict))
abbrev pub is_container : Object → Bool
is_container (offsets _) = true
is_container _ = false

-- The wrapper of a value, with its type where one is given.
abbrev pub made_of : Object → Option SerializedType → Decoded
made_of value none = legacy (wrap_legacy value)
made_of value (some t) = wrapped_object t value

-- self.__dict__.pop(name, None)
unfoldable pub pop_slot : Dict Str Slot → Str → Dict Str Slot
pop_slot [] name = []
pop_slot ((n, slot) ∷ rest) name =
    let others = pop_slot rest name in if str_eq n name then rest else (n, slot) ∷ others

-- The two tests are Python's `is`, of objects and of types.
module _ (same : Object → Object → Bool)
    (same_type : Option SerializedType → Option SerializedType → Bool) where
  abbrev pub make : Str → Object → Option SerializedType → Exec Slots Made
  make name value type s = (
    ok (record { identity = s.next; value = made_of value type }),
    record {
      slots = Dict.put s.slots name (record {
        source = value;
        type = type;
        wrapper = record { identity = s.next; value = made_of value type };
      });
      next = suc s.next;
    },
  )

  abbrev pub make_container : Str → Object → Exec Slots Made
  make_container name value s = (
    ok (record { identity = s.next; value = legacy (wrap_legacy value) }),
    record { slots = pop_slot s.slots name; next = suc s.next },
  )

  abbrev pub is_kept : Object → Option SerializedType → Slot → Bool
  is_kept value type slot = same slot.source value && same_type slot.type type

  -- _wrap_cached
  unfoldable pub wrap_cached : Str → Object → Option SerializedType → Exec Slots Made
  unfolding pop_slot
  wrap_cached name value type s =
      if is_container value then make_container name value s else elim (Dict.get s.slots name) [
        | none ↦ make name value type s
        | some slot ↦
            if is_kept value type slot then (ok slot.wrapper, s) else make name value type s
      ]

  abbrev pub of_common_info : Option CommonInfo → Object
  of_common_info none = nothing
  of_common_info (some info) = common_info info

  -- CompatAssetBundleRequestOptions.ComInfo
  unfoldable pub com_info : AssetBundleRequestOptions → Exec Slots Made
  unfolding wrap_cached
  com_info o = wrap_cached (codes "_common_info_cache") (of_common_info o.common_info) none

  abbrev pub data_type_of : Object → Option SerializedType → Option SerializedType
  data_type_of (options _) t = t
  data_type_of _ t = none

  -- CompatResourceLocation.Data and Type
  unfoldable pub location_data : ResourceLocation → Exec Slots Made
  unfolding wrap_cached
  location_data l = wrap_cached (codes "_data_cache") l.payload (data_type_of l.payload l.data_type)

  unfoldable pub location_type : ResourceLocation → Exec Slots Made
  unfolding wrap_cached
  location_type l = wrap_cached (codes "_type_cache") l.type none
