-- ===== src/Binary/State.antt =====
-- The state of `class CatalogBinaryReader` in src/addressablestools/binary.py, and its object cache.
use addressables_tools_py.Prelude.{
  ℕ, ℤ, pos, Bool, false, ◌&&◌, List, [], Option, none, some, ◌==◌, arith, if◌then◌else◌,
}
use addressables_tools_py.Prelude.Dict
use addressables_tools_py.Prelude.Dict.{Dict, IsLawful, Key, nat_key}
use addressables_tools_py.Python.Exec.{Exec, pure, gets, modify, ◌>>=◌, ◌>>◌}
use addressables_tools_py.Python.Stream.{Bytes}
use addressables_tools_py.Python.Codec.{Str}
use addressables_tools_py.Models.Object.{Object, nothing, SerializedType, str_eq, str_eq_iff}
use addressables_tools_py.Models.Catalog.{ResourceLocation}
use addressables_tools_py.Binary.Reader.{BinaryReader}

abbrev pub uint32_max : ℕ
uint32_max = 4294967295

abbrev pub uint32_max_minus_one : ℕ
uint32_max_minus_one = 4294967294

-- A key of the string cache: an offset, or an offset and a separator for a dynamic string.
pub data StringKey : Type 0 where
  plain : ℕ → StringKey
  dynamic : ℕ → Str → StringKey

abbrev pub string_key_eq : StringKey → StringKey → Bool
string_key_eq (plain m) (plain n) = m == n
string_key_eq (dynamic m s) (dynamic n t) = m == n && str_eq s t
string_key_eq _ _ = false

instance abbrev pub string_key : Key StringKey
string_key = record { same = string_key_eq }

pub string_key-IsLawful : IsLawful string_key
string_key-IsLawful (plain m) (plain n) = ground arith
string_key-IsLawful (plain m) (dynamic n t) = (λ h. cc, λ h. cc)
string_key-IsLawful (dynamic m s) (plain n) = (λ h. cc, λ h. cc)
string_key-IsLawful (dynamic m s) (dynamic n t) = ground (arith, str_eq_iff s t)

-- `locations` are the resource locations that were made, in order; `Object.location n` is the n-th.
pub record CatalogBinaryReader : Type 0 where
  pub base : BinaryReader
  pub version : ℤ
  pub object_cache : Dict ℕ Object
  pub string_cache : Dict StringKey Str
  pub dynamic_tail_cache : Dict ℕ (List Str)
  pub type_name_cache : Dict ℕ (ℤ × SerializedType × Str)
  pub locations : List ResourceLocation

-- CatalogBinaryReader(BytesIO(content), _buffer=buffer)
abbrev pub new_reader : Bytes → Option Bytes → CatalogBinaryReader
new_reader content buffer = record {
  base = record { stream = record { content = content; position = 0 }; buffer = buffer };
  version = pos 1;
  object_cache = [];
  string_cache = [];
  dynamic_tail_cache = [];
  type_name_cache = [];
  locations = [];
}

-- A method of the base class.
abbrev pub on_base : {A : Type 0} → Exec BinaryReader A → Exec CatalogBinaryReader A
on_base m r = let (a, b) = m r.base in (a, record r { base = b })

abbrev pub not_none : Option Object → Option Object
not_none none = none
not_none (some nothing) = none
not_none (some x) = some x

-- `self._object_cache.get(offset)`, where the code goes on if it is not None
abbrev pub cached_object : ℕ → CatalogBinaryReader → Option Object
cached_object offset r = not_none (Dict.get r.object_cache offset)

-- `self._object_cache[offset] = value`
abbrev pub cache_object : ℕ → Object → Exec CatalogBinaryReader (Unit {0})
cache_object offset value =
    modify (λ r. record r { object_cache = Dict.put r.object_cache offset value })

pub cache_and_return : ℕ → Object → Exec CatalogBinaryReader Object
cache_and_return offset value = do cache_object offset value; pure value

abbrev keep_if : (Object → Bool) → Option Object → Option Object
keep_if is_instance none = none
keep_if is_instance (some x) = if is_instance x then some x else none

-- The expected class is given by its `isinstance` test.
pub try_get_cached_object : ℕ → (Object → Bool) → Exec CatalogBinaryReader (Option Object)
try_get_cached_object offset is_instance =
    gets (λ r. keep_if is_instance (Dict.get r.object_cache offset))

pub read_custom : ℕ → Exec CatalogBinaryReader Object → Exec CatalogBinaryReader Object
read_custom offset fetch r = elim (Dict.get r.object_cache offset) [
  | some cached ↦ pure cached r
  | none ↦ (do value ← fetch; cache_object offset value; pure value) r
]
