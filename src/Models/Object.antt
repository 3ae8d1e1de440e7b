-- ===== src/Models/Object.antt =====
-- The decoded values of src/addressablestools/models.py. A Python value is an `Object`; it is kept
-- whole, but for a resource location, which is shared and stands for its place among the
-- locations that were made, and for what custom decoders make, of which only the identity is known.
use addressables_tools_py.Prelude.{
  ℕ, ◌+◌, ◌/◌, ◌%◌, ℤ, pos, leb_ℤ, Bool, ◌&&◌, List, [], ◌∷◌, ◌++◌, Option, none, some, ltb, ◌==◌,
  if◌then◌else◌,
}
use addressables_tools_py.Python.Exec.{Result, ok, err, value_error, struct_error}
use addressables_tools_py.Python.Codec.{Str}
pub use addressables_tools_py.Python.Text.{codes, str_eq_iff, str_eq_refl, str_eq_sym}
unfoldable pub use addressables_tools_py.Python.Text.{str_eq}
use addressables_tools_py.Python.Json.{Json, null}

pub record SerializedType : Type 0 where
  pub assembly_name : Option Str
  pub class_name : Option Str

-- text.split(",", 1)[0]
unfoldable pub before_comma : Str → Str
before_comma [] = []
before_comma (c ∷ s) = let rest = before_comma s in if c == b',' then [] else c ∷ rest

abbrev short_name : ℤ → Option Str → Result Str
short_name version none = err value_error
short_name version (some name) = ok (if leb_ℤ version (pos 2) then before_comma name else name)

unfoldable pub assembly_short_name_for_version : SerializedType → ℤ → Result Str
unfolding before_comma
assembly_short_name_for_version t version = short_name version t.assembly_name

unfoldable pub assembly_short_name : SerializedType → Result Str
unfolding assembly_short_name_for_version
assembly_short_name t = assembly_short_name_for_version t (pos 1)

-- f"{short}; {class_name}"
abbrev join_name : Str → Result Str → Result Str
join_name name (ok short) = ok (short ++ (codes "; " ++ name))
join_name name (err e) = err e

abbrev match_name_of : SerializedType → ℤ → Option Str → Option Str → Result Str
match_name_of t version none assembly = err value_error
match_name_of t version (some name) none =
    if leb_ℤ (pos 3) version
    then ok name
    else join_name name (assembly_short_name_for_version t version)
match_name_of t version (some name) (some _) =
    join_name name (assembly_short_name_for_version t version)

unfoldable pub match_name_for_version : SerializedType → ℤ → Result Str
unfolding assembly_short_name_for_version
match_name_for_version t version = match_name_of t version t.class_name t.assembly_name

unfoldable pub match_name : SerializedType → Result Str
unfolding match_name_for_version
match_name t = match_name_for_version t (pos 1)

pub data AssetLoadMode : Type 0 where
  requested_asset_and_dependencies all_packed_assets_and_dependencies : AssetLoadMode

pub record CommonInfo : Type 0 where
  pub timeout : ℤ
  pub redirect_limit : ℤ
  pub retry_count : ℤ
  pub asset_load_mode : AssetLoadMode
  pub chunked_transfer : Bool
  pub use_crc_for_cached_bundle : Bool
  pub use_unity_web_request_for_local_bundles : Bool
  pub clear_other_cached_versions_when_loaded : Bool
  pub version : ℤ

-- `bundle_name` is None or a text, or whatever JSON the options gave for it.
pub record AssetBundleRequestOptions : Type 0 where
  pub hash : Str
  pub crc : ℤ
  pub common_info : Option CommonInfo
  pub bundle_name : Json
  pub bundle_size : ℤ

-- AssetBundleRequestOptions()
abbrev pub default_options : AssetBundleRequestOptions
default_options = record {
  hash = [];
  crc = pos 0;
  common_info = none;
  bundle_name = null;
  bundle_size = pos 0;
}

pub data Object : Type 0 where
  nothing : Object
  int : ℤ → Object
  bool : Bool → Object
  str : Str → Object
  hash128 : Str → Object
  type_reference : Str → Object
  serialized_type : SerializedType → Object
  class_json_object : SerializedType → Str → Object
  offsets : List ℕ → Object
  common_info : CommonInfo → Object
  options : AssetBundleRequestOptions → Object
  location : ℕ → Object
  opaque : ℕ → Object

abbrev pub optional_str : Option Str → Object
optional_str none = nothing
optional_str (some s) = str s

-- A hexadecimal digit of bytes.hex().
abbrev hex_digit : ℕ → ℕ
hex_digit d = if ltb d 10 then b'0' + d else 87 + d

unfoldable pub hex : List ℕ → Str
hex [] = []
hex (b ∷ bs) = hex_digit (b / 16) ∷ hex_digit (b % 16) ∷ hex bs

-- struct.pack("<I", n), for n in range
abbrev pub pack_uint32 : ℕ → List ℕ
pack_uint32 n = n % 256 ∷ n / 256 % 256 ∷ n / 65536 % 256 ∷ n / 16777216 % 256 ∷ []

abbrev pub is_uint32 : ℕ → Bool
is_uint32 n = ltb n 4294967296

-- Hash128.from_uint32s; `struct.pack` refuses a number out of range.
unfoldable pub from_uint32s : ℕ → ℕ → ℕ → ℕ → Result Str
unfolding hex
from_uint32s a b c d =
    if is_uint32 a && is_uint32 b && is_uint32 c && is_uint32 d
    then ok (hex (pack_uint32 a ++ pack_uint32 b ++ pack_uint32 c ++ pack_uint32 d))
    else err struct_error
