-- ===== src/Decoder/Names.antt =====
-- The names by which `class SerializedObjectDecoder` of src/addressablestools/decoder.py knows the
-- built-in types.
use addressables_tools_py.Prelude.{◌||◌, if◌then◌else◌}
use addressables_tools_py.Python.Codec.{Str}
use addressables_tools_py.Models.Object.{codes, str_eq}

-- The match names of the built-in types.
abbrev pub int_match_name : Str
int_match_name = codes "mscorlib; System.Int32"

abbrev pub long_match_name : Str
long_match_name = codes "mscorlib; System.Int64"

abbrev pub bool_match_name : Str
bool_match_name = codes "mscorlib; System.Boolean"

abbrev pub string_match_name : Str
string_match_name = codes "mscorlib; System.String"

abbrev pub int_v3_match_name : Str
int_v3_match_name = codes "System.Int32"

abbrev pub long_v3_match_name : Str
long_v3_match_name = codes "System.Int64"

abbrev pub bool_v3_match_name : Str
bool_v3_match_name = codes "System.Boolean"

abbrev pub string_v3_match_name : Str
string_v3_match_name = codes "System.String"

abbrev pub hash128_match_name : Str
hash128_match_name = codes "UnityEngine.CoreModule; UnityEngine.Hash128"

abbrev pub options_match_name : Str
options_match_name =
    codes
      "Unity.ResourceManager; UnityEngine.ResourceManagement.ResourceProviders.AssetBundleRequestOptions"

-- The cases of the `match` on the resolved name.
pub data BuiltIn : Type 0 where
  int_case long_case bool_case string_case hash_case options_case unsupported : BuiltIn

unfoldable pub built_in : Str → BuiltIn
built_in name =
    if str_eq name int_match_name || str_eq name int_v3_match_name
    then int_case
    else if str_eq name long_match_name || str_eq name long_v3_match_name
    then long_case
    else if str_eq name bool_match_name || str_eq name bool_v3_match_name
    then bool_case
    else if str_eq name string_match_name || str_eq name string_v3_match_name
    then string_case
    else if str_eq name hash128_match_name
    then hash_case
    else if str_eq name options_match_name
    then options_case
    else unsupported
