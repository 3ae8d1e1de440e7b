-- ===== src/Decoder/Version1.antt =====
-- The decoding of version 1 values, those of JSON catalogs, in `class SerializedObjectDecoder` of
-- src/addressablestools/decoder.py.
pub mod Stored
pub mod Errors
pub mod Keeps
use addressables_tools_py.Prelude.{
  ℕ, ℤ, pos, Option, none, some, if◌then◌else◌, true, false, Bool, ◌==◌,
}
use addressables_tools_py.Python.Exec.{Result, ok, err, Exec, pure, lift, ◌>>=◌, value_error}
use addressables_tools_py.Python.Codec.{Str, decode_ascii, decode_utf16}
use addressables_tools_py.Models.Object.{
  Object, int, str, hash128, type_reference, class_json_object, options, SerializedType,
  AssetBundleRequestOptions, match_name_for_version, str_eq,
}
use addressables_tools_py.Binary.Reader.{
  BinaryReader, read_byte, read_bytes, read_uint16, read_uint32, read_int32,
}
use addressables_tools_py.Decoder.Names.{options_match_name}

pub data ObjectType : Type 0 where
  ascii_string unicode_string uint16 uint32 int32 hash_type type json_object : ObjectType

-- ObjectType(n); any other number is a ValueError.
unfoldable pub object_type : ℕ → Result ObjectType
object_type n =
    if n == 0
    then ok ascii_string
    else if n == 1
    then ok unicode_string
    else if n == 2
    then ok uint16
    else if n == 3
    then ok uint32
    else if n == 4
    then ok int32
    else if n == 5
    then ok hash_type
    else if n == 6
    then ok type
    else if n == 7
    then ok json_object
    else err value_error

unfoldable pub read_string1 : Exec BinaryReader Str
unfolding read_byte read_bytes
read_string1 = do length ← read_byte; found ← read_bytes (pos length); lift (decode_ascii found)

unfoldable pub read_string4 : Exec BinaryReader Str
unfolding read_int32 read_bytes
read_string4 = do length ← read_int32; found ← read_bytes length; lift (decode_ascii found)

unfoldable pub read_string4_unicode : Exec BinaryReader Str
unfolding read_int32 read_bytes
read_string4_unicode = do length ← read_int32; found ← read_bytes length; lift (decode_utf16 found)

abbrev pub untyped :
    {A : Type 0}
    → (A → Object)
    → Exec BinaryReader A
    → Exec BinaryReader (Object × Option SerializedType)
untyped f m = do a ← m; pure (f a, none)

abbrev of_ℕ : ℕ → Object
of_ℕ n = int (pos n)

-- `options_of_json` is decode_asset_bundle_request_options_json.
module _ (options_of_json : Str → Result AssetBundleRequestOptions) where
  abbrev json_value : SerializedType → Str → Bool → Result Object
  json_value t text false = ok (class_json_object t text)
  json_value t text true = elim (options_of_json text) [ ok o ↦ ok (options o) | err e ↦ err e ]

  unfoldable pub read_json_object : Exec BinaryReader (Object × Option SerializedType)
  unfolding read_string1 read_string4_unicode
  read_json_object = do
    assembly_name ← read_string1
    class_name ← read_string1
    text ← read_string4_unicode
    name ← lift (
        match_name_for_version
          (record { assembly_name = some assembly_name; class_name = some class_name }) (pos 1))
    value ← lift (
        json_value (record { assembly_name = some assembly_name; class_name = some class_name })
          text (str_eq name options_match_name))
    pure (value, some (record { assembly_name = some assembly_name; class_name = some class_name }))

  unfoldable pub decode_object_type :
      ObjectType → Exec BinaryReader (Object × Option SerializedType)
  unfolding read_string1 read_string4 read_string4_unicode read_json_object
  decode_object_type ascii_string = untyped str read_string4
  decode_object_type unicode_string = untyped str read_string4_unicode
  decode_object_type uint16 = untyped of_ℕ read_uint16
  decode_object_type uint32 = untyped of_ℕ read_uint32
  decode_object_type int32 = untyped int read_int32
  decode_object_type hash_type = untyped hash128 read_string1
  decode_object_type type = untyped type_reference read_string1
  decode_object_type json_object = read_json_object

  -- _decode_v1
  unfoldable pub decode_v1_typed : Exec BinaryReader (Object × Option SerializedType)
  unfolding read_byte object_type decode_object_type
  decode_v1_typed = do n ← read_byte; t ← lift (object_type n); decode_object_type t

  unfoldable pub decode_v1 : Exec BinaryReader Object
  unfolding decode_v1_typed
  decode_v1 = do (value, _) ← decode_v1_typed; pure value
