-- ===== src/Decoder/Version1/Errors.antt =====
-- The exceptions of version 1 values, given those of the options.
use addressables_tools_py.Prelude.{ℕ, pos, refl, true, false, Bool, ◌==◌, none, some, inl, inr}
use addressables_tools_py.Python.Exec.{Result, Exec, Result-cases}
use addressables_tools_py.Python.Exec.Raises.{
  Raises, RaisesIn, RaisesIn-pure, RaisesIn-lift, RaisesIn-bind,
}
use addressables_tools_py.Python.Result.Raises.{Raises-ok, Raises-err, Raises-if}
use addressables_tools_py.Python.Codec.{Str}
use addressables_tools_py.Models.Object.{
  Object, str, int, hash128, type_reference, SerializedType, AssetBundleRequestOptions,
  match_name_for_version, str_eq,
}
use addressables_tools_py.Binary.Reader.{BinaryReader}
use addressables_tools_py.Binary.Reader.Errors.{
  IsDataError, read_byte-errors, read_bytes-errors, read_uint16-errors, read_uint32-errors,
  read_int32-errors, ascii-Raises, utf16-Raises,
}
use addressables_tools_py.Decoder.Names.{options_match_name}
use addressables_tools_py.Decoder.Version1.{
  ObjectType, ascii_string, unicode_string, uint16, uint32, int32, hash_type, type, json_object,
  object_type, read_string1, read_string4, read_string4_unicode, untyped, of_ℕ, json_value,
  read_json_object, decode_object_type, decode_v1_typed, decode_v1,
}

object_type-errors : (n : ℕ) → Raises IsDataError (object_type n)
unfolding object_type
object_type-errors n = Raises-if (n == 0) (Raises-ok _) (
    Raises-if (n == 1) (Raises-ok _) (
      Raises-if (n == 2) (Raises-ok _) (
        Raises-if (n == 3) (Raises-ok _) (
          Raises-if (n == 4) (Raises-ok _) (
            Raises-if (n == 5) (Raises-ok _) (
              Raises-if (n == 6) (Raises-ok _)
                (Raises-if (n == 7) (Raises-ok _) (Raises-err refl))))))))

read_string1-errors : RaisesIn IsDataError read_string1
unfolding read_string1
read_string1-errors =
    RaisesIn-bind read_byte-errors
      λ n. RaisesIn-bind (read_bytes-errors (pos n)) λ found. RaisesIn-lift (ascii-Raises found)

read_string4-errors : RaisesIn IsDataError read_string4
unfolding read_string4
read_string4-errors =
    RaisesIn-bind read_int32-errors
      λ n. RaisesIn-bind (read_bytes-errors n) λ found. RaisesIn-lift (ascii-Raises found)

read_string4_unicode-errors : RaisesIn IsDataError read_string4_unicode
unfolding read_string4_unicode
read_string4_unicode-errors =
    RaisesIn-bind read_int32-errors
      λ n. RaisesIn-bind (read_bytes-errors n) λ found. RaisesIn-lift (utf16-Raises found)

module _ {A : Type 0} where
  untyped-errors :
      (f : A → Object) {m : Exec BinaryReader A}
      → RaisesIn IsDataError m
      → RaisesIn IsDataError (untyped f m)
  untyped-errors f h = RaisesIn-bind h λ a. RaisesIn-pure (f a, none)

match_name-errors :
    (assembly class : Str)
    → Raises IsDataError (
        match_name_for_version
          (record { assembly_name = some assembly; class_name = some class })
          (pos 1))
unfolding match_name_for_version
match_name-errors assembly class = Raises-ok _

module _ (options_of_json : Str → Result AssetBundleRequestOptions)
    (options-raises : (s : Str) → Raises IsDataError (options_of_json s)) where
  json_value-errors :
      (t : SerializedType) (s : Str) (is_options : Bool)
      → Raises IsDataError (json_value options_of_json t s is_options)
  json_value-errors t s false = Raises-ok _
  json_value-errors t s true = elim (Result-cases (options_of_json s)) [
    | inl (o, e) ↦ rw (e, json_value) (Raises-ok _)
    | inr (x, e) ↦ rw (e, json_value) (Raises-err (rw e at (options-raises s)).at)
  ]

  pub read_json_object-errors : RaisesIn IsDataError (read_json_object options_of_json)
  unfolding read_json_object
  read_json_object-errors = RaisesIn-bind read_string1-errors λ assembly.
      RaisesIn-bind read_string1-errors λ class. RaisesIn-bind read_string4_unicode-errors λ s.
        RaisesIn-bind (RaisesIn-lift (match_name-errors assembly class)) λ name.
          RaisesIn-bind (RaisesIn-lift (json_value-errors _ s (str_eq name options_match_name)))
            λ value. RaisesIn-pure _

  object-errors : (t : ObjectType) → RaisesIn IsDataError (decode_object_type options_of_json t)
  unfolding decode_object_type
  object-errors ascii_string = untyped-errors str read_string4-errors
  object-errors unicode_string = untyped-errors str read_string4_unicode-errors
  object-errors uint16 = untyped-errors of_ℕ read_uint16-errors
  object-errors uint32 = untyped-errors of_ℕ read_uint32-errors
  object-errors int32 = untyped-errors int read_int32-errors
  object-errors hash_type = untyped-errors hash128 read_string1-errors
  object-errors type = untyped-errors type_reference read_string1-errors
  object-errors json_object = read_json_object-errors

  pub decode_v1_typed-errors : RaisesIn IsDataError (decode_v1_typed options_of_json)
  unfolding decode_v1_typed
  decode_v1_typed-errors =
      RaisesIn-bind read_byte-errors
        λ n. RaisesIn-bind (RaisesIn-lift (object_type-errors n)) object-errors

  pub decode_v1-errors : RaisesIn IsDataError (decode_v1 options_of_json)
  unfolding decode_v1
  decode_v1-errors = RaisesIn-bind decode_v1_typed-errors λ found. RaisesIn-pure found.0
