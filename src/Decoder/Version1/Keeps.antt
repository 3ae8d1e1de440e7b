-- ===== src/Decoder/Version1/Keeps.antt =====
-- Version 1 values leave a reader over the same bytes; only the cursor moves.
use addressables_tools_py.Prelude.{arith, ℕ, ℤ, pos, negsuc, ◌≡◌, [], ◌∷◌, Option}
use addressables_tools_py.Python.Exec.{Result, Exec}
use addressables_tools_py.Python.Exec.Keeps.{Keeps, Keeps-pure, Keeps-raise, Keeps-lift, Keeps-bind}
use addressables_tools_py.Python.Stream
use addressables_tools_py.Python.Stream.{Bytes, BytesIo, size_limit, move_to}
use addressables_tools_py.Python.Struct.{Struct, unpack, size, uint16, int32, uint32}
use addressables_tools_py.Python.Codec.{Str, decode_ascii, decode_utf16}
use addressables_tools_py.Models.Object.{
  Object, str, int, hash128, type_reference, AssetBundleRequestOptions,
}
use addressables_tools_py.Binary.Reader.{
  BinaryReader, on_stream, read_exact, read_bytes, read_byte, first_byte, read_struct, read_uint16,
  read_int32, read_uint32,
}
use addressables_tools_py.Decoder.Version1.{
  ObjectType, ascii_string, unicode_string, uint16, uint32, int32, hash_type, type, json_object,
  object_type, read_string1, read_string4, read_string4_unicode, untyped, of_ℕ, read_json_object,
  decode_object_type, decode_v1_typed, decode_v1,
}

-- A reader over these bytes, at some position.
abbrev pub IsOver : Bytes → Option Bytes → BinaryReader → Type 0
IsOver bs buffer r = (r.stream.content ≡ bs) × (r.buffer ≡ buffer)

module _ (bs : Bytes) (buffer : Option Bytes) where
  on_stream-IsOver :
      {A : Type 0} {m : Exec BytesIo A}
      → Keeps (λ s. s.content ≡ bs) m
      → Keeps (IsOver bs buffer) (on_stream m)
  on_stream-IsOver k = record { at = λ r h. (k.at r.stream h.0, h.1) }

  read-content : (n : ℕ) → Keeps (λ s. s.content ≡ bs) (Stream.read n)
  unfolding Stream.read
  read-content n = record { at = λ s h. ground (arith, h) }

  seek-content : (p : ℤ) → Keeps (λ s. s.content ≡ bs) (Stream.seek p (pos 0))
  unfolding Stream.seek
  seek-content p = record { at = λ s h. ground (arith, h) }

  pub seek-IsOver : (p : ℤ) → Keeps (IsOver bs buffer) (on_stream (Stream.seek p (pos 0)))
  seek-IsOver p = on_stream-IsOver (seek-content p)

  exact-IsOver : (n : ℤ) → Keeps (IsOver bs buffer) (read_exact n)
  unfolding read_exact
  exact-IsOver (negsuc n) = Keeps-raise _
  exact-IsOver (pos n) =
      Keeps-bind (on_stream-IsOver (read-content n))
        λ found. record { at = λ s h. ground (arith, h) }

  bytes-IsOver : (n : ℤ) → Keeps (IsOver bs buffer) (read_bytes n)
  unfolding read_bytes
  bytes-IsOver n = exact-IsOver n

  first-IsOver : (found : Bytes) → Keeps (IsOver bs buffer) (first_byte found)
  first-IsOver [] = Keeps-raise _
  first-IsOver (b ∷ _) = Keeps-pure b

  byte-IsOver : Keeps (IsOver bs buffer) read_byte
  unfolding read_byte
  byte-IsOver = Keeps-bind (exact-IsOver (pos 1)) first-IsOver

  struct-IsOver : (fs : Struct) → Keeps (IsOver bs buffer) (read_struct fs)
  unfolding read_struct
  struct-IsOver fs = Keeps-bind (exact-IsOver (pos (size fs))) λ found. Keeps-lift (unpack fs found)

  uint16-IsOver : Keeps (IsOver bs buffer) read_uint16
  unfolding read_uint16
  uint16-IsOver = Keeps-bind (struct-IsOver (uint16 ∷ [])) λ v. Keeps-pure v.0

  uint32-IsOver : Keeps (IsOver bs buffer) read_uint32
  unfolding read_uint32
  uint32-IsOver = Keeps-bind (struct-IsOver (uint32 ∷ [])) λ v. Keeps-pure v.0

  pub int32-IsOver : Keeps (IsOver bs buffer) read_int32
  unfolding read_int32
  int32-IsOver = Keeps-bind (struct-IsOver (int32 ∷ [])) λ v. Keeps-pure v.0

  string1-IsOver : Keeps (IsOver bs buffer) read_string1
  unfolding read_string1
  string1-IsOver =
      Keeps-bind byte-IsOver
        λ n. Keeps-bind (bytes-IsOver (pos n)) λ found. Keeps-lift (decode_ascii found)

  string4-IsOver : Keeps (IsOver bs buffer) read_string4
  unfolding read_string4
  string4-IsOver =
      Keeps-bind int32-IsOver
        λ n. Keeps-bind (bytes-IsOver n) λ found. Keeps-lift (decode_ascii found)

  unicode-IsOver : Keeps (IsOver bs buffer) read_string4_unicode
  unfolding read_string4_unicode
  unicode-IsOver =
      Keeps-bind int32-IsOver
        λ n. Keeps-bind (bytes-IsOver n) λ found. Keeps-lift (decode_utf16 found)

  untyped-IsOver :
      {A : Type 0} (f : A → Object) {m : Exec BinaryReader A}
      → Keeps (IsOver bs buffer) m
      → Keeps (IsOver bs buffer) (untyped f m)
  untyped-IsOver f k = Keeps-bind k λ a. Keeps-pure _

  module _ (options_of_json : Str → Result AssetBundleRequestOptions) where
    object-IsOver : Keeps (IsOver bs buffer) (read_json_object options_of_json)
    unfolding read_json_object
    object-IsOver = Keeps-bind string1-IsOver λ assembly.
        Keeps-bind string1-IsOver λ class.
          Keeps-bind unicode-IsOver λ s. search (Keeps-bind, Keeps-lift, Keeps-pure) depth 8

    type-IsOver : (t : ObjectType) → Keeps (IsOver bs buffer) (decode_object_type options_of_json t)
    unfolding decode_object_type
    type-IsOver ascii_string = untyped-IsOver str string4-IsOver
    type-IsOver unicode_string = untyped-IsOver str unicode-IsOver
    type-IsOver uint16 = untyped-IsOver of_ℕ uint16-IsOver
    type-IsOver uint32 = untyped-IsOver of_ℕ uint32-IsOver
    type-IsOver int32 = untyped-IsOver int int32-IsOver
    type-IsOver hash_type = untyped-IsOver hash128 string1-IsOver
    type-IsOver type = untyped-IsOver type_reference string1-IsOver
    type-IsOver json_object = object-IsOver

    pub typed-IsOver : Keeps (IsOver bs buffer) (decode_v1_typed options_of_json)
    unfolding decode_v1_typed
    typed-IsOver = Keeps-bind byte-IsOver λ n. Keeps-bind (Keeps-lift (object_type n)) type-IsOver

    pub decode_v1-IsOver : Keeps (IsOver bs buffer) (decode_v1 options_of_json)
    unfolding decode_v1
    decode_v1-IsOver = Keeps-bind typed-IsOver λ found. Keeps-pure found.0
