-- ===== src/Binary/Reader.antt =====
-- `class BinaryReader` of src/addressablestools/binary.py. With a buffer, reads at an absolute
-- position take the bytes from it; without one they move the stream.
pub mod Buffer
pub mod Streams
pub mod Errors
use addressables_tools_py.Prelude.{
  ℕ, ◌+◌, ℤ, pos, negsuc, pos_part, ltb_ℤ, Bool, ◌||◌, [], ◌∷◌, Option, none, some, length, ltb,
  ◌==◌, if◌then◌else◌,
}
use addressables_tools_py.Python.Exec.{
  PyError, ok, err, Exec, pure, raise, lift, gets, rescue, ◌>>=◌, ◌>>◌, is_value_error,
  binary_read_error,
}
use addressables_tools_py.Python.Stream
use addressables_tools_py.Python.Stream.{Bytes, BytesIo, slice}
use addressables_tools_py.Python.Struct.{
  Struct, Values, size, unpack, unpack_from, int16, uint16, int32, uint32, int64, uint64, boolean,
}
use addressables_tools_py.Python.Codec.{Str, decode_ascii}

pub record BinaryReader : Type 0 where
  pub stream : BytesIo
  pub buffer : Option Bytes

-- An operation of the stream.
abbrev pub on_stream : {A : Type 0} → Exec BytesIo A → Exec BinaryReader A
on_stream m r = let (a, s') = m r.stream in (a, record r { stream = s' })

-- `except (OSError, ValueError)`
abbrev pub invalid_seek : PyError → PyError
invalid_seek e = if is_value_error e then binary_read_error else e

unfoldable pub seek : ℤ → ℤ → Exec BinaryReader (Unit {0})
seek position whence r =
    let (a, r') = on_stream (Stream.seek position whence) r in (rescue invalid_seek a, r')

unfoldable pub tell : Exec BinaryReader ℕ
tell = gets (λ r. r.stream.position)

unfoldable pub read_exact : ℤ → Exec BinaryReader Bytes
read_exact (negsuc _) = raise binary_read_error
read_exact (pos count) = do
  found ← on_stream (Stream.read count)
  if length found == count then pure found else raise binary_read_error

unfoldable pub read_bytes : ℤ → Exec BinaryReader Bytes
unfolding read_exact
read_bytes count = read_exact count

abbrev pub first_byte : Bytes → Exec BinaryReader ℕ
first_byte [] = raise binary_read_error
first_byte (b ∷ _) = pure b

-- `self.read_exact(1)[0]`
unfoldable pub read_byte : Exec BinaryReader ℕ
unfolding read_exact
read_byte = read_exact (pos 1) >>= first_byte

-- Reads one value of a precompiled layout.
unfoldable pub read_struct : (parser : Struct) → Exec BinaryReader (Values parser)
unfolding read_exact
read_struct parser = do found ← read_exact (pos (size parser)); lift (unpack parser found)

unfoldable pub read_int16 : Exec BinaryReader ℤ
unfolding read_struct
read_int16 = do (v, _) ← read_struct (int16 ∷ []); pure v

unfoldable pub read_uint16 : Exec BinaryReader ℕ
unfolding read_struct
read_uint16 = do (v, _) ← read_struct (uint16 ∷ []); pure v

unfoldable pub read_int32 : Exec BinaryReader ℤ
unfolding read_struct
read_int32 = do (v, _) ← read_struct (int32 ∷ []); pure v

unfoldable pub read_uint32 : Exec BinaryReader ℕ
unfolding read_struct
read_uint32 = do (v, _) ← read_struct (uint32 ∷ []); pure v

unfoldable pub read_int64 : Exec BinaryReader ℤ
unfolding read_struct
read_int64 = do (v, _) ← read_struct (int64 ∷ []); pure v

unfoldable pub read_uint64 : Exec BinaryReader ℕ
unfolding read_struct
read_uint64 = do (v, _) ← read_struct (uint64 ∷ []); pure v

unfoldable pub read_boolean : Exec BinaryReader Bool
unfolding read_struct
read_boolean = do (v, _) ← read_struct (boolean ∷ []); pure v

-- One byte decoded as UTF-8: only an ASCII byte is a whole character.
unfoldable pub read_char : Exec BinaryReader Str
unfolding read_exact
read_char = do found ← read_exact (pos 1); lift (decode_ascii found)

-- `try: … finally: self.seek(position)`
abbrev pub finally_seek : {A : Type 0} → ℕ → Exec BinaryReader A → Exec BinaryReader A
finally_seek position m r =
    let (a, r') = m r in
    let (b, r'') = seek (pos position) (pos 0) r' in (elim b [ ok _ ↦ a | err e ↦ err e ], r'')

-- The bounds check of the buffered reads, and the read.
abbrev pub from_buffer : (parser : Struct) → ℤ → Bytes → Exec BinaryReader (Values parser)
from_buffer parser position bytes =
    if ltb_ℤ position (pos 0) || ltb (length bytes) (pos_part position + size parser)
    then raise binary_read_error
    else lift (unpack_from parser bytes (pos_part position))

-- Reads at an absolute position without changing the cursor.
unfoldable pub read_struct_at : (parser : Struct) → ℤ → Exec BinaryReader (Values parser)
unfolding seek tell read_struct
read_struct_at parser position r = elim r.buffer [
  | none ↦ (do current ← tell; seek position (pos 0); finally_seek current (read_struct parser)) r
  | some bytes ↦ from_buffer parser position bytes r
]

-- Reads at an absolute position, from the buffer where there is one.
unfoldable pub read_struct_from : (parser : Struct) → ℤ → Exec BinaryReader (Values parser)
unfolding seek read_struct
read_struct_from parser position r = elim r.buffer [
  | none ↦ (do seek position (pos 0); read_struct parser) r
  | some bytes ↦ from_buffer parser position bytes r
]

abbrev pub bytes_from_buffer : ℤ → ℕ → Bytes → Exec BinaryReader Bytes
bytes_from_buffer position count bytes =
    if ltb_ℤ position (pos 0) || ltb (length bytes) (pos_part position + count)
    then raise binary_read_error
    else pure (slice (pos_part position) count bytes)

unfoldable pub read_bytes_at : ℤ → ℤ → Exec BinaryReader Bytes
unfolding seek tell read_exact
read_bytes_at position (negsuc _) r = (err binary_read_error, r)
read_bytes_at position (pos count) r = elim r.buffer [
  | none ↦
      (do current ← tell; seek position (pos 0); finally_seek current (read_exact (pos count))) r
  | some bytes ↦ bytes_from_buffer position count bytes r
]

abbrev pub two_uint32 : Struct
two_uint32 = uint32 ∷ uint32 ∷ []

abbrev pub four_uint32 : Struct
four_uint32 = uint32 ∷ uint32 ∷ uint32 ∷ uint32 ∷ []

unfoldable pub read_two_uint32 : Exec BinaryReader (Values two_uint32)
unfolding read_struct
read_two_uint32 = read_struct two_uint32

unfoldable pub read_two_uint32_at : ℤ → Exec BinaryReader (Values two_uint32)
unfolding read_struct_at
read_two_uint32_at = read_struct_at two_uint32

unfoldable pub read_two_uint32_from : ℤ → Exec BinaryReader (Values two_uint32)
unfolding read_struct_from
read_two_uint32_from = read_struct_from two_uint32

unfoldable pub read_four_uint32 : Exec BinaryReader (Values four_uint32)
unfolding read_struct
read_four_uint32 = read_struct four_uint32

abbrev pub FormatValues : Option Struct → Type 0
FormatValues none = Unit
FormatValues (some parser) = Values parser

-- The format is given by the layout that it stands for, and a malformed one by `none`.
unfoldable pub read_format : (fmt : Option Struct) → Exec BinaryReader (FormatValues fmt)
unfolding read_struct
read_format none = raise binary_read_error
read_format (some parser) = read_struct parser
