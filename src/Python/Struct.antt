-- ===== src/Python/Struct.antt =====
-- `struct.Struct` for little-endian layouts. The type of what a layout unpacks to is computed from
-- the layout.
use addressables_tools_py.Prelude.{
  ℕ, ◌+◌, ◌-◌, ◌*◌, ℤ, pos, negsuc, List, [], ◌∷◌, Bool, not, length, take, drop, ltb, leb, ◌==◌,
  if◌then◌else◌,
}
use addressables_tools_py.Python.Exec.{Result, ok, err, struct_error}
use addressables_tools_py.Python.Stream.{Bytes}

-- The format characters h H i I q Q ? B and Ns.
pub data Field : Type 0 where
  int16 uint16 int32 uint32 int64 uint64 boolean uint8 : Field
  chars : ℕ → Field

abbrev pub Struct : Type 0
Struct = List Field

abbrev pub field_size : Field → ℕ
field_size int16 = 2
field_size uint16 = 2
field_size int32 = 4
field_size uint32 = 4
field_size int64 = 8
field_size uint64 = 8
field_size boolean = 1
field_size uint8 = 1
field_size (chars n) = n

-- parser.size
abbrev pub size : Struct → ℕ
size [] = 0
size (f ∷ fs) = field_size f + size fs

abbrev pub FieldValue : Field → Type 0
FieldValue int16 = ℤ
FieldValue uint16 = ℕ
FieldValue int32 = ℤ
FieldValue uint32 = ℕ
FieldValue int64 = ℤ
FieldValue uint64 = ℕ
FieldValue boolean = Bool
FieldValue uint8 = ℕ
FieldValue (chars n) = Bytes

abbrev pub Values : Struct → Type 0
Values [] = Unit
Values (f ∷ fs) = FieldValue f × Values fs

abbrev pub little_endian : Bytes → ℕ
little_endian [] = 0
little_endian (b ∷ bs) = b + 256 * little_endian bs

-- Two's complement: the integer below half that is equal to n modulo 2 * half.
abbrev pub signed : ℕ → ℕ → ℤ
signed half n = if ltb n half then pos n else negsuc (2 * half - 1 - n)

abbrev pub field_value : (f : Field) → Bytes → FieldValue f
field_value int16 bs = signed 0x8000 (little_endian bs)
field_value uint16 bs = little_endian bs
field_value int32 bs = signed 0x80000000 (little_endian bs)
field_value uint32 bs = little_endian bs
field_value int64 bs = signed 0x8000000000000000 (little_endian bs)
field_value uint64 bs = little_endian bs
field_value boolean bs = not (little_endian bs == 0)
field_value uint8 bs = little_endian bs
field_value (chars n) bs = bs

-- What the bytes hold, for bytes of the layout's size.
unfoldable pub values : (fs : Struct) → Bytes → Values fs
values [] bs = tt
values (f ∷ fs) bs = (field_value f (take (field_size f) bs), values fs (drop (field_size f) bs))

-- parser.unpack(data)
unfoldable pub unpack : (fs : Struct) → Bytes → Result (Values fs)
unpack fs bs = if length bs == size fs then ok (values fs bs) else err struct_error

-- parser.unpack_from(data, position), for a position that is not negative
unfoldable pub unpack_from : (fs : Struct) → Bytes → ℕ → Result (Values fs)
unpack_from fs bs position =
    if leb (position + size fs) (length bs)
    then ok (values fs (take (size fs) (drop position bs)))
    else err struct_error
