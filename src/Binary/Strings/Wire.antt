-- ===== src/Binary/Strings/Wire.antt =====
-- The strings of a binary catalog as functions and relations of its bytes alone, with no reader
-- and no cache, and the reads of a buffered reader in these terms.
use addressables_tools_py.Prelude.{
  ℕ, ◌+◌, ◌-◌, ◌%◌, pos, negsuc, Bool, ◌||◌, List, [], ◌∷◌, ◌++◌, Option, none, some, length, ltb,
  ◌==◌, if◌then◌else◌, ◌≡◌, ◌≢◌, suc, arith,
}
use addressables_tools_py.Python.Exec.{Result, ok, err, binary_read_error}
use addressables_tools_py.Python.Stream.{Bytes, slice}
use addressables_tools_py.Python.Struct.{int32, unpack_from, Values}
use addressables_tools_py.Python.Codec.{Str, decode_ascii, decode_utf16}
use addressables_tools_py.Binary.Reader.{BinaryReader, two_uint32, read_two_uint32_from}
use addressables_tools_py.Binary.State.{uint32_max, uint32_max_minus_one}
use addressables_tools_py.Binary.Strings.{read_basic_string, has_bit, to_list}

-- A pair of offsets at a position.
unfoldable pub two_at : Bytes → ℕ → Result (Values two_uint32)
two_at bytes n =
    if ltb (length bytes) (n + 8) then err binary_read_error else unpack_from two_uint32 bytes n

abbrev pub decode : Bool → Bytes → Result Str
decode unicode bs = if unicode then decode_utf16 bs else decode_ascii bs

abbrev pub text_of_size : Bytes → ℕ → Bool → Result (Values (int32 ∷ [])) → Result Str
text_of_size bytes offset unicode (err e) = err e
text_of_size bytes offset unicode (ok (negsuc _, _)) = err binary_read_error
text_of_size bytes offset unicode (ok (pos count, _)) =
    if ltb (length bytes) (offset + count)
    then err binary_read_error
    else decode unicode (slice offset count bytes)

-- A text with its byte length before it.
unfoldable pub basic_at : Bytes → ℕ → Bool → Result Str
basic_at bytes offset unicode =
    if ltb offset 4 || ltb (length bytes) offset
    then err binary_read_error
    else text_of_size bytes offset unicode (unpack_from (int32 ∷ []) bytes (offset - 4))

module _ (bytes : Bytes) (b : BinaryReader) (buffered : b.buffer ≡ some bytes) where
  pub read_two-two_at : (n : ℕ) → read_two_uint32_from (pos n) b ≡ (two_at bytes n, b)
  unfolding read_two_uint32_from two_at
  read_two-two_at n = ground arith

  pub read_basic-basic_at :
      (offset : ℕ) (unicode : Bool)
      → read_basic_string offset unicode b ≡ (basic_at bytes offset unicode, b)
  unfolding read_basic_string basic_at
  read_basic-basic_at offset unicode = ground arith

abbrev pub some_text : Result Str → Result (Option Str)
some_text (ok s) = ok (some s)
some_text (err e) = err e

-- The part that a part offset stands for: parts are never dynamic.
unfoldable pub part_at : Bytes → ℕ → Result (Option Str)
part_at bytes encoded =
    if (encoded == uint32_max) || (encoded == uint32_max_minus_one)
    then ok none
    else some_text (basic_at bytes (encoded % 0x40000000) (has_bit 0x80000000 encoded))

-- The chain of parts from an offset on ends, after some links, and lists these parts.
pub data Parts (bytes : Bytes) : ℕ → ℕ → List Str → Type 0 where
  last : {n : ℕ} → n ≡ uint32_max → Parts bytes 0 n []
  link :
      {n part next links : ℕ} {o : Option Str} {ps : List Str}
      → n ≢ uint32_max
      → two_at bytes n ≡ ok (part, (next, tt))
      → part_at bytes part ≡ ok o
      → Parts bytes links next ps
      → Parts bytes (suc links) n (to_list o ++ ps)
