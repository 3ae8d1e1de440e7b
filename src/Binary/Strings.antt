-- ===== src/Binary/Strings.antt =====
-- The strings of `CatalogBinaryReader` in src/addressablestools/binary.py: a byte length before
-- the text, or a chain of parts that share tails.
pub mod Wire
pub mod Sound
pub mod Loop
pub mod Tails
pub mod Encoded
pub mod Answers
pub mod Transparent
pub mod Refusals
pub mod Errors
pub mod Stored
use addressables_tools_py.Prelude.{
  ℕ, zero, suc, ◌+◌, ◌-◌, ◌/◌, ◌%◌, ℤ, pos, negsuc, sub_ℕ, ltb_ℤ, Bool, true, false, not, ◌&&◌,
  ◌||◌, List, [], ◌∷◌, ◌++◌, Option, none, some, length, drop, contains, ltb, ◌==◌, if◌then◌else◌,
}
use mathlib.Core.List.{reverse}
use addressables_tools_py.Prelude.Dict
use addressables_tools_py.Prelude.Dict.{nat_key}
use addressables_tools_py.Python.Exec.{
  Result, ok, err, Exec, pure, raise, lift, raise_if, modify, gets, ◌>>=◌, ◌>>◌, binary_read_error,
  recursion_error, fuel_exhausted,
}
use addressables_tools_py.Python.Stream.{Bytes, slice}
use addressables_tools_py.Python.Struct.{int32, unpack_from}
use addressables_tools_py.Python.Codec.{Str, decode_ascii, decode_utf16}
use addressables_tools_py.Models.Object.{str_eq}
use addressables_tools_py.Binary.Reader.{
  BinaryReader, seek, read_int32, read_bytes, read_two_uint32_from,
}
use addressables_tools_py.Binary.State.{
  string_key, CatalogBinaryReader, StringKey, plain, dynamic, uint32_max, uint32_max_minus_one,
  on_base,
}

-- The bytes that reads at an absolute position take.
abbrev pub source : BinaryReader → Bytes
source r = elim r.buffer [ none ↦ r.stream.content | some bytes ↦ bytes ]

-- The byte length that stands before an offset, for strings and for offset arrays.
unfoldable pub read_byte_size : ℕ → Exec BinaryReader ℤ
read_byte_size offset r = elim r.buffer [
  | none ↦ (do seek (sub_ℕ offset 4) (pos 0); read_int32) r
  | some bytes ↦
      (do
        raise_if (ltb offset 4 || ltb (length bytes) offset) binary_read_error
        (size, _) ← lift (unpack_from (int32 ∷ []) bytes (offset - 4))
        pure size)
        r
]

-- The bytes from an offset on; without a buffer the cursor stands at the offset.
unfoldable pub read_payload : ℕ → ℕ → Exec BinaryReader Bytes
read_payload offset count r = elim r.buffer [
  | none ↦ read_bytes (pos count) r
  | some bytes ↦
      (do
        raise_if (ltb (length bytes) (offset + count)) binary_read_error
        pure (slice offset count bytes))
        r
]

abbrev non_negative : ℤ → Exec BinaryReader ℕ
non_negative (negsuc _) = raise binary_read_error
non_negative (pos n) = pure n

-- _read_basic_string
unfoldable pub read_basic_string : ℕ → Bool → Exec BinaryReader Str
unfolding read_byte_size read_payload
read_basic_string offset unicode = do
  size ← read_byte_size offset
  count ← non_negative size
  found ← read_payload offset count
  lift (if unicode then decode_utf16 found else decode_ascii found)

abbrev pub no_separator : Str
no_separator = 0 ∷ []

-- encoded_offset & bit, for a power of two
abbrev pub has_bit : ℕ → ℕ → Bool
has_bit bit n = n / bit % 2 == 1

abbrev pub is_dynamic : ℕ → Str → Bool
is_dynamic encoded separator = has_bit 0x40000000 encoded && not (str_eq separator no_separator)

abbrev pub cache_key : ℕ → Str → StringKey
cache_key encoded separator =
    if is_dynamic encoded separator then dynamic encoded separator else plain encoded

abbrev pub cache_string : StringKey → Str → Exec CatalogBinaryReader (Unit {0})
cache_string key text = modify (λ r. record r { string_cache = Dict.put r.string_cache key text })

-- read_encoded_string over the method that reads dynamic strings.
unfoldable pub encoded_string_by :
    (ℕ → Str → Exec CatalogBinaryReader Str) → ℕ → Str → Exec CatalogBinaryReader (Option Str)
encoded_string_by read_dynamic encoded separator r =
    if (encoded == uint32_max) || (encoded == uint32_max_minus_one)
    then (ok none, r)
    else elim (Dict.get r.string_cache (cache_key encoded separator)) [
      | some cached ↦ (ok (some cached), r)
      | none ↦
          (do
            text ←
                if is_dynamic encoded separator
                then read_dynamic (encoded % 0x40000000) separator
                else on_base (read_basic_string (encoded % 0x40000000) (has_bit 0x80000000 encoded))
            cache_string (cache_key encoded separator) text
            pure (some text))
            r
    ]

-- A part of a dynamic string is read with the default separator, so it is never dynamic itself.
unfoldable pub read_part : ℕ → Exec CatalogBinaryReader (Option Str)
unfolding encoded_string_by
read_part encoded = encoded_string_by (λ _ _. raise recursion_error) encoded no_separator

abbrev pub to_list : Option Str → List Str
to_list none = []
to_list (some s) = s ∷ []

-- The loop over the parts of a dynamic string, from `next` on.
unfoldable pub collect_parts : ℕ → ℕ → List ℕ → List Str → Exec CatalogBinaryReader (List Str)
unfolding read_part
collect_parts zero next visited parts r =
    if next == uint32_max then (ok parts, r) else (err fuel_exhausted, r)
collect_parts (suc fuel) next visited parts r =
    let step = (do
      (part_offset, (following, _)) ← on_base (read_two_uint32_from (pos next))
      part ← read_part part_offset
      collect_parts fuel following (next ∷ visited) (parts ++ to_list part)) in
    if next == uint32_max then (ok parts, r) else elim (Dict.get r.dynamic_tail_cache next) [
      | some tail ↦ (ok (parts ++ tail), r)
      | none ↦ if contains visited next then (err binary_read_error, r) else step r
    ]

-- separator.join(parts)
unfoldable pub join : Str → List Str → Str
join separator [] = []
join separator (p ∷ []) = p
join separator (p ∷ q ∷ ps) = p ++ (separator ++ join separator (q ∷ ps))

-- Cache the first tail, if it is not there.
abbrev pub cache_tail : ℕ → List Str → Exec CatalogBinaryReader (Unit {0})
cache_tail offset tail r = elim (Dict.get r.dynamic_tail_cache offset) [
  | some _ ↦ (ok tt, r)
  | none ↦ (ok tt, record r { dynamic_tail_cache = Dict.put r.dynamic_tail_cache offset tail })
]

abbrev pub joined : ℤ → Str → List Str → Str
joined version separator (p ∷ []) = p
joined version separator parts =
    join separator (if ltb_ℤ (pos 1) version then reverse parts else parts)

abbrev pub or_empty : Option Str → Str
or_empty none = []
or_empty (some s) = s

-- _read_dynamic_string, from the test of the second part's offset on. An offset that the loop
-- visits is one of the source, and none is visited twice, so the length of the source bounds the
-- rounds.
unfoldable pub read_rest : ℕ → Str → Option Str → ℕ → Exec CatalogBinaryReader Str
unfolding collect_parts join
read_rest offset separator first next r =
    let several = (do
      parts ← collect_parts (length (source r.base)) next (offset ∷ []) (to_list first)
      cache_tail next (drop (length (to_list first)) parts)
      version ← gets (λ r. r.version)
      pure (joined version separator parts)) in
    if next == uint32_max then (ok (or_empty first), r) else several r

unfoldable pub read_dynamic_string : ℕ → Str → Exec CatalogBinaryReader Str
unfolding read_part read_rest
read_dynamic_string offset separator = do
  (part_offset, (next, _)) ← on_base (read_two_uint32_from (pos offset))
  first ← read_part part_offset
  read_rest offset separator first next

unfoldable pub read_encoded_string : ℕ → Str → Exec CatalogBinaryReader (Option Str)
unfolding encoded_string_by read_dynamic_string
read_encoded_string = encoded_string_by read_dynamic_string
