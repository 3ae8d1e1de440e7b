-- ===== src/Binary/Arrays/Wire.antt =====
-- Offset arrays as functions of the bytes, with no reader and no cache.
use mathlib.Core.Path.{ap₂}
use addressables_tools_py.Prelude.{
  ℕ, ◌+◌, ◌-◌, ◌*◌, ◌/◌, ◌%◌, ◌<◌, pos, negsuc, true, false, ◌||◌, List, [], ◌∷◌, ◌++◌, Option,
  some, length, ltb, ◌==◌, if◌then◌else◌, ◌≡◌, refl, arith, ap, ◌≢◌, Option-cases, inl, inr, All,
  Bool-cases,
}
use addressables_tools_py.Prelude.Dict
use addressables_tools_py.Prelude.Dict.{Dict, nat_key, nat_key-IsLawful, get-put_cases}
use addressables_tools_py.Python.Exec.{Result, ok, err, binary_read_error, Result-cases}
use addressables_tools_py.Python.Stream.{Bytes, slice}
use addressables_tools_py.Python.Struct.{Values, int32, unpack_from}
use addressables_tools_py.Models.Object.{Object, offsets, pack_uint32}
use addressables_tools_py.Binary.Layout.{
  stored, payload_offset, little_endian-pack, stored_size, stored_in_range, stored_fits,
  stored_payload,
}
use addressables_tools_py.Binary.Reader.{BinaryReader}
use addressables_tools_py.Binary.State.{CatalogBinaryReader, uint32_max}
use addressables_tools_py.Binary.Strings.{read_byte_size, read_payload}
use addressables_tools_py.Binary.Arrays.{words, fetch_offset_array, read_offset_array, as_list}

abbrev array_of_size : Bytes → ℕ → Result (Values (int32 ∷ [])) → Result (List ℕ)
array_of_size bytes offset (err x) = err x
array_of_size bytes offset (ok (negsuc _, _)) = err binary_read_error
array_of_size bytes offset (ok (pos n, _)) =
    if n % 4 == 0
    then if ltb (length bytes) (offset + n)
      then err binary_read_error
      else ok (words (n / 4) (slice offset n bytes))
    else err binary_read_error

-- An array with its byte size before it.
unfoldable pub array_at : Bytes → ℕ → Result (List ℕ)
array_at bytes offset =
    if ltb offset 4 || ltb (length bytes) offset
    then err binary_read_error
    else array_of_size bytes offset (unpack_from (int32 ∷ []) bytes (offset - 4))

pub fetch_offset_array-array_at :
    (bytes : Bytes) (b : BinaryReader) (offset : ℕ)
    → b.buffer ≡ some bytes
    → fetch_offset_array offset b ≡ (array_at bytes offset, b)
unfolding fetch_offset_array array_at read_byte_size read_payload
fetch_offset_array-array_at bytes b offset h = ground arith

-- The arrays that the object cache holds are those of the bytes.
pub record ArraysSound (bytes : Bytes) (cache : Dict ℕ Object) : Type 0 where
  pub entry :
      (offset : ℕ) (xs : List ℕ)
      → Dict.get cache offset ≡ some (offsets xs)
      → array_at bytes offset ≡ ok xs

offsets_injective : (xs ys : List ℕ) → offsets xs ≡ offsets ys → xs ≡ ys
offsets_injective xs ys h = cc

-- An object that is put at an offset is no array, or the array of the bytes there.
put-ArraysSound :
    (bytes : Bytes) (cache : Dict ℕ Object) (offset : ℕ) (xs : List ℕ)
    → ArraysSound bytes cache
    → array_at bytes offset ≡ ok xs
    → ArraysSound bytes (Dict.put cache offset (offsets xs))
put-ArraysSound bytes cache offset xs sound read = record {
  entry = λ o ys h.
      elim (get-put_cases nat_key-IsLawful cache offset o (offsets xs) (offsets ys) h) [
        | inl (same, equal) ↦ cc (same, offsets_injective xs ys equal)
        | inr old ↦ sound.entry o ys old
      ];
}

as_list-some : (o : Option Object) (xs : List ℕ) → as_list o ≡ some xs → o ≡ some (offsets xs)
as_list-some (some (offsets ys)) xs h = cc
as_list-some _ xs h = cc

-- Over a buffer whose cached arrays are those of the bytes, read_offset_array gives no offsets for
-- the null offset and the array of the bytes elsewhere, cached or not, or raises what reading it
-- raises. The cached arrays stay those of the bytes, and only the object cache changes.
pub read_offset_array-array_at :
    (bytes : Bytes) (offset : ℕ) (r : CatalogBinaryReader)
    → r.base.buffer ≡ some bytes
    → ArraysSound bytes r.object_cache
    → (cache : Dict ℕ Object) × (read_offset_array offset r ≡ (
      if offset == uint32_max then ok [] else array_at bytes offset,
      record r { object_cache = cache },
    ))
      × ArraysSound bytes cache
unfolding read_offset_array
read_offset_array-array_at bytes offset r buffered sound =
    elim (Bool-cases (offset == uint32_max)) [
      | inl e ↦ (r.object_cache, rw e, sound)
      | inr e ↦ elim (Option-cases (as_list (Dict.get r.object_cache offset))) [
        | inr (xs, cached) ↦ (
          r.object_cache,
          rw (
            e,
            cached,
            sound.entry offset xs (as_list-some (Dict.get r.object_cache offset) xs cached),
          ),
          sound,
        )
        | inl missing ↦ elim (Result-cases (array_at bytes offset)) [
          | inl (xs, read) ↦ (
            Dict.put r.object_cache offset (offsets xs),
            rw (e, missing, fetch_offset_array-array_at bytes r.base offset buffered, read),
            put-ArraysSound bytes r.object_cache offset xs sound read,
          )
          | inr (x, failed) ↦ (
            r.object_cache,
            rw (e, missing, fetch_offset_array-array_at bytes r.base offset buffered, failed),
            sound,
          )
        ]
      ]
    ]

-- The bytes of an array.
abbrev pub pack_words : List ℕ → Bytes
pack_words [] = []
pack_words (x ∷ xs) = pack_uint32 x ++ pack_words xs

words-pack : (xs : List ℕ) → All (λ x. x < 4294967296) xs → words (length xs) (pack_words xs) ≡ xs
unfolding words
words-pack [] h = refl
words-pack (x ∷ xs) h =
    ap₂ (λ (y : ℕ) (ys : List ℕ). y ∷ ys) (little_endian-pack x h.0) (words-pack xs h.1)

pub length-pack_words : (xs : List ℕ) → length (pack_words xs) ≡ 4 * length xs
length-pack_words [] = omega arith
length-pack_words (x ∷ xs) = omega (arith, length-pack_words xs)

multiple_of_4 : (xs : List ℕ) → (length (pack_words xs) % 4 == 0) ≡ true
multiple_of_4 xs = rw length-pack_words (ground arith)

quarter : (xs : List ℕ) → length (pack_words xs) / 4 ≡ length xs
quarter xs = rw length-pack_words (omega arith)

not_max : (n : ℕ) → n ≢ uint32_max → (n == uint32_max) ≡ false
not_max n h = ground arith

array_at-stored :
    (before after : Bytes) (xs : List ℕ)
    → All (λ x. x < 4294967296) xs
    → length (pack_words xs) < 2147483648
    → array_at (stored before (pack_words xs) after) (payload_offset before) ≡ ok xs
unfolding array_at
array_at-stored before after xs words_fit small =
    rw
      (
        stored_in_range before (pack_words xs) after,
        stored_size before (pack_words xs) after small,
        multiple_of_4 xs,
        stored_fits before (pack_words xs) after,
        stored_payload before (pack_words xs) after,
        quarter xs,
      )
      (ap ok (words-pack xs words_fit))

-- An offset array that is stored with its byte size before it, its entries below 2^32 and its bytes
-- fewer than 2^31, is read back at its offset, unless that is the null offset.
pub read_offset_array-stored :
    (before after : Bytes) (xs : List ℕ) (r : CatalogBinaryReader)
    → All (λ x. x < 4294967296) xs
    → length (pack_words xs) < 2147483648
    → payload_offset before ≢ uint32_max
    → r.base.buffer ≡ some (stored before (pack_words xs) after)
    → ArraysSound (stored before (pack_words xs) after) r.object_cache
    → (read_offset_array (payload_offset before) r).0 ≡ ok xs
read_offset_array-stored before after xs r words_fit small real buffered sound =
    let (_, out, _) =
      read_offset_array-array_at (stored before (pack_words xs) after) (payload_offset before) r
        buffered sound in
    rw (out, not_max (payload_offset before) real) (array_at-stored before after xs words_fit small)
