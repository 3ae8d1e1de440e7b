-- ===== src/Binary/Layout.antt =====
-- Bytes that hold a payload with its size before it, as strings and offset arrays do.
use addressables_tools_py.Prelude.{
  ℕ, ◌+◌, ℤ, ◌-◌, ◌≤◌, ◌<◌, pos, [], ◌∷◌, ◌++◌, length, take, drop, ◌≡◌, arith, ap, ◌∙◌,
  length-append, drop-append, take-append, le→leb, lt→ltb, ◌||◌, false, ltb,
}
use Prim.Native.Nat.add
use native.Mathlib.Nat.{zero-add}
use addressables_tools_py.Python.Exec.{Result, ok}
use addressables_tools_py.Python.Stream.{Bytes, slice}
use addressables_tools_py.Python.Struct.{Values, int32, unpack_from, values, little_endian, signed}
use addressables_tools_py.Models.Object.{pack_uint32}

pub little_endian-pack : (n : ℕ) → n < 4294967296 → little_endian (pack_uint32 n) ≡ n
little_endian-pack n h = omega arith

pub signed-small : (n half : ℕ) → n < half → signed half n ≡ pos n
signed-small n half h = rw (lt→ltb n half h)

back_4 : (n : ℕ) → n + 4 - 4 ≡ n
back_4 n = omega arith

le→not_ltb : (a b : ℕ) → b ≤ a → ltb a b ≡ false
le→not_ltb a b h = ground arith

pub drop_more : (xs ys : Bytes) (n : ℕ) → drop (length xs + n) (xs ++ ys) ≡ drop n ys
drop_more [] ys n = rw zero-add
drop_more (x ∷ xs) ys n = rw add.suc (drop_more xs ys n)

abbrev sized : ℤ → Result (Values (int32 ∷ []))
sized z = ok (z, tt)

-- The payload stands after the bytes before it and its size, at `payload_offset`.
abbrev pub stored : Bytes → Bytes → Bytes → Bytes
stored before payload after = before ++ (pack_uint32 (length payload) ++ (payload ++ after))

abbrev pub payload_offset : Bytes → ℕ
payload_offset before = length before + 4

module _ (before payload after : Bytes) where
  length-stored :
      length (stored before payload after) ≡ payload_offset before + length payload + length after
  length-stored = omega (
    arith,
    length-append before (pack_uint32 (length payload) ++ (payload ++ after)),
    length-append payload after,
  )

  pub stored_size :
      length payload < 2147483648
      → unpack_from (int32 ∷ []) (stored before payload after) (payload_offset before - 4)
        ≡ ok (pos (length payload), tt)
  unfolding unpack_from values
  stored_size small =
      rw
        (
          back_4 (length before),
          le→leb (length before + 4) (length (stored before payload after))
              (omega (arith, length-stored)),
          drop-append before (pack_uint32 (length payload) ++ (payload ++ after)),
        )
        (ap sized (
          ap (signed 0x80000000) (little_endian-pack (length payload) (omega arith))
          ∙ signed-small (length payload) 0x80000000 small))

  pub stored_in_range :
      (ltb (payload_offset before) 4
        || ltb (length (stored before payload after)) (payload_offset before))
      ≡ false
  stored_in_range = rw (
    le→not_ltb (payload_offset before) 4 (omega arith),
    le→not_ltb (length (stored before payload after)) (payload_offset before)
        (omega (arith, length-stored)),
  )

  pub stored_fits :
      ltb (length (stored before payload after)) (payload_offset before + length payload) ≡ false
  stored_fits =
      le→not_ltb (length (stored before payload after)) (payload_offset before + length payload)
        (omega (arith, length-stored))

  pub stored_payload :
      slice (payload_offset before) (length payload) (stored before payload after) ≡ payload
  stored_payload = ap (take (length payload)) (drop_more before _ 4) ∙ take-append payload after
