-- ===== src/Tests/Arrays.antt =====
-- Offset arrays, on concrete bytes.
use addressables_tools_py.Prelude.{ℕ, [], ◌∷◌, ◌≡◌, refl, ◌==◌, if◌then◌else◌, arith}
use addressables_tools_py.Prelude.Dict
use addressables_tools_py.Prelude.Dict.{Dict}
use addressables_tools_py.Python.Exec.{ok}
use addressables_tools_py.Python.Struct.{unpack_from, values}
use addressables_tools_py.Models.Object.{Object}
use addressables_tools_py.Binary.State.{uint32_max}
use addressables_tools_py.Binary.Arrays.{read_offset_array}
use addressables_tools_py.Binary.Arrays.Wire.{
  ArraysSound, array_at, pack_words, read_offset_array-array_at, read_offset_array-stored,
}
use addressables_tools_py.Binary.Layout.{stored}
use addressables_tools_py.Tests.Data.{over}

no_arrays : ArraysSound (stored [] (pack_words (7 ∷ 300 ∷ [])) []) []
unfolding Dict.get
no_arrays = record { entry = λ offset xs h. absurd (ground arith) }

two_offsets :
    (read_offset_array 4 (over (stored [] (pack_words (7 ∷ 300 ∷ [])) []))).0 ≡ ok (7 ∷ 300 ∷ [])
unfolding read_offset_array Dict.get unpack_from values
two_offsets = refl

read_offset_array-array_at_example :
    (cache : Dict ℕ Object) × (read_offset_array 4 (over (stored [] (pack_words (7 ∷ 300 ∷ [])) []))
      ≡ (
        (if 4 == uint32_max then ok [] else array_at (stored [] (pack_words (7 ∷ 300 ∷ [])) []) 4),
        record (over (stored [] (pack_words (7 ∷ 300 ∷ [])) [])) { object_cache = cache },
      ))
    × ArraysSound (stored [] (pack_words (7 ∷ 300 ∷ [])) []) cache
read_offset_array-array_at_example =
    read_offset_array-array_at (stored [] (pack_words (7 ∷ 300 ∷ [])) []) 4
      (over (stored [] (pack_words (7 ∷ 300 ∷ [])) [])) refl no_arrays

read_offset_array-stored_example :
    (read_offset_array 4 (over (stored [] (pack_words (7 ∷ 300 ∷ [])) []))).0 ≡ ok (7 ∷ 300 ∷ [])
read_offset_array-stored_example =
    read_offset_array-stored [] [] (7 ∷ 300 ∷ []) (over (stored [] (pack_words (7 ∷ 300 ∷ [])) []))
      (omega arith, (omega arith, tt)) (omega arith) (λ h. absurd (omega (arith, h))) refl no_arrays
