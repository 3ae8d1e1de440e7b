-- ===== src/Tests/Depth.antt =====
-- A location that depends on another.
use addressables_tools_py.Prelude.{ℕ, [], ◌∷◌, none, ◌≡◌, refl, arith, pos}
use addressables_tools_py.Prelude.Dict
use addressables_tools_py.Python.Exec.{ok, err, recursion_error}
use addressables_tools_py.Python.Struct.{Values, unpack_from, values}
use addressables_tools_py.Python.Codec.{decode_ascii}
use addressables_tools_py.Models.Object.{location}
use addressables_tools_py.Binary.Reader.{read_struct_from, read_two_uint32_from}
use addressables_tools_py.Binary.State.{uint32_max}
use addressables_tools_py.Binary.Strings.{read_basic_string}
use addressables_tools_py.Binary.Strings.Transparent.{new_reader-IsSound}
use addressables_tools_py.Binary.Arrays.{words}
use addressables_tools_py.Binary.Arrays.Wire.{array_at}
use addressables_tools_py.Binary.Stable.{AllSound}
use addressables_tools_py.Catalog.Locations.{location_layout, resource_location_from_binary}
use addressables_tools_py.Catalog.Cycles.{location_at}
use addressables_tools_py.Catalog.Depth.{
  IsWithin, there-IsWithin, resource_location_from_binary-enough,
}
use addressables_tools_py.Tests.Data.{over, deep_bytes, no_hash}

one_call :
    (resource_location_from_binary no_hash 1 none 16 (over deep_bytes)).0 ≡ err recursion_error
unfolding resource_location_from_binary Dict.get Dict.put read_struct_from unpack_from values
    read_basic_string decode_ascii
one_call = refl

two_calls : (resource_location_from_binary no_hash 2 none 16 (over deep_bytes)).0 ≡ ok (location 1)
unfolding resource_location_from_binary Dict.get Dict.put read_struct_from unpack_from values
    read_basic_string decode_ascii read_two_uint32_from
two_calls = refl

abbrev fields_with : ℕ → Values location_layout
fields_with dependencies = (4, (4, (4, (dependencies, (pos 7, (uint32_max, (8, tt)))))))

first_there : location_at deep_bytes 16 ≡ ok (fields_with 48)
unfolding location_at unpack_from values
first_there = refl

second_there : location_at deep_bytes 52 ≡ ok (fields_with uint32_max)
unfolding location_at unpack_from values
second_there = refl

array_there : array_at deep_bytes 48 ≡ ok (52 ∷ [])
unfolding array_at unpack_from values words
array_there = refl

second-IsWithin : IsWithin deep_bytes 1 52
second-IsWithin = there-IsWithin deep_bytes 0 52 (fields_with uint32_max) [] second_there refl tt

first-IsWithin : IsWithin deep_bytes 2 16
first-IsWithin =
    there-IsWithin deep_bytes 1 16 (fields_with 48) (52 ∷ []) first_there array_there
      (second-IsWithin, tt)

new_reader-AllSound : AllSound deep_bytes (over deep_bytes)
unfolding Dict.get
new_reader-AllSound = record {
  strings = new_reader-IsSound deep_bytes deep_bytes;
  arrays = record { entry = λ offset xs h. absurd (ground arith) };
}

resource_location_from_binary-enough_example :
    resource_location_from_binary no_hash 2 none 16 (over deep_bytes)
    ≡ resource_location_from_binary no_hash 900 none 16 (over deep_bytes)
resource_location_from_binary-enough_example =
    resource_location_from_binary-enough deep_bytes no_hash none
      (λ name decoder context h. absurd (ground arith)) 2 2 900 16 (over deep_bytes) first-IsWithin
      (omega arith) (omega arith) new_reader-AllSound
