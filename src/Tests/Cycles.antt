-- ===== src/Tests/Cycles.antt =====
-- A location that depends on itself.
use addressables_tools_py.Prelude.{
  ℕ, pos, false, List, [], ◌∷◌, none, ◌≡◌, ◌≢◌, ◌==◌, refl, arith, ap, sym, ◌∙◌,
}
use mathlib.Core.Path.{subst}
use addressables_tools_py.Prelude.Dict
use addressables_tools_py.Python.Exec.{ok, err, recursion_error}
use addressables_tools_py.Python.Exec.Ensures.{Ensures}
use addressables_tools_py.Python.Struct.{Values, unpack_from, values}
use addressables_tools_py.Python.Codec.{decode_ascii}
use addressables_tools_py.Binary.Reader.{read_struct_from}
use addressables_tools_py.Binary.State.{uint32_max}
use addressables_tools_py.Binary.Strings.{read_basic_string}
use addressables_tools_py.Binary.Strings.Transparent.{new_reader-IsSound}
use addressables_tools_py.Binary.Arrays.{words}
use addressables_tools_py.Binary.Arrays.Wire.{array_at}
use addressables_tools_py.Catalog.Locations.{location_layout, resource_location_from_binary}
use addressables_tools_py.Catalog.Cycles.{
  GoesRound, Pending, location_at, resource_location_from_binary-raises,
}
use addressables_tools_py.Tests.Data.{over, looping_bytes, no_hash}

three_calls :
    (resource_location_from_binary no_hash 3 none 8 (over looping_bytes)).0 ≡ err recursion_error
unfolding resource_location_from_binary Dict.get Dict.put read_struct_from unpack_from values
    read_basic_string decode_ascii
three_calls = refl

abbrev AtEight : ℕ → Type 0
AtEight n = n ≡ 8

abbrev its_fields : Values location_layout
its_fields = (4, (4, (4, (40, (pos 7, (uint32_max, (4, tt)))))))

fields_there : location_at looping_bytes 8 ≡ ok its_fields
unfolding location_at unpack_from values
fields_there = refl

same_fields : (fields : Values location_layout) → ok its_fields ≡ ok fields → its_fields ≡ fields
same_fields fields h = cc

array_there : array_at looping_bytes 40 ≡ ok (8 ∷ [])
unfolding array_at unpack_from values words
array_there = refl

abbrev Found : Values location_layout → Type 0
Found fields =
    (next : ℕ) × (rest : List ℕ) × ((fields.1.1.1.0 == uint32_max) ≡ false)
    × (array_at looping_bytes fields.1.1.1.0 ≡ ok (next ∷ rest))
    × AtEight next
    × ((o : ℕ) → AtEight o → o ≢ fields.1.1.1.0)

found : Found its_fields
found = (8, [], refl, array_there, refl, λ o c h. absurd (omega (arith, c, h)))

looping : GoesRound looping_bytes AtEight
looping = record {
  first = λ offset fields c e.
      subst Found
        (same_fields fields (sym fields_there ∙ ap (location_at looping_bytes) (sym c) ∙ e)) found;
}

resource_location_from_binary-raises_example :
    Ensures
      (Pending looping_bytes AtEight)
      (resource_location_from_binary no_hash 900 none 8)
      (λ _ _. ⊥)
resource_location_from_binary-raises_example =
    resource_location_from_binary-raises looping_bytes AtEight looping no_hash none 900 8 refl

-- The reader that parse_binary_catalog makes is one of those.
new_reader-Pending : Pending looping_bytes AtEight (over looping_bytes)
unfolding Dict.get
new_reader-Pending = record {
  strings = new_reader-IsSound looping_bytes looping_bytes;
  arrays = record { entry = λ offset xs h. absurd (ground arith) };
  missing = λ o c. refl;
}
