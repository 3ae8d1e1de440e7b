-- ===== src/Tests/Objects.antt =====
-- Decoded values, on concrete bytes.
use addressables_tools_py.Prelude.{[], ◌∷◌, ◌≡◌, refl, arith}
use addressables_tools_py.Prelude.Dict
use addressables_tools_py.Python.Exec.{ok}
use addressables_tools_py.Python.Exec.Ensures.{Post}
use addressables_tools_py.Python.Struct.{values}
use addressables_tools_py.Models.Object.{hex, codes}
use addressables_tools_py.Models.Hash.{text_of, from_uint32s-hex}
use addressables_tools_py.Binary.Reader.{four_uint32}
use addressables_tools_py.Decoder.Object.{read_options_object}
use addressables_tools_py.Decoder.Object.Options.{OptionsAt, read_options_object-OptionsAt}
use addressables_tools_py.Tests.Data.{over, options_bytes}

from_uint32s-hex_example :
    text_of (
      values four_uint32
        (1 ∷ 2 ∷ 3 ∷ 4 ∷ 5 ∷ 6 ∷ 7 ∷ 8 ∷ 9 ∷ 10 ∷ 11 ∷ 12 ∷ 13 ∷ 14 ∷ 15 ∷ 255 ∷ []))
    ≡ ok (hex (1 ∷ 2 ∷ 3 ∷ 4 ∷ 5 ∷ 6 ∷ 7 ∷ 8 ∷ 9 ∷ 10 ∷ 11 ∷ 12 ∷ 13 ∷ 14 ∷ 15 ∷ 255 ∷ []))
from_uint32s-hex_example =
    from_uint32s-hex (1 ∷ 2 ∷ 3 ∷ 4 ∷ 5 ∷ 6 ∷ 7 ∷ 8 ∷ 9 ∷ 10 ∷ 11 ∷ 12 ∷ 13 ∷ 14 ∷ 15 ∷ 255 ∷ [])
      (omega arith) (ground arith)

two_bytes : hex (1 ∷ 255 ∷ []) ≡ codes "01ff"
unfolding hex
two_bytes = refl

read_options_object-OptionsAt_example :
    Post (OptionsAt 0) (read_options_object 0 (over options_bytes))
unfolding Dict.get
read_options_object-OptionsAt_example = read_options_object-OptionsAt 0 (over options_bytes) refl
