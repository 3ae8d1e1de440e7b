-- ===== src/Tests/Version1.antt =====
-- Version 1 values, on concrete bytes.
use addressables_tools_py.Prelude.{◌+◌, [], ◌∷◌, none, length, ◌≡◌, refl, arith}
use addressables_tools_py.Python.Exec.{ok, err, value_error}
use addressables_tools_py.Python.Struct.{unpack, values}
use addressables_tools_py.Python.Stream
use addressables_tools_py.Python.Codec.{decode_ascii}
use addressables_tools_py.Models.Object.{str, codes}
use addressables_tools_py.Decoder.Version1.{decode_v1, read_string1}
use addressables_tools_py.Decoder.Version1.Stored.{at_position, short_text, read_string1-short_text}

text_value :
    (decode_v1 (λ _. err value_error) (at_position (0 ∷ 2 ∷ 0 ∷ 0 ∷ 0 ∷ 104 ∷ 105 ∷ []) 0 none)).0
    ≡ ok (str (codes "hi"))
unfolding decode_v1 Stream.read unpack values decode_ascii
text_value = refl

read_string1-short_text_example :
    read_string1 (at_position (short_text (6 ∷ []) (codes "abc") (9 ∷ [])) 1 none) ≡ (
      ok (codes "abc"),
      at_position (short_text (6 ∷ []) (codes "abc") (9 ∷ [])) (1 + 1 + length (codes "abc")) none,
    )
read_string1-short_text_example =
    read_string1-short_text (6 ∷ []) (9 ∷ []) (codes "abc") none
      (omega arith, (omega arith, (omega arith, tt))) (omega arith)
