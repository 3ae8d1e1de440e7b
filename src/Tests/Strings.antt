-- ===== src/Tests/Strings.antt =====
-- Strings of binary catalogs, on concrete bytes.
use addressables_tools_py.Prelude.{◌+◌, pos, true, arith, [], ◌∷◌, some, ◌≡◌, ◌↔◌, refl}
use addressables_tools_py.Prelude.Dict
use addressables_tools_py.Python.Exec.{ok, err, binary_read_error}
use addressables_tools_py.Python.Struct.{unpack_from, values}
use addressables_tools_py.Python.Codec.{decode_ascii}
use addressables_tools_py.Binary.Reader.{read_two_uint32_from}
use addressables_tools_py.Models.Object.{codes, str_eq}
use addressables_tools_py.Binary.Strings.{read_encoded_string, read_basic_string}
use addressables_tools_py.Binary.Strings.Sound.{IsSound, Dynamic}
use addressables_tools_py.Binary.Strings.Transparent.{
  without_caches, new_reader-IsSound, read_encoded_string_transparent,
}
use addressables_tools_py.Binary.Strings.Refusals.{RaisesReadErrors}
use addressables_tools_py.Binary.Strings.Errors.{
  read_encoded_string-errors, read_encoded_string-Dynamic,
}
use addressables_tools_py.Binary.Strings.Stored.{read_encoded_string-stored}
use addressables_tools_py.Binary.Layout.{stored}
use addressables_tools_py.Tests.Data.{over, chain_bytes, cyclic_bytes, dynamic_bit}

plain_text : (read_encoded_string 4 (codes "/") (over chain_bytes)).0 ≡ ok (some (codes "a"))
unfolding read_encoded_string read_basic_string Dict.get unpack_from values decode_ascii
plain_text = refl

chain_text :
    (read_encoded_string (dynamic_bit + 16) (codes "/") (over chain_bytes)).0
    ≡ ok (some (codes "a/b"))
unfolding read_encoded_string read_two_uint32_from read_basic_string Dict.get Dict.put str_eq
    unpack_from values decode_ascii
chain_text = refl

cyclic_text :
    (read_encoded_string (dynamic_bit + 8) (codes "/") (over cyclic_bytes)).0
    ≡ err binary_read_error
unfolding read_encoded_string read_two_uint32_from read_basic_string Dict.get Dict.put str_eq
    unpack_from values decode_ascii
cyclic_text = refl

read_encoded_string_transparent_example :
    ((read_encoded_string (dynamic_bit + 16) (codes "/") (over chain_bytes)).0
      ≡ (read_encoded_string (dynamic_bit + 16) (codes "/") (without_caches (over chain_bytes))).0)
    × IsSound chain_bytes (read_encoded_string (dynamic_bit + 16) (codes "/") (over chain_bytes)).1
    × (without_caches (read_encoded_string (dynamic_bit + 16) (codes "/") (over chain_bytes)).1
        ≡ without_caches (over chain_bytes))
read_encoded_string_transparent_example =
    read_encoded_string_transparent chain_bytes (dynamic_bit + 16) (codes "/") (over chain_bytes)
      (new_reader-IsSound chain_bytes chain_bytes)

read_encoded_string-errors_example :
    RaisesReadErrors (read_encoded_string (dynamic_bit + 8) (codes "/") (over cyclic_bytes)).0
read_encoded_string-errors_example =
    read_encoded_string-errors cyclic_bytes (dynamic_bit + 8) (codes "/") (over cyclic_bytes)
      (new_reader-IsSound cyclic_bytes cyclic_bytes)

read_encoded_string-Dynamic_example :
    ((read_encoded_string (dynamic_bit + 16) (codes "/") (over chain_bytes)).0
      ≡ ok (some (codes "a/b")))
    ↔ Dynamic chain_bytes (pos 1) 16 (codes "/") (codes "a/b")
unfolding str_eq
read_encoded_string-Dynamic_example =
    read_encoded_string-Dynamic chain_bytes (dynamic_bit + 16) (codes "/") (codes "a/b")
      (over chain_bytes) (new_reader-IsSound chain_bytes chain_bytes) refl refl

read_encoded_string-stored_example :
    (read_encoded_string 0x80000004
      (codes "/")
      (over (stored [] (0x41 ∷ 0 ∷ 0x3d ∷ 0xd8 ∷ 0x00 ∷ 0xde ∷ []) []))).0
    ≡ ok (some (0x41 ∷ 0x1f600 ∷ []))
read_encoded_string-stored_example =
    read_encoded_string-stored true [] [] (0x41 ∷ 0x1f600 ∷ []) (codes "/")
      (over (stored [] (0x41 ∷ 0 ∷ 0x3d ∷ 0xd8 ∷ 0x00 ∷ 0xde ∷ []) [])) (ground arith) (omega arith)
      (omega arith) (new_reader-IsSound _ _)
