-- ===== src/Tests/Data.antt =====
-- Byte strings and readers of the tests.
use addressables_tools_py.Prelude.{ℤ, pos, Option, ℕ, [], ◌∷◌, ◌++◌, some}
use addressables_tools_py.Python.Stream.{Bytes}
use addressables_tools_py.Models.Object.{codes, pack_uint32}
use addressables_tools_py.Binary.State.{CatalogBinaryReader, new_reader, uint32_max}
use addressables_tools_py.Binary.Layout.{stored}
use addressables_tools_py.Binary.Arrays.Wire.{pack_words}
use addressables_tools_py.Python.Codec.{Str}

-- A new reader over a buffer.
abbrev pub over : Bytes → CatalogBinaryReader
over bytes = new_reader bytes (some bytes)

-- Two texts, at 4 and at 12, and a chain of both, at 16.
abbrev pub chain_bytes : Bytes
chain_bytes =
    stored [] (codes "a") (0 ∷ 0 ∷ 0 ∷ [])
    ++ (stored [] (codes "b") (0 ∷ 0 ∷ 0 ∷ [])
        ++ (pack_uint32 4 ++ (pack_uint32 24 ++ (pack_uint32 12 ++ pack_uint32 uint32_max))))

-- A chain that turns back to its first element.
abbrev pub cyclic_bytes : Bytes
cyclic_bytes = stored [] (codes "a") (0 ∷ 0 ∷ 0 ∷ []) ++ (pack_uint32 4 ++ pack_uint32 8)

abbrev pub dynamic_bit : ℕ
dynamic_bit = 0x40000000

-- A whole catalog of version 2: one key, the text "a", with one location. The header is at 0, the
-- texts at 36, 44 and 56, their type at 72, the key's text at 80 and the key at 88, the location
-- at 96 and its list at 128, the table at 136, the provider data at 144, an empty array at 160.
abbrev pub catalog_bytes : Bytes
catalog_bytes =
    pack_words (7 ∷ 2 ∷ 136 ∷ 36 ∷ 144 ∷ 144 ∷ 160 ∷ uint32_max ∷ [])
    ++ (stored [] (codes "a") (0 ∷ 0 ∷ 0 ∷ [])
        ++ (stored [] (codes "mscorlib") []
            ++ (stored [] (codes "System.String") (0 ∷ 0 ∷ 0 ∷ [])
                ++ (pack_words (44 ∷ 56 ∷ [])
                    ++ (pack_words (36 ∷ 47 ∷ [])
                        ++ (pack_words (72 ∷ 80 ∷ [])
                            ++ (pack_words (36 ∷ 36 ∷ 36 ∷ uint32_max ∷ 7 ∷ uint32_max ∷ 72 ∷ [])
                                ++ (stored [] (pack_words (96 ∷ [])) []
                                    ++ (stored [] (pack_words (88 ∷ 128 ∷ [])) []
                                        ++ (pack_words (36 ∷ 72 ∷ 36 ∷ [])
                                            ++ stored [] [] []))))))))))

-- A hash of texts.
abbrev pub no_hash : Option Str → ℤ
no_hash s = pos 0

-- A location, at 8, that depends on itself: its text is at 4 and its list of dependencies at 40.
abbrev pub looping_bytes : Bytes
looping_bytes =
    stored [] (codes "a") (0 ∷ 0 ∷ 0 ∷ [])
    ++ (pack_words (4 ∷ 4 ∷ 4 ∷ 40 ∷ 7 ∷ uint32_max ∷ 4 ∷ []) ++ stored [] (pack_words (8 ∷ [])) [])

-- Options, at 0, with their hash at 20, a null name, and their common info at 36.
abbrev pub options_bytes : Bytes
options_bytes =
    pack_words (20 ∷ uint32_max ∷ 5 ∷ 6 ∷ 36 ∷ [])
    ++ (pack_words (1 ∷ 2 ∷ 3 ∷ 0xabcdef ∷ []) ++ (9 ∷ 0 ∷ 1 ∷ 2 ∷ pack_words (3 ∷ [])))

-- A text at 4, a type at 8, and two locations, at 16 and at 52: the first depends on the second.
abbrev pub deep_bytes : Bytes
deep_bytes =
    stored [] (codes "a") (0 ∷ 0 ∷ 0 ∷ [])
    ++ (pack_words (4 ∷ 4 ∷ [])
        ++ (pack_words (4 ∷ 4 ∷ 4 ∷ 48 ∷ 7 ∷ uint32_max ∷ 8 ∷ [])
            ++ (stored [] (pack_words (52 ∷ [])) []
                ++ pack_words (4 ∷ 4 ∷ 4 ∷ uint32_max ∷ 7 ∷ uint32_max ∷ 8 ∷ []))))
