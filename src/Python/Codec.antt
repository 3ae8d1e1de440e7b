-- ===== src/Python/Codec.antt =====
-- bytes.decode for the encodings that the program uses. Text is a list of code points.
pub mod Encode
use addressables_tools_py.Prelude.{
  ℕ, ◌+◌, ◌-◌, ◌*◌, List, [], ◌∷◌, Option, none, some, ltb, if◌then◌else◌,
}
use addressables_tools_py.Python.Exec.{Result, ok, err, unicode_decode_error}
use addressables_tools_py.Python.Stream.{Bytes}

abbrev pub Str : Type 0
Str = List ℕ

abbrev pub prepend : ℕ → Result Str → Result Str
prepend c (ok s) = ok (c ∷ s)
prepend c (err e) = err e

-- data.decode("ascii")
unfoldable pub decode_ascii : Bytes → Result Str
decode_ascii [] = ok []
decode_ascii (b ∷ bs) =
    let rest = decode_ascii bs in if ltb b 128 then prepend b rest else err unicode_decode_error

-- The 16-bit units of a byte string of even length.
unfoldable pub code_units : Bytes → Result (List ℕ)
code_units [] = ok []
code_units (low ∷ []) = err unicode_decode_error
code_units (low ∷ high ∷ bs) = prepend (low + 256 * high) (code_units bs)

pub data UnitKind : Type 0 where
  plain high_surrogate low_surrogate : UnitKind

unfoldable pub unit_kind : ℕ → UnitKind
unit_kind u =
    if ltb u 0xd800
    then plain
    else if ltb u 0xdc00
    then high_surrogate
    else if ltb u 0xe000
    then low_surrogate
    else plain

abbrev pub join_pair : ℕ → ℕ → ℕ
join_pair h l = 0x10000 + (h - 0xd800) * 0x400 + (l - 0xdc00)

-- The first argument is a high surrogate that waits for its low one.
unfoldable pub join_units : Option ℕ → List ℕ → Result Str
join_units none [] = ok []
join_units (some h) [] = err unicode_decode_error
join_units none (u ∷ us) = elim (unit_kind u) [
  | plain ↦ prepend u (join_units none us)
  | high_surrogate ↦ join_units (some u) us
  | low_surrogate ↦ err unicode_decode_error
]
join_units (some h) (u ∷ us) = elim (unit_kind u) [
  | low_surrogate ↦ prepend (join_pair h u) (join_units none us)
  | _ ↦ err unicode_decode_error
]

abbrev join_all : Result (List ℕ) → Result Str
join_all (ok us) = join_units none us
join_all (err e) = err e

-- data.decode("utf-16-le")
unfoldable pub decode_utf16 : Bytes → Result Str
unfolding code_units join_units unit_kind
decode_utf16 bs = join_all (code_units bs)
