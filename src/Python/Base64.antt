-- ===== src/Python/Base64.antt =====
-- base64.b64decode of a text, as Python 3 decodes by default: characters outside the alphabet are
-- skipped, and decoding stops at padding that completes a group.
pub mod Encode
use addressables_tools_py.Prelude.{
  ℕ, zero, suc, ◌+◌, ◌-◌, ◌*◌, ◌/◌, ◌%◌, Bool, true, false, ◌&&◌, ◌||◌, List, [], ◌∷◌, Option, none,
  some, ltb, leb, ◌==◌, if◌then◌else◌,
}
use addressables_tools_py.Python.Exec.{Result, ok, err, value_error}
use addressables_tools_py.Python.Stream.{Bytes}
use addressables_tools_py.Python.Codec.{Str}

abbrev between : ℕ → ℕ → ℕ → Bool
between lo hi c = leb lo c && leb c hi

-- The six bits of a character of the alphabet.
unfoldable pub sextet : ℕ → Option ℕ
sextet c =
    if between b'A' b'Z' c
    then some (c - 65)
    else if between b'a' b'z' c
    then some (c - 71)
    else if between b'0' b'9' c
    then some (c + 4)
    else if c == b'+'
    then some 62
    else if c == b'/'
    then some 63
    else none

-- What is left of a group of four characters: how many there were, and the bits not yet put out.
pub data Group : Type 0 where
  empty : Group
  first second third : ℕ → Group

-- The byte that a character completes, and the group after it.
abbrev pub emit : Group → ℕ → Bytes → Bytes
emit empty v out = out
emit (first bits) v out = (bits * 4 + v / 16) ∷ out
emit (second bits) v out = (bits * 16 + v / 4) ∷ out
emit (third bits) v out = (bits * 64 + v) ∷ out

abbrev pub advance : Group → ℕ → Group
advance empty v = first v
advance (first bits) v = second (v % 16)
advance (second bits) v = third (v % 4)
advance (third bits) v = empty

-- A padding character in this group, after that many before it, completes the group.
abbrev pub completes : Group → ℕ → Bool
completes empty pads = false
completes (first _) pads = false
completes (second _) pads = leb 1 pads
completes (third _) pads = true

-- Padding is counted in a group from its third character on.
abbrev pub count_pad : Group → ℕ → ℕ
count_pad empty pads = pads
count_pad (first _) pads = pads
count_pad (second _) pads = pads + 1
count_pad (third _) pads = pads + 1

abbrev pub prepend : Group → ℕ → Result Bytes → Result Bytes
prepend g v (ok bs) = ok (emit g v bs)
prepend g v (err e) = err e

abbrev pub at_end : Group → Result Bytes
at_end empty = ok []
at_end _ = err value_error

unfoldable pub decode_group : Group → ℕ → Str → Result Bytes
unfolding sextet
decode_group g pads [] = at_end g
decode_group g pads (c ∷ s) =
    let padded = (if completes g pads then ok [] else decode_group g (count_pad g pads) s) in
    let skipped = decode_group g pads s in
    if c == b'='
    then padded
    else elim (sextet c) [ none ↦ skipped | some v ↦ prepend g v (decode_group (advance g v) 0 s) ]

unfoldable pub is_ascii : Str → Bool
is_ascii [] = true
is_ascii (c ∷ s) = ltb c 128 && is_ascii s

-- b64decode(s); binascii.Error is a ValueError.
unfoldable pub b64decode : Str → Result Bytes
unfolding decode_group is_ascii
b64decode s = if is_ascii s then decode_group empty 0 s else err value_error
