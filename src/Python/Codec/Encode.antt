-- ===== src/Python/Codec/Encode.antt =====
-- Texts encoded as ASCII and as UTF-16, the low byte first, and decoded again.
use mathlib.Core.Path.{ap₂}
use addressables_tools_py.Prelude.{
  ℕ, ◌+◌, ◌-◌, ◌*◌, ◌/◌, ◌%◌, ◌≤◌, ◌<◌, true, false, List, [], ◌∷◌, ◌++◌, none, some, ltb,
  if◌then◌else◌, ◌≡◌, refl, arith, All, Bool-cases, inl, inr, lt→ltb, ap, ltb→lt, ◌∙◌, ◌⊎◌,
}
use addressables_tools_py.Python.Exec.{ok}
use addressables_tools_py.Python.Stream.{Bytes}
use addressables_tools_py.Python.Codec.{
  Str, prepend, decode_ascii, code_units, join_units, decode_utf16, unit_kind, plain,
  high_surrogate, low_surrogate, join_pair,
}

abbrev pub units_of : ℕ → List ℕ
units_of c =
    if ltb c 0x10000
    then c ∷ []
    else (0xd800 + (c - 0x10000) / 0x400) ∷ (0xdc00 + (c - 0x10000) % 0x400) ∷ []

abbrev pub encode_units : Str → List ℕ
encode_units [] = []
encode_units (c ∷ s) = units_of c ++ encode_units s

abbrev pub unit_bytes : List ℕ → Bytes
unit_bytes [] = []
unit_bytes (u ∷ us) = u % 256 ∷ u / 256 ∷ unit_bytes us

abbrev pub encode_utf16 : Str → Bytes
encode_utf16 s = unit_bytes (encode_units s)

-- A code point that is no surrogate.
abbrev pub IsScalar : ℕ → Type 0
IsScalar c = (c < 0x110000) × ((c < 0xd800) ⊎ (0xe000 ≤ c))

abbrev pub IsAscii : ℕ → Type 0
IsAscii c = c < 128

pub decode_ascii-IsAscii : (s : Str) → All IsAscii s → decode_ascii s ≡ ok s
unfolding decode_ascii
decode_ascii-IsAscii [] h = refl
decode_ascii-IsAscii (c ∷ s) h = rw (lt→ltb c 128 h.0, decode_ascii-IsAscii s h.1)

code_units-unit_bytes : (us : List ℕ) → code_units (unit_bytes us) ≡ ok us
unfolding code_units
code_units-unit_bytes [] = refl
code_units-unit_bytes (u ∷ us) = rw (code_units-unit_bytes us, div_mod u)
  where
    div_mod : (n : ℕ) → n % 256 + 256 * (n / 256) ≡ n
    div_mod n = omega arith

plain_kind : (c : ℕ) → c < 0x10000 → IsScalar c → unit_kind c ≡ plain
unfolding unit_kind
plain_kind c h s = ground arith

high_kind : (n : ℕ) → n < 0x400 → unit_kind (0xd800 + n) ≡ high_surrogate
unfolding unit_kind
high_kind n h = ground arith

low_kind : (n : ℕ) → n < 0x400 → unit_kind (0xdc00 + n) ≡ low_surrogate
unfolding unit_kind
low_kind n h = ground arith

not_ltb→le : (a b : ℕ) → ltb a b ≡ false → b ≤ a
not_ltb→le a b h = ground arith

join_split :
    (c : ℕ)
    → 0x10000 ≤ c
    → join_pair (0xd800 + (c - 0x10000) / 0x400) (0xdc00 + (c - 0x10000) % 0x400) ≡ c
join_split c h = omega arith

encode_plain : (c : ℕ) (s : Str) → ltb c 0x10000 ≡ true → encode_units (c ∷ s) ≡ c ∷ encode_units s
encode_plain c s e = rw e

encode_pair :
    (c : ℕ) (s : Str)
    → ltb c 0x10000 ≡ false
    → encode_units (c ∷ s)
      ≡ (0xd800 + (c - 0x10000) / 0x400) ∷ (0xdc00 + (c - 0x10000) % 0x400) ∷ encode_units s
encode_pair c s e = rw e

join_high :
    (h : ℕ) (us : List ℕ)
    → unit_kind h ≡ high_surrogate
    → join_units none (h ∷ us) ≡ join_units (some h) us
unfolding join_units
join_high h us e = rw (e, join_units)

join_low :
    (h l : ℕ) (us : List ℕ)
    → unit_kind l ≡ low_surrogate
    → join_units (some h) (l ∷ us) ≡ prepend (join_pair h l) (join_units none us)
unfolding join_units
join_low h l us e = rw (e, join_units)

join_units-encode : (s : Str) → All IsScalar s → join_units none (encode_units s) ≡ ok s
unfolding join_units
join_units-encode [] h = refl
join_units-encode (c ∷ s) h = elim (Bool-cases (ltb c 0x10000)) [
  | inl e ↦
      ap (join_units none) (encode_plain c s e)
      ∙ rw (plain_kind c (ltb→lt c 0x10000 e) h.0, join_units-encode s h.1, join_units)
  | inr e ↦
      ap (join_units none) (encode_pair c s e)
      ∙ join_high (0xd800 + (c - 0x10000) / 0x400)
          ((0xdc00 + (c - 0x10000) % 0x400) ∷ encode_units s)
          (high_kind ((c - 0x10000) / 0x400) (omega (arith, h.0.0)))
      ∙ join_low (0xd800 + (c - 0x10000) / 0x400) (0xdc00 + (c - 0x10000) % 0x400) (encode_units s)
          (low_kind ((c - 0x10000) % 0x400) (omega arith))
      ∙ ap₂ prepend (join_split c (not_ltb→le c 0x10000 e)) (join_units-encode s h.1)
]

pub decode_utf16-encode : (s : Str) → All IsScalar s → decode_utf16 (encode_utf16 s) ≡ ok s
unfolding decode_utf16
decode_utf16-encode s h = rw (code_units-unit_bytes (encode_units s)) (join_units-encode s h)
