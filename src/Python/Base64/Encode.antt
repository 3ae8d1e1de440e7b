-- ===== src/Python/Base64/Encode.antt =====
-- base64.b64encode, and that b64decode gives back what it encodes.
use addressables_tools_py.Prelude.{
  ℕ, ◌+◌, ◌-◌, ◌*◌, ◌/◌, ◌%◌, ◌<◌, ◌≡◌, refl, true, false, [], ◌∷◌, All, some, ltb, ◌==◌,
  if◌then◌else◌, arith,
}
use addressables_tools_py.Python.Exec.{ok}
use addressables_tools_py.Python.Stream.{Bytes}
use addressables_tools_py.Python.Codec.{Str}
use addressables_tools_py.Python.Base64.{
  Group, empty, first, second, third, sextet, advance, prepend, decode_group, is_ascii, b64decode,
}

-- The character of six bits.
abbrev pub digit : ℕ → ℕ
digit v =
    if ltb v 26
    then v + 65
    else if ltb v 52
    then v + 71
    else if ltb v 62
    then v - 4
    else if v == 62
    then b'+'
    else b'/'

unfoldable pub encode : Bytes → Str
encode [] = []
encode (a ∷ []) = digit (a / 4) ∷ digit (a % 4 * 16) ∷ b'=' ∷ b'=' ∷ []
encode (a ∷ b ∷ []) = digit (a / 4) ∷ digit (a % 4 * 16 + b / 16) ∷ digit (b % 16 * 4) ∷ b'=' ∷ []
encode (a ∷ b ∷ c ∷ bs) =
    digit (a / 4)
    ∷ digit (a % 4 * 16 + b / 16)
    ∷ digit (b % 16 * 4 + c / 64)
    ∷ digit (c % 64)
    ∷ encode bs

sextet-digit : (v : ℕ) → v < 64 → sextet (digit v) ≡ some v
unfolding sextet
sextet-digit v h = ground (arith, h)

digit-padding : (v : ℕ) → v < 64 → (digit v == b'=') ≡ false
digit-padding v h = ground (arith, h)

digit-ascii : (v : ℕ) → v < 64 → ltb (digit v) 128 ≡ true
digit-ascii v h = ground (arith, h)

decode-digit :
    (g : Group) (pads v : ℕ) (s : Str)
    → v < 64
    → decode_group g pads (digit v ∷ s) ≡ prepend g v (decode_group (advance g v) 0 s)
unfolding decode_group
decode-digit g pads v s h = rw (digit-padding v h, sextet-digit v h) refl

encode-ascii : (bs : Bytes) → All (λ b. b < 256) bs → is_ascii (encode bs) ≡ true
unfolding encode is_ascii
encode-ascii [] h = refl
encode-ascii (a ∷ []) h =
    rw (digit-ascii (a / 4) (omega (arith, h.0)), digit-ascii (a % 4 * 16) (omega arith)) refl
encode-ascii (a ∷ b ∷ []) h =
    rw
      (
        digit-ascii (a / 4) (omega (arith, h.0)),
        digit-ascii (a % 4 * 16 + b / 16) (omega (arith, h.1.0)),
        digit-ascii (b % 16 * 4) (omega arith),
      )
      refl
encode-ascii (a ∷ b ∷ c ∷ bs) h =
    rw
      (
        digit-ascii (a / 4) (omega (arith, h.0)),
        digit-ascii (a % 4 * 16 + b / 16) (omega (arith, h.1.0)),
        digit-ascii (b % 16 * 4 + c / 64) (omega (arith, h.1.1.0)),
        digit-ascii (c % 64) (omega arith),
      )
      (encode-ascii bs h.1.1.1)

-- The bytes that the digits put together.
one_byte : (a x : ℕ) → x ≡ a → ok (x ∷ []) ≡ ok (a ∷ [])
one_byte a x e = cc

two_bytes : (a b x y : ℕ) → x ≡ a → y ≡ b → ok (x ∷ y ∷ []) ≡ ok (a ∷ b ∷ [])
two_bytes a b x y e f = cc

three_bytes :
    (a b c x y z : ℕ) (bs : Bytes)
    → x ≡ a
    → y ≡ b
    → z ≡ c
    → ok (x ∷ y ∷ z ∷ bs) ≡ ok (a ∷ b ∷ c ∷ bs)
three_bytes a b c x y z bs e f g = cc

decode-encode : (bs : Bytes) → All (λ b. b < 256) bs → decode_group empty 0 (encode bs) ≡ ok bs
unfolding encode decode_group
decode-encode [] h = refl
decode-encode (a ∷ []) h =
    rw
      (
        decode-digit empty 0 (a / 4) _ (omega (arith, h.0)),
        decode-digit (first (a / 4)) 0 (a % 4 * 16) _ (omega arith),
      )
      (one_byte a _ (omega arith))
decode-encode (a ∷ b ∷ []) h =
    rw
      (
        decode-digit empty 0 (a / 4) _ (omega (arith, h.0)),
        decode-digit (first (a / 4)) 0 (a % 4 * 16 + b / 16) _ (omega (arith, h.1.0)),
        decode-digit (second ((a % 4 * 16 + b / 16) % 16)) 0 (b % 16 * 4) _ (omega arith),
      )
      (two_bytes a b _ _ (omega (arith, h.1.0)) (omega (arith, h.1.0)))
decode-encode (a ∷ b ∷ c ∷ bs) h =
    rw
      (
        decode-digit empty 0 (a / 4) _ (omega (arith, h.0)),
        decode-digit (first (a / 4)) 0 (a % 4 * 16 + b / 16) _ (omega (arith, h.1.0)),
        decode-digit (second ((a % 4 * 16 + b / 16) % 16)) 0 (b % 16 * 4 + c / 64) _
            (omega (arith, h.1.1.0)),
        decode-digit (third ((b % 16 * 4 + c / 64) % 4)) 0 (c % 64) _ (omega arith),
        decode-encode bs h.1.1.1,
      )
      (three_bytes a b c _ _ _ bs (omega (arith, h.1.0)) (omega (arith, h.1.1.0)) (omega arith))

pub b64decode-encode : (bs : Bytes) → All (λ b. b < 256) bs → b64decode (encode bs) ≡ ok bs
unfolding b64decode
b64decode-encode bs h = rw (encode-ascii bs h) (decode-encode bs h)
