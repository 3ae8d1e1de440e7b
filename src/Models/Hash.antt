-- ===== src/Models/Hash.antt =====
-- `Hash128`: the text of four little-endian numbers is the text of their bytes, which is what
-- decode_asset_bundle_request_options_binary relies on.
use addressables_tools_py.Prelude.{
  ℕ, zero, suc, ◌<◌, ◌≤◌, List, [], ◌∷◌, ◌++◌, length, length-take, length-drop, take, drop, All,
  ◌≡◌, refl, arith, ap, ◌∙◌, lt→ltb, true,
}
use addressables_tools_py.Python.Exec.{Result, ok}
use addressables_tools_py.Python.Stream.{Bytes}
use addressables_tools_py.Python.Struct.{Values, values, little_endian}
use addressables_tools_py.Models.Object.{pack_uint32, hex, from_uint32s, is_uint32}
use addressables_tools_py.Binary.Reader.{four_uint32}

abbrev pub AreBytes : Bytes → Type 0
AreBytes bs = All (λ b. b < 256) bs

AreBytes-take : (n : ℕ) (bs : Bytes) → AreBytes bs → AreBytes (take n bs)
AreBytes-take zero bs h = tt
AreBytes-take (suc n) [] h = tt
AreBytes-take (suc n) (b ∷ bs) h = (h.0, AreBytes-take n bs h.1)

AreBytes-drop : (n : ℕ) (bs : Bytes) → AreBytes bs → AreBytes (drop n bs)
AreBytes-drop zero bs h = h
AreBytes-drop (suc n) [] h = tt
AreBytes-drop (suc n) (b ∷ bs) h = AreBytes-drop n bs h.1

take-drop : (n : ℕ) (bs : Bytes) → take n bs ++ drop n bs ≡ bs
take-drop zero bs = refl
take-drop (suc n) [] = refl
take-drop (suc n) (b ∷ bs) = ap (λ (xs : Bytes). b ∷ xs) (take-drop n bs)

take_all : (n : ℕ) (bs : Bytes) → length bs ≡ n → take n bs ≡ bs
take_all zero [] h = refl
take_all zero (b ∷ bs) h = absurd (omega (arith, h))
take_all (suc n) [] h = absurd (omega (arith, h))
take_all (suc n) (b ∷ bs) h = ap (λ (xs : Bytes). b ∷ xs) (take_all n bs (omega (arith, h)))

four_bytes :
    (a b c d w x y z : ℕ) → w ≡ a → x ≡ b → y ≡ c → z ≡ d → w ∷ x ∷ y ∷ z ∷ [] ≡ a ∷ b ∷ c ∷ d ∷ []
four_bytes a b c d w x y z e f g h = cc

-- Four bytes as a number, and back.
pack-little_endian :
    (bs : Bytes)
    → length bs ≡ 4
    → AreBytes bs
    → (pack_uint32 (little_endian bs) ≡ bs) × (is_uint32 (little_endian bs) ≡ true)
pack-little_endian (a ∷ b ∷ c ∷ d ∷ []) h (p, (q, (r, (s, _)))) = (
  four_bytes a b c d _ _ _ _ (omega arith) (omega arith) (omega arith) (omega arith),
  lt→ltb _ 4294967296 (omega arith),
)
pack-little_endian [] h k = absurd (omega (arith, h))
pack-little_endian (a ∷ []) h k = absurd (omega (arith, h))
pack-little_endian (a ∷ b ∷ []) h k = absurd (omega (arith, h))
pack-little_endian (a ∷ b ∷ c ∷ []) h k = absurd (omega (arith, h))
pack-little_endian (a ∷ b ∷ c ∷ d ∷ e ∷ bs) h k = absurd (omega (arith, h))

abbrev pub text_of : Values four_uint32 → Result (List ℕ)
text_of (a, (b, (c, (d, _)))) = from_uint32s a b c d

quarters :
    (bs : Bytes)
    → length bs ≡ 16
    → take 4 bs
        ++ (take 4 (drop 4 bs)
            ++ (take 4 (drop 4 (drop 4 bs)) ++ take 4 (drop 4 (drop 4 (drop 4 bs)))))
      ≡ bs
quarters bs h =
    rw
      (
        take_all 4 (drop 4 (drop 4 (drop 4 bs))) (
            omega (
              arith,
              length-drop 4 (drop 4 (drop 4 bs)),
              length-drop 4 (drop 4 bs),
              length-drop 4 bs,
              h,
            )),
        take-drop 4 (drop 4 (drop 4 bs)),
        take-drop 4 (drop 4 bs),
      )
      (take-drop 4 bs)

part :
    (bs : Bytes)
    → 4 ≤ length bs
    → AreBytes bs
    → (pack_uint32 (little_endian (take 4 bs)) ≡ take 4 bs)
      × (is_uint32 (little_endian (take 4 bs)) ≡ true)
part bs h k = pack-little_endian (take 4 bs) (length-take 4 bs h) (AreBytes-take 4 bs k)

packed :
    (a b c d : ℕ) (w x y z : Bytes)
    → (pack_uint32 a ≡ w) × (is_uint32 a ≡ true)
    → (pack_uint32 b ≡ x) × (is_uint32 b ≡ true)
    → (pack_uint32 c ≡ y) × (is_uint32 c ≡ true)
    → (pack_uint32 d ≡ z) × (is_uint32 d ≡ true)
    → from_uint32s a b c d ≡ ok (hex (w ++ (x ++ (y ++ z))))
unfolding from_uint32s
packed a b c d w x y z p q r s = rw (p.1, q.1, r.1, s.1) (cc (p.0, q.0, r.0, s.0))

-- Read as four little-endian numbers and packed again by Hash128.from_uint32s, sixteen bytes give
-- the hexadecimal text of the bytes as they are.
pub from_uint32s-hex :
    (bs : Bytes) → length bs ≡ 16 → AreBytes bs → text_of (values four_uint32 bs) ≡ ok (hex bs)
unfolding values from_uint32s
from_uint32s-hex bs h k =
    let h1 = length-drop 4 bs in
    let h2 = length-drop 4 (drop 4 bs) in
    let h3 = length-drop 4 (drop 4 (drop 4 bs)) in
    let k1 = AreBytes-drop 4 bs k in
    let k2 = AreBytes-drop 4 (drop 4 bs) k1 in
    let k3 = AreBytes-drop 4 (drop 4 (drop 4 bs)) k2 in
    let p0 = part bs (omega (arith, h)) k in
    let p1 = part (drop 4 bs) (omega (arith, h1, h)) k1 in
    let p2 = part (drop 4 (drop 4 bs)) (omega (arith, h2, h1, h)) k2 in
    let p3 = part (drop 4 (drop 4 (drop 4 bs))) (omega (arith, h3, h2, h1, h)) k3 in
    packed _ _ _ _ _ _ _ _ p0 p1 p2 p3 ∙ ap (λ (x : Bytes). ok (hex x)) (quarters bs h)
