-- ===== src/Binary/Strings/Refusals.antt =====
-- The exceptions by which malformed texts and offsets of a buffer are refused.
use addressables_tools_py.Prelude.{
  ℕ, ◌+◌, ◌-◌, ◌%◌, Bool, true, false, ◌||◌, List, [], ◌∷◌, Option, none, some, ◌==◌, length, ◌≡◌,
  ◌⊎◌, refl, arith, Bool-cases, inl, inr, ltb, pos, negsuc, le→leb, ◌*◌,
}
use addressables_tools_py.Python.Exec.{
  PyError, Result, ok, err, Result-cases, binary_read_error, unicode_decode_error,
}
use addressables_tools_py.Python.Stream.{Bytes, slice}
use addressables_tools_py.Python.Struct.{Values, int32, unpack_from}
use addressables_tools_py.Python.Codec.{
  Str, decode_ascii, decode_utf16, code_units, join_units, prepend, UnitKind, plain, high_surrogate,
  low_surrogate, unit_kind, join_pair,
}
use addressables_tools_py.Binary.State.{uint32_max, uint32_max_minus_one}
use addressables_tools_py.Binary.Strings.{has_bit}
use addressables_tools_py.Binary.Strings.Wire.{
  two_at, basic_at, part_at, some_text, text_of_size, decode,
}

-- The exceptions by which malformed bytes are refused.
abbrev pub IsReadError : PyError → Type 0
IsReadError x = (x ≡ binary_read_error) ⊎ (x ≡ unicode_decode_error)

abbrev pub RaisesReadErrors {ℓ} : {A : Type ℓ} → Result A → Type 0
RaisesReadErrors (ok a) = Unit
RaisesReadErrors (err x) = IsReadError x

pub prepend-errors : (c : ℕ) (t : Result Str) → RaisesReadErrors t → RaisesReadErrors (prepend c t)
prepend-errors c (ok s) h = tt
prepend-errors c (err x) h = h

pub ascii-errors : (bs : Bytes) → RaisesReadErrors (decode_ascii bs)
unfolding decode_ascii
ascii-errors [] = tt
ascii-errors (b ∷ bs) = elim (Bool-cases (ltb b 128)) [
  | inl e ↦ rw e (prepend-errors b (decode_ascii bs) (ascii-errors bs))
  | inr e ↦ rw e (inr refl)
]

pub code_units-errors : (bs : Bytes) → RaisesReadErrors (code_units bs)
unfolding code_units
code_units-errors [] = tt
code_units-errors (b ∷ []) = inr refl
code_units-errors (a ∷ b ∷ bs) = prepend-errors (a + 256 * b) (code_units bs) (code_units-errors bs)

kind-cases : (k : UnitKind) → (k ≡ plain) ⊎ ((k ≡ high_surrogate) ⊎ (k ≡ low_surrogate))
kind-cases plain = inl refl
kind-cases high_surrogate = inr (inl refl)
kind-cases low_surrogate = inr (inr refl)

pub join_units-errors : (h : Option ℕ) (us : List ℕ) → RaisesReadErrors (join_units h us)
unfolding join_units
join_units-errors none [] = tt
join_units-errors (some h) [] = inr refl
join_units-errors none (u ∷ us) = elim (kind-cases (unit_kind u)) [
  | inl e ↦
      rw (e, RaisesReadErrors, join_units)
        (prepend-errors u (join_units none us) (join_units-errors none us))
  | inr (inl e) ↦ rw (e, RaisesReadErrors, join_units) (join_units-errors (some u) us)
  | inr (inr e) ↦ rw (e, RaisesReadErrors, join_units) (inr refl)
]
join_units-errors (some h) (u ∷ us) = elim (kind-cases (unit_kind u)) [
  | inl e ↦ rw (e, RaisesReadErrors, join_units) (inr refl)
  | inr (inl e) ↦ rw (e, RaisesReadErrors, join_units) (inr refl)
  | inr (inr e) ↦
      rw (e, RaisesReadErrors, join_units)
        (prepend-errors (join_pair h u) (join_units none us) (join_units-errors none us))
]

pub utf16-errors : (bs : Bytes) → RaisesReadErrors (decode_utf16 bs)
unfolding decode_utf16
utf16-errors bs = elim (Result-cases (code_units bs)) [
  | inl (us, e) ↦ rw e (join_units-errors none us)
  | inr (x, e) ↦ rw e (rw e at (code_units-errors bs))
]

pub two_at-errors : (bytes : Bytes) (n : ℕ) → RaisesReadErrors (two_at bytes n)
unfolding two_at unpack_from
two_at-errors bytes n = ground arith

pub decode-errors : (unicode : Bool) (bs : Bytes) → RaisesReadErrors (decode unicode bs)
decode-errors true bs = utf16-errors bs
decode-errors false bs = ascii-errors bs

pub sized-errors :
    (bytes : Bytes) (offset : ℕ) (unicode : Bool) (size : Result (Values (int32 ∷ [])))
    → RaisesReadErrors size
    → RaisesReadErrors (text_of_size bytes offset unicode size)
sized-errors bytes offset unicode (err x) h = h
sized-errors bytes offset unicode (ok (negsuc n, _)) h = inl refl
sized-errors bytes offset unicode (ok (pos n, _)) h =
    elim (Bool-cases (ltb (length bytes) (offset + n))) [
      | inl e ↦ rw e (inl refl)
      | inr e ↦ rw e (decode-errors unicode (slice offset n bytes))
    ]

-- An in-range read finds its bytes.
pub size-errors :
    (bytes : Bytes) (offset : ℕ)
    → (ltb offset 4 || ltb (length bytes) offset) ≡ false
    → RaisesReadErrors (unpack_from (int32 ∷ []) bytes (offset - 4))
unfolding unpack_from
size-errors bytes offset h = rw (le→leb (offset - 4 + 4) (length bytes) (ground arith)) tt

pub basic_at-errors :
    (bytes : Bytes) (offset : ℕ) (unicode : Bool) → RaisesReadErrors (basic_at bytes offset unicode)
unfolding basic_at
basic_at-errors bytes offset unicode =
    elim (Bool-cases (ltb offset 4 || ltb (length bytes) offset)) [
      | inl e ↦ rw e (inl refl)
      | inr e ↦ rw e (
          sized-errors bytes offset unicode (unpack_from (int32 ∷ []) bytes (offset - 4))
            (size-errors bytes offset e))
    ]

pub of_some_text : (t : Result Str) (s : Str) → some_text t ≡ ok (some s) → t ≡ ok s
of_some_text (ok t) s h = cc
of_some_text (err x) s h = cc

pub some_text-errors : (t : Result Str) → RaisesReadErrors t → RaisesReadErrors (some_text t)
some_text-errors (ok s) h = tt
some_text-errors (err x) h = h

pub part_at-errors : (bytes : Bytes) (encoded : ℕ) → RaisesReadErrors (part_at bytes encoded)
unfolding part_at
part_at-errors bytes encoded =
    elim (Bool-cases ((encoded == uint32_max) || (encoded == uint32_max_minus_one))) [
      | inl e ↦ rw e tt
      | inr e ↦ rw e (
          some_text-errors _
            (basic_at-errors bytes (encoded % 0x40000000) (has_bit 0x80000000 encoded)))
    ]
