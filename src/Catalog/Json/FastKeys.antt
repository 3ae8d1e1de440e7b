-- ===== src/Catalog/Json/FastKeys.antt =====
-- The keys of a JSON catalog that are decoded from the bytes, in `_read_keys` of
-- src/addressablestools/catalog.py, against decode_v1 in src/addressablestools/decoder.py.
use addressables_tools_py.Prelude.{
  ℕ, zero, suc, ◌+◌, ◌<◌, ◌≤◌, ℤ, pos, negsuc, ◌≡◌, refl, true, false, ◌==◌, ◌⊎◌, [], ◌∷◌, Option,
  none, some, leb, ltb, length, take, drop, ap, inl, inr, arith, Bool-cases, length-take,
  length-take_short, length-drop, lt→ltb, ltb→lt, le→leb, leb→le, ==_refl,
}
use addressables_tools_py.Python.Exec.{
  Result, ok, err, index_error, struct_error, binary_read_error, Result-cases, Exec, lift, pure,
  ◌>>=◌,
}
use addressables_tools_py.Python.Stream
use addressables_tools_py.Python.Stream.{Bytes, size_limit, slice}
use addressables_tools_py.Python.Struct.{int32, unpack, unpack_from, values, signed, little_endian}
use addressables_tools_py.Python.Sequence.{nth}
use addressables_tools_py.Python.Codec.{Str}
use addressables_tools_py.Python.Json.{Builtins}
use addressables_tools_py.Models.Object.{Object, str}
use addressables_tools_py.Binary.Reader.{
  BinaryReader, read_exact, read_byte, read_bytes, read_struct, read_int32,
}
use addressables_tools_py.Decoder.Version1.{
  untyped, decode_v1, decode_v1_typed, object_type, decode_object_type, read_string4,
  read_string4_unicode,
}
use addressables_tools_py.Decoder.Json.{decode_asset_bundle_request_options_json}
use addressables_tools_py.Decoder.Version1.Stored.{at_position}
use addressables_tools_py.Catalog.Json.Texts.{read_text_key, sized_text, decode_text, as_str}
use addressables_tools_py.Catalog.Json.Keys.{decode_at, read_key}

-- What code returned, if it returned.
abbrev pub value_of {ℓ} : {A : Type ℓ} → Result A → Option A
value_of (ok a) = some a
value_of (err e) = none

-- An element, or the end of the list.
nth-cases :
    (bs : Bytes) (n : ℕ)
    → ((b : ℕ) × (nth bs n ≡ ok b) × (take 1 (drop n bs) ≡ b ∷ []))
      ⊎ ((nth bs n ≡ err index_error) × (take 1 (drop n bs) ≡ []))
nth-cases [] zero = inr (refl, refl)
nth-cases [] (suc n) = inr (refl, refl)
nth-cases (b ∷ bs) zero = inl (b, refl, refl)
nth-cases (b ∷ bs) (suc n) = nth-cases bs n

seek-at :
    (bs : Bytes) (p q : ℕ)
    → p < size_limit
    → Stream.seek (pos p) (pos 0) (record { content = bs; position = q })
      ≡ (ok tt, record { content = bs; position = p })
unfolding Stream.seek
seek-at bs p q small = ground arith

-- A read that finds what it asks for, and one that finds less.
exact-enough :
    (bs : Bytes) (p n : ℕ) (buffer : Option Bytes)
    → n < size_limit
    → length (slice p n bs) ≡ n
    → read_exact (pos n) (at_position bs p buffer)
      ≡ (ok (slice p n bs), at_position bs (p + n) buffer)
unfolding read_exact Stream.read
exact-enough bs p n buffer small h = rw (lt→ltb n size_limit small, h, ==_refl n) refl

lt→not== : (m n : ℕ) → m < n → (m == n) ≡ false
lt→not== m n h = ground arith

exact-short :
    (bs : Bytes) (p n : ℕ) (buffer : Option Bytes)
    → n < size_limit
    → length (slice p n bs) < n
    → read_exact (pos n) (at_position bs p buffer)
      ≡ (err binary_read_error, at_position bs (p + length (slice p n bs)) buffer)
unfolding read_exact Stream.read
exact-short bs p n buffer small h =
    rw (lt→ltb n size_limit small, lt→not== (length (slice p n bs)) n h) refl

length-slice : (bs : Bytes) (p n : ℕ) → p + n ≤ length bs → length (slice p n bs) ≡ n
length-slice bs p n h = length-take n (drop p bs) (omega (arith, length-drop p bs, h))

slice-short : (bs : Bytes) (p n : ℕ) → length bs < p + n → 0 < n → length (slice p n bs) < n
slice-short bs p n h positive =
    omega (
      arith,
      length-take_short n (drop p bs) (omega (arith, length-drop p bs)),
      length-drop p bs,
      h,
    )

-- The number of four bytes.
abbrev number_at : Bytes → ℕ → ℤ
number_at bs p = signed 0x80000000 (little_endian (take 4 (slice p 4 bs)))

int32-enough :
    (bs : Bytes) (p : ℕ) (buffer : Option Bytes)
    → p + 4 ≤ length bs
    → read_int32 (at_position bs p buffer) ≡ (ok (number_at bs p), at_position bs (p + 4) buffer)
unfolding read_int32 read_struct unpack values
int32-enough bs p buffer h =
    rw (exact-enough bs p 4 buffer (omega arith) (length-slice bs p 4 h), length-slice bs p 4 h)
      refl

int32-short :
    (bs : Bytes) (p : ℕ) (buffer : Option Bytes)
    → length bs < p + 4
    → read_int32 (at_position bs p buffer)
      ≡ (err binary_read_error, at_position bs (p + length (slice p 4 bs)) buffer)
unfolding read_int32 read_struct
int32-short bs p buffer h =
    rw (exact-short bs p 4 buffer (omega arith) (slice-short bs p 4 h (omega arith))) refl

unpack-enough :
    (bs : Bytes) (p : ℕ)
    → p + 4 ≤ length bs
    → unpack_from (int32 ∷ []) bs p ≡ ok (number_at bs p, tt)
unfolding unpack_from values
unpack-enough bs p h = rw (le→leb (p + 4) (length bs) h) refl

unpack-short :
    (bs : Bytes) (p : ℕ) → length bs < p + 4 → unpack_from (int32 ∷ []) bs p ≡ err struct_error
unfolding unpack_from
unpack-short bs p h = ground arith

number-bound : (n c : ℕ) → signed 0x80000000 n ≡ pos c → c < 0x80000000
number-bound n c h = ground arith

-- A text with its length before it, in one of the two encodings.
abbrev string4 : ℕ → Exec BinaryReader Str
string4 t = do count ← read_int32; found ← read_bytes count; lift (decode_text t found)

-- The bytes after the length.
rest-agrees :
    (t : ℕ) (bs : Bytes) (p : ℕ) (buffer : Option Bytes) (v : ℤ)
    → p ≤ length bs
    → ((c : ℕ) → v ≡ pos c → c < 0x80000000)
    → value_of (sized_text t bs p v)
      ≡ value_of (
          as_str
            ((do found ← read_bytes v; lift (decode_text t found)) (at_position bs p buffer)).0)
unfolding read_bytes read_exact
rest-agrees t bs p buffer (negsuc n) h bound = refl
rest-agrees t bs p buffer (pos c) h bound = elim (Bool-cases (ltb (length bs) (p + c))) [
  | inl e ↦
      rw
        (
          e,
          exact-short bs p c buffer (omega (arith, bound c refl))
              (slice-short bs p c (ltb→lt (length bs) (p + c) e) (ground (arith, e))),
        )
        refl
  | inr e ↦
      rw
        (
          e,
          exact-enough bs p c buffer (omega (arith, bound c refl))
              (length-slice bs p c (ground arith)),
        )
        refl
]

five : (p : ℕ) → p + 5 ≡ p + 1 + 4
five p = omega arith

text_key-agrees :
    (t : ℕ) (bs : Bytes) (p : ℕ) (buffer : Option Bytes)
    → value_of (read_text_key t bs p)
      ≡ value_of (as_str (string4 t (at_position bs (p + 1) buffer)).0)
unfolding read_text_key
text_key-agrees t bs p buffer = elim (Bool-cases (ltb (length bs) (p + 1 + 4))) [
  | inl e ↦
      rw
        (
          unpack-short bs (p + 1) (ltb→lt (length bs) (p + 1 + 4) e),
          int32-short bs (p + 1) buffer (ltb→lt (length bs) (p + 1 + 4) e),
        )
        refl
  | inr e ↦
      rw
        (
          unpack-enough bs (p + 1) (ground (arith, e)),
          int32-enough bs (p + 1) buffer (ground (arith, e)),
          five p,
        )
        (rest-agrees t bs (p + 1 + 4) buffer (number_at bs (p + 1)) (ground (arith, e))
          (number-bound _))
]

-- The value of a text, without its type.
typed-str :
    (m : Exec BinaryReader Str) (r : BinaryReader)
    → ((do (value, _) ← untyped str m; pure value) r).0 ≡ as_str (m r).0
typed-str m r = elim (Result-cases (m r).0) [ inl (s, e) ↦ rw e refl | inr (x, e) ↦ rw e refl ]

-- A byte that is there.
within :
    (bs : Bytes) (p t : ℕ) → take 1 (drop p bs) ≡ t ∷ [] → length bs < size_limit → p < size_limit
within bs p t h small = elim (Bool-cases (ltb p (length bs))) [
  | inl e ↦ omega (arith, ltb→lt p (length bs) e, small)
  | inr e ↦
      absurd (omega (arith, slice-short bs p 1 (ground (arith, e)) (omega arith), ap length h))
]

-- decode_v1 where a byte is read.
module _ (b : Builtins) where
  abbrev value_at : Bytes → ℕ → Option Bytes → Result Object
  value_at bs p buffer =
      (decode_v1 (decode_asset_bundle_request_options_json b) (at_position bs p buffer)).0

  pub decode_at-small :
      (bs : Bytes) (p q : ℕ) (buffer : Option Bytes)
      → p < size_limit
      → (decode_at b p (at_position bs q buffer)).0 ≡ value_at bs p buffer
  unfolding decode_at
  decode_at-small bs p q buffer small = rw (seek-at bs p q small) refl

  byte-found :
      (bs : Bytes) (p t : ℕ) (buffer : Option Bytes)
      → take 1 (drop p bs) ≡ t ∷ []
      → read_byte (at_position bs p buffer) ≡ (ok t, at_position bs (p + 1) buffer)
  unfolding read_byte
  byte-found bs p t buffer h = rw (exact-enough bs p 1 buffer (omega arith) (ap length h), h) refl

  byte-missing :
      (bs : Bytes) (p : ℕ) (buffer : Option Bytes)
      → take 1 (drop p bs) ≡ []
      → read_byte (at_position bs p buffer)
        ≡ (err binary_read_error, at_position bs (p + length (slice p 1 bs)) buffer)
  unfolding read_byte
  byte-missing bs p buffer h =
      rw (exact-short bs p 1 buffer (omega arith) (rw h (omega arith))) refl

  ascii-at :
      (bs : Bytes) (p : ℕ) (buffer : Option Bytes)
      → take 1 (drop p bs) ≡ 0 ∷ []
      → value_at bs p buffer ≡ as_str (string4 0 (at_position bs (p + 1) buffer)).0
  unfolding decode_v1 decode_v1_typed object_type decode_object_type read_string4
  ascii-at bs p buffer h =
      rw (byte-found bs p 0 buffer h, value_at)
        (typed-str (string4 0) (at_position bs (p + 1) buffer))

  unicode-at :
      (bs : Bytes) (p : ℕ) (buffer : Option Bytes)
      → take 1 (drop p bs) ≡ 1 ∷ []
      → value_at bs p buffer ≡ as_str (string4 1 (at_position bs (p + 1) buffer)).0
  unfolding decode_v1 decode_v1_typed object_type decode_object_type read_string4_unicode
  unicode-at bs p buffer h =
      rw (byte-found bs p 1 buffer h, value_at)
        (typed-str (string4 1) (at_position bs (p + 1) buffer))

  missing-at :
      (bs : Bytes) (p : ℕ) (buffer : Option Bytes)
      → take 1 (drop p bs) ≡ []
      → value_of (value_at bs p buffer) ≡ none
  unfolding decode_v1 decode_v1_typed
  missing-at bs p buffer h = rw (byte-missing bs p buffer h, value_at, value_of) refl

  pub decode_at-large :
      (bs : Bytes) (p q : ℕ) (buffer : Option Bytes)
      → ltb p size_limit ≡ false
      → value_of (decode_at b p (at_position bs q buffer)).0 ≡ none
  unfolding decode_at Stream.seek
  decode_at-large bs p q buffer large = rw large refl

  -- The two types of texts.
  text_from-agrees :
      (bs : Bytes) (p q t : ℕ) (buffer : Option Bytes)
      → p < size_limit
      → take 1 (drop p bs) ≡ t ∷ []
      → leb t 1 ≡ true
      → value_of (read_text_key t bs p) ≡ value_of (decode_at b p (at_position bs q buffer)).0
  text_from-agrees bs p q zero buffer small h k =
      rw
        (text_key-agrees 0 bs p buffer, decode_at-small bs p q buffer small, ascii-at bs p buffer h)
        refl
  text_from-agrees bs p q (suc t) buffer small h k =
      let one : suc t ≡ 1 = omega (arith, leb→le (suc t) 1 k) in
      rw
        (
          one,
          text_key-agrees 1 bs p buffer,
          decode_at-small bs p q buffer small,
          unicode-at bs p buffer (rw one at h),
        )
        refl

  -- A key is read as decode_v1 reads the value that stands at its offset, whatever the bytes: either
  -- both return the same object, or both raise.
  pub read_key-decode_at :
      (bs : Bytes) (p q : ℕ) (buffer : Option Bytes)
      → length bs < size_limit
      → value_of (read_key b bs p (at_position bs q buffer)).0
        ≡ value_of (decode_at b p (at_position bs q buffer)).0
  unfolding read_key
  read_key-decode_at bs p q buffer small = elim (nth-cases bs p) [
    | inr (e, h) ↦ elim (Bool-cases (ltb p size_limit)) [
      | inl k ↦
          rw (e, decode_at-small bs p q buffer (ltb→lt p size_limit k), missing-at bs p buffer h)
            refl
      | inr k ↦ rw (e, decode_at-large bs p q buffer k) refl
    ]
    | inl (t, e, h) ↦ elim (Bool-cases (leb t 1)) [
      | inl k ↦ rw (e, k) (text_from-agrees bs p q t buffer (within bs p t h small) h k)
      | inr k ↦ rw (e, k) refl
    ]
  ]
