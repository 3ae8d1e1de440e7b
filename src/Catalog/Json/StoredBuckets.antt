-- ===== src/Catalog/Json/StoredBuckets.antt =====
-- The round trip of the buckets of a JSON catalog, in `_read_buckets` of
-- src/addressablestools/catalog.py.
use addressables_tools_py.Prelude.{
  ℕ, zero, suc, ◌+◌, ◌*◌, ◌<◌, ◌≤◌, ℤ, pos, ◌≡◌, refl, false, List, [], ◌∷◌, ◌++◌, length, take,
  drop, All, ap, ◌∙◌, sym, arith, ◌==◌, length-append, length-drop, drop-append, le→leb, map,
}
use Prim.Native.Nat.add
use native.Mathlib.Nat.{zero-add}
use addressables_tools_py.Python.Exec.{ok}
use addressables_tools_py.Python.Stream.{Bytes}
use addressables_tools_py.Python.Struct.{
  Struct, size, int32, values, unpack_from, signed, little_endian,
}
use addressables_tools_py.Python.Base64.Encode.{encode, b64decode-encode}
use addressables_tools_py.Models.Object.{pack_uint32}
use addressables_tools_py.Binary.Layout.{little_endian-pack, signed-small}
use addressables_tools_py.Binary.Arrays.Wire.{pack_words, length-pack_words}
use addressables_tools_py.Catalog.Json.Buckets.{
  ints, unpack_ints, read_entries, read_bucket_list, read_bucket_bytes, read_buckets,
}

-- A key offset, and the places of a bucket's locations.
abbrev pub Bucket : Type 0
Bucket = ℕ × List ℕ

abbrev IsSmall : ℕ → Type 0
IsSmall n = n < 2147483648

abbrev pub IsStorable : Bucket → Type 0
IsStorable (offset, entries) = IsSmall offset × IsSmall (length entries) × All IsSmall entries

-- The bytes that stand for buckets.
unfoldable pub pack_bucket_list : List Bucket → Bytes
pack_bucket_list [] = []
pack_bucket_list ((offset, entries) ∷ rest) =
    pack_uint32 offset
    ++ (pack_uint32 (length entries) ++ (pack_words entries ++ pack_bucket_list rest))

unfoldable pub pack_buckets : List Bucket → Bytes
unfolding pack_bucket_list
pack_buckets buckets = pack_uint32 (length buckets) ++ pack_bucket_list buckets

abbrev pub offsets_of : List Bucket → List ℕ
offsets_of [] = []
offsets_of ((offset, _) ∷ rest) = offset ∷ offsets_of rest

abbrev pub entries_of : List Bucket → List (List ℤ)
entries_of [] = []
entries_of ((_, entries) ∷ rest) = map pos entries ∷ entries_of rest

packed_int : (n : ℕ) → IsSmall n → signed 0x80000000 (little_endian (pack_uint32 n)) ≡ pos n
packed_int n h =
    ap (signed 0x80000000) (little_endian-pack n (omega (arith, h))) ∙ signed-small n 0x80000000 h

drop-nil : (n : ℕ) → drop {A = ℕ} n [] ≡ []
drop-nil zero = refl
drop-nil (suc n) = refl

append_assoc : (xs ys zs : Bytes) → (xs ++ ys) ++ zs ≡ xs ++ (ys ++ zs)
append_assoc [] ys zs = refl
append_assoc (x ∷ xs) ys zs = ap (λ (t : Bytes). x ∷ t) (append_assoc xs ys zs)

drop_again : (m n : ℕ) (bs : Bytes) → drop (m + n) bs ≡ drop n (drop m bs)
drop_again zero n bs = rw zero-add refl
drop_again (suc m) n [] = rw add.suc (sym (drop-nil n))
drop_again (suc m) n (b ∷ bs) = rw add.suc (drop_again m n bs)

ints-pack :
    (ns : List ℕ) (rest : Bytes)
    → All IsSmall ns
    → ints (length ns) (pack_words ns ++ rest) ≡ map pos ns
unfolding ints
ints-pack [] rest h = refl
ints-pack (n ∷ ns) rest h = rw (ints-pack ns rest h.1, packed_int n h.0) refl

-- A layout that is read where these bytes stand.
unpack-at :
    (fs : Struct) (bs found : Bytes) (p : ℕ)
    → drop p bs ≡ found
    → p ≤ length bs
    → size fs ≤ length found
    → unpack_from fs bs p ≡ ok (values fs (take (size fs) found))
unfolding unpack_from
unpack-at fs bs found p h k l =
    rw (le→leb (p + size fs) (length bs) (omega (arith, length-drop p bs, ap length h, k, l)), h)
      refl

length-packed :
    (es : List ℕ) (rest : Bytes) → length (pack_words es ++ rest) ≡ length es * 4 + length rest
length-packed es rest = omega (arith, length-append (pack_words es) rest, length-pack_words es)

several : (n : ℕ) → (suc (suc n) == 1) ≡ false
several n = ground arith

ints-stored :
    (es : List ℕ) (bs rest : Bytes) (p : ℕ)
    → All IsSmall es
    → drop p bs ≡ pack_words es ++ rest
    → p ≤ length bs
    → unpack_ints (length es) bs p ≡ ok (map pos es)
unfolding unpack_ints
ints-stored es bs rest p small h k =
    rw
      (
        le→leb (p + length es * 4) (length bs)
            (omega (arith, length-drop p bs, ap length h, length-packed es rest, k)),
        h,
      )
      (ap ok (ints-pack es rest small))

entries-stored :
    (es : List ℕ) (bs rest : Bytes) (p : ℕ)
    → All IsSmall es
    → drop p bs ≡ pack_words es ++ rest
    → p ≤ length bs
    → read_entries (length es) bs p ≡ ok (map pos es)
unfolding read_entries values
entries-stored [] bs rest p small h k = ints-stored [] bs rest p small h k
entries-stored (e ∷ []) bs rest p small h k =
    rw (unpack-at (int32 ∷ []) bs (pack_words (e ∷ []) ++ rest) p h k (omega arith))
      (ap (λ n. ok (n ∷ [])) (packed_int e small.0))
entries-stored (d ∷ e ∷ es) bs rest p small h k =
    rw (several (length es)) (ints-stored (d ∷ e ∷ es) bs rest p small h k)

words_size : (es : List ℕ) → length es * 4 ≡ length (pack_words es)
words_size es = omega (arith, length-pack_words es)

after-entries :
    (es : List ℕ) (bs rest : Bytes) (p : ℕ)
    → drop p bs ≡ pack_words es ++ rest
    → drop (p + length es * 4) bs ≡ rest
after-entries es bs rest p h =
    rw (drop_again p (length es * 4) bs, h, words_size es) (drop-append (pack_words es) rest)

after-header :
    (offset : ℕ) (es : List ℕ) (buckets : List Bucket) (bs rest : Bytes) (p : ℕ)
    → drop p bs ≡ pack_bucket_list ((offset, es) ∷ buckets) ++ rest
    → drop (p + 8) bs ≡ pack_words es ++ (pack_bucket_list buckets ++ rest)
unfolding pack_bucket_list
after-header offset es buckets bs rest p h =
    rw (drop_again p 8 bs, h) (append_assoc (pack_words es) (pack_bucket_list buckets) rest)

bucket_list-stored :
    (buckets : List Bucket) (bs rest : Bytes) (p : ℕ)
    → All IsStorable buckets
    → drop p bs ≡ pack_bucket_list buckets ++ rest
    → p ≤ length bs
    → read_bucket_list (length buckets) bs p ≡ ok (offsets_of buckets, entries_of buckets)
unfolding pack_bucket_list read_bucket_list values
bucket_list-stored [] bs rest p small h k = refl
bucket_list-stored ((offset, es) ∷ buckets) bs rest p small h k =
    let header = after-header offset es buckets bs rest p h in
    let room : p + 8 ≤ length bs = omega (arith, length-drop p bs, ap length h, k) in
    let others = after-entries es bs (pack_bucket_list buckets ++ rest) (p + 8) header in
    rw
      (
        unpack-at (int32 ∷ int32 ∷ []) bs
            (pack_uint32 offset
              ++ (pack_uint32 (length es) ++ (pack_words es ++ pack_bucket_list buckets ++ rest)))
            p h k (omega arith),
        packed_int offset small.0.0,
        packed_int (length es) small.0.1,
        entries-stored es bs (pack_bucket_list buckets ++ rest) (p + 8) small.0.2 header room,
        bucket_list-stored buckets bs rest (p + 8 + length es * 4) small.1 others (
            omega (
              arith,
              length-drop (p + 8) bs,
              ap length header,
              length-packed es (pack_bucket_list buckets ++ rest),
              room,
            )),
      )
      refl

abbrev AreBytes : Bytes → Type 0
AreBytes bs = All (λ b. b < 256) bs

bytes-append : (xs ys : Bytes) → AreBytes xs → AreBytes ys → AreBytes (xs ++ ys)
bytes-append [] ys h k = k
bytes-append (x ∷ xs) ys h k = (h.0, bytes-append xs ys h.1 k)

bytes-pack : (n : ℕ) → AreBytes (pack_uint32 n)
bytes-pack n = (omega arith, (omega arith, (omega arith, (omega arith, tt))))

bytes-words : (ns : List ℕ) → AreBytes (pack_words ns)
bytes-words [] = tt
bytes-words (n ∷ ns) = bytes-append (pack_uint32 n) (pack_words ns) (bytes-pack n) (bytes-words ns)

bytes-list : (buckets : List Bucket) → AreBytes (pack_bucket_list buckets)
unfolding pack_bucket_list
bytes-list [] = tt
bytes-list ((offset, es) ∷ rest) =
    bytes-append (pack_uint32 offset)
      (pack_uint32 (length es) ++ (pack_words es ++ pack_bucket_list rest)) (bytes-pack offset)
      (bytes-append (pack_uint32 (length es)) (pack_words es ++ pack_bucket_list rest)
        (bytes-pack (length es))
        (bytes-append (pack_words es) (pack_bucket_list rest) (bytes-words es) (bytes-list rest)))

bytes-buckets : (buckets : List Bucket) → AreBytes (pack_buckets buckets)
unfolding pack_buckets
bytes-buckets buckets =
    bytes-append (pack_uint32 (length buckets)) (pack_bucket_list buckets)
      (bytes-pack (length buckets)) (bytes-list buckets)

append_nil : (xs : Bytes) → xs ++ [] ≡ xs
append_nil [] = refl
append_nil (x ∷ xs) = ap (λ (t : Bytes). x ∷ t) (append_nil xs)

-- Buckets are read back by _read_buckets from the base64 text of their bytes, if their offsets and
-- entries, and the numbers of them, are below 2^31.
pub read_buckets-stored :
    (buckets : List Bucket)
    → length buckets < 2147483648
    → All IsStorable buckets
    → read_buckets (encode (pack_buckets buckets)) ≡ ok (offsets_of buckets, entries_of buckets)
unfolding read_buckets read_bucket_bytes pack_buckets values
read_buckets-stored buckets few small =
    rw
      (
        b64decode-encode (pack_buckets buckets) (bytes-buckets buckets),
        unpack-at (int32 ∷ []) (pack_buckets buckets) (pack_buckets buckets) 0 refl (omega arith)
            (omega arith),
        packed_int (length buckets) few,
      )
      (bucket_list-stored buckets (pack_buckets buckets) [] 4 small
        (sym (append_nil (pack_bucket_list buckets))) (omega arith))
