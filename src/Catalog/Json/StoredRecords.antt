-- ===== src/Catalog/Json/StoredRecords.antt =====
-- The round trip of the records of locations, in `_read_locations` of
-- src/addressablestools/catalog.py.
use addressables_tools_py.Prelude.{
  ℕ, ◌-◌, ◌<◌, ℤ, pos, negsuc, ◌≡◌, refl, ap, ◌∙◌, List, [], ◌∷◌, ◌++◌, length, All, take, arith,
}
use addressables_tools_py.Python.Stream.{Bytes}
use addressables_tools_py.Python.Struct.{values, signed, little_endian}
use addressables_tools_py.Models.Object.{pack_uint32}
use addressables_tools_py.Binary.Layout.{little_endian-pack}
use addressables_tools_py.Catalog.Json.Records.{LocationRecord, records, to_record, json_location}

-- A number of 32 bits with a sign.
abbrev pub IsInt32 : ℤ → Type 0
IsInt32 (pos n) = n < 2147483648
IsInt32 (negsuc n) = n < 2147483648

-- struct.pack("<i", n)
abbrev pub word : ℤ → ℕ
word (pos n) = n
word (negsuc n) = 4294967295 - n

abbrev pub pack_int32 : ℤ → Bytes
pack_int32 n = pack_uint32 (word n)

signed-word : (n : ℤ) → IsInt32 n → signed 0x80000000 (word n) ≡ n
signed-word (pos n) h = ground (arith, h)
signed-word (negsuc n) h = ground (arith, h)

word-bound : (n : ℤ) → IsInt32 n → word n < 4294967296
word-bound (pos n) h = omega (arith, h)
word-bound (negsuc n) h = omega arith

unpack-pack_int32 : (n : ℤ) → IsInt32 n → signed 0x80000000 (little_endian (pack_int32 n)) ≡ n
unpack-pack_int32 n h =
    ap (signed 0x80000000) (little_endian-pack (word n) (word-bound n h)) ∙ signed-word n h

abbrev pub IsStorable : LocationRecord → Type 0
IsStorable x =
    IsInt32 x.internal_id_index
    × IsInt32 x.provider_index
    × IsInt32 x.dependency_key_index
    × IsInt32 x.dependency_hash
    × IsInt32 x.data_index
    × IsInt32 x.primary_key_index
    × IsInt32 x.resource_type_index

-- The 28 bytes of a record.
abbrev pub pack_record : LocationRecord → Bytes
pack_record x =
    pack_int32 x.internal_id_index
    ++ (pack_int32 x.provider_index
        ++ (pack_int32 x.dependency_key_index
            ++ (pack_int32 x.dependency_hash
                ++ (pack_int32 x.data_index
                    ++ (pack_int32 x.primary_key_index ++ pack_int32 x.resource_type_index)))))

abbrev pub pack_records : List LocationRecord → Bytes
pack_records [] = []
pack_records (x ∷ xs) = pack_record x ++ pack_records xs

record-pack :
    (x : LocationRecord) (rest : Bytes)
    → IsStorable x
    → to_record (values json_location (take 28 (pack_record x ++ rest))) ≡ x
unfolding values
record-pack x rest (i, p, k, h, d, n, t) =
    rw
      (
        unpack-pack_int32 x.internal_id_index i,
        unpack-pack_int32 x.provider_index p,
        unpack-pack_int32 x.dependency_key_index k,
        unpack-pack_int32 x.dependency_hash h,
        unpack-pack_int32 x.data_index d,
        unpack-pack_int32 x.primary_key_index n,
        unpack-pack_int32 x.resource_type_index t,
      )
      refl

-- The records that are read of the bytes of records are these records: their seven fields, negative
-- ones too, if each is a number of 32 bits with a sign.
pub records-stored :
    (xs : List LocationRecord) → All IsStorable xs → records (length xs) (pack_records xs) ≡ xs
unfolding records
records-stored [] h = refl
records-stored (x ∷ xs) h = rw (record-pack x (pack_records xs) h.0, records-stored xs h.1) refl
