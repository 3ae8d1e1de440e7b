-- ===== src/Catalog/Json/Buckets.antt =====
-- The buckets of a JSON catalog: `_read_buckets` of src/addressablestools/catalog.py.
use addressables_tools_py.Prelude.{
  ℕ, zero, suc, ◌+◌, ◌*◌, ℤ, pos, negsuc, List, [], ◌∷◌, length, drop, take, leb, ◌==◌,
  if◌then◌else◌,
}
use addressables_tools_py.Python.Exec.{Result, ok, err, catalog_parse_error, struct_error}
use addressables_tools_py.Python.Result.{◌>>=◌}
use addressables_tools_py.Python.Stream.{Bytes}
use addressables_tools_py.Python.Struct.{int32, unpack_from, field_value}
use addressables_tools_py.Python.Base64.{b64decode}
use addressables_tools_py.Python.Codec.{Str}

-- Integers of four bytes each.
unfoldable pub ints : ℕ → Bytes → List ℤ
ints zero bs = []
ints (suc n) bs = field_value int32 (take 4 bs) ∷ ints n (drop 4 bs)

-- struct.unpack_from(f"<{count}i", data, position)
unfoldable pub unpack_ints : ℕ → Bytes → ℕ → Result (List ℤ)
unfolding ints
unpack_ints count bs position =
    if leb (position + count * 4) (length bs)
    then ok (ints count (drop position bs))
    else err struct_error

-- A number that must not be negative.
abbrev pub natural : ℤ → Result ℕ
natural (pos n) = ok n
natural (negsuc _) = err catalog_parse_error

-- One int32 has a layout that is compiled before.
abbrev single_entry : Bytes → ℕ → Result (List ℤ)
single_entry bs cursor = do (entry, _) ← unpack_from (int32 ∷ []) bs cursor; ok (entry ∷ [])

unfoldable pub read_entries : ℕ → Bytes → ℕ → Result (List ℤ)
unfolding unpack_from unpack_ints
read_entries count bs cursor =
    if count == 1 then single_entry bs cursor else unpack_ints count bs cursor

-- The loop over the buckets; the key offsets and the entries are made side by side.
unfoldable pub read_bucket_list : ℕ → Bytes → ℕ → Result (List ℕ × List (List ℤ))
unfolding unpack_from read_entries
read_bucket_list zero bs cursor = ok ([], [])
read_bucket_list (suc n) bs cursor = do
  (raw_offset, (raw_count, _)) ← unpack_from (int32 ∷ int32 ∷ []) bs cursor
  offset ← natural raw_offset
  entry_count ← natural raw_count
  entries ← read_entries entry_count bs (cursor + 8)
  (offsets, rest) ← read_bucket_list n bs (cursor + 8 + entry_count * 4)
  ok (offset ∷ offsets, entries ∷ rest)

unfoldable pub read_bucket_bytes : Bytes → Result (List ℕ × List (List ℤ))
unfolding unpack_from read_bucket_list
read_bucket_bytes bs = do
  (raw_count, _) ← unpack_from (int32 ∷ []) bs 0
  bucket_count ← natural raw_count
  read_bucket_list bucket_count bs 4

unfoldable pub read_buckets : Str → Result (List ℕ × List (List ℤ))
unfolding b64decode read_bucket_bytes
read_buckets bucket_data_string = do bs ← b64decode bucket_data_string; read_bucket_bytes bs
