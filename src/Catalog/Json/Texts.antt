-- ===== src/Catalog/Json/Texts.antt =====
-- The keys of a JSON catalog that are texts, decoded from the bytes in `_read_keys` of
-- src/addressablestools/catalog.py.
use addressables_tools_py.Prelude.{ℕ, ℤ, ◌+◌, [], ◌∷◌, length, ltb, ◌==◌, if◌then◌else◌}
use addressables_tools_py.Python.Exec.{Result, ok, err, catalog_parse_error}
use addressables_tools_py.Python.Result.{◌>>=◌}
use addressables_tools_py.Python.Stream.{Bytes, slice}
use addressables_tools_py.Python.Struct.{int32, unpack_from}
use addressables_tools_py.Python.Codec.{Str, decode_ascii, decode_utf16}
use addressables_tools_py.Models.Object.{Object, str}
use addressables_tools_py.Catalog.Json.Buckets.{natural}

-- The encoding of the two types of texts.
abbrev pub decode_text : ℕ → Bytes → Result Str
decode_text object_type bs = if object_type == 0 then decode_ascii bs else decode_utf16 bs

abbrev pub as_str : Result Str → Result Object
as_str (ok s) = ok (str s)
as_str (err e) = err e

-- The text of that many bytes from a start on.
abbrev pub text_from : ℕ → Bytes → ℕ → ℕ → Result Object
text_from object_type key_data start count =
    if ltb (length key_data) (start + count)
    then err catalog_parse_error
    else as_str (decode_text object_type (slice start count key_data))

-- The same, for a length as it was read.
abbrev pub sized_text : ℕ → Bytes → ℕ → ℤ → Result Object
sized_text object_type key_data start raw_count = do
  count ← natural raw_count
  text_from object_type key_data start count

unfoldable pub read_text_key : ℕ → Bytes → ℕ → Result Object
unfolding unpack_from
read_text_key object_type key_data offset = do
  (raw_count, _) ← unpack_from (int32 ∷ []) key_data (offset + 1)
  sized_text object_type key_data (offset + 5) raw_count
