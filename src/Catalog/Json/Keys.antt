-- ===== src/Catalog/Json/Keys.antt =====
-- The keys of a JSON catalog: `_read_keys` of src/addressablestools/catalog.py. Keys that are texts
-- are decoded from the bytes, the others by the decoder of version 1 values.
use addressables_tools_py.Prelude.{ℕ, pos, not, List, some, length, leb, ◌==◌, if◌then◌else◌}
use addressables_tools_py.Python.Exec.{
  Result, ok, err, Exec, lift, raise_if, for_each, catalog_parse_error, ◌>>=◌, ◌>>◌,
}
use addressables_tools_py.Catalog.Json.Texts.{read_text_key}
use addressables_tools_py.Python.Stream
use addressables_tools_py.Python.Stream.{Bytes, slice, open_bytes}
use addressables_tools_py.Python.Sequence.{get_item}
use addressables_tools_py.Python.Base64.{b64decode}
use addressables_tools_py.Python.Codec.{Str}
use addressables_tools_py.Python.Json.{Builtins}
use addressables_tools_py.Models.Object.{Object}
use addressables_tools_py.Binary.Reader.{BinaryReader, on_stream, read_int32}
use addressables_tools_py.Decoder.Version1.{decode_v1}
use addressables_tools_py.Decoder.Json.{decode_asset_bundle_request_options_json}
use addressables_tools_py.Catalog.Json.Buckets.{natural}

-- A reader over bytes that it also has as its buffer.
abbrev pub reader_over : Bytes → BinaryReader
reader_over bs = record { stream = open_bytes bs; buffer = some bs }

-- What code gives that starts with a reader over these bytes.
abbrev pub over_bytes : {A : Type 0} → Exec BinaryReader A → Bytes → Result A
over_bytes m bs = (m (reader_over bs)).0

module _ (b : Builtins) where
  -- decode_v1 of what stands at an offset of the reader's stream.
  unfoldable pub decode_at : ℕ → Exec BinaryReader Object
  unfolding Stream.seek decode_v1 decode_asset_bundle_request_options_json
  decode_at offset = do
    on_stream (Stream.seek (pos offset) (pos 0))
    decode_v1 (decode_asset_bundle_request_options_json b)

  abbrev pub key_of_type : Bytes → ℕ → ℕ → Exec BinaryReader Object
  key_of_type key_data offset object_type =
      if leb object_type 1
      then lift (read_text_key object_type key_data offset)
      else decode_at offset

  unfoldable pub read_key : Bytes → ℕ → Exec BinaryReader Object
  unfolding read_text_key decode_at
  read_key key_data offset = do
    object_type ← lift (get_item key_data (pos offset))
    key_of_type key_data offset object_type

  unfoldable pub read_key_bytes : List ℕ → Bytes → Exec BinaryReader (List Object)
  unfolding read_int32 for_each read_key
  read_key_bytes key_offsets key_data = do
    raw_count ← read_int32
    count ← lift (natural raw_count)
    raise_if (not (count == length key_offsets)) catalog_parse_error
    for_each (read_key key_data) key_offsets

  abbrev pub keys_of : List ℕ → Result Bytes → Result (List Object)
  keys_of key_offsets (ok key_data) = over_bytes (read_key_bytes key_offsets key_data) key_data
  keys_of key_offsets (err e) = err e

  unfoldable pub read_keys : Str → List ℕ → Result (List Object)
  unfolding b64decode read_key_bytes
  read_keys key_data_string key_offsets = keys_of key_offsets (b64decode key_data_string)
