-- ===== src/Binary/Strings/Stored.antt =====
-- Texts that are stored with their byte length before them are read back.
use addressables_tools_py.Prelude.{
  ℕ, ◌+◌, ◌%◌, ◌<◌, Bool, true, false, ◌||◌, length, some, ◌==◌, ◌≡◌, arith, All,
}
use addressables_tools_py.Python.Exec.{ok}
use addressables_tools_py.Python.Stream.{Bytes}
use addressables_tools_py.Python.Codec.{Str}
use addressables_tools_py.Python.Codec.Encode.{
  IsAscii, IsScalar, encode_utf16, decode_ascii-IsAscii, decode_utf16-encode,
}
use addressables_tools_py.Binary.State.{CatalogBinaryReader, uint32_max, uint32_max_minus_one}
use addressables_tools_py.Binary.Layout.{
  stored, payload_offset, stored_size, stored_in_range, stored_fits, stored_payload,
}
use addressables_tools_py.Binary.Strings.{has_bit, read_encoded_string}
use addressables_tools_py.Binary.Strings.Wire.{basic_at, decode}
use addressables_tools_py.Binary.Strings.Sound.{IsSound}
use addressables_tools_py.Binary.Strings.Encoded.{encoded_at}
use addressables_tools_py.Binary.Strings.Transparent.{read_encoded_string-encoded_at}

-- What may be stored: ASCII texts as they are, and texts of scalars in UTF-16.
abbrev pub CanStore : Bool → Str → Type 0
CanStore true s = All IsScalar s
CanStore false s = All IsAscii s

abbrev pub text_bytes : Bool → Str → Bytes
text_bytes true s = encode_utf16 s
text_bytes false s = s

-- The encoded offset has the top bit for UTF-16.
abbrev pub text_offset : Bool → Bytes → ℕ
text_offset true before = payload_offset before + 0x80000000
text_offset false before = payload_offset before

decode-text_bytes :
    (unicode : Bool) (s : Str) → CanStore unicode s → decode unicode (text_bytes unicode s) ≡ ok s
decode-text_bytes true s h = decode_utf16-encode s h
decode-text_bytes false s h = decode_ascii-IsAscii s h

basic_at-stored :
    (unicode : Bool) (before after : Bytes) (s : Str)
    → CanStore unicode s
    → length (text_bytes unicode s) < 2147483648
    → basic_at (stored before (text_bytes unicode s) after) (payload_offset before) unicode ≡ ok s
unfolding basic_at
basic_at-stored unicode before after s h small =
    rw
      (
        stored_in_range before (text_bytes unicode s) after,
        stored_size before (text_bytes unicode s) after small,
        stored_fits before (text_bytes unicode s) after,
        stored_payload before (text_bytes unicode s) after,
      )
      (decode-text_bytes unicode s h)

-- An offset below 2^30 is kept apart from the bits above it.
plain_offset :
    (unicode : Bool) (before : Bytes)
    → payload_offset before < 0x40000000
    → ((text_offset unicode before == uint32_max)
          || (text_offset unicode before == uint32_max_minus_one)
        ≡ false)
      × (has_bit 0x40000000 (text_offset unicode before) ≡ false)
      × (text_offset unicode before % 0x40000000 ≡ payload_offset before)
      × (has_bit 0x80000000 (text_offset unicode before) ≡ unicode)
plain_offset true before h = (ground arith, ground arith, omega arith, ground arith)
plain_offset false before h = (ground arith, ground arith, omega arith, ground arith)

-- A text that is stored with its byte length before it is read back, whatever the separator: ASCII
-- as it is, and any Unicode scalars as UTF-16 with the top bit in the encoded offset. The text takes
-- fewer than 2^31 bytes, its offset is below 2^30, and the caches are sound.
pub read_encoded_string-stored :
    (unicode : Bool) (before after : Bytes) (s separator : Str) (r : CatalogBinaryReader)
    → CanStore unicode s
    → length (text_bytes unicode s) < 2147483648
    → payload_offset before < 0x40000000
    → IsSound (stored before (text_bytes unicode s) after) r
    → (read_encoded_string (text_offset unicode before) separator r).0 ≡ ok (some s)
unfolding encoded_at
read_encoded_string-stored unicode before after s separator r h small low sound =
    let (_, _, out, _, _) =
      read_encoded_string-encoded_at (stored before (text_bytes unicode s) after)
        (text_offset unicode before) separator r sound in
    let (real, basic, offset, top) = plain_offset unicode before low in
    rw (out, real, basic, offset, top, basic_at-stored unicode before after s h small)
