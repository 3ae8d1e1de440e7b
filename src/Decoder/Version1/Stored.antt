-- ===== src/Decoder/Version1/Stored.antt =====
-- Round trips of the texts and hashes of version 1 values.
use addressables_tools_py.Prelude.{
  ℕ, ◌+◌, ◌<◌, pos, [], ◌∷◌, ◌++◌, Option, length, take, All, ◌≡◌, refl, arith, ap, ◌∙◌, lt→ltb,
  ==_refl, drop-append, take-append,
}
use addressables_tools_py.Python.Exec.{ok}
use addressables_tools_py.Python.Stream
use addressables_tools_py.Python.Stream.{Bytes, size_limit, slice}
use addressables_tools_py.Python.Codec.{Str}
use addressables_tools_py.Python.Codec.Encode.{IsAscii, decode_ascii-IsAscii}
use addressables_tools_py.Binary.Reader.{BinaryReader, read_exact, read_byte, read_bytes}
use addressables_tools_py.Binary.Layout.{drop_more}
use addressables_tools_py.Decoder.Version1.{read_string1}

-- A reader of a stream at a position.
abbrev pub at_position : Bytes → ℕ → Option Bytes → BinaryReader
at_position content position buffer = record {
  stream = record { content = content; position = position };
  buffer = buffer;
}

read_exact-slice :
    (content found : Bytes) (p : ℕ) (buffer : Option Bytes)
    → slice p (length found) content ≡ found
    → length found < size_limit
    → read_exact (pos (length found)) (at_position content p buffer)
      ≡ (ok found, at_position content (p + length found) buffer)
unfolding read_exact Stream.read
read_exact-slice content found p buffer h small =
    rw (lt→ltb (length found) size_limit small, h, ==_refl (length found)) refl

-- The bytes at the end of a prefix.
slice-append :
    (before found after : Bytes)
    → slice (length before) (length found) (before ++ (found ++ after)) ≡ found
slice-append before found after =
    ap (take (length found)) (drop-append before (found ++ after)) ∙ take-append found after

first_byte-append :
    (before after : Bytes) (n : ℕ) (buffer : Option Bytes)
    → read_byte (at_position (before ++ (n ∷ after)) (length before) buffer)
      ≡ (ok n, at_position (before ++ (n ∷ after)) (length before + 1) buffer)
unfolding read_byte
first_byte-append before after n buffer =
    rw
      (read_exact-slice (before ++ (n ∷ after)) (n ∷ []) (length before) buffer
        (slice-append before (n ∷ []) after) (omega arith))
      refl

-- The layout of a text with one byte for its length.
abbrev pub short_text : Bytes → Str → Bytes → Bytes
short_text before s after = before ++ (length s ∷ (s ++ after))

slice-short_text :
    (before after : Bytes) (s : Str)
    → slice (length before + 1) (length s) (short_text before s after) ≡ s
slice-short_text before after s =
    ap (take (length s)) (drop_more before (length s ∷ (s ++ after)) 1) ∙ take-append s after

-- An ASCII text of fewer than 256 characters that is stored with its length in the byte before it is
-- read back by read_string1, and the cursor then stands after it.
pub read_string1-short_text :
    (before after : Bytes) (s : Str) (buffer : Option Bytes)
    → All IsAscii s
    → length s < 256
    → read_string1 (at_position (short_text before s after) (length before) buffer)
      ≡ (ok s, at_position (short_text before s after) (length before + 1 + length s) buffer)
unfolding read_string1 read_bytes
read_string1-short_text before after s buffer ascii small =
    rw
      (
        first_byte-append before (s ++ after) (length s) buffer,
        read_exact-slice (short_text before s after) s (length before + 1) buffer
            (slice-short_text before after s) (omega (arith, small)),
        decode_ascii-IsAscii s ascii,
      )
      refl
