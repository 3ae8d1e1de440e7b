-- ===== src/Binary/Reader/Streams.antt =====
-- Without a buffer, the reads at an absolute position give what they give over a buffer of the same
-- bytes.
use addressables_tools_py.Prelude.{
  ℕ, ◌+◌, ◌≤◌, ◌<◌, pos, none, some, ◌≡◌, arith, length, length-take, length-drop,
  length-take_short, drop, ltb, Bool-cases, inl, inr,
}
use addressables_tools_py.Python.Stream
use addressables_tools_py.Python.Stream.{Bytes, BytesIo, size_limit, slice}
use addressables_tools_py.Python.Struct.{Struct, unpack, unpack_from, size}
use addressables_tools_py.Binary.Reader.{
  BinaryReader, seek, read_exact, read_struct, read_struct_at, read_struct_from, read_bytes_at,
}

-- A reader without a buffer, at a cursor, and a reader over the same bytes.
abbrev pub streamed : Bytes → ℕ → BinaryReader
streamed bytes cursor = record {
  stream = record { content = bytes; position = cursor };
  buffer = none;
}

abbrev pub buffered : Bytes → ℕ → BinaryReader
buffered bytes cursor = record {
  stream = record { content = bytes; position = cursor };
  buffer = some bytes;
}

-- A slice is whole exactly when it ends within the bytes, if it is not empty.
slice_whole : (bytes : Bytes) (p n : ℕ) → p + n ≤ length bytes → length (slice p n bytes) ≡ n
slice_whole bytes p n h = length-take n (drop p bytes) (omega (arith, length-drop p bytes))

slice_cut : (bytes : Bytes) (p n : ℕ) → 0 < n → length bytes < p + n → length (slice p n bytes) < n
slice_cut bytes p n some_bytes h = omega (
  arith,
  length-drop p bytes,
  length-take_short n (drop p bytes) (omega (arith, length-drop p bytes)),
)

module _ (bytes : Bytes) (cursor p : ℕ) (here : cursor < size_limit) (near : p < size_limit) where
  read_struct_at-streamed :
      (parser : Struct)
      → 0 < size parser
      → size parser < size_limit
      → read_struct_at parser (pos p) (streamed bytes cursor)
        ≡ ((read_struct_at parser (pos p) (buffered bytes cursor)).0, streamed bytes cursor)
  unfolding read_struct_at read_struct read_exact seek Stream.seek Stream.read unpack unpack_from
  read_struct_at-streamed parser some_bytes small =
      elim (Bool-cases (ltb (length bytes) (p + size parser))) [
        | inl e ↦ ground (arith, slice_cut bytes p (size parser) some_bytes)
        | inr e ↦ ground (arith, slice_whole bytes p (size parser))
      ]

  read_struct_from-streamed :
      (parser : Struct)
      → 0 < size parser
      → size parser < size_limit
      → (read_struct_from parser (pos p) (streamed bytes cursor)).0
        ≡ (read_struct_from parser (pos p) (buffered bytes cursor)).0
  unfolding read_struct_from read_struct read_exact seek Stream.seek Stream.read unpack unpack_from
  read_struct_from-streamed parser some_bytes small =
      elim (Bool-cases (ltb (length bytes) (p + size parser))) [
        | inl e ↦ ground (arith, slice_cut bytes p (size parser) some_bytes)
        | inr e ↦ ground (arith, slice_whole bytes p (size parser))
      ]

  read_bytes_at-streamed :
      (n : ℕ)
      → 0 < n
      → n < size_limit
      → read_bytes_at (pos p) (pos n) (streamed bytes cursor)
        ≡ ((read_bytes_at (pos p) (pos n) (buffered bytes cursor)).0, streamed bytes cursor)
  unfolding read_bytes_at read_exact seek Stream.seek Stream.read
  read_bytes_at-streamed n some_bytes small = elim (Bool-cases (ltb (length bytes) (p + n))) [
    | inl e ↦ ground (arith, slice_cut bytes p n some_bytes)
    | inr e ↦ ground (arith, slice_whole bytes p n)
  ]

  -- Reading a layout or a count of bytes at a position gives the same over the stream and over the
  -- buffer, errors included, and read_struct_at and read_bytes_at put the cursor of the stream back.
  -- What is read is not empty, and it, the position and the cursor are below sys.maxsize + 1.
  pub reads_at-streamed :
      (parser : Struct) (n : ℕ)
      → 0 < size parser
      → size parser < size_limit
      → 0 < n
      → n < size_limit
      → (read_struct_at parser (pos p) (streamed bytes cursor)
          ≡ ((read_struct_at parser (pos p) (buffered bytes cursor)).0, streamed bytes cursor))
        × ((read_struct_from parser (pos p) (streamed bytes cursor)).0
            ≡ (read_struct_from parser (pos p) (buffered bytes cursor)).0)
        × (read_bytes_at (pos p) (pos n) (streamed bytes cursor)
            ≡ ((read_bytes_at (pos p) (pos n) (buffered bytes cursor)).0, streamed bytes cursor))
  reads_at-streamed parser n some_values small some_bytes small' = (
    read_struct_at-streamed parser some_values small,
    read_struct_from-streamed parser some_values small,
    read_bytes_at-streamed n some_bytes small',
  )
