-- ===== src/Binary/Reader/Buffer.antt =====
-- No read changes the buffer of a reader, nor the bytes of its stream.
use addressables_tools_py.Prelude.{
  ℤ, pos, negsuc, Option, some, [], ◌∷◌, ◌≡◌, ◌==◌, length, Bool-cases, inl, inr, arith,
}
use addressables_tools_py.Python.Exec.{Exec, pure, ◌>>=◌}
use addressables_tools_py.Python.Exec.Keeps.{Keeps, Keeps-pure, Keeps-raise, Keeps-lift, Keeps-bind}
use addressables_tools_py.Python.Stream
use addressables_tools_py.Python.Stream.{Bytes, BytesIo}
use addressables_tools_py.Python.Struct.{
  Struct, Values, unpack, size, int32, uint32, int64, boolean,
}
use addressables_tools_py.Binary.Reader.{
  from_buffer, four_uint32, BinaryReader, on_stream, seek, read_exact, read_struct,
  read_struct_from, read_struct_at, read_int32, read_uint32, read_int64, read_boolean,
  read_four_uint32,
}

abbrev pub HasBuffer : Option Bytes → BinaryReader → Type 0
HasBuffer buffer b = b.buffer ≡ buffer

module _ (buffer : Option Bytes) where
  on_stream-HasBuffer : {A : Type 0} (m : Exec BytesIo A) → Keeps (HasBuffer buffer) (on_stream m)
  on_stream-HasBuffer m = record { at = λ b h. h }

  pub seek-HasBuffer : (p whence : ℤ) → Keeps (HasBuffer buffer) (seek p whence)
  unfolding seek
  seek-HasBuffer p whence = record { at = λ b h. h }

  read_exact-HasBuffer : (n : ℤ) → Keeps (HasBuffer buffer) (read_exact n)
  unfolding read_exact
  read_exact-HasBuffer (negsuc n) = record { at = λ b h. h }
  read_exact-HasBuffer (pos n) = Keeps-bind (on_stream-HasBuffer (Stream.read n)) λ found.
      elim (Bool-cases (length found == n)) [
        | inl e ↦ rw e (Keeps-pure found)
        | inr e ↦ rw e (Keeps-raise _)
      ]

  read_struct-HasBuffer : (parser : Struct) → Keeps (HasBuffer buffer) (read_struct parser)
  unfolding read_struct
  read_struct-HasBuffer parser =
      Keeps-bind (read_exact-HasBuffer (pos (size parser)))
        λ found. Keeps-lift (unpack parser found)

  read_value-HasBuffer :
      {A : Type 0} (parser : Struct) (f : Values parser → A)
      → Keeps (HasBuffer buffer) (read_struct parser >>= λ v. pure (f v))
  read_value-HasBuffer parser f = Keeps-bind (read_struct-HasBuffer parser) λ v. Keeps-pure (f v)

  pub read_int32-HasBuffer : Keeps (HasBuffer buffer) read_int32
  unfolding read_int32
  read_int32-HasBuffer = read_value-HasBuffer (int32 ∷ []) (λ v. v.0)

  pub read_uint32-HasBuffer : Keeps (HasBuffer buffer) read_uint32
  unfolding read_uint32
  read_uint32-HasBuffer = read_value-HasBuffer (uint32 ∷ []) (λ v. v.0)

  pub read_int64-HasBuffer : Keeps (HasBuffer buffer) read_int64
  unfolding read_int64
  read_int64-HasBuffer = read_value-HasBuffer (int64 ∷ []) (λ v. v.0)

  pub read_boolean-HasBuffer : Keeps (HasBuffer buffer) read_boolean
  unfolding read_boolean
  read_boolean-HasBuffer = read_value-HasBuffer (boolean ∷ []) (λ v. v.0)

  pub read_four_uint32-HasBuffer : Keeps (HasBuffer buffer) read_four_uint32
  unfolding read_four_uint32
  read_four_uint32-HasBuffer = read_struct-HasBuffer four_uint32

-- Over a buffer, reads at an absolute position leave the reader as it is.
module _ (bytes : Bytes) (parser : Struct) (p : ℤ) (b : BinaryReader)
    (buffered : b.buffer ≡ some bytes) where
  pub read_struct_from_buffered : read_struct_from parser p b ≡ from_buffer parser p bytes b
  unfolding read_struct_from
  read_struct_from_buffered = ground arith

  pub read_struct_at_buffered : read_struct_at parser p b ≡ from_buffer parser p bytes b
  unfolding read_struct_at
  read_struct_at_buffered = ground arith

module _ (bytes : Bytes) (parser : Struct) (p : ℤ) where
  pub read_struct_from-HasBuffer : Keeps (HasBuffer (some bytes)) (read_struct_from parser p)
  read_struct_from-HasBuffer = record {
    at = λ b h. ground (arith, read_struct_from_buffered bytes parser p b h);
  }

  pub read_struct_at-HasBuffer : Keeps (HasBuffer (some bytes)) (read_struct_at parser p)
  read_struct_at-HasBuffer = record {
    at = λ b h. ground (arith, read_struct_at_buffered bytes parser p b h);
  }
