-- ===== src/Python.antt =====
-- What the program uses of Python and of its standard library: exceptions, `io.BytesIO`,
-- `struct` and the decoding of bytes to text.
pub mod Exec
pub mod Stream
pub mod Struct
pub mod Codec
pub mod Json
pub mod Result
pub mod Base64
pub mod Text
pub mod Sequence
