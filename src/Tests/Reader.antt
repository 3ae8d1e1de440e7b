-- ===== src/Tests/Reader.antt =====
-- Reads at absolute positions and of the header, on concrete bytes.
use addressables_tools_py.Prelude.{pos, [], ◌∷◌, ◌≡◌, arith}
use addressables_tools_py.Python.Exec.Ensures.{Post}
use addressables_tools_py.Python.Struct.{uint32, int32}
use addressables_tools_py.Binary.Reader.{read_struct_at, read_struct_from, read_bytes_at}
use addressables_tools_py.Binary.Reader.Streams.{streamed, buffered, reads_at-streamed}
use addressables_tools_py.Binary.Header.{read_header}
use addressables_tools_py.Binary.Header.Range.{Header, read_header-InRange}
use addressables_tools_py.Tests.Data.{over, chain_bytes, catalog_bytes}

reads_at-streamed_example :
    (read_struct_at (uint32 ∷ int32 ∷ []) (pos 16) (streamed chain_bytes 3) ≡ (
      (read_struct_at (uint32 ∷ int32 ∷ []) (pos 16) (buffered chain_bytes 3)).0,
      streamed chain_bytes 3,
    ))
    × ((read_struct_from (uint32 ∷ int32 ∷ []) (pos 16) (streamed chain_bytes 3)).0
        ≡ (read_struct_from (uint32 ∷ int32 ∷ []) (pos 16) (buffered chain_bytes 3)).0)
    × (read_bytes_at (pos 16) (pos 40) (streamed chain_bytes 3)
        ≡ ((read_bytes_at (pos 16) (pos 40) (buffered chain_bytes 3)).0, streamed chain_bytes 3))
reads_at-streamed_example =
    reads_at-streamed chain_bytes 3 16 (omega arith) (omega arith) (uint32 ∷ int32 ∷ []) 40
      (omega arith) (omega arith) (omega arith) (omega arith)

read_header-InRange_example : Post Header (read_header (over catalog_bytes))
read_header-InRange_example = read_header-InRange (over catalog_bytes)
