-- ===== src/Python/Stream.antt =====
-- `io.BytesIO`, as src/addressablestools/binary.py uses it: a byte string and a position.
-- Positions and counts beyond sys.maxsize raise OverflowError.
use addressables_tools_py.Prelude.{
  ℕ, zero, suc, ◌+◌, ℤ, pos, pos_part, ◌+ℤ◌, leb_ℤ, ◌&&◌, List, length, take, drop, leb, neg_part,
  if◌then◌else◌, ltb, ltb_ℤ,
}
use addressables_tools_py.Python.Exec.{ok, err, Exec, value_error, overflow_error}

abbrev pub Bytes : Type 0
Bytes = List ℕ

-- data[start:start + count]
abbrev pub slice : ℕ → ℕ → Bytes → Bytes
slice start count bs = take count (drop start bs)

-- sys.maxsize + 1
abbrev pub size_limit : ℕ
size_limit = 9223372036854775808

pub record BytesIo : Type 0 where
  pub content : Bytes
  pub position : ℕ

-- BytesIO(data)
abbrev pub open_bytes : Bytes → BytesIo
open_bytes bs = record { content = bs; position = 0 }

-- Moves to a position that is not negative, and to 0 for a negative one.
abbrev pub move_to : ℤ → Exec BytesIo (Unit {0})
move_to p s =
    if leb_ℤ (pos size_limit) p
    then (err overflow_error, s)
    else (ok tt, record s { position = pos_part p })

-- From the start, the position or the end; any other origin is an error.
abbrev pub seek_from : ℤ → ℤ → Exec BytesIo (Unit {0})
seek_from p (pos zero) s = if ltb_ℤ p (pos 0) then (err value_error, s) else move_to p s
seek_from p (pos (suc zero)) s = move_to (p +ℤ pos s.position) s
seek_from p (pos (suc (suc zero))) s = move_to (p +ℤ pos (length s.content)) s
seek_from p _ s = (err value_error, s)

-- stream.seek(position, whence)
unfoldable pub seek : ℤ → ℤ → Exec BytesIo (Unit {0})
seek p whence s =
    if ltb (pos_part p) size_limit && leb (neg_part p) size_limit
    then seek_from p whence s
    else (err overflow_error, s)

-- stream.read(count) for a count that is not negative; the position moves by what was there.
unfoldable pub read : ℕ → Exec BytesIo Bytes
read count s =
    let found = slice s.position count s.content in
    if ltb count size_limit
    then (ok found, record s { position = s.position + length found })
    else (err overflow_error, s)
