-- ===== src/Binary/Reader/Errors.antt =====
-- The exceptions of the reads of `BinaryReader`, in src/addressablestools/binary.py, and of what
-- they are made of.
use addressables_tools_py.Prelude.{
  pos, negsuc, ℕ, ℤ, ◌≡◌, refl, Bool, true, false, ◌&&◌, [], ◌∷◌, length, leb, ltb, ◌==◌, ltb_ℤ,
  leb_ℤ, pos_part, neg_part, inl, inr, if◌then◌else◌,
}
use addressables_tools_py.Python.Exec.{
  PyError, Result, ok, err, Exec, addressables_tools_error, native_backend_unavailable_error,
  attribute_error, fuel_exhausted,
}
use addressables_tools_py.Python.Exec.Raises.{
  AtError, Raises, RaisesIn, RaisesIn-pure, RaisesIn-raise, RaisesIn-lift, RaisesIn-if,
  RaisesIn-bind,
}
use addressables_tools_py.Python.Result.Raises.{Raises-ok, Raises-err, Raises-if}
use addressables_tools_py.Python.Stream
use addressables_tools_py.Python.Stream.{Bytes, BytesIo, size_limit, seek_from, move_to}
use addressables_tools_py.Python.Struct.{Struct, unpack, size, uint16, int32, uint32}
use addressables_tools_py.Python.Codec.{decode_ascii, decode_utf16}
use addressables_tools_py.Binary.Reader.{
  on_stream, read_exact, read_bytes, read_byte, first_byte, read_struct, read_uint16, read_int32,
  read_uint32,
}
use addressables_tools_py.Binary.Strings.Refusals.{RaisesReadErrors, ascii-errors, utf16-errors}

-- An exception that faulty data can cause.
abbrev pub is_data_error : PyError → Bool
is_data_error addressables_tools_error = false
is_data_error native_backend_unavailable_error = false
is_data_error attribute_error = false
is_data_error fuel_exhausted = false
is_data_error _ = true

abbrev pub IsDataError : PyError → Type 0
IsDataError e = is_data_error e ≡ true

module _ {A : Type 0} where
  on_stream-errors :
      {m : Exec BytesIo A} → RaisesIn IsDataError m → RaisesIn IsDataError (on_stream m)
  on_stream-errors h = record { at = λ r. h.at r.stream }

pub unpack-errors : (fs : Struct) (bs : Bytes) → Raises IsDataError (unpack fs bs)
unfolding unpack
unpack-errors fs bs = Raises-if (length bs == size fs) (Raises-ok _) (Raises-err refl)

-- Either branch of a test.
at_if :
    {S A : Type 0} (b : Bool) (x y : Result A × S)
    → AtError IsDataError x.0
    → AtError IsDataError y.0
    → AtError IsDataError (if b then x else y).0
at_if true x y h k = h
at_if false x y h k = k

read-errors : (count : ℕ) → RaisesIn IsDataError (Stream.read count)
unfolding Stream.read
read-errors count = record { at = λ s. at_if (ltb count size_limit) _ _ tt refl }

move_to-errors : (p : ℤ) → RaisesIn IsDataError (move_to p)
move_to-errors p = record { at = λ s. at_if (leb_ℤ (pos size_limit) p) _ _ refl tt }

pub seek-errors : (p : ℤ) → RaisesIn IsDataError (on_stream (Stream.seek p (pos 0)))
unfolding Stream.seek
seek-errors p = on_stream-errors (record {
  at = λ s.
      at_if (ltb (pos_part p) size_limit && leb (neg_part p) size_limit) _ _
        (at_if (ltb_ℤ p (pos 0)) _ _ refl ((move_to-errors p).at s)) refl;
})

read_exact-errors : (count : ℤ) → RaisesIn IsDataError (read_exact count)
unfolding read_exact
read_exact-errors (negsuc n) = RaisesIn-raise refl
read_exact-errors (pos count) =
    RaisesIn-bind (on_stream-errors (read-errors count))
      λ found. RaisesIn-if (length found == count) (RaisesIn-pure found) (RaisesIn-raise refl)

pub read_bytes-errors : (count : ℤ) → RaisesIn IsDataError (read_bytes count)
unfolding read_bytes
read_bytes-errors count = read_exact-errors count

first_byte-errors : (bs : Bytes) → RaisesIn IsDataError (first_byte bs)
first_byte-errors [] = RaisesIn-raise refl
first_byte-errors (b ∷ bs) = RaisesIn-pure b

pub read_byte-errors : RaisesIn IsDataError read_byte
unfolding read_byte
read_byte-errors = RaisesIn-bind (read_exact-errors (pos 1)) first_byte-errors

read_struct-errors : (fs : Struct) → RaisesIn IsDataError (read_struct fs)
unfolding read_struct
read_struct-errors fs =
    RaisesIn-bind (read_exact-errors (pos (size fs)))
      λ found. RaisesIn-lift (unpack-errors fs found)

pub read_uint16-errors : RaisesIn IsDataError read_uint16
unfolding read_uint16
read_uint16-errors = RaisesIn-bind (read_struct-errors (uint16 ∷ [])) λ v. RaisesIn-pure v.0

pub read_uint32-errors : RaisesIn IsDataError read_uint32
unfolding read_uint32
read_uint32-errors = RaisesIn-bind (read_struct-errors (uint32 ∷ [])) λ v. RaisesIn-pure v.0

pub read_int32-errors : RaisesIn IsDataError read_int32
unfolding read_int32
read_int32-errors = RaisesIn-bind (read_struct-errors (int32 ∷ [])) λ v. RaisesIn-pure v.0

pub from_read_errors : {A : Type 0} (r : Result A) → RaisesReadErrors r → Raises IsDataError r
from_read_errors (ok a) h = Raises-ok a
from_read_errors (err e) (inl h) = Raises-err (rw h refl)
from_read_errors (err e) (inr h) = Raises-err (rw h refl)

pub ascii-Raises : (bs : Bytes) → Raises IsDataError (decode_ascii bs)
ascii-Raises bs = from_read_errors (decode_ascii bs) (ascii-errors bs)

pub utf16-Raises : (bs : Bytes) → Raises IsDataError (decode_utf16 bs)
utf16-Raises bs = from_read_errors (decode_utf16 bs) (utf16-errors bs)
