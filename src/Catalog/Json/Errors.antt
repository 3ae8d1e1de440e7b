-- ===== src/Catalog/Json/Errors.antt =====
-- The exceptions of the parts of a JSON catalog.
use addressables_tools_py.Prelude.{
  ℕ, zero, suc, ◌+◌, ◌*◌, ℤ, pos, negsuc, refl, ◌==◌, List, [], ◌∷◌, Option, none, some, leb, ltb,
  length,
}
use addressables_tools_py.Python.Exec.{Result, ok, err}
use addressables_tools_py.Python.Exec.Raises.{Raises}
use addressables_tools_py.Python.Result.Raises.{Raises-ok, Raises-err, Raises-if, Raises-bind}
use addressables_tools_py.Python.Stream.{Bytes}
use addressables_tools_py.Python.Struct.{Struct, unpack_from, size, int32}
use addressables_tools_py.Python.Sequence.{nth, get_item}
use addressables_tools_py.Python.Base64.{
  b64decode, decode_group, is_ascii, Group, empty, first, second, third, at_end, sextet, completes,
  count_pad, advance, prepend,
}
use addressables_tools_py.Python.Codec.{Str}
use addressables_tools_py.Python.Text.{str_eq}
use addressables_tools_py.Python.Json.{
  Json, null, array, object, boolean, integer, float, text, Members, no_members, member,
}
use addressables_tools_py.Python.Json.Convert.{get_member}
use addressables_tools_py.Binary.Reader.Errors.{IsDataError}
use addressables_tools_py.Catalog.Json.Fields.{mapping_of, list_of, is_index, item_at}
use addressables_tools_py.Catalog.Json.Buckets.{
  natural, unpack_ints, read_entries, read_bucket_list, read_bucket_bytes, read_buckets,
}

nth-errors : {A : Type 0} (xs : List A) (n : ℕ) → Raises IsDataError (nth xs n)
nth-errors [] n = Raises-err refl
nth-errors (x ∷ xs) zero = Raises-ok x
nth-errors (x ∷ xs) (suc n) = nth-errors xs n

pub get_item-errors : {A : Type 0} (xs : List A) (i : ℤ) → Raises IsDataError (get_item xs i)
get_item-errors xs (pos n) = nth-errors xs n
get_item-errors xs (negsuc n) = Raises-if (ltb n (length xs)) (nth-errors xs _) (Raises-err refl)

pub item_at-errors : {A : Type 0} (xs : List A) (i : ℤ) → Raises IsDataError (item_at xs i)
unfolding item_at
item_at-errors xs i = Raises-if (is_index xs i) (get_item-errors xs i) (Raises-err refl)

pub unpack_from-errors :
    (fs : Struct) (bs : Bytes) (p : ℕ) → Raises IsDataError (unpack_from fs bs p)
unfolding unpack_from
unpack_from-errors fs bs p =
    Raises-if (leb (p + size fs) (length bs)) (Raises-ok _) (Raises-err refl)

prepend-errors :
    (g : Group) (v : ℕ) (r : Result Bytes)
    → Raises IsDataError r
    → Raises IsDataError (prepend g v r)
prepend-errors g v (ok bs) h = Raises-ok _
prepend-errors g v (err e) h = Raises-err h.at

at_end-errors : (g : Group) → Raises IsDataError (at_end g)
at_end-errors empty = Raises-ok []
at_end-errors (first _) = Raises-err refl
at_end-errors (second _) = Raises-err refl
at_end-errors (third _) = Raises-err refl

by_sextet :
    {A : Type 0} (o : Option ℕ) {r : Result A} {f : ℕ → Result A}
    → Raises IsDataError r
    → ((v : ℕ) → Raises IsDataError (f v))
    → Raises IsDataError (elim o [ none ↦ r | some v ↦ f v ])
by_sextet none h k = h
by_sextet (some v) h k = k v

group-errors : (g : Group) (pads : ℕ) (s : Str) → Raises IsDataError (decode_group g pads s)
unfolding decode_group
group-errors g pads [] = at_end-errors g
group-errors g pads (c ∷ s) =
    Raises-if (c == b'=')
      (Raises-if (completes g pads) (Raises-ok []) (group-errors g (count_pad g pads) s))
      (by_sextet (sextet c) (group-errors g pads s)
        λ v. prepend-errors g v _ (group-errors (advance g v) 0 s))

pub b64decode-errors : (s : Str) → Raises IsDataError (b64decode s)
unfolding b64decode
b64decode-errors s = Raises-if (is_ascii s) (group-errors empty 0 s) (Raises-err refl)

pub get_member-errors : (ms : Members) (name : Str) → Raises IsDataError (get_member ms name)
unfolding get_member
get_member-errors no_members name = Raises-err refl
get_member-errors (member n j ms) name =
    Raises-if (str_eq n name) (Raises-ok j) (get_member-errors ms name)

pub mapping_of-errors : (j : Json) → Raises IsDataError (mapping_of j)
mapping_of-errors (object ms) = Raises-ok ms
mapping_of-errors null = Raises-err refl
mapping_of-errors (boolean _) = Raises-err refl
mapping_of-errors (integer _) = Raises-err refl
mapping_of-errors (float _) = Raises-err refl
mapping_of-errors (text _) = Raises-err refl
mapping_of-errors (array _) = Raises-err refl

pub list_of-errors : (j : Json) → Raises IsDataError (list_of j)
list_of-errors (array js) = Raises-ok _
list_of-errors null = Raises-err refl
list_of-errors (boolean _) = Raises-err refl
list_of-errors (integer _) = Raises-err refl
list_of-errors (float _) = Raises-err refl
list_of-errors (text _) = Raises-err refl
list_of-errors (object _) = Raises-err refl

pub natural-errors : (n : ℤ) → Raises IsDataError (natural n)
natural-errors (pos n) = Raises-ok n
natural-errors (negsuc n) = Raises-err refl

entries-errors : (n : ℕ) (bs : Bytes) (p : ℕ) → Raises IsDataError (read_entries n bs p)
unfolding read_entries unpack_ints
entries-errors n bs p =
    Raises-if (n == 1) (Raises-bind (unpack_from-errors (int32 ∷ []) bs p) λ found. Raises-ok _)
      (Raises-if (leb (p + n * 4) (length bs)) (Raises-ok _) (Raises-err refl))

bucket_list-errors : (n : ℕ) (bs : Bytes) (p : ℕ) → Raises IsDataError (read_bucket_list n bs p)
unfolding read_bucket_list
bucket_list-errors zero bs p = Raises-ok _
bucket_list-errors (suc n) bs p =
    Raises-bind (unpack_from-errors (int32 ∷ int32 ∷ []) bs p) λ found.
      Raises-bind (natural-errors found.0) λ offset. Raises-bind (natural-errors found.1.0) λ count.
        Raises-bind (entries-errors count bs (p + 8))
          λ entries. Raises-bind (bucket_list-errors n bs (p + 8 + count * 4)) λ rest. Raises-ok _

pub read_buckets-errors : (s : Str) → Raises IsDataError (read_buckets s)
unfolding read_buckets read_bucket_bytes
read_buckets-errors s = Raises-bind (b64decode-errors s) λ bs.
    Raises-bind (unpack_from-errors (int32 ∷ []) bs 0)
      λ found. Raises-bind (natural-errors found.0) λ count. bucket_list-errors count bs 4
