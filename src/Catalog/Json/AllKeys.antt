-- ===== src/Catalog/Json/AllKeys.antt =====
-- The whole list of keys, in `_read_keys` of src/addressablestools/catalog.py, against decode_v1 at
-- each offset.
use addressables_tools_py.Prelude.{
  ℕ, pos, ◌<◌, ◌≡◌, refl, List, [], ◌∷◌, Option, none, some, length, leb, inl, inr, Bool-cases, ltb,
  ltb→lt, ◌∙◌, ap, sym,
}
use addressables_tools_py.Python.Exec.{
  Result, ok, err, Exec, Result-cases, continue, pure, for_each, ◌>>=◌,
}
use addressables_tools_py.Python.Exec.Keeps.{Keeps, Keeps-lift, Keeps-bind, Keeps-if}
use addressables_tools_py.Python.Stream.{Bytes, size_limit}
use addressables_tools_py.Python.Json.{Builtins}
use addressables_tools_py.Python.Sequence.{get_item}
use addressables_tools_py.Models.Object.{Object}
use addressables_tools_py.Binary.Reader.{BinaryReader}
use addressables_tools_py.Decoder.Json.{decode_asset_bundle_request_options_json}
use addressables_tools_py.Decoder.Version1.Stored.{at_position}
use addressables_tools_py.Decoder.Version1.Keeps.{IsOver, seek-IsOver, decode_v1-IsOver}
use addressables_tools_py.Catalog.Json.Texts.{read_text_key}
use addressables_tools_py.Catalog.Json.Keys.{decode_at, read_key}
use addressables_tools_py.Catalog.Json.FastKeys.{
  value_of, decode_at-small, decode_at-large, read_key-decode_at,
}

-- `[f(x) for x in xs]`, where f may have no value
abbrev prepended {ℓ} : {B : Type ℓ} → Option B → Option (List B) → Option (List B)
prepended none rest = none
prepended (some y) none = none
prepended (some y) (some ys) = some (y ∷ ys)

unfoldable pub collect {ℓ} : {A B : Type ℓ} → (A → Option B) → List A → Option (List B)
collect f [] = some []
collect f (x ∷ xs) = prepended (f x) (collect f xs)

-- A reader over the bytes.
same :
    {bs : Bytes} {buffer : Option Bytes} (r : BinaryReader)
    → IsOver bs buffer r
    → r ≡ at_position bs r.stream.position buffer
same r h = rw (h.0, h.1) refl

module _ (b : Builtins) (bs : Bytes) (buffer : Option Bytes) where
  -- What decode_v1 gives for the value at an offset of a new reader.
  abbrev pub decoded : ℕ → Option Object
  decoded p = value_of (decode_at b p (at_position bs 0 buffer)).0

module _ (b : Builtins) (bs : Bytes) (buffer : Option Bytes) (small : length bs < size_limit) where
  decode_at-IsOver : (p : ℕ) → Keeps (IsOver bs buffer) (decode_at b p)
  unfolding decode_at
  decode_at-IsOver p =
      Keeps-bind (seek-IsOver bs buffer (pos p))
        λ _. decode_v1-IsOver bs buffer (decode_asset_bundle_request_options_json b)

  read_key-IsOver : (p : ℕ) → Keeps (IsOver bs buffer) (read_key b bs p)
  unfolding read_key
  read_key-IsOver p =
      Keeps-bind (Keeps-lift (get_item bs (pos p)))
        λ t. Keeps-if (leb t 1) (Keeps-lift (read_text_key t bs p)) (decode_at-IsOver p)

  -- Where the cursor stood does not matter.
  decode_at-anywhere :
      (p q : ℕ) → value_of (decode_at b p (at_position bs q buffer)).0 ≡ decoded b bs buffer p
  decode_at-anywhere p q = elim (Bool-cases (ltb p size_limit)) [
    | inl e ↦
        rw
          (
            decode_at-small b bs p q buffer (ltb→lt p size_limit e),
            decode_at-small b bs p 0 buffer (ltb→lt p size_limit e),
          )
          refl
    | inr e ↦ rw (decode_at-large b bs p q buffer e, decode_at-large b bs p 0 buffer e) refl
  ]

  key-decoded :
      (p : ℕ) (r : BinaryReader)
      → IsOver bs buffer r
      → value_of (read_key b bs p r).0 ≡ decoded b bs buffer p
  key-decoded p r h = rw (same r h) (
      read_key-decode_at b bs p r.stream.position buffer small
      ∙ decode_at-anywhere p r.stream.position)

  next :
      (out : Result Object × BinaryReader) (rest : Exec BinaryReader (List Object))
      (others : Option (List Object))
      → value_of (rest out.1).0 ≡ others
      → value_of (continue out.0 (λ y. rest >>= λ ys. pure (y ∷ ys)) out.1).0
        ≡ prepended (value_of out.0) others
  next (err e, s) rest others h = refl
  next (ok y, s) rest others h = elim (Result-cases (rest s).0) [
    | inl (ys, e) ↦ rw e (ap (prepended (some y)) (rw e at h))
    | inr (x, e) ↦ rw e (ap (prepended (some y)) (rw e at h))
  ]

  -- The loop over the key offsets gives the objects that decode_v1 gives for the values at these
  -- offsets, each read by a new reader of the bytes, or raises if it raises for one of them.
  pub read_keys-decode_v1 :
      (ps : List ℕ) (r : BinaryReader)
      → IsOver bs buffer r
      → value_of (for_each (read_key b bs) ps r).0 ≡ collect (decoded b bs buffer) ps
  unfolding collect for_each
  read_keys-decode_v1 [] r h = refl
  read_keys-decode_v1 (p ∷ ps) r h = rw (sym (key-decoded p r h)) (
      next (read_key b bs p r) (for_each (read_key b bs) ps) (collect (decoded b bs buffer) ps)
        (read_keys-decode_v1 ps (read_key b bs p r).1 ((read_key-IsOver p).at r h)))
