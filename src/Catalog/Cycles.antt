-- ===== src/Catalog/Cycles.antt =====
-- Locations whose first dependencies go round are never read: `_resource_location_from_binary`
-- calls itself until Python's stack is full.
use addressables_tools_py.Prelude.{
  ℕ, zero, suc, ◌+◌, ℤ, pos, false, List, ◌∷◌, Option, none, some, ◌≡◌, ◌≢◌, refl, sym, ap, ◌∙◌,
  ◌==◌, ltb, length, if◌then◌else◌, inl, inr, arith, Option-cases, Bool-cases,
}
use addressables_tools_py.Prelude.Dict
use addressables_tools_py.Prelude.Dict.{Dict, nat_key, nat_key-IsLawful, get-put}
use addressables_tools_py.Python.Exec.{
  Exec, Result, ok, err, Result-cases, binary_read_error, for_each,
}
use addressables_tools_py.Python.Exec.Keeps.{Keeps}
use addressables_tools_py.Python.Exec.Ensures.{
  Keeps-Ensures, Post, Ensures, Ensures-bind, Ensures-known, Ensures-never,
}
use addressables_tools_py.Python.Stream.{Bytes}
use addressables_tools_py.Python.Struct.{Values, unpack_from}
use addressables_tools_py.Python.Codec.{Str}
use addressables_tools_py.Models.Object.{Object, offsets, codes}
use addressables_tools_py.Binary.Reader.{BinaryReader, read_struct_from}
use addressables_tools_py.Binary.State.{
  CatalogBinaryReader, uint32_max, on_base, cached_object, not_none,
}
use addressables_tools_py.Binary.Strings.{read_encoded_string}
use addressables_tools_py.Binary.Strings.Sound.{IsSound}
use addressables_tools_py.Binary.Strings.Transparent.{read_encoded_string_transparent}
use addressables_tools_py.Binary.Arrays.{read_offset_array, as_list}
use addressables_tools_py.Binary.Arrays.Wire.{
  ArraysSound, array_at, fetch_offset_array-array_at, read_offset_array-array_at,
}
use addressables_tools_py.Decoder.Registry.{Registry}
use addressables_tools_py.Catalog.Locations.{
  location_layout, location_by, resource_location_from_binary,
}

-- The fields of the location at an offset.
unfoldable pub location_at : Bytes → ℕ → Result (Values location_layout)
location_at bytes offset =
    if ltb (length bytes) (offset + 28)
    then err binary_read_error
    else unpack_from location_layout bytes offset

pub read_location-location_at :
    (bytes : Bytes) (b : BinaryReader) (offset : ℕ)
    → b.buffer ≡ some bytes
    → read_struct_from location_layout (pos offset) b ≡ (location_at bytes offset, b)
unfolding read_struct_from location_at
read_location-location_at bytes b offset h = ground arith

-- The first dependency of each location of a set is in the set, and no list of dependencies has the
-- offset of one.
pub record GoesRound (bytes : Bytes) (C : ℕ → Type 0) : Type 0 where
  pub first :
      (offset : ℕ) (fields : Values location_layout)
      → C offset
      → location_at bytes offset ≡ ok fields
      → (next : ℕ) × (rest : List ℕ) × ((fields.1.1.1.0 == uint32_max) ≡ false)
        × (array_at bytes fields.1.1.1.0 ≡ ok (next ∷ rest))
        × C next
        × ((o : ℕ) → C o → o ≢ fields.1.1.1.0)

not_cached_array :
    (d : Dict ℕ Object) (n o : ℕ) (xs : List ℕ)
    → o ≢ n
    → Dict.get (Dict.put d n (offsets xs)) o ≡ Dict.get d o
not_cached_array d n o xs apart = ground (arith, get-put nat_key-IsLawful d n o (offsets xs), apart)

-- Reading an array changes no object at another offset.
array_apart :
    (bytes : Bytes) (n o : ℕ) (r : CatalogBinaryReader)
    → r.base.buffer ≡ some bytes
    → o ≢ n
    → cached_object o (read_offset_array n r).1 ≡ cached_object o r
unfolding read_offset_array
array_apart bytes n o r buffered apart = elim (Bool-cases (n == uint32_max)) [
  | inl e ↦ rw (e, read_offset_array) refl
  | inr e ↦ elim (Option-cases (as_list (Dict.get r.object_cache n))) [
    | inr (xs, cached) ↦ rw (e, cached, read_offset_array) refl
    | inl missing ↦ elim (Result-cases (array_at bytes n)) [
      | inl (xs, found) ↦
          rw
            (
              e,
              missing,
              fetch_offset_array-array_at bytes r.base n buffered,
              found,
              read_offset_array,
            )
            (ap not_none (not_cached_array r.object_cache n o xs apart))
      | inr (x, failed) ↦
          rw
            (
              e,
              missing,
              fetch_offset_array-array_at bytes r.base n buffered,
              failed,
              read_offset_array,
            )
            refl
    ]
  ]
]

module _ (bytes : Bytes) (C : ℕ → Type 0) where
  -- Sound caches, with none of the locations in the set.
  pub record Pending (r : CatalogBinaryReader) : Type 0 where
    pub strings : IsSound bytes r
    pub arrays : ArraysSound bytes r.object_cache
    pub missing : (o : ℕ) → C o → cached_object o r ≡ none

  string-Pending :
      (encoded : ℕ) (separator : Str) → Keeps Pending (read_encoded_string encoded separator)
  string-Pending encoded separator = record {
    at = λ r h.
        let (_, sound, same) =
          read_encoded_string_transparent bytes encoded separator r h.strings in
        let objects = ap (λ (x : CatalogBinaryReader). x.object_cache) same in
        record {
          strings = sound;
          arrays = rw objects h.arrays;
          missing = λ o c. rw objects (h.missing o c);
        };
  }

  told :
      {A : Type 0} (t : Result A) (r : CatalogBinaryReader)
      → Pending r
      → Post (λ x r'. Pending r' × (t ≡ ok x)) (t, r)
  told (ok x) r h = (h, refl)
  told (err e) r h = tt

  fields-Pending :
      (offset : ℕ)
      → Ensures Pending
          (on_base (read_struct_from location_layout (pos offset)))
          (λ fields r. Pending r × (location_at bytes offset ≡ ok fields))
  fields-Pending offset = record {
    at = λ r h.
        rw (read_location-location_at bytes r.base offset h.strings.buffered)
          (told (location_at bytes offset) r h);
  }

  array-Pending :
      (n : ℕ) (xs : List ℕ)
      → ((n == uint32_max) ≡ false)
      → array_at bytes n ≡ ok xs
      → ((o : ℕ) → C o → o ≢ n)
      → Ensures Pending (read_offset_array n) (λ ys r. Pending r × (ys ≡ xs))
  array-Pending n xs real found apart = record {
    at = λ r h.
        let (cache, out, arrays) =
          read_offset_array-array_at bytes n r h.strings.buffered h.arrays in
        rw (out, real, found)
          (
            record {
              strings = record {
                buffered = h.strings.buffered;
                strings = h.strings.strings;
                tails = h.strings.tails;
              };
              arrays = arrays;
              missing = λ o c.
                  ap (λ (x : Result (List ℕ) × CatalogBinaryReader). cached_object o x.1) (sym out)
                  ∙ array_apart bytes n o r h.strings.buffered (apart o c)
                  ∙ h.missing o c;
            },
            refl,
          );
  }

  module _ (goes : GoesRound bytes C) (hash : Option Str → ℤ) (registry : Option Registry) where
    -- The list of dependencies is never read to its end.
    dependencies-raise :
        (read : ℕ → Exec CatalogBinaryReader Object) (next : ℕ) (rest xs : List ℕ)
        → Ensures Pending (read next) (λ _ _. ⊥)
        → Ensures (λ r. Pending r × (xs ≡ next ∷ rest)) (for_each read xs) (λ _ _. ⊥)
    unfolding for_each
    dependencies-raise read next rest xs k = record {
      at = λ r h. rw (h.1, for_each) ((Ensures-bind k λ _. Ensures-never).at r h.0);
    }

    location_by-raises :
        (read : ℕ → Exec CatalogBinaryReader Object)
        → ((o : ℕ) → C o → Ensures Pending (read o) (λ _ _. ⊥))
        → (offset : ℕ) → C offset
        → Ensures Pending (location_by hash read registry offset) (λ _ _. ⊥)
    unfolding location_by
    location_by-raises read k offset c = Ensures-bind (fields-Pending offset) λ fields.
        Ensures-known λ e.
          let (next, rest, real, found, c', apart) = goes.first offset fields c e in
          Ensures-bind (Keeps-Ensures (string-Pending fields.0 (codes "/"))) λ primary_key.
            Ensures-bind (Keeps-Ensures (string-Pending fields.1.0 (codes "/"))) λ internal_id.
              Ensures-bind (Keeps-Ensures (string-Pending fields.1.1.0 (codes "."))) λ provider_id.
                Ensures-bind (array-Pending fields.1.1.1.0 (next ∷ rest) real found apart) λ xs.
                  Ensures-bind (dependencies-raise read next rest xs (k next c'))
                    λ dependencies. Ensures-never

    -- If the first dependency of each location of a set is in the set, and no list of dependencies
    -- has the offset of one, a read of such a location raises, however many nested calls are allowed,
    -- from any reader with sound caches and none of them cached.
    pub resource_location_from_binary-raises :
        (calls offset : ℕ)
        → C offset
        → Ensures Pending (resource_location_from_binary hash calls registry offset) (λ _ _. ⊥)
    unfolding resource_location_from_binary
    resource_location_from_binary-raises zero offset c = record { at = λ r h. tt }
    resource_location_from_binary-raises (suc calls) offset c = record {
      at = λ r h.
          rw (h.missing offset c, resource_location_from_binary)
            ((location_by-raises _ (resource_location_from_binary-raises calls) offset c).at r h);
    }
