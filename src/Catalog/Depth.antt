-- ===== src/Catalog/Depth.antt =====
-- How many nested calls `_resource_location_from_binary` makes of itself: as many as the dependencies
-- are deep.
use addressables_tools_py.Prelude.{
  ℕ, zero, suc, ◌≤◌, ℤ, pos, List, All, Option, ◌≡◌, refl, ◌∙◌, ap, sym, ◌==◌, if◌then◌else◌, inl,
  inr, arith, Option-cases, ◌∷◌, [],
}
use mathlib.Core.Path.{subst}
use addressables_tools_py.Python.Exec.{Exec, Result, ok, err}
use addressables_tools_py.Python.Exec.Ensures.{Post, Ensures, Keeps-Ensures}
use addressables_tools_py.Python.Exec.Agree.{Agree, Agree-bind, Agree-first, Agree-for_each}
use addressables_tools_py.Python.Stream.{Bytes}
use addressables_tools_py.Python.Struct.{Values}
use addressables_tools_py.Python.Codec.{Str}
use addressables_tools_py.Models.Object.{codes}
use addressables_tools_py.Binary.Reader.{read_struct_from}
use addressables_tools_py.Binary.State.{CatalogBinaryReader, uint32_max, on_base, cached_object}
use addressables_tools_py.Binary.Arrays.{read_offset_array}
use addressables_tools_py.Binary.Arrays.Wire.{array_at, read_offset_array-array_at}
use addressables_tools_py.Binary.Stable.{AllSound, AllSound-IsStable}
use addressables_tools_py.Decoder.Registry.{Registry}
use addressables_tools_py.Decoder.Object.Kept.{DecodersKeep}
use addressables_tools_py.Catalog.Locations.{
  location_layout, location_by, resource_location_from_binary,
}
use addressables_tools_py.Catalog.Cycles.{location_at, read_location-location_at}
use addressables_tools_py.Catalog.Kept.{location-Keeps}

-- The offsets of the dependencies, by the offset of their list.
abbrev pub dependencies_at : Bytes → ℕ → Result (List ℕ)
dependencies_at bytes n = if n == uint32_max then ok [] else array_at bytes n

-- The location at the offset and all it depends on are at most so many deep.
unfoldable pub IsWithin : Bytes → ℕ → ℕ → Type 0
IsWithin bytes zero offset = ⊥
IsWithin bytes (suc depth) offset =
    (fields : Values location_layout) (found : List ℕ)
    → location_at bytes offset ≡ ok fields
    → dependencies_at bytes fields.1.1.1.0 ≡ ok found
    → All (IsWithin bytes depth) found

All-map : {P Q : ℕ → Type 0} → ((n : ℕ) → P n → Q n) → (ns : List ℕ) → All P ns → All Q ns
All-map f [] h = tt
All-map f (n ∷ ns) (h, hs) = (f n h, All-map f ns hs)

ok_injective : {A : Type 0} {a b : A} → ok a ≡ ok b → a ≡ b
ok_injective {A} {a} {b} h = cc

module _ (bytes : Bytes) where
  told :
      {A : Type 0} (t : Result A) (r : CatalogBinaryReader)
      → AllSound bytes r
      → Post (λ x r'. AllSound bytes r' × (t ≡ ok x)) (t, r)
  told (ok x) r h = (h, refl)
  told (err e) r h = tt

  fields-AllSound :
      (offset : ℕ)
      → Ensures
          (AllSound bytes)
          (on_base (read_struct_from location_layout (pos offset)))
          (λ fields r. AllSound bytes r × (location_at bytes offset ≡ ok fields))
  fields-AllSound offset = record {
    at = λ r h.
        rw (read_location-location_at bytes r.base offset h.strings.buffered)
          (told (location_at bytes offset) r h);
  }

  array-AllSound :
      (n : ℕ)
      → Ensures
          (AllSound bytes)
          (read_offset_array n)
          (λ found r. AllSound bytes r × (dependencies_at bytes n ≡ ok found))
  array-AllSound n = record {
    at = λ r h.
        let (cache, out, arrays) =
          read_offset_array-array_at bytes n r h.strings.buffered h.arrays in
        rw out (
          told (dependencies_at bytes n) (record r { object_cache = cache })
            (record {
              strings = record {
                buffered = h.strings.buffered;
                strings = h.strings.strings;
                tails = h.strings.tails;
              };
              arrays = arrays;
            }));
  }

-- What is known beside the state.
Agree-known :
    {S A : Type 0} {P : S → Type 0} {E : Type 0} {m n : Exec S A}
    → (E → Agree P m n)
    → Agree (λ s. P s × E) m n
Agree-known k = record { at = λ s h. (k h.1).at s h.0 }

module _ (bytes : Bytes) (hash : Option Str → ℤ) (registry : Option Registry)
    (keeps : DecodersKeep bytes (AllSound bytes) (AllSound-IsStable bytes) registry) where
  abbrev SameAt : ℕ → ℕ → ℕ → Type 0
  SameAt calls more offset =
      Agree (AllSound bytes) (resource_location_from_binary hash calls registry offset)
        (resource_location_from_binary hash more registry offset)

  location_by-Agree :
      (calls more depth offset : ℕ)
      → ((n : ℕ) → IsWithin bytes depth n → SameAt calls more n)
      → IsWithin bytes (suc depth) offset
      → Agree
          (AllSound bytes)
          (location_by hash (resource_location_from_binary hash calls registry) registry offset)
          (location_by hash (resource_location_from_binary hash more registry) registry offset)
  unfolding location_by IsWithin
  location_by-Agree calls more depth offset same within =
      Agree-bind (fields-AllSound bytes offset) λ fields. Agree-known λ there.
        Agree-bind (Keeps-Ensures ((AllSound-IsStable bytes).string fields.0 (codes "/")))
          λ primary_key.
            Agree-bind (Keeps-Ensures ((AllSound-IsStable bytes).string fields.1.0 (codes "/")))
              λ internal_id.
                Agree-bind
                  (Keeps-Ensures ((AllSound-IsStable bytes).string fields.1.1.0 (codes ".")))
                  λ provider_id. Agree-bind (array-AllSound bytes fields.1.1.1.0) λ found.
                    Agree-known λ listed. Agree-first _ (
                      Agree-for_each _ _ found
                        (location-Keeps bytes (AllSound bytes) (AllSound-IsStable bytes) hash
                          registry keeps calls)
                        (All-map same found (within fields found there listed)))

  enough-Agree :
      (depth calls more offset : ℕ)
      → IsWithin bytes depth offset
      → depth ≤ calls
      → depth ≤ more
      → SameAt calls more offset
  unfolding resource_location_from_binary IsWithin
  enough-Agree zero calls more offset within h k = absurd within
  enough-Agree (suc depth) zero more offset within h k = absurd (omega (arith, h))
  enough-Agree (suc depth) (suc calls) zero offset within h k = absurd (omega (arith, k))
  enough-Agree (suc depth) (suc calls) (suc more) offset within h k = record {
    at = λ r sound. elim (Option-cases (cached_object offset r)) [
      | inr (x, cached) ↦ rw (cached, resource_location_from_binary) refl
      | inl missing ↦
          rw (missing, resource_location_from_binary)
            ((location_by-Agree calls more depth offset
                (λ n near.
                  enough-Agree depth calls more n near (omega (arith, h)) (omega (arith, k)))
                within).at
              r sound)
    ];
  }

  -- If a location and what it depends on are at most so many deep, and the custom decoders keep the
  -- caches sound, a read of it from a reader with sound caches makes no more nested calls of
  -- _resource_location_from_binary than that: with so many allowed it does the same as with any larger
  -- number. What the other methods take of Python's stack is not counted.
  pub resource_location_from_binary-enough :
      (depth calls more offset : ℕ) (r : CatalogBinaryReader)
      → IsWithin bytes depth offset
      → depth ≤ calls
      → depth ≤ more
      → AllSound bytes r
      → resource_location_from_binary hash calls registry offset r
        ≡ resource_location_from_binary hash more registry offset r
  resource_location_from_binary-enough depth calls more offset r within h k sound =
      (enough-Agree depth calls more offset within h k).at r sound

-- Enough that it is so for what is there.
pub there-IsWithin :
    (bytes : Bytes) (depth offset : ℕ) (fields : Values location_layout) (found : List ℕ)
    → location_at bytes offset ≡ ok fields
    → dependencies_at bytes fields.1.1.1.0 ≡ ok found
    → All (IsWithin bytes depth) found
    → IsWithin bytes (suc depth) offset
unfolding IsWithin
there-IsWithin bytes depth offset fields found there listed deep fields' found' there' listed' =
    subst (All (IsWithin bytes depth))
      (ok_injective (
        sym listed
        ∙ ap (λ (f : Values location_layout). dependencies_at bytes f.1.1.1.0)
            (ok_injective (sym there ∙ there'))
        ∙ listed'))
      deep
