-- ===== src/Binary/Header/Range.antt =====
-- What a header that was read holds.
use addressables_tools_py.Prelude.{
  ℕ, ℤ, pos, negsuc, false, not, ◌&&◌, leb_ℤ, ◌≡◌, refl, ◌⊎◌, inl, inr, ◌==◌, arith, Bool-cases,
  if◌then◌else◌,
}
use addressables_tools_py.Python.Exec.{Exec, Result, ok, err, modify, pure}
use addressables_tools_py.Python.Exec.Ensures.{
  Post, Ensures, Ensures-bind, Ensures-pure, Ensures-weaken, Ensures-raise_if,
}
use addressables_tools_py.Models.Catalog.{int_eq}
use addressables_tools_py.Binary.Reader.{read_int32, read_uint32, BinaryReader}
use addressables_tools_py.Binary.State.{CatalogBinaryReader, uint32_max, on_base}
use addressables_tools_py.Binary.Header.{CatalogBinaryHeader, read_header}

abbrev pub InRange : ℤ → Type 0
InRange v = (v ≡ pos 1) ⊎ ((v ≡ pos 2) ⊎ (v ≡ pos 3))

in_range : (v : ℤ) → not (leb_ℤ (pos 1) v && leb_ℤ v (pos 3)) ≡ false → InRange v
in_range (pos n) h = ground arith
in_range (negsuc n) h = ground arith

of_base :
    {A : Type 0} (P : CatalogBinaryReader → Type 0) (r : CatalogBinaryReader)
    (out : Result A × BinaryReader)
    → P (record r { base = out.1 })
    → Post (λ _. P) (out.0, record r { base = out.1 })
of_base P r (ok a, b) h = h
of_base P r (err e, b) h = tt

-- What does not depend on the base class holds after its methods too.
on_base-Ensures :
    {A : Type 0} (P : CatalogBinaryReader → Type 0) (m : Exec BinaryReader A)
    → ((r : CatalogBinaryReader) (b : BinaryReader) → P r → P (record r { base = b }))
    → Ensures P (on_base m) (λ _. P)
on_base-Ensures P m k = record { at = λ r h. of_base P r (m r.base) (k r (m r.base).1 h) }

abbrev Known : ℤ → CatalogBinaryReader → Type 0
Known v r = (r.version ≡ v) × InRange v

read-Known :
    {A : Type 0} (v : ℤ) (m : Exec BinaryReader A) → Ensures (Known v) (on_base m) (λ _. Known v)
read-Known v m = on_base-Ensures (Known v) m (λ r b h. h)

set-Known :
    (v : ℤ)
    → Ensures
        (λ _. Unit {0} × (not (leb_ℤ (pos 1) v && leb_ℤ v (pos 3)) ≡ false))
        (modify (λ (r : CatalogBinaryReader). record r { version = v }))
        (λ _. Known v)
set-Known v = record { at = λ r h. (refl, in_range v h.1) }

abbrev NoBuild : ℤ → ℕ → ℕ → Type 0
NoBuild v keys build = v ≡ pos 1 → keys ≡ 0x20 → build ≡ uint32_max

no_build :
    (v : ℤ) (keys build : ℕ) → (int_eq v (pos 1) && keys == 0x20) ≡ false → NoBuild v keys build
no_build v keys build e one first = absurd (ground (arith, one, first))

build-Known :
    (v : ℤ) (keys : ℕ)
    → Ensures
        (Known v)
        (if int_eq v (pos 1) && keys == 0x20 then pure uint32_max else on_base read_uint32)
        (λ build r. Known v r × NoBuild v keys build)
build-Known v keys = elim (Bool-cases (int_eq v (pos 1) && keys == 0x20)) [
  | inl e ↦ rw e (record { at = λ r h. (h, λ _ _. refl) })
  | inr e ↦
      rw e (Ensures-weaken (read-Known v read_uint32) λ build r h. (h, no_build v keys build e))
]

abbrev pub Header : CatalogBinaryHeader → CatalogBinaryReader → Type 0
Header h r =
    InRange h.version
    × (r.version ≡ h.version)
    × ((h.version ≡ pos 1) → h.keys_offset ≡ 0x20 → h.build_result_hash_offset ≡ uint32_max)

-- A header that was read has a version from 1 to 3, which the reader then has too; with version 1
-- and keys that follow the header at once, it has no build result hash.
pub read_header-InRange : (r : CatalogBinaryReader) → Post Header (read_header r)
unfolding read_header
read_header-InRange r =
    (Ensures-bind (on_base-Ensures (λ _. Unit) read_int32 (λ _ _ _. tt)) λ magic.
        Ensures-bind (on_base-Ensures (λ _. Unit) read_int32 (λ _ _ _. tt)) λ version.
          Ensures-bind (Ensures-raise_if _ _) λ _. Ensures-bind (set-Known version) λ _.
            Ensures-bind (read-Known version read_uint32) λ keys.
              Ensures-bind (read-Known version read_uint32) λ id.
                Ensures-bind (read-Known version read_uint32) λ instance_provider.
                  Ensures-bind (read-Known version read_uint32) λ scene_provider.
                    Ensures-bind (read-Known version read_uint32) λ init_objects.
                      Ensures-bind (build-Known version keys) λ build.
                        Ensures-pure {Q = Header}
                          (record {
                            magic = magic;
                            version = version;
                            keys_offset = keys;
                            id_offset = id;
                            instance_provider_offset = instance_provider;
                            scene_provider_offset = scene_provider;
                            init_objects_array_offset = init_objects;
                            build_result_hash_offset = build;
                          })
                          λ s h. (h.0.1, h.0.0, h.1)).at
      r tt
