-- ===== src/Backend/Available.antt =====
-- Which entry points of the extension are used: the import block of src/addressablestools/_native.py.
use addressables_tools_py.Prelude.{pos, some, ◌≡◌, ◌↔◌, ◌⊎◌, arith}
use addressables_tools_py.Backend.{Extension, load}

module _ {D : Type 0} where
  -- Only an extension of version 1 to 3 is used: its decoder of JSON from version 2 on, that for a
  -- registry with version 3.
  pub load_lem :
      (e : Extension D) (d : D)
      → (((load (some e)).decode_resources ≡ some d) ↔ (
          (e.binary ≡ some d)
          × ((e.api_version ≡ some (pos 1))
              ⊎ ((e.api_version ≡ some (pos 2)) ⊎ (e.api_version ≡ some (pos 3))))))
        × (((load (some e)).decode_json_resources ≡ some d) ↔ (
            (e.json ≡ some d) × ((e.api_version ≡ some (pos 2)) ⊎ (e.api_version ≡ some (pos 3)))))
        × (((load (some e)).decode_registry_resources ≡ some d)
            ↔ ((e.registry ≡ some d) × (e.api_version ≡ some (pos 3))))
  unfolding load
  load_lem e d = ground arith
