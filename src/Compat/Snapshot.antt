-- ===== src/Compat/Snapshot.antt =====
-- `CompatCatalog.Resources` of src/AddressablesTools.py.
use addressables_tools_py.Prelude.{ℕ, suc, List, [], ◌∷◌, none, some, if◌then◌else◌}
use addressables_tools_py.Prelude.Dict
use addressables_tools_py.Prelude.Dict.{Dict, nat_key}
use addressables_tools_py.Python.Exec.{Result, ok, err, type_error}
use addressables_tools_py.Python.Result.{◌>>=◌}
use addressables_tools_py.Models.Object.{Object}
use addressables_tools_py.Models.Catalog.{ContentCatalogData, Resources}
use addressables_tools_py.Compat.Values.{Legacy, wrap_legacy, legacy_key, legacy_is_hashable}

-- The wrapper of a location: its own identity, and the location that it stands for.
pub record Wrapper : Type 0 where
  pub identity : ℕ
  pub source : Object

-- The wrappers by the identity of the location, and the identity of the next wrapper.
pub record LocationCache : Type 0 where
  pub wrappers : Dict ℕ Wrapper
  pub next : ℕ

abbrev pub no_wrappers : LocationCache
no_wrappers = record { wrappers = []; next = 0 }

abbrev pub Snapshot : Type 0
Snapshot = Dict Legacy (List Wrapper)

-- `id` is Python's identity of an object.
module _ (id : Object → ℕ) where
  abbrev pub new_wrapper : Object → LocationCache → Wrapper × LocationCache
  new_wrapper x c = (
    record { identity = c.next; source = x },
    record {
      wrappers = Dict.put c.wrappers (id x) (record { identity = c.next; source = x });
      next = suc c.next;
    },
  )

  -- The body of the inner loop.
  unfoldable pub wrap_location : Object → LocationCache → Wrapper × LocationCache
  wrap_location x c = elim (Dict.get c.wrappers (id x)) [
    | none ↦ new_wrapper x c
    | some wrapped ↦ (wrapped, c)
  ]

  unfoldable pub wrap_locations : List Object → LocationCache → List Wrapper × LocationCache
  unfolding wrap_location
  wrap_locations [] c = ([], c)
  wrap_locations (x ∷ xs) c =
      let (w, c') = wrap_location x c in let (ws, c'') = wrap_locations xs c' in (w ∷ ws, c'')

  -- resources[wrap_legacy(key)] = wrapped_locations
  abbrev pub set_wrapped : Snapshot → Object → List Wrapper → Result Snapshot
  set_wrapped snapshot key ws =
      if legacy_is_hashable (wrap_legacy key)
      then ok (Dict.put snapshot (wrap_legacy key) ws)
      else err type_error

  unfoldable pub fill_snapshot : Resources → Snapshot → LocationCache → Result Snapshot
  unfolding wrap_locations Dict.put
  fill_snapshot [] snapshot c = ok snapshot
  fill_snapshot ((key, locations) ∷ rest) snapshot c =
      let (ws, c') = wrap_locations locations c in
      set_wrapped snapshot key ws >>= λ snapshot'. fill_snapshot rest snapshot' c'

  -- CompatCatalog.Resources
  unfoldable pub resources_snapshot : ContentCatalogData → Result Snapshot
  unfolding fill_snapshot
  resources_snapshot catalog = fill_snapshot catalog.resources [] no_wrappers
