-- ===== src/Decoder/Registry/Rounds.antt =====
-- The loop of `_resolve` visits each alias once at most, so it ends within as many rounds.
use addressables_tools_py.Prelude.{
  ℕ, zero, suc, ◌≤◌, ◌<◌, true, false, List, [], ◌∷◌, none, some, length, if◌then◌else◌, ◌≡◌, inl,
  inr, arith, ap, ◌∙◌, Bool-cases,
}
use addressables_tools_py.Prelude.Dict
use addressables_tools_py.Prelude.Dict.{Dict}
use addressables_tools_py.Python.Exec.{ok, err, value_error}
use addressables_tools_py.Python.Codec.{Str}
use addressables_tools_py.Models.Object.{str_eq, str_eq_iff, str_eq_refl, str_eq_sym}
use addressables_tools_py.Decoder.Registry.{str_key, contains_str, resolve_loop}

-- The aliases that are not visited.
pub unvisited : Dict Str Str → List Str → ℕ
unvisited [] visited = 0
unvisited ((k, _) ∷ aliases) visited =
    let rest = unvisited aliases visited in if contains_str visited k then rest else suc rest

unvisited-le-length :
    (aliases : Dict Str Str) (visited : List Str) → unvisited aliases visited ≤ length aliases
unfolding unvisited
unvisited-le-length [] visited = omega arith
unvisited-le-length ((k, v) ∷ aliases) visited = ground (arith, unvisited-le-length aliases visited)

unvisited_mono :
    (aliases : Dict Str Str) (visited : List Str) (name : Str)
    → unvisited aliases (name ∷ visited) ≤ unvisited aliases visited
unfolding unvisited
unvisited_mono [] visited name = omega arith
unvisited_mono ((k, v) ∷ aliases) visited name = ground (arith, unvisited_mono aliases visited name)

-- Visiting a new alias leaves fewer.
unvisited-visit :
    (aliases : Dict Str Str) (visited : List Str) (name : Str) {target : Str}
    → Dict.get aliases name ≡ some target
    → contains_str visited name ≡ false
    → unvisited aliases (name ∷ visited) < unvisited aliases visited
unfolding unvisited Dict.get
unvisited-visit [] visited name h fresh = cc
unvisited-visit ((k, v) ∷ aliases) visited name h fresh = elim (Bool-cases (str_eq k name)) [
  | inl e ↦
      rw
        (
          ap (str_eq name) ((str_eq_iff k name).0 e) ∙ str_eq_refl name,
          ap (contains_str visited) ((str_eq_iff k name).0 e) ∙ fresh,
        )
        (omega (arith, unvisited_mono aliases visited name))
  | inr e ↦
      ground (arith, str_eq_sym name k, unvisited-visit aliases visited name (rw e at h) fresh)
]

-- One round, by what it finds.
module _ (aliases : Dict Str Str) (name : Str) (visited : List Str) where
  pub resolve_end :
      (fuel : ℕ) → Dict.get aliases name ≡ none → resolve_loop fuel aliases name visited ≡ ok name
  unfolding resolve_loop
  resolve_end zero e = rw (e, resolve_loop)
  resolve_end (suc fuel) e = rw (e, resolve_loop)

  module _ {target : Str} (e : Dict.get aliases name ≡ some target) where
    pub resolve_back :
        (fuel : ℕ)
        → contains_str visited name ≡ true
        → resolve_loop fuel aliases name visited ≡ err value_error
    unfolding resolve_loop
    resolve_back zero back = rw (e, back, resolve_loop)
    resolve_back (suc fuel) back = rw (e, back, resolve_loop)

    pub resolve_next :
        (fuel : ℕ)
        → contains_str visited name ≡ false
        → resolve_loop (suc fuel) aliases name visited
          ≡ resolve_loop fuel aliases target (name ∷ visited)
    unfolding resolve_loop
    resolve_next fuel fresh = rw (e, fresh, resolve_loop)

    pub no_rounds : unvisited aliases visited ≤ 0 → contains_str visited name ≡ false → ⊥
    no_rounds h fresh = absurd (omega (arith, unvisited-visit aliases visited name e fresh))

    pub next_rounds :
        (fuel : ℕ)
        → unvisited aliases visited ≤ suc fuel
        → contains_str visited name ≡ false
        → unvisited aliases (name ∷ visited) ≤ fuel
    next_rounds fuel h fresh = omega (arith, unvisited-visit aliases visited name e fresh)

pub unvisited_none : (aliases : Dict Str Str) → unvisited aliases [] ≤ length aliases
unvisited_none aliases = unvisited-le-length aliases []
