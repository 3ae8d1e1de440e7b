-- ===== src/Prelude/Dict.antt =====
-- Python's `dict` as an association list in insertion order. Writing to a key that is there keeps
-- the key and its place, and changes the value.
use mathlib.Core.Path.{◌≡◌, refl, ap}
use mathlib.Core.Logic.{◌↔◌, ◌⊎◌, inl, inr}
use mathlib.Core.Bool.{Bool, true, false}
use mathlib.Core.Option.{Option, none, some}
use mathlib.Core.List.{List, [], ◌∷◌}
use native.Mathlib.Omega.{arith}
use addressables_tools_py.Prelude.Tests.{if◌then◌else◌, ==_iff, ◌==◌, Bool-cases}
use Prim.Native.Nat.{ℕ}

-- What a type of keys gives: the equality by which a dictionary compares them.
pub record Key {ℓ} (K : Type ℓ) : Type ℓ where
  pub same : K → K → Bool

instance abbrev pub nat_key : Key ℕ
nat_key = record { same = ◌==◌ }

-- Keys are equal exactly when the test says so.
abbrev pub IsLawful {ℓ} : {K : Type ℓ} → Key K → Type ℓ
IsLawful {K} e = (a b : K) → (e.same a b ≡ true) ↔ (a ≡ b)

pub nat_key-IsLawful : IsLawful nat_key
nat_key-IsLawful = ==_iff

-- k in d, from what d.get(k) gives
abbrev pub is_some {ℓ} : {V : Type ℓ} → Option V → Bool
is_some none = false
is_some (some _) = true

abbrev pub Dict {ℓ κ} : Type ℓ → Type κ → Type (ℓ ⊔ κ)
Dict K V = List (K × V)

module _ {ℓ κ} {K : Type ℓ} {V : Type κ} ⦃e : Key K⦄ where
  -- d.get(k)
  unfoldable pub get : Dict K V → K → Option V
  get [] k = none
  get ((j, v) ∷ d) k = if e.same j k then some v else get d k

  -- d[k] = v
  unfoldable pub put : Dict K V → K → V → Dict K V
  put [] k v = (k, v) ∷ []
  put ((j, w) ∷ d) k v = if e.same j k then (j, v) ∷ d else (j, w) ∷ put d k v

  pub get-put :
      (law : IsLawful e) (d : Dict K V) (k j : K) (v : V)
      → get (put d k v) j ≡ (if e.same k j then some v else get d j)
  unfolding get put
  get-put law [] k j v = refl
  get-put law ((i, w) ∷ d) k j v = ground (arith, law i k, law i j, law k j, get-put law d k j v)

  -- What is read after a write was written, or was there before.
  pub get-put_cases :
      (law : IsLawful e) (d : Dict K V) (k j : K) (v w : V)
      → get (put d k v) j ≡ some w
      → ((k ≡ j) × (v ≡ w)) ⊎ (get d j ≡ some w)
  get-put_cases law d k j v w h = elim (Bool-cases (e.same k j)) [
    | inl here ↦ inl (
      (law k j).0 here,
      cc (get-put law d k j v, ap (λ (b : Bool). if b then some v else get d j) here),
    )
    | inr other ↦ inr (rw (get-put law d k j v, other) at h)
  ]
