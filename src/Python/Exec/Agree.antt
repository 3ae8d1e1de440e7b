-- ===== src/Python/Exec/Agree.antt =====
-- Code that does the same, from the states with a property.
use addressables_tools_py.Prelude.{◌≡◌, refl, ap, ◌∙◌, List, [], ◌∷◌, All}
use addressables_tools_py.Python.Exec.{Result, ok, err, Exec, pure, continue, ◌>>=◌, for_each}
use addressables_tools_py.Python.Exec.Keeps.{Keeps}
use addressables_tools_py.Python.Exec.Ensures.{Post, Ensures, Keeps-Ensures}

-- From a state with `P`, both do the same.
pub record Agree {ℓ κ} {S A : Type ℓ} (P : S → Type κ) (m n : Exec S A) : Type (ℓ ⊔ κ) where
  pub at : (s : S) → P s → m s ≡ n s

module _ {ℓ κ} {S A B : Type ℓ} {R : A → S → Type κ} where
  continue-Agree :
      (out : Result A × S) {f g : A → Exec S B}
      → Post R out
      → ((a : A) → Agree (R a) (f a) (g a))
      → continue out.0 f out.1 ≡ continue out.0 g out.1
  continue-Agree (ok a, s) h k = (k a).at s h
  continue-Agree (err e, s) h k = refl

  -- What follows agrees where the first part leaves the state.
  pub Agree-bind :
      {P : S → Type κ} {m : Exec S A} {f g : A → Exec S B}
      → Ensures P m R
      → ((a : A) → Agree (R a) (f a) (g a))
      → Agree P (m >>= f) (m >>= g)
  Agree-bind {P} {m} h k = record { at = λ s p. continue-Agree (m s) (h.at s p) k }

module _ {ℓ κ} {S A B : Type ℓ} {P : S → Type κ} where
  pub Agree-first : {m n : Exec S A} (f : A → Exec S B) → Agree P m n → Agree P (m >>= f) (n >>= f)
  Agree-first {m} {n} f k = record {
    at = λ s p. ap (λ (out : Result A × S). continue out.0 f out.1) (k.at s p);
  }

module _ {ℓ κ} {S A : Type ℓ} {P : S → Type κ} where
  pub Agree-same : (m : Exec S A) → Agree P m m
  Agree-same m = record { at = λ s p. refl }

  pub Agree-trans : {m n o : Exec S A} → Agree P m n → Agree P n o → Agree P m o
  Agree-trans h k = record { at = λ s p. h.at s p ∙ k.at s p }

module _ {ℓ κ} {S A B : Type ℓ} {P : S → Type κ} where
  -- Two functions that agree on each element, of which the first keeps the property.
  pub Agree-for_each :
      (f g : A → Exec S B) (xs : List A)
      → ((a : A) → Keeps P (f a))
      → All (λ a. Agree P (f a) (g a)) xs
      → Agree P (for_each f xs) (for_each g xs)
  unfolding for_each
  Agree-for_each f g [] keeps same = Agree-same (pure [])
  Agree-for_each f g (x ∷ xs) keeps (same, rest) =
      Agree-trans
        (Agree-bind (Keeps-Ensures (keeps x)) λ y. Agree-first _ (Agree-for_each f g xs keeps rest))
        (Agree-first _ same)
