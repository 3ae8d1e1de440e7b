-- ===== src/Python/Exec/Ensures.antt =====
-- What holds of a value and the state beside it, when code that may raise returns.
use addressables_tools_py.Prelude.{◌≡◌, refl, Bool, true, false}
use addressables_tools_py.Python.Exec.{
  PyError, Result, ok, err, Exec, pure, raise_if, continue, ◌>>=◌,
}
use addressables_tools_py.Python.Exec.Keeps.{Keeps}

abbrev pub Post {ℓ κ} : {S A : Type ℓ} → (A → S → Type κ) → Result A × S → Type κ
Post Q (ok a, s) = Q a s
Post Q (err e, s) = Unit

-- From a state with `P`, `m` raises or returns a value and a state with `Q`.
pub record Ensures {ℓ κ} {S A : Type ℓ} (P : S → Type κ) (m : Exec S A) (Q : A → S → Type κ)
    : Type (ℓ ⊔ κ) where
  pub at : (s : S) → P s → Post Q (m s)

module _ {ℓ κ} {S A B : Type ℓ} {R : A → S → Type κ} {Q : B → S → Type κ} where
  continue-Ensures :
      (out : Result A × S) (f : A → Exec S B)
      → Post R out
      → ((a : A) → Ensures (R a) (f a) Q)
      → Post Q (continue out.0 f out.1)
  continue-Ensures (ok a, s) f h k = (k a).at s h
  continue-Ensures (err e, s) f h k = tt

  pub Ensures-bind :
      {P : S → Type κ} {m : Exec S A} {f : A → Exec S B}
      → Ensures P m R
      → ((a : A) → Ensures (R a) (f a) Q)
      → Ensures P (m >>= f) Q
  Ensures-bind {m} {f} h k = record { at = λ s p. continue-Ensures (m s) f (h.at s p) k }

-- A test that raises leaves its negation.
pub Ensures-raise_if {ℓ κ} :
    {S : Type ℓ} {P : S → Type κ} (b : Bool) (e : PyError)
    → Ensures P (raise_if b e) (λ _ s. P s × (b ≡ false))
Ensures-raise_if true e = record { at = λ s p. tt }
Ensures-raise_if false e = record { at = λ s p. (p, refl) }

module _ {ℓ κ} {S A : Type ℓ} {R Q : A → S → Type κ} where
  weaken : (out : Result A × S) → ((a : A) (s : S) → R a s → Q a s) → Post R out → Post Q out
  weaken (ok a, s) k h = k a s h
  weaken (err e, s) k h = tt

  pub Ensures-weaken :
      {P : S → Type κ} {m : Exec S A}
      → Ensures P m R
      → ((a : A) (s : S) → R a s → Q a s)
      → Ensures P m Q
  Ensures-weaken {m} h k = record { at = λ s p. weaken (m s) k (h.at s p) }

module _ {ℓ κ} {S A : Type ℓ} {Q : A → S → Type κ} where
  pub Ensures-pure : {P : S → Type κ} (a : A) → ((s : S) → P s → Q a s) → Ensures P (pure a) Q
  Ensures-pure a k = record { at = k }

module _ {ℓ} {S A : Type ℓ} where
  anything : (out : Result A × S) → Post (λ _ _. Unit {ℓ}) out
  anything (ok a, s) = tt
  anything (err e, s) = tt

  -- Nothing is known of what code leaves, whatever it is.
  pub Ensures-any : (m : Exec S A) → Ensures (λ _. Unit {ℓ}) m (λ _ _. Unit {ℓ})
  Ensures-any m = record { at = λ s p. anything (m s) }

module _ {ℓ κ} {S A : Type ℓ} where
  kept : (P : S → Type κ) (out : Result A × S) → P out.1 → Post (λ _. P) out
  kept P (ok a, s) h = h
  kept P (err e, s) h = tt

  pub Keeps-Ensures : {P : S → Type κ} {m : Exec S A} → Keeps P m → Ensures P m (λ _. P)
  Keeps-Ensures {m} k = record { at = λ s p. kept _ (m s) (k.at s p) }

  -- What is known beside the state.
  pub Ensures-known :
      {P : S → Type κ} {Q : A → S → Type κ} {E : Type κ} {m : Exec S A}
      → (E → Ensures P m Q)
      → Ensures (λ s. P s × E) m Q
  Ensures-known k = record { at = λ s h. (k h.1).at s h.0 }

module _ {ℓ} {S A : Type ℓ} where
  -- Code that is never reached.
  pub Ensures-never : {Q : A → S → Type 0} {m : Exec S A} → Ensures (λ _. ⊥) m Q
  Ensures-never = record { at = λ s h. absurd h }
