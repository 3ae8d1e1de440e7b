-- ===== src/Python/Exec/Raises.antt =====
-- Which exceptions code raises, with a rule for each way to build it.
use addressables_tools_py.Prelude.{Bool, true, false, List, [], ◌∷◌, if◌then◌else◌}
use addressables_tools_py.Python.Exec.{
  PyError, Result, ok, err, Exec, pure, raise, lift, raise_if, continue, ◌>>=◌, for_each,
}

abbrev pub AtError {ℓ κ} : {A : Type ℓ} → (PyError → Type κ) → Result A → Type κ
AtError P (ok a) = Unit
AtError P (err e) = P e

-- An exception of `r` has `P`.
pub record Raises {ℓ κ} {A : Type ℓ} (P : PyError → Type κ) (r : Result A) : Type (ℓ ⊔ κ) where
  pub at : AtError P r

-- So has an exception of `m`, whatever it starts from.
pub record RaisesIn {ℓ κ} {S A : Type ℓ} (P : PyError → Type κ) (m : Exec S A) : Type (ℓ ⊔ κ) where
  pub at : (s : S) → AtError P (m s).0

module _ {ℓ κ} {S A : Type ℓ} {P : PyError → Type κ} where
  pub RaisesIn-pure : (a : A) → RaisesIn {S = S} P (pure a)
  RaisesIn-pure a = record { at = λ s. tt }

  pub RaisesIn-raise : {e : PyError} → P e → RaisesIn {S = S} {A = A} P (raise e)
  RaisesIn-raise h = record { at = λ s. h }

  pub RaisesIn-lift : {r : Result A} → Raises P r → RaisesIn {S = S} P (lift r)
  RaisesIn-lift h = record { at = λ s. h.at }

  pub RaisesIn-if :
      (b : Bool) {m n : Exec S A} → RaisesIn P m → RaisesIn P n → RaisesIn P (if b then m else n)
  RaisesIn-if true h k = h
  RaisesIn-if false h k = k

module _ {ℓ κ} {S : Type ℓ} {P : PyError → Type κ} where
  pub RaisesIn-raise_if : (b : Bool) (e : PyError) → P e → RaisesIn {S = S} P (raise_if b e)
  RaisesIn-raise_if true e h = record { at = λ s. h }
  RaisesIn-raise_if false e h = record { at = λ s. tt }

module _ {ℓ κ} {S A B : Type ℓ} {P : PyError → Type κ} where
  continue-at :
      (r : Result A) (f : A → Exec S B) (s : S)
      → AtError P r
      → ((a : A) → RaisesIn P (f a))
      → AtError P (continue r f s).0
  continue-at (ok a) f s h k = (k a).at s
  continue-at (err e) f s h k = h

  pub RaisesIn-bind :
      {m : Exec S A} {f : A → Exec S B}
      → RaisesIn P m
      → ((a : A) → RaisesIn P (f a))
      → RaisesIn P (m >>= f)
  RaisesIn-bind {m} {f} h k = record { at = λ s. continue-at (m s).0 f (m s).1 (h.at s) k }

module _ {ℓ κ} {S A B : Type ℓ} {P : PyError → Type κ} where
  pub RaisesIn-for_each :
      {f : A → Exec S B} (xs : List A) → ((a : A) → RaisesIn P (f a)) → RaisesIn P (for_each f xs)
  unfolding for_each
  RaisesIn-for_each [] k = record { at = λ s. tt }
  RaisesIn-for_each (x ∷ xs) k =
      RaisesIn-bind (k x) λ y. RaisesIn-bind (RaisesIn-for_each xs k) λ ys. RaisesIn-pure (y ∷ ys)
