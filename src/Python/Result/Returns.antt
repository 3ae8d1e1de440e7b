-- ===== src/Python/Result/Returns.antt =====
-- What holds of the value, when code that may raise returns.
use addressables_tools_py.Prelude.{◌≡◌, refl, Bool, true, false, List, [], ◌∷◌, All, if◌then◌else◌}
use addressables_tools_py.Python.Exec.{PyError, Result, ok, err}
use addressables_tools_py.Python.Result.{◌>>=◌, for_each}

abbrev pub AtValue {ℓ κ} : {A : Type ℓ} → (A → Type κ) → Result A → Type κ
AtValue P (ok a) = P a
AtValue P (err e) = Unit

-- `r` raises, or its value has `P`.
pub record Returns {ℓ κ} {A : Type ℓ} (P : A → Type κ) (r : Result A) : Type (ℓ ⊔ κ) where
  pub at : AtValue P r

module _ {ℓ κ} {A : Type ℓ} {P : A → Type κ} where
  pub Returns-ok : {a : A} → P a → Returns P (ok a)
  Returns-ok h = record { at = h }

  pub Returns-err : (e : PyError) → Returns P (err e)
  Returns-err e = record { at = tt }

  pub Returns-if :
      (b : Bool) {r s : Result A} → Returns P r → Returns P s → Returns P (if b then r else s)
  Returns-if true h k = h
  Returns-if false h k = k

module _ {ℓ} {A : Type ℓ} where
  anything : (r : Result A) → AtValue (λ _. Unit {ℓ}) r
  anything (ok a) = tt
  anything (err e) = tt

  -- Nothing is known of the value.
  pub Returns-any : (r : Result A) → Returns (λ _. Unit {ℓ}) r
  Returns-any r = record { at = anything r }

  itself : (r : Result A) → AtValue (λ a. r ≡ ok a) r
  itself (ok a) = refl
  itself (err e) = tt

  -- It is the value.
  pub Returns-itself : (r : Result A) → Returns (λ a. r ≡ ok a) r
  Returns-itself r = record { at = itself r }

module _ {ℓ κ} {A B : Type ℓ} {P : A → Type κ} {Q : B → Type κ} where
  bind :
      (r : Result A) (f : A → Result B)
      → AtValue P r
      → ((a : A) → P a → Returns Q (f a))
      → AtValue Q (r >>= f)
  bind (ok a) f h k = (k a h).at
  bind (err e) f h k = tt

  pub Returns-bind :
      {r : Result A} {f : A → Result B}
      → Returns P r
      → ((a : A) → P a → Returns Q (f a))
      → Returns Q (r >>= f)
  Returns-bind {r} {f} h k = record { at = bind r f h.at k }

module _ {ℓ κ} {A B : Type ℓ} {P : B → Type κ} where
  pub Returns-for_each :
      {f : A → Result B} (xs : List A)
      → ((a : A) → Returns P (f a))
      → Returns (All P) (for_each f xs)
  unfolding for_each
  Returns-for_each [] k = Returns-ok tt
  Returns-for_each (x ∷ xs) k =
      Returns-bind (k x) λ y h. Returns-bind (Returns-for_each xs k) λ ys hs. Returns-ok (h, hs)

module _ {ℓ κ} {A : Type ℓ} {P Q : A → Type κ} where
  at_weaken : (r : Result A) → AtValue P r → ((a : A) → P a → Q a) → AtValue Q r
  at_weaken (ok a) h k = k a h
  at_weaken (err e) h k = tt

  pub Returns-weaken : {r : Result A} → Returns P r → ((a : A) → P a → Q a) → Returns Q r
  Returns-weaken {r} h k = record { at = at_weaken r h.at k }
