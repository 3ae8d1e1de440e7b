-- ===== src/Python/Exec/Keeps.antt =====
-- Invariants of code that may raise, with a rule for each way to build it.
use addressables_tools_py.Prelude.{Bool, true, false, List, [], ◌∷◌, if◌then◌else◌}
use addressables_tools_py.Python.Exec.{
  PyError, Result, ok, err, Exec, pure, raise, lift, gets, raise_if, continue, ◌>>=◌, for_each,
}

-- `m` keeps `P`, whether it returns or raises.
pub record Keeps {ℓ κ} {S A : Type ℓ} (P : S → Type κ) (m : Exec S A) : Type (ℓ ⊔ κ) where
  pub at : (s : S) → P s → P (m s).1

module _ {ℓ κ} {S A : Type ℓ} {P : S → Type κ} where
  pub Keeps-pure : (a : A) → Keeps P (pure a)
  Keeps-pure a = record { at = λ s h. h }

  pub Keeps-raise : (e : PyError) → Keeps P (raise {A = A} e)
  Keeps-raise e = record { at = λ s h. h }

  pub Keeps-lift : (r : Result A) → Keeps P (lift r)
  Keeps-lift r = record { at = λ s h. h }

  pub Keeps-gets : (f : S → A) → Keeps P (gets f)
  Keeps-gets f = record { at = λ s h. h }

pub Keeps-raise_if {ℓ κ} :
    {S : Type ℓ} {P : S → Type κ} (b : Bool) (e : PyError) → Keeps P (raise_if b e)
Keeps-raise_if true e = record { at = λ s h. h }
Keeps-raise_if false e = record { at = λ s h. h }

module _ {ℓ κ} {S A B : Type ℓ} {P : S → Type κ} where
  continue-keeps :
      (r : Result A) (f : A → Exec S B)
      → ((a : A) → Keeps P (f a))
      → (s : S) → P s
      → P (continue r f s).1
  continue-keeps (ok a) f k s h = (k a).at s h
  continue-keeps (err e) f k s h = h

  pub Keeps-bind :
      {m : Exec S A} {f : A → Exec S B} → Keeps P m → ((a : A) → Keeps P (f a)) → Keeps P (m >>= f)
  Keeps-bind {m} {f} k l = record { at = λ s h. continue-keeps (m s).0 f l (m s).1 (k.at s h) }

  -- An invariant that the first part gives, and the second keeps.
  pub after-Keeps :
      (m : Exec S A) {f : A → Exec S B} (s : S)
      → P (m s).1
      → ((a : A) → Keeps P (f a))
      → P ((m >>= f) s).1
  after-Keeps m {f} s h k = continue-keeps (m s).0 f k (m s).1 h

module _ {ℓ κ} {S A B : Type ℓ} {P : S → Type κ} where
  pub Keeps-for_each :
      {f : A → Exec S B} (xs : List A) → ((a : A) → Keeps P (f a)) → Keeps P (for_each f xs)
  unfolding for_each
  Keeps-for_each [] k = record { at = λ s h. h }
  Keeps-for_each (x ∷ xs) k =
      Keeps-bind (k x) λ y. Keeps-bind (Keeps-for_each xs k) λ ys. Keeps-pure (y ∷ ys)

module _ {ℓ κ} {S A : Type ℓ} {P : S → Type κ} where
  pub Keeps-if : (b : Bool) {m n : Exec S A} → Keeps P m → Keeps P n → Keeps P (if b then m else n)
  Keeps-if true h k = h
  Keeps-if false h k = k

abbrev pub AtValue {ℓ κ} : {A : Type ℓ} → (A → Type κ) → Result A → Type κ
AtValue Q (ok a) = Q a
AtValue Q (err e) = Unit

-- `m` keeps `P`, whether it returns or raises, and a value that it returns has `Q`.
pub record Makes {ℓ κ} {S A : Type ℓ} (P : S → Type κ) (Q : A → Type κ) (m : Exec S A)
    : Type (ℓ ⊔ κ) where
  pub at : (s : S) → P s → P (m s).1 × AtValue Q (m s).0

module _ {ℓ κ} {S A B : Type ℓ} {P : S → Type κ} where
  continue-Makes :
      {Q : B → Type κ} (r : Result A) (f : A → Exec S B)
      → ((a : A) → Makes P Q (f a))
      → (s : S) → P s
      → P (continue r f s).1 × AtValue Q (continue r f s).0
  continue-Makes (ok a) f k s h = (k a).at s h
  continue-Makes (err e) f k s h = (h, tt)

  pub Makes-bind :
      {Q : B → Type κ} {m : Exec S A} {f : A → Exec S B}
      → Keeps P m
      → ((a : A) → Makes P Q (f a))
      → Makes P Q (m >>= f)
  Makes-bind {Q} {m} {f} k l = record { at = λ s h. continue-Makes (m s).0 f l (m s).1 (k.at s h) }

  continue-of :
      {Q : A → Type κ} (r : Result A) (f : A → Exec S B)
      → ((a : A) → Q a → Keeps P (f a))
      → AtValue Q r
      → (s : S) → P s
      → P (continue r f s).1
  continue-of (ok a) f k q s h = (k a q).at s h
  continue-of (err e) f k q s h = h

  pub Keeps-bind_made :
      {Q : A → Type κ} {m : Exec S A} {f : A → Exec S B}
      → Makes P Q m
      → ((a : A) → Q a → Keeps P (f a))
      → Keeps P (m >>= f)
  Keeps-bind_made {Q} {m} {f} k l = record {
    at = λ s h. let (after, value) = k.at s h in continue-of (m s).0 f l value (m s).1 after;
  }

module _ {ℓ κ} {S A : Type ℓ} {P : S → Type κ} {Q : A → Type κ} where
  pub Makes-pure : (a : A) → Q a → Makes P Q (pure a)
  Makes-pure a q = record { at = λ s h. (h, q) }
