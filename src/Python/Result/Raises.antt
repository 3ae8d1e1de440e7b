-- ===== src/Python/Result/Raises.antt =====
-- The same for code that changes nothing.
use addressables_tools_py.Prelude.{Bool, true, false, List, [], ◌∷◌, if◌then◌else◌}
use addressables_tools_py.Python.Exec.{PyError, Result, ok, err, rescue}
use addressables_tools_py.Python.Exec.Raises.{AtError, Raises}
use addressables_tools_py.Python.Result.{◌>>=◌, for_each}

module _ {ℓ κ} {A : Type ℓ} {P : PyError → Type κ} where
  pub Raises-ok : (a : A) → Raises P (ok a)
  Raises-ok a = record { at = tt }

  pub Raises-err : {e : PyError} → P e → Raises {A = A} P (err e)
  Raises-err p = record { at = p }

  pub Raises-if :
      (b : Bool) {r s : Result A} → Raises P r → Raises P s → Raises P (if b then r else s)
  Raises-if true h k = h
  Raises-if false h k = k

module _ {ℓ κ} {A B : Type ℓ} {P : PyError → Type κ} where
  bind :
      (r : Result A) (f : A → Result B)
      → AtError P r
      → ((a : A) → Raises P (f a))
      → AtError P (r >>= f)
  bind (ok a) f h k = (k a).at
  bind (err e) f h k = h

  pub Raises-bind :
      {r : Result A} {f : A → Result B}
      → Raises P r
      → ((a : A) → Raises P (f a))
      → Raises P (r >>= f)
  Raises-bind {r} {f} h k = record { at = bind r f h.at k }

module _ {ℓ κ} {A B : Type ℓ} {P : PyError → Type κ} where
  pub Raises-for_each :
      {f : A → Result B} (xs : List A) → ((a : A) → Raises P (f a)) → Raises P (for_each f xs)
  unfolding for_each
  Raises-for_each [] k = Raises-ok []
  Raises-for_each (x ∷ xs) k =
      Raises-bind (k x) λ y. Raises-bind (Raises-for_each xs k) λ ys. Raises-ok (y ∷ ys)

-- What is known of exceptions before, and after they are replaced.
module _ {ℓ κ} {A : Type ℓ} {P : PyError → Type κ} where
  at_rescue :
      (Q : PyError → Type κ) (f : PyError → PyError) (r : Result A)
      → AtError P r
      → ((e : PyError) → P e → Q (f e))
      → AtError Q (rescue f r)
  at_rescue Q f (ok a) h k = tt
  at_rescue Q f (err e) h k = k e h

  pub Raises-rescue :
      {Q : PyError → Type κ} (f : PyError → PyError) {r : Result A}
      → Raises P r
      → ((e : PyError) → P e → Q (f e))
      → Raises Q (rescue f r)
  Raises-rescue {Q} f {r} h k = record { at = at_rescue Q f r h.at k }

  at_weaken :
      (Q : PyError → Type κ) (r : Result A)
      → AtError P r
      → ((e : PyError) → P e → Q e)
      → AtError Q r
  at_weaken Q (ok a) h k = tt
  at_weaken Q (err e) h k = k e h

  pub Raises-weaken :
      {Q : PyError → Type κ} {r : Result A} → Raises P r → ((e : PyError) → P e → Q e) → Raises Q r
  Raises-weaken {Q} {r} h k = record { at = at_weaken Q r h.at k }
