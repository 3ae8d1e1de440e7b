-- ===== src/Python/Result.antt =====
-- Code that may raise and changes nothing: its do blocks.
pub mod Raises
pub mod Returns
use addressables_tools_py.Prelude.{◌≡◌, refl, Bool, true, false, List, [], ◌∷◌}
use addressables_tools_py.Python.Exec.{PyError, Result, ok, err}

module _ {ℓ} {A B : Type ℓ} where
  infixl 10 ◌>>=◌ ◌>>◌
  abbrev pub ◌>>=◌ : Result A → (A → Result B) → Result B
  ok a >>= f = f a
  err e >>= f = err e

  abbrev pub ◌>>◌ : Result A → Result B → Result B
  m >> n = m >>= λ _. n

abbrev pub raise_if {ℓ} : Bool → PyError → Result (Unit {ℓ})
raise_if true e = err e
raise_if false e = ok tt

-- `[f(x) for x in xs]`, where f may raise
module _ {ℓ} {A B : Type ℓ} where
  unfoldable pub for_each : (A → Result B) → List A → Result (List B)
  for_each f [] = ok []
  for_each f (x ∷ xs) = do y ← f x; ys ← for_each f xs; ok (y ∷ ys)
