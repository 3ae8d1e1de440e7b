-- ===== src/Prelude/Distinct.antt =====
-- Lists of numbers without repetition, and how long they can be below a bound.
use addressables_tools_py.Prelude.Tests.{◌==◌, Bool-cases, if◌then◌else◌}
use addressables_tools_py.Prelude.Lists.{length, All, contains}
use Prim.Native.Nat.{ℕ, zero, suc, ◌≤◌, ◌<◌}
use mathlib.Core.Path.{◌≡◌, refl}
use mathlib.Core.Logic.{inl, inr}
use mathlib.Core.Bool.{false}
use mathlib.Core.List.{List, [], ◌∷◌}
use native.Mathlib.Omega.{arith}

abbrev pub IsDistinct : List ℕ → Type 0
IsDistinct [] = Unit
IsDistinct (x ∷ xs) = (contains xs x ≡ false) × IsDistinct xs

remove : ℕ → List ℕ → List ℕ
remove n [] = []
remove n (x ∷ xs) = let rest = remove n xs in if x == n then rest else x ∷ rest

contains-remove : (n x : ℕ) (xs : List ℕ) → contains xs x ≡ false → contains (remove n xs) x ≡ false
unfolding remove
contains-remove n x [] h = refl
contains-remove n x (y ∷ xs) h = ground (arith, contains-remove n x xs)

remove-IsDistinct : (n : ℕ) (xs : List ℕ) → IsDistinct xs → IsDistinct (remove n xs)
unfolding remove
remove-IsDistinct n [] h = tt
remove-IsDistinct n (x ∷ xs) h = elim (Bool-cases (x == n)) [
  | inl e ↦ rw e (remove-IsDistinct n xs h.1)
  | inr e ↦ rw e (contains-remove n x xs h.0, remove-IsDistinct n xs h.1)
]

remove_absent : (n : ℕ) (xs : List ℕ) → contains xs n ≡ false → length (remove n xs) ≡ length xs
unfolding remove
remove_absent n [] h = refl
remove_absent n (x ∷ xs) h = ground (arith, remove_absent n xs)

length-remove : (n : ℕ) (xs : List ℕ) → IsDistinct xs → length xs ≤ suc (length (remove n xs))
unfolding remove
length-remove n [] h = omega arith
length-remove n (x ∷ xs) h = elim (Bool-cases (x == n)) [
  | inl e ↦ ground (arith, remove_absent n xs)
  | inr e ↦ ground (arith, length-remove n xs h.1)
]

All-remove : (n : ℕ) (xs : List ℕ) → All (λ x. x < suc n) xs → All (λ x. x < n) (remove n xs)
unfolding remove
All-remove n [] h = tt
All-remove n (x ∷ xs) h = ground (arith, All-remove n xs h.1)

-- Distinct numbers below a bound are at most as many as the bound.
pub pigeonhole : (n : ℕ) (xs : List ℕ) → All (λ x. x < n) xs → IsDistinct xs → length xs ≤ n
pigeonhole zero [] small distinct = omega arith
pigeonhole zero (x ∷ xs) small distinct = absurd (omega arith)
pigeonhole (suc n) xs small distinct = omega (
  arith,
  length-remove n xs distinct,
  pigeonhole n (remove n xs) (All-remove n xs small) (remove-IsDistinct n xs distinct),
)
