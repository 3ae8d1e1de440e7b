-- ===== src/Python/Sequence.antt =====
-- Indexing of Python's sequences: a negative index counts from the end.
use addressables_tools_py.Prelude.{
  ℕ, zero, suc, ◌-◌, ℤ, pos, negsuc, List, [], ◌∷◌, length, ltb, if◌then◌else◌, ltb_ℤ,
}
use addressables_tools_py.Python.Exec.{Result, ok, err, index_error}

module _ {ℓ} {A : Type ℓ} where
  abbrev pub nth : List A → ℕ → Result A
  nth [] i = err index_error
  nth (x ∷ xs) zero = ok x
  nth (x ∷ xs) (suc i) = nth xs i

  -- values[index]
  abbrev pub get_item : List A → ℤ → Result A
  get_item values (pos i) = nth values i
  get_item values (negsuc i) =
      if ltb i (length values) then nth values (length values - 1 - i) else err index_error

-- min and max of integers that are given one by one
abbrev pub least : ℤ → List ℤ → ℤ
least m [] = m
least m (n ∷ ns) = least (if ltb_ℤ n m then n else m) ns

abbrev pub greatest : ℤ → List ℤ → ℤ
greatest m [] = m
greatest m (n ∷ ns) = greatest (if ltb_ℤ m n then n else m) ns
