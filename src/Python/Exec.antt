-- ===== src/Python/Exec.antt =====
-- Exceptions (src/addressablestools/exceptions.py and the built-in ones that the program meets),
-- and code that changes an object and may raise. What was written before a raise stays written,
-- so the object comes back beside the error too. Messages of exceptions are not modelled.
pub mod Keeps
pub mod Ensures
pub mod Agree
pub mod Raises
use addressables_tools_py.Prelude.{◌≡◌, refl, ◌⊎◌, inl, inr, Bool, true, false, List, [], ◌∷◌}

pub data PyError : Type 0 where
  addressables_tools_error catalog_parse_error unsupported_catalog_version_error : PyError
  unsupported_serialized_object_error binary_read_error native_backend_unavailable_error : PyError
  value_error unicode_decode_error json_decode_error : PyError
  key_error index_error type_error attribute_error overflow_error : PyError
  struct_error recursion_error : PyError
  -- no exception of Python: a loop of the model has run out of rounds
  fuel_exhausted : PyError

-- isinstance(exc, CatalogParseError)
abbrev pub is_catalog_parse_error : PyError → Bool
is_catalog_parse_error catalog_parse_error = true
is_catalog_parse_error unsupported_catalog_version_error = true
is_catalog_parse_error unsupported_serialized_object_error = true
is_catalog_parse_error binary_read_error = true
is_catalog_parse_error _ = false

-- isinstance(exc, AddressablesToolsError)
abbrev pub is_addressables_tools_error : PyError → Bool
is_addressables_tools_error addressables_tools_error = true
is_addressables_tools_error native_backend_unavailable_error = true
is_addressables_tools_error e = is_catalog_parse_error e

-- isinstance(exc, ValueError)
abbrev pub is_value_error : PyError → Bool
is_value_error value_error = true
is_value_error unicode_decode_error = true
is_value_error json_decode_error = true
is_value_error _ = false

pub data Result {ℓ} (A : Type ℓ) : Type ℓ where
  ok : A → Result A
  err : PyError → Result A

abbrev pub Exec {ℓ} : Type ℓ → Type ℓ → Type ℓ
Exec S A = S → Result A × S

module _ {ℓ} {S A : Type ℓ} where
  abbrev pub pure : A → Exec S A
  pure a s = (ok a, s)

  abbrev pub raise : PyError → Exec S A
  raise e s = (err e, s)

  abbrev pub lift : Result A → Exec S A
  lift r s = (r, s)

  abbrev pub gets : (S → A) → Exec S A
  gets f s = (ok (f s), s)

pub Result-cases {ℓ} :
    {A : Type ℓ} (r : Result A) → ((a : A) × (r ≡ ok a)) ⊎ ((e : PyError) × (r ≡ err e))
Result-cases (ok a) = inl (a, refl)
Result-cases (err e) = inr (e, refl)

-- what an `except` clause makes of the exceptions
abbrev pub rescue {ℓ} : {A : Type ℓ} → (PyError → PyError) → Result A → Result A
rescue f (ok a) = ok a
rescue f (err e) = err (f e)

abbrev pub modify {ℓ} : {S : Type ℓ} → (S → S) → Exec S (Unit {ℓ})
modify f s = (ok tt, f s)

abbrev pub raise_if {ℓ} : {S : Type ℓ} → Bool → PyError → Exec S (Unit {ℓ})
raise_if true e s = (err e, s)
raise_if false e s = (ok tt, s)

module _ {ℓ} {S A B : Type ℓ} where
  abbrev pub continue : Result A → (A → Exec S B) → Exec S B
  continue (ok a) f s = f a s
  continue (err e) f s = (err e, s)

  infixl 10 ◌>>=◌ ◌>>◌
  abbrev pub ◌>>=◌ : Exec S A → (A → Exec S B) → Exec S B
  ◌>>=◌ m f s = let (r, s') = m s in continue r f s'

  abbrev pub ◌>>◌ : Exec S A → Exec S B → Exec S B
  m >> n = m >>= λ _. n

-- `[f(x) for x in xs]`, where f may raise
module _ {ℓ} {S A B : Type ℓ} where
  unfoldable pub for_each : (A → Exec S B) → List A → Exec S (List B)
  for_each f [] = pure []
  for_each f (x ∷ xs) = do y ← f x; ys ← for_each f xs; pure (y ∷ ys)
