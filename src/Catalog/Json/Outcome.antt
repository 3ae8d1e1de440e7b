-- ===== src/Catalog/Json/Outcome.antt =====
-- The exceptions of parse_json_catalog, as its callers see them.
use addressables_tools_py.Prelude.{◌≡◌, refl, true, false, ◌⊎◌, Option, none, some, inl, inr, ℤ}
use addressables_tools_py.Python.Exec.{
  PyError, Result, err, Result-cases, rescue, is_catalog_parse_error, addressables_tools_error,
  native_backend_unavailable_error, value_error, attribute_error, recursion_error, fuel_exhausted,
}
use addressables_tools_py.Python.Exec.Raises.{Raises}
use addressables_tools_py.Python.Result.{◌>>=◌}
use addressables_tools_py.Python.Result.Raises.{
  Raises-ok, Raises-err, Raises-bind, Raises-rescue, Raises-weaken,
}
use addressables_tools_py.Python.Codec.{Str}
use addressables_tools_py.Python.Json.{
  Json, null, array, object, boolean, integer, float, text, Members, Builtins, RaisesAsDocumented,
}
use addressables_tools_py.Models.Object.{Object}
use addressables_tools_py.Models.Catalog.{ContentCatalogData}
use addressables_tools_py.Binary.Reader.Errors.{IsDataError}
use addressables_tools_py.Backend.{
  Backend, unknown, rust, auto, python, Decoders, select_decoder, validate_backend,
}
use addressables_tools_py.Catalog.Json.Resources.{Decoded, decode_json_resources}
use addressables_tools_py.Catalog.Json.Parse.{
  parse_error, json_error, JsonDecoder, decoder_or, catalog_of_members, of_root, parse_json_catalog,
}
use addressables_tools_py.Catalog.Json.Raised.{fields-errors, resources-errors}

-- The backend is required, and there is no entry point for it.
abbrev NoBackend : Backend → PyError → Type 0
NoBackend backend e = (e ≡ native_backend_unavailable_error) × (backend ≡ rust)

abbrev IsInner : Backend → PyError → Type 0
IsInner backend e = IsDataError e ⊎ NoBackend backend e

-- A ValueError: for an unknown backend, or the one that json.loads raised.
abbrev IsValueError : Result Json → Backend → PyError → Type 0
IsValueError loaded backend e =
    (e ≡ value_error) × ((backend ≡ unknown) ⊎ (loaded ≡ err value_error))

-- A CatalogParseError, Python's limit on nested calls, a ValueError as above or a missing backend.
abbrev pub IsRefusal : Result Json → Backend → PyError → Type 0
IsRefusal loaded backend e =
    (is_catalog_parse_error e ≡ true)
    ⊎ ((e ≡ recursion_error) ⊎ (IsValueError loaded backend e ⊎ NoBackend backend e))

-- The extension's entry point raises what faulty data can cause.
abbrev pub RaisesDataErrors : Option JsonDecoder → Type 0
RaisesDataErrors decoder =
    (d : JsonDecoder)
    → decoder ≡ some d
    → (catalog : ContentCatalogData) (raw : Members) → Raises IsDataError (d catalog raw)

parse_error-IsRefusal :
    (loaded : Result Json) (backend : Backend) (e : PyError)
    → IsDataError e
    → IsRefusal loaded backend (parse_error e)
parse_error-IsRefusal loaded backend addressables_tools_error h = absurd cc
parse_error-IsRefusal loaded backend native_backend_unavailable_error h = absurd cc
parse_error-IsRefusal loaded backend attribute_error h = absurd cc
parse_error-IsRefusal loaded backend fuel_exhausted h = absurd cc
parse_error-IsRefusal loaded backend recursion_error h = inr (inl refl)
parse_error-IsRefusal loaded backend _ h = inl refl

inner-IsRefusal :
    (loaded : Result Json) (backend : Backend) (e : PyError)
    → IsInner backend e
    → IsRefusal loaded backend (parse_error e)
inner-IsRefusal loaded backend e (inl h) = parse_error-IsRefusal loaded backend e h
inner-IsRefusal loaded backend e (inr (here, required)) = rw here (inr (inr (inr (refl, required))))

validate-errors :
    (loaded : Result Json) (backend : Backend)
    → Raises (IsRefusal loaded backend) (validate_backend backend)
unfolding validate_backend
validate-errors loaded unknown = Raises-err (inr (inr (inl (refl, inl refl))))
validate-errors loaded auto = Raises-ok tt
validate-errors loaded python = Raises-ok tt
validate-errors loaded rust = Raises-ok tt

module _ (b : Builtins) (documented : RaisesAsDocumented b) (hash : Option Str → ℤ)
    (text_of_object : Object → Str) where
  load-errors :
      (backend : Backend) (s : Str)
      → Raises (IsRefusal (b.loads s) backend) (rescue json_error (b.loads s))
  load-errors backend s = elim (Result-cases (b.loads s)) [
    | inl (j, e) ↦ rw e (Raises-ok j)
    | inr (x, e) ↦ elim (documented.loads_raises s x e) [
      | inl here ↦ rw (e, here) (Raises-err (inl refl))
      | inr (inl here) ↦ rw (e, here) (Raises-err (inr (inl refl)))
      | inr (inr here) ↦ rw (e, here) (Raises-err (inr (inr (inl (refl, inr refl)))))
    ]
  ]

  -- What is done with the table that the decoder gives.
  module _ {A : Type 0} (backend : Backend) {k : Decoded → Result A}
      (k-raises : (found : Decoded) → Raises (IsInner backend) (k found)) where
    python-errors :
        (catalog : ContentCatalogData) (raw : Members)
        → Raises (IsInner backend) (decode_json_resources b hash text_of_object catalog raw >>= k)
    python-errors catalog raw =
        Raises-bind
          (Raises-weaken (resources-errors b documented hash text_of_object catalog raw) λ e. inl)
          k-raises

    decoder-errors :
        (decoder : Option JsonDecoder)
        → RaisesDataErrors decoder
        → (catalog : ContentCatalogData) (raw : Members)
        → Raises (IsInner backend) (decoder_or b hash text_of_object decoder catalog raw >>= k)
    decoder-errors none h catalog raw = python-errors catalog raw
    decoder-errors (some d) h catalog raw =
        Raises-bind (Raises-weaken (h d refl catalog raw) λ e. inl) k-raises

  -- Selection gives the entry point or none.
  select-errors :
      {A : Type 0} (backend : Backend) (decoder : Option JsonDecoder) (k : Decoded → Result A)
      → ((found : Decoded) → Raises (IsInner backend) (k found))
      → RaisesDataErrors decoder
      → (catalog : ContentCatalogData) (raw : Members)
      → Raises (IsInner backend) (
          select_decoder backend decoder false >>= λ d.
          decoder_or b hash text_of_object d catalog raw >>= k)
  unfolding select_decoder validate_backend
  select-errors unknown decoder k l h catalog raw = Raises-err (inl refl)
  select-errors python decoder k l h catalog raw = python-errors python l catalog raw
  select-errors rust none k l h catalog raw = Raises-err (inr (refl, refl))
  select-errors rust (some d) k l h catalog raw = decoder-errors rust l (some d) h catalog raw
  select-errors auto decoder k l h catalog raw = decoder-errors auto l decoder h catalog raw

  module _ (native : Decoders JsonDecoder) (backend : Backend)
      (sound : RaisesDataErrors native.decode_json_resources) where
    members-errors :
        (raw : Members)
        → Raises (IsInner backend) (catalog_of_members b hash text_of_object native backend raw)
    unfolding catalog_of_members
    members-errors raw =
        Raises-bind (Raises-weaken (fields-errors b documented raw) λ e. inl) λ catalog.
          select-errors backend native.decode_json_resources _ (λ found. Raises-ok _) sound catalog
            raw

    root-errors :
        (loaded : Result Json) (j : Json)
        → Raises (IsRefusal loaded backend) (of_root b hash text_of_object native backend j)
    root-errors loaded (object raw) =
        Raises-rescue parse_error (members-errors raw) (inner-IsRefusal loaded backend)
    root-errors loaded null = Raises-err (inl refl)
    root-errors loaded (boolean _) = Raises-err (inl refl)
    root-errors loaded (integer _) = Raises-err (inl refl)
    root-errors loaded (float _) = Raises-err (inl refl)
    root-errors loaded (text _) = Raises-err (inl refl)
    root-errors loaded (array _) = Raises-err (inl refl)

    -- If the functions of Python raise what is documented, and the entry point of the extension what
    -- faulty data can cause, parse_json_catalog raises a CatalogParseError or a RecursionError, or a
    -- ValueError for an unknown backend or where json.loads raised it, or
    -- NativeBackendUnavailableError for the Rust backend.
    pub parse_json_catalog-errors :
        (s : Str)
        → Raises
            (IsRefusal (b.loads s) backend)
            (parse_json_catalog b hash text_of_object native backend s)
    unfolding parse_json_catalog
    parse_json_catalog-errors s =
        Raises-bind (validate-errors (b.loads s) backend)
          λ _. Raises-bind (load-errors backend s) (root-errors (b.loads s))
