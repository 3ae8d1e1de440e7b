-- ===== src/Backend.antt =====
-- Backend selection: src/addressablestools/_native.py. The compiled extension is not part of the
-- model: what importing it gives is the record `Extension`.
pub mod Available
use addressables_tools_py.Prelude.{
  ℤ, pos, Bool, true, false, ◌&&◌, List, [], ◌∷◌, Option, none, some, if◌then◌else◌, leb_ℤ,
}
use addressables_tools_py.Python.Exec.{
  Result, ok, err, value_error, native_backend_unavailable_error,
}

-- The three names of backends, and any other text.
pub data Backend : Type 0 where
  auto python rust unknown : Backend

-- What the module finds when it imports the extension: the version, if it is an int, and the
-- entry points that it has.
pub record Extension {ℓ} (D : Type ℓ) : Type ℓ where
  pub api_version : Option ℤ
  pub binary : Option D
  pub json : Option D
  pub registry : Option D
  pub registry_fast : Option D

-- The module's variables decode_resources, decode_json_resources, …, after the import.
pub record Decoders {ℓ} (D : Type ℓ) : Type ℓ where
  pub decode_resources : Option D
  pub decode_json_resources : Option D
  pub decode_registry_resources : Option D
  pub decode_registry_resources_fast : Option D
  pub load_error : Bool

module _ {ℓ} {D : Type ℓ} where
  abbrev pub no_decoders : Decoders D
  no_decoders = record {
    decode_resources = none;
    decode_json_resources = none;
    decode_registry_resources = none;
    decode_registry_resources_fast = none;
    load_error = true;
  }

  abbrev when : Bool → Option D → Option D
  when true d = d
  when false d = none

  abbrev of_version : ℤ → Extension D → Decoders D
  of_version version e =
      if leb_ℤ (pos 1) version && leb_ℤ version (pos 3)
      then record {
        decode_resources = e.binary;
        decode_json_resources = when (leb_ℤ (pos 2) version) e.json;
        decode_registry_resources = when (leb_ℤ (pos 3) version) e.registry;
        decode_registry_resources_fast = when (leb_ℤ (pos 3) version) e.registry_fast;
        load_error = false;
      }
      else no_decoders

  abbrev of_extension : Extension D → Option ℤ → Decoders D
  of_extension e none = no_decoders
  of_extension e (some version) = of_version version e

  -- The module's import block; `none` for an extension that cannot be imported.
  unfoldable pub load : Option (Extension D) → Decoders D
  load none = no_decoders
  load (some e) = of_extension e e.api_version

unfoldable pub validate_backend : Backend → Result (Unit {0})
validate_backend unknown = err value_error
validate_backend _ = ok tt

module _ {D : Type 0} where
  abbrev select_valid : Backend → Option D → Bool → Result (Option D)
  select_valid python decoder restricted = ok none
  select_valid rust decoder true = err native_backend_unavailable_error
  select_valid backend decoder true = ok none
  select_valid rust none false = err native_backend_unavailable_error
  select_valid backend decoder false = ok decoder

  abbrev after : Result (Unit {0}) → Result (Option D) → Result (Option D)
  after (ok _) t = t
  after (err x) t = err x

  -- `restricted` tells whether a restriction is given.
  unfoldable pub select_decoder : Backend → Option D → Bool → Result (Option D)
  unfolding validate_backend
  select_decoder backend decoder restricted =
      after (validate_backend backend) (select_valid backend decoder restricted)

-- The two names of formats, and any other text.
pub data Format : Type 0 where
  binary json other_format : Format

abbrev installed {ℓ} : {D : Type ℓ} → Option D → List Backend
installed none = python ∷ []
installed (some d) = python ∷ rust ∷ []

unfoldable pub available_backends {ℓ} : {D : Type ℓ} → Decoders D → Format → Result (List Backend)
available_backends d binary = ok (installed d.decode_resources)
available_backends d json = ok (installed d.decode_json_resources)
available_backends d other_format = err value_error
