-- ===== src/Decoder/Json/Errors.antt =====
-- The exceptions of decode_asset_bundle_request_options_json.
use addressables_tools_py.Prelude.{ℤ, pos, negsuc, ◌≡◌, refl, true, false, ◌==◌, inl, inr, ◌⊎◌}
use addressables_tools_py.Python.Exec.{PyError, Result, ok, err, value_error, Result-cases}
use addressables_tools_py.Python.Exec.Raises.{Raises}
use addressables_tools_py.Python.Result.Raises.{Raises-ok, Raises-err, Raises-if, Raises-bind}
use addressables_tools_py.Python.Codec.{Str}
use addressables_tools_py.Python.Json.{
  Json, null, boolean, integer, float, text, array, object, Members, no_members, member, Builtins,
  RaisesAsDocumented,
}
use addressables_tools_py.Python.Json.Convert.{to_int}
use addressables_tools_py.Models.Object.{codes}
use addressables_tools_py.Binary.Reader.Errors.{IsDataError}
use addressables_tools_py.Decoder.Json.{
  asset_load_mode_of, int_member, options_of_members, of_payload,
  decode_asset_bundle_request_options_json,
}

asset_load_mode_of-errors : (n : ℤ) → Raises IsDataError (asset_load_mode_of n)
asset_load_mode_of-errors (pos n) =
    Raises-if (n == 0) (Raises-ok _) (Raises-if (n == 1) (Raises-ok _) (Raises-err refl))
asset_load_mode_of-errors (negsuc n) = Raises-err refl

-- An exception that is one of two.
either :
    {A : Type 0} (r : Result A) (x y : PyError)
    → IsDataError x
    → IsDataError y
    → ((e : PyError) → r ≡ err e → (e ≡ x) ⊎ (e ≡ y))
    → Raises IsDataError r
either (ok a) x y h k l = Raises-ok a
either (err e) x y h k l = elim (l e refl) [
  | inl here ↦ Raises-err (rw here h)
  | inr here ↦ Raises-err (rw here k)
]

module _ (b : Builtins) (documented : RaisesAsDocumented b) where
  to_int-errors : (j : Json) → Raises IsDataError (to_int b j)
  to_int-errors null = Raises-err refl
  to_int-errors (boolean true) = Raises-ok (pos 1)
  to_int-errors (boolean false) = Raises-ok (pos 0)
  to_int-errors (integer n) = Raises-ok n
  to_int-errors (float x) = either (b.int_of_float x) _ _ refl refl (documented.float_raises x)
  to_int-errors (text s) =
      either (b.int_of_text s) value_error value_error refl refl
        λ e h. inl (documented.text_raises s e h)
  to_int-errors (array js) = Raises-err refl
  to_int-errors (object ms) = Raises-err refl

  int_member-errors : (ms : Members) (name : Str) → Raises IsDataError (int_member b ms name)
  int_member-errors ms name = to_int-errors _

  members-errors : (ms : Members) → Raises IsDataError (options_of_members b ms)
  unfolding options_of_members
  members-errors ms = Raises-bind (int_member-errors ms (codes "m_Crc")) λ crc.
      Raises-bind (int_member-errors ms (codes "m_BundleSize")) λ size.
        Raises-bind (int_member-errors ms (codes "m_Timeout")) λ timeout.
          Raises-bind (int_member-errors ms (codes "m_RedirectLimit")) λ limit.
            Raises-bind (int_member-errors ms (codes "m_RetryCount")) λ retries.
              Raises-bind (int_member-errors ms (codes "m_AssetLoadMode"))
                λ number. Raises-bind (asset_load_mode_of-errors number) λ mode. Raises-ok _

  of_payload-errors : (j : Json) → Raises IsDataError (of_payload b j)
  of_payload-errors (object no_members) = Raises-ok _
  of_payload-errors (object (member n j ms)) = members-errors (member n j ms)
  of_payload-errors null = Raises-ok _
  of_payload-errors (boolean _) = Raises-ok _
  of_payload-errors (integer _) = Raises-ok _
  of_payload-errors (float _) = Raises-ok _
  of_payload-errors (text _) = Raises-ok _
  of_payload-errors (array _) = Raises-ok _

  pub options-errors : (s : Str) → Raises IsDataError (decode_asset_bundle_request_options_json b s)
  unfolding decode_asset_bundle_request_options_json
  options-errors s = elim (Result-cases (b.loads s)) [
    | inl (j, e) ↦ rw e (of_payload-errors j)
    | inr (x, e) ↦ elim (documented.loads_raises s x e) [
      | inl here ↦ rw (e, here) (Raises-ok _)
      | inr (inl here) ↦ rw (e, here) (Raises-err refl)
      | inr (inr here) ↦ rw (e, here) (Raises-err refl)
    ]
  ]
