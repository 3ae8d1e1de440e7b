-- ===== src/Decoder/Object/Options.antt =====
-- The options of an asset bundle in a binary catalog.
use addressables_tools_py.Prelude.{ℕ, pos, [], ◌∷◌, none, some, ◌≡◌, refl, ==_refl}
use addressables_tools_py.Prelude.Dict
use addressables_tools_py.Prelude.Dict.{Dict, nat_key, nat_key-IsLawful, get-put}
use addressables_tools_py.Python.Exec.{ok}
use addressables_tools_py.Python.Exec.Ensures.{
  Post, Ensures, Ensures-bind, Ensures-any, Ensures-pure, Ensures-known,
}
use addressables_tools_py.Python.Json.Convert.{of_optional}
use addressables_tools_py.Python.Struct.{uint32, chars}
use addressables_tools_py.Models.Object.{
  Object, CommonInfo, AssetBundleRequestOptions, common_info, options, hex, codes,
}
use addressables_tools_py.Binary.Reader.{read_struct_from}
use addressables_tools_py.Binary.State.{
  CatalogBinaryReader, on_base, cached_object, cache_object, not_none,
}
use addressables_tools_py.Binary.Strings.{read_encoded_string}
use addressables_tools_py.Decoder.Object.{
  cached_common_info, set_version, decode_asset_bundle_request_options_binary, read_options_object,
}

abbrev pub IsVersion3 : CommonInfo → Type 0
IsVersion3 info = info.version ≡ pos 3

-- Options with a common info, of version 3.
abbrev pub HasInfo : AssetBundleRequestOptions → Type 0
HasInfo o = (info : CommonInfo) × (o.common_info ≡ some info) × IsVersion3 info

set_version-IsVersion3 :
    (offset : ℕ) (x : Object)
    → Ensures (λ _. Unit) (set_version offset x) (λ info _. Unit {0} × IsVersion3 info)
unfolding set_version
set_version-IsVersion3 offset (common_info info) = record { at = λ r h. (tt, refl) }
set_version-IsVersion3 offset _ = record { at = λ r h. tt }

options-HasInfo :
    (offset : ℕ)
    → Ensures (λ _. Unit) (decode_asset_bundle_request_options_binary offset) (λ o _. HasInfo o)
unfolding decode_asset_bundle_request_options_binary
options-HasInfo offset =
    Ensures-bind
      (Ensures-any
        (on_base (read_struct_from (uint32 ∷ uint32 ∷ uint32 ∷ uint32 ∷ uint32 ∷ []) (pos offset))))
      λ fields.
        Ensures-bind (Ensures-any (on_base (read_struct_from (chars 16 ∷ []) (pos fields.0))))
          λ hash. Ensures-bind (Ensures-any (cached_common_info fields.1.1.1.1.0)) λ cached.
            Ensures-bind (set_version-IsVersion3 fields.1.1.1.1.0 cached) λ info.
              Ensures-known λ three.
                Ensures-bind (Ensures-any (read_encoded_string fields.1.0 (codes "_"))) λ name.
                  Ensures-pure {Q = λ o _. HasInfo o}
                    (record {
                      hash = hex hash.0;
                      crc = pos fields.1.1.0;
                      common_info = some info;
                      bundle_name = of_optional name;
                      bundle_size = pos fields.1.1.1.0;
                    })
                    λ _ _. (info, refl, three)

-- What a read of options leaves: they are cached, and reading them again changes nothing.
abbrev pub SharedAt : ℕ → Object → CatalogBinaryReader → Type 0
SharedAt offset x r = read_options_object offset r ≡ (ok x, r)

cached_options :
    (d : Dict ℕ Object) (offset : ℕ) (o : AssetBundleRequestOptions)
    → not_none (Dict.get (Dict.put d offset (options o)) offset) ≡ some (options o)
cached_options d offset o =
    rw (get-put nat_key-IsLawful d offset offset (options o), ==_refl offset) refl

found_again :
    (offset : ℕ) (x : Object) (r : CatalogBinaryReader)
    → cached_object offset r ≡ some x
    → SharedAt offset x r
unfolding read_options_object
found_again offset x r h = rw (h, read_options_object) refl

-- Options and their common info, cached at an offset.
abbrev pub OptionsAt : ℕ → Object → CatalogBinaryReader → Type 0
OptionsAt offset x r =
    ((o : AssetBundleRequestOptions) × (x ≡ options o) × HasInfo o) × SharedAt offset x r

store-OptionsAt :
    (offset : ℕ) (o : AssetBundleRequestOptions)
    → HasInfo o
    → Ensures (λ _. Unit) (cache_object offset (options o)) (λ _. OptionsAt offset (options o))
store-OptionsAt offset o info = record {
  at = λ r h.
      ((o, refl, info), found_again offset (options o) _ (cached_options r.object_cache offset o));
}

-- Options that are not cached are read with a common info whose version is 3, cached or not, and
-- then shared: reading them again gives the same object and leaves the reader as it is.
pub read_options_object-OptionsAt :
    (offset : ℕ) (r : CatalogBinaryReader)
    → cached_object offset r ≡ none
    → Post (OptionsAt offset) (read_options_object offset r)
unfolding read_options_object
read_options_object-OptionsAt offset r missing =
    rw (missing, read_options_object, Post)
      ((Ensures-bind (options-HasInfo offset)
          λ o. record { at = λ s info. (store-OptionsAt offset o info).at s tt }).at
        r tt)
