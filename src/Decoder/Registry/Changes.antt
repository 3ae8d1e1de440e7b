-- ===== src/Decoder/Registry/Changes.antt =====
-- What `register` and `alias` change, and what they leave.
use addressables_tools_py.Prelude.{◌+◌, none, some, ◌≡◌, refl, if◌then◌else◌}
use addressables_tools_py.Prelude.Dict
use addressables_tools_py.Prelude.Dict.{Dict, get-put}
use addressables_tools_py.Python.Exec.{ok}
use addressables_tools_py.Python.Codec.{Str}
use addressables_tools_py.Models.Object.{str_eq, str_eq_refl}
use addressables_tools_py.Decoder.Registry.{
  str_key, str_key-IsLawful, DecoderRegistry, ObjectDecoder, register, alias, resolve, get_decoder,
}
use addressables_tools_py.Decoder.Registry.Resolve.{end, follow, resolve-EndsAt}

alias_there :
    (aliases : Dict Str Str) (name target : Str)
    → Dict.get (Dict.put aliases name target) name ≡ some target
alias_there aliases name target =
    rw (get-put str_key-IsLawful aliases name name target, str_eq_refl name) refl

-- A decoder that is registered is what its name gives from then on; other names keep their decoders,
-- every name resolves as before, and the revision goes up by one. An alias changes no decoder, and
-- only where its own name leads, and the revision goes up by one; where its target has no alias, the
-- name resolves to that.
pub register-alias :
    (g : DecoderRegistry) (name target other : Str) (decoder : ObjectDecoder)
    → (get_decoder (register g name decoder) other
        ≡ (if str_eq name other then some decoder else get_decoder g other))
      × (resolve (register g name decoder) other ≡ resolve g other)
      × ((register g name decoder).revision ≡ g.revision + 1)
      × (get_decoder (alias g name target) other ≡ get_decoder g other)
      × (Dict.get (alias g name target).aliases other
          ≡ (if str_eq name other then some target else Dict.get g.aliases other))
      × ((alias g name target).revision ≡ g.revision + 1)
      × (Dict.get (alias g name target).aliases target ≡ none
          → resolve (alias g name target) name ≡ ok target)
unfolding register alias get_decoder resolve
register-alias g name target other decoder = (
  get-put str_key-IsLawful g.decoders name other decoder,
  refl,
  refl,
  refl,
  get-put str_key-IsLawful g.aliases name other target,
  refl,
  λ h.
      ((resolve-EndsAt (alias g name target) name).1 target).1
        (1, follow (alias_there g.aliases name target) (end h)),
)
