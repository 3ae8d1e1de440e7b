-- ===== src/Tests/Registry.antt =====
-- The registry of decoders, on concrete names.
use addressables_tools_py.Prelude.{◌+◌, none, some, if◌then◌else◌, ℕ, ◌≡◌, ◌↔◌, ◌⊎◌, refl}
use addressables_tools_py.Prelude.Dict
use addressables_tools_py.Python.Exec.{pure, ok, err, value_error}
use addressables_tools_py.Python.Codec.{Str}
use addressables_tools_py.Models.Object.{codes, str_eq, nothing}
use addressables_tools_py.Decoder.Registry.{
  str_key, DecoderRegistry, ObjectDecoder, new_registry, register, alias, resolve, get_decoder,
}
use addressables_tools_py.Decoder.Registry.Changes.{register-alias}
use addressables_tools_py.Decoder.Registry.Resolve.{EndsAt, resolve-EndsAt}

-- x stands for y, and y for z.
abbrev two_aliases : DecoderRegistry
unfolding alias
two_aliases = alias (alias new_registry (codes "x") (codes "y")) (codes "y") (codes "z")

abbrev alias_cycle : DecoderRegistry
unfolding alias
alias_cycle = alias two_aliases (codes "z") (codes "x")

two_steps : resolve two_aliases (codes "x") ≡ ok (codes "z")
unfolding resolve two_aliases Dict.get Dict.put str_eq
two_steps = refl

no_end : resolve alias_cycle (codes "x") ≡ err value_error
unfolding resolve alias_cycle Dict.get Dict.put str_eq
no_end = refl

resolve-EndsAt_example :
    (((target : Str) × (resolve two_aliases (codes "x") ≡ ok target))
      ⊎ (resolve two_aliases (codes "x") ≡ err value_error))
    × ((target : Str)
        → (resolve two_aliases (codes "x") ≡ ok target)
          ↔ ((steps : ℕ) × EndsAt two_aliases.aliases target steps (codes "x")))
resolve-EndsAt_example = resolve-EndsAt two_aliases (codes "x")

abbrev no_value : ObjectDecoder
no_value context = pure nothing

register-alias_example :
    (get_decoder (register two_aliases (codes "z") no_value) (codes "z") ≡ (
      if str_eq (codes "z") (codes "z")
      then some no_value
      else get_decoder two_aliases (codes "z")))
    × (resolve (register two_aliases (codes "z") no_value) (codes "z")
        ≡ resolve two_aliases (codes "z"))
    × ((register two_aliases (codes "z") no_value).revision ≡ two_aliases.revision + 1)
    × (get_decoder (alias two_aliases (codes "z") (codes "w")) (codes "z")
        ≡ get_decoder two_aliases (codes "z"))
    × (Dict.get (alias two_aliases (codes "z") (codes "w")).aliases (codes "z") ≡ (
        if str_eq (codes "z") (codes "z")
        then some (codes "w")
        else Dict.get two_aliases.aliases (codes "z")))
    × ((alias two_aliases (codes "z") (codes "w")).revision ≡ two_aliases.revision + 1)
    × (Dict.get (alias two_aliases (codes "z") (codes "w")).aliases (codes "w") ≡ none
        → resolve (alias two_aliases (codes "z") (codes "w")) (codes "z") ≡ ok (codes "w"))
register-alias_example = register-alias two_aliases (codes "z") (codes "w") (codes "z") no_value
