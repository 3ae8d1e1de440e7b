-- ===== src/Compat/Registry.antt =====
-- `class _LegacyDecoderRegistry` of src/AddressablesTools.py.
use addressables_tools_py.Prelude.{ℕ, Bool, false, ◌∷◌, Option, none, some}
use addressables_tools_py.Python.Exec.{Result, ok, err, Exec, pure}
use addressables_tools_py.Python.Codec.{Str}
use addressables_tools_py.Python.Text.{codes}
use addressables_tools_py.Models.Object.{Object, nothing}
use addressables_tools_py.Binary.State.{CatalogBinaryReader}
use addressables_tools_py.Decoder.Registry.{
  DecoderRegistry, ObjectDecoder, Registry, new_registry, register, resolve, get_decoder,
}

-- A function from a match name to another, or None; it may raise.
abbrev pub Patcher : Type 0
Patcher = Str → Result (Option Str)

-- A function of the reader, an offset and whether the value is the default one.
abbrev pub Handler : Type 0
Handler = ℕ → Bool → Exec CatalogBinaryReader Object

-- "\0AddressablesTools.legacy-handler"
abbrev pub legacy_handler_match_name : Str
legacy_handler_match_name = 0 ∷ codes "AddressablesTools.legacy-handler"

abbrev pub patcher_or : Option Patcher → Patcher
patcher_or none match_name = ok (some match_name)
patcher_or (some patcher) match_name = patcher match_name

abbrev pub handler_or : Option Handler → Handler
handler_or none offset is_default = pure nothing
handler_or (some handler) offset is_default = handler offset is_default

-- _decode_legacy
abbrev pub decode_legacy : Handler → ObjectDecoder
decode_legacy handler context = handler context.offset context.is_default

-- The decoders and aliases after __init__.
unfoldable pub legacy_decoders : Handler → DecoderRegistry
unfolding register
legacy_decoders handler = register new_registry legacy_handler_match_name (decode_legacy handler)

abbrev pub resolve_patched : DecoderRegistry → Result (Option Str) → Result Str
resolve_patched g (err e) = err e
resolve_patched g (ok none) = ok legacy_handler_match_name
resolve_patched g (ok (some resolved)) = resolve g resolved

-- _LegacyDecoderRegistry(patcher, handler), as decoding sees it.
unfoldable pub legacy_registry : Option Patcher → Option Handler → Registry
unfolding legacy_decoders resolve get_decoder
legacy_registry patcher handler = record {
  resolve_name = λ match_name.
      resolve_patched (legacy_decoders (handler_or handler)) (patcher_or patcher match_name);
  decoder_of = get_decoder (legacy_decoders (handler_or handler));
  is_standard = false;
}
