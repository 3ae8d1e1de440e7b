-- ===== src/Compat/Parse.antt =====
-- The entry points and `CompatSerializedObjectDecoder` of src/AddressablesTools.py. The warnings that
-- they give are not modelled.
use addressables_tools_py.Prelude.{ℕ, Bool, List, Option, none, some}
use addressables_tools_py.Python.Exec.{Result, ok, err, Exec, pure, ◌>>=◌}
use addressables_tools_py.Python.Stream.{Bytes}
use addressables_tools_py.Python.Codec.{Str}
use addressables_tools_py.Models.Object.{Object, options, SerializedType, AssetBundleRequestOptions}
use addressables_tools_py.Models.Catalog.{ContentCatalogData, ResourceLocation}
use addressables_tools_py.Binary.Reader.{BinaryReader}
use addressables_tools_py.Binary.State.{CatalogBinaryReader}
use addressables_tools_py.Backend.{Backend}
use addressables_tools_py.Decoder.Registry.{Registry}
use addressables_tools_py.Decoder.Version1.{decode_v1_typed}
use addressables_tools_py.Decoder.Object.{decode_v2_typed}
use addressables_tools_py.Parser
use addressables_tools_py.Parser.{Surroundings, Parsed}
use addressables_tools_py.Compat.Registry.{Patcher, Handler, legacy_registry}
use addressables_tools_py.Compat.Values.{Legacy, wrap_legacy}

-- The data that is parsed, of the types that are declared for it.
pub data LegacyInput : Type 0 where
  text : Str → LegacyInput
  bytes : Bool → Bytes → LegacyInput

-- CompatCatalog(parsed)
pub record CompatCatalog : Type 0 where
  pub catalog : ContentCatalogData
  pub locations : List ResourceLocation

abbrev pub wrap_parsed : Result Parsed → Result CompatCatalog
wrap_parsed (ok (c, locations)) = ok (record { catalog = c; locations = locations })
wrap_parsed (err e) = err e

-- A registry, if there is a patcher or a handler.
abbrev pub registry_of : Option Patcher → Option Handler → Option Registry
registry_of none none = none
registry_of patcher handler = some (legacy_registry patcher handler)

module _ (w : Surroundings) where
  unfoldable pub parse_json : Str → Backend → Result CompatCatalog
  unfolding Parser.parse_json
  parse_json content backend = wrap_parsed (Parser.parse_json w content backend)

  unfoldable pub parse_binary :
      Bool → Bytes → Option Patcher → Option Handler → Backend → Result CompatCatalog
  unfolding Parser.parse_binary
  parse_binary plain content patcher handler backend =
      wrap_parsed (Parser.parse_binary w plain content (registry_of patcher handler) backend)

  unfoldable pub parse :
      LegacyInput → Option Patcher → Option Handler → Backend → Result CompatCatalog
  unfolding Parser.parse_json Parser.parse_binary
  parse (text content) patcher handler backend = wrap_parsed (Parser.parse_json w content backend)
  parse (bytes plain content) patcher handler backend =
      wrap_parsed (Parser.parse_binary w plain content (registry_of patcher handler) backend)

-- CompatWrappedSerializedObject, or what wrap_legacy gives.
pub data Decoded : Type 0 where
  wrapped_object : SerializedType → Object → Decoded
  legacy : Legacy → Decoded

abbrev pub wrap_decoded : Object × Option SerializedType → Decoded
wrap_decoded (options o, some t) = wrapped_object t (options o)
wrap_decoded (value, _) = legacy (wrap_legacy value)

unfoldable pub decode_v1 : (Str → Result AssetBundleRequestOptions) → Exec BinaryReader Decoded
unfolding decode_v1_typed
decode_v1 options_of_json = do found ← decode_v1_typed options_of_json; pure (wrap_decoded found)

-- CompatCatalogBinaryReader has a patcher and a handler of its own.
pub record LegacyDefaults : Type 0 where
  pub patcher : Option Patcher
  pub handler : Option Handler

abbrev pub first_of : {A : Type 0} → Option A → Option A → Option A
first_of (some a) default = some a
first_of none default = default

-- The reader's defaults, if its class has them.
abbrev pub registry_with : Option LegacyDefaults → Option Patcher → Option Handler → Registry
registry_with none patcher handler = legacy_registry patcher handler
registry_with (some defaults) patcher handler =
    legacy_registry (first_of patcher defaults.patcher) (first_of handler defaults.handler)

unfoldable pub decode_v2 :
    Option LegacyDefaults → ℕ → Option Patcher → Option Handler → Exec CatalogBinaryReader Decoded
unfolding decode_v2_typed
decode_v2 defaults offset patcher handler = do
  found ← decode_v2_typed (some (registry_with defaults patcher handler)) offset
  pure (wrap_decoded found)
