-- ===== src/Parser.antt =====
-- src/addressablestools/parser.py: the entry points.
use addressables_tools_py.Prelude.{ℕ, ℤ, Bool, List, Option}
use addressables_tools_py.Python.Exec.{Result, ok, err, catalog_parse_error}
use addressables_tools_py.Python.Stream.{Bytes}
use addressables_tools_py.Python.Codec.{Str}
use addressables_tools_py.Python.Json.{Builtins}
use addressables_tools_py.Models.Object.{Object}
use addressables_tools_py.Models.Catalog.{ResourceLocation, ContentCatalogData}
use addressables_tools_py.Binary.State.{CatalogBinaryReader}
use addressables_tools_py.Backend.{Backend, Decoders}
use addressables_tools_py.Decoder.Registry.{Registry}
use addressables_tools_py.Catalog.Resources.{NativeDecoder}
use addressables_tools_py.Catalog.Parse.{parse_binary_catalog}
use addressables_tools_py.Catalog.Json.Parse.{JsonDecoder, parse_json_catalog}

-- What the program finds in its surroundings: functions of Python, what the extension gives, and
-- how many nested calls of `_resource_location_from_binary` Python allows.
pub record Surroundings : Type 0 where
  pub builtins : Builtins
  pub hash : Option Str → ℤ
  pub text_of_object : Object → Str
  pub native_binary : Decoders NativeDecoder
  pub native_json : Decoders JsonDecoder
  pub calls : ℕ

-- The data that is parsed. Bytes tell whether their class is `bytes` itself.
pub data Input : Type 0 where
  text : Str → Input
  bytes : Bool → Bytes → Input
  other : Input

-- A catalog, and the locations that it refers to.
abbrev pub Parsed : Type 0
Parsed = ContentCatalogData × List ResourceLocation

abbrev pub with_locations : Result ContentCatalogData × CatalogBinaryReader → Result Parsed
with_locations (ok catalog, r) = ok (catalog, r.locations)
with_locations (err e, r) = err e

module _ (w : Surroundings) where
  unfoldable pub parse_json : Str → Backend → Result Parsed
  unfolding parse_json_catalog
  parse_json content backend =
      parse_json_catalog w.builtins w.hash w.text_of_object w.native_json backend content

  unfoldable pub parse_binary : Bool → Bytes → Option Registry → Backend → Result Parsed
  unfolding parse_binary_catalog
  parse_binary plain_bytes content registry backend =
      with_locations
        (parse_binary_catalog w.native_binary w.hash w.calls backend plain_bytes registry content)

  unfoldable pub parse : Input → Option Registry → Backend → Result Parsed
  unfolding parse_json parse_binary
  parse (text content) registry backend = parse_json content backend
  parse (bytes plain content) registry backend = parse_binary plain content registry backend
  parse other registry backend = err catalog_parse_error
