-- ===== src/Decoder/Registry.antt =====
-- `class DecoderRegistry` of src/addressablestools/decoder.py.
pub mod Rounds
pub mod Resolve
pub mod Changes
use addressables_tools_py.Prelude.{
  ℕ, zero, suc, ◌+◌, Bool, true, false, ◌||◌, List, [], ◌∷◌, Option, none, some, length,
  if◌then◌else◌,
}
use addressables_tools_py.Prelude.Dict
use addressables_tools_py.Prelude.Dict.{Dict, Key, IsLawful}
use addressables_tools_py.Python.Exec.{Result, ok, err, Exec, value_error, fuel_exhausted}
use addressables_tools_py.Python.Codec.{Str}
use addressables_tools_py.Models.Object.{Object, SerializedType, str_eq, str_eq_iff}
use addressables_tools_py.Binary.State.{CatalogBinaryReader}

instance abbrev pub str_key : Key Str
str_key = record { same = str_eq }

pub str_key-IsLawful : IsLawful str_key
str_key-IsLawful = str_eq_iff

-- The reader of the context is the state that a decoder runs in.
pub record BinaryDecodeContext : Type 0 where
  pub offset : ℕ
  pub is_default : Bool
  pub serialized_type : SerializedType

abbrev pub ObjectDecoder : Type 0
ObjectDecoder = BinaryDecodeContext → Exec CatalogBinaryReader Object

pub record DecoderRegistry : Type 0 where
  pub decoders : Dict Str ObjectDecoder
  pub aliases : Dict Str Str
  pub revision : ℕ

-- DecoderRegistry()
abbrev pub new_registry : DecoderRegistry
new_registry = record { decoders = []; aliases = []; revision = 0 }

-- register(match_name, decoder), and the decorator that register(match_name) gives.
unfoldable pub register : DecoderRegistry → Str → ObjectDecoder → DecoderRegistry
register g match_name decoder = record g {
  decoders = Dict.put g.decoders match_name decoder;
  revision = g.revision + 1;
}

unfoldable pub alias : DecoderRegistry → Str → Str → DecoderRegistry
alias g match_name target = record g {
  aliases = Dict.put g.aliases match_name target;
  revision = g.revision + 1;
}

abbrev pub contains_str : List Str → Str → Bool
contains_str [] s = false
contains_str (t ∷ ts) s = str_eq t s || contains_str ts s

-- The loop of _resolve. A name is visited once, so the aliases bound the rounds.
unfoldable pub resolve_loop : ℕ → Dict Str Str → Str → List Str → Result Str
resolve_loop zero aliases resolved visited = elim (Dict.get aliases resolved) [
  | none ↦ ok resolved
  | some _ ↦ if contains_str visited resolved then err value_error else err fuel_exhausted
]
resolve_loop (suc fuel) aliases resolved visited = elim (Dict.get aliases resolved) [
  | none ↦ ok resolved
  | some target ↦
      let rest = resolve_loop fuel aliases target (resolved ∷ visited) in
      if contains_str visited resolved then err value_error else rest
]

-- _resolve
unfoldable pub resolve : DecoderRegistry → Str → Result Str
unfolding resolve_loop
resolve g match_name = resolve_loop (length g.aliases) g.aliases match_name []

-- _get
unfoldable pub get_decoder : DecoderRegistry → Str → Option ObjectDecoder
get_decoder g match_name = Dict.get g.decoders match_name

-- What decoding asks of a registry: its two methods, which a subclass may override, and whether it
-- is a DecoderRegistry itself with no method replaced on the instance.
pub record Registry : Type 0 where
  pub resolve_name : Str → Result Str
  pub decoder_of : Str → Option ObjectDecoder
  pub is_standard : Bool

abbrev pub standard : DecoderRegistry → Registry
standard g = record { resolve_name = resolve g; decoder_of = get_decoder g; is_standard = true }
