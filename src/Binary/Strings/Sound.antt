-- ===== src/Binary/Strings/Sound.antt =====
-- The caches of strings hold what the bytes say. Reads of parts keep that, and give what an uncached
-- read gives.
use mathlib.Core.Path.{subst₂}
use addressables_tools_py.Prelude.{
  ℕ, ◌%◌, ℤ, Bool, true, false, ◌||◌, List, ◌++◌, Option, none, some, ◌==◌, if◌then◌else◌, ◌≡◌,
  arith, Option-cases, Bool-cases, inl, inr,
}
use addressables_tools_py.Prelude.Dict
use addressables_tools_py.Prelude.Dict.{Dict, get-put_cases, nat_key}
use addressables_tools_py.Python.Exec.{ok, Result-cases}
use addressables_tools_py.Python.Stream.{Bytes}
use addressables_tools_py.Python.Codec.{Str}
use addressables_tools_py.Models.Object.{str_eq}
use addressables_tools_py.Binary.State.{
  string_key, string_key-IsLawful, StringKey, plain, dynamic, CatalogBinaryReader, uint32_max,
  uint32_max_minus_one,
}
use addressables_tools_py.Binary.Strings.{
  has_bit, to_list, cache_key, no_separator, is_dynamic, or_empty, joined, join, read_part,
}
use addressables_tools_py.Binary.Strings.Wire.{
  two_at, basic_at, part_at, Parts, read_basic-basic_at,
}

-- The text of a dynamic string from its first part, the offset of the next one, and the parts there.
unfoldable pub rendered : ℤ → Str → Option Str → ℕ → List Str → Str
unfolding join
rendered version separator first next ps =
    if next == uint32_max then or_empty first else joined version separator (to_list first ++ ps)

module _ (bytes : Bytes) (version : ℤ) where
  -- The bytes hold a dynamic string at an offset.
  pub data Dynamic : ℕ → Str → Str → Type 0 where
    dynamic_string :
        {offset part next links : ℕ} {separator s : Str} {first : Option Str} {ps : List Str}
        → two_at bytes offset ≡ ok (part, (next, tt))
        → part_at bytes part ≡ ok first
        → Parts bytes links next ps
        → s ≡ rendered version separator first next ps
        → Dynamic offset separator s

  -- What a key of the string cache stands for.
  abbrev pub Means : StringKey → Str → Type 0
  Means (plain encoded) s =
      basic_at bytes (encoded % 0x40000000) (has_bit 0x80000000 encoded) ≡ ok s
  Means (dynamic encoded separator) s = Dynamic (encoded % 0x40000000) separator s

  pub record StringsSound (cache : Dict StringKey Str) : Type 0 where
    pub entry : (key : StringKey) (s : Str) → Dict.get cache key ≡ some s → Means key s

  pub put-StringsSound :
      (cache : Dict StringKey Str) (key : StringKey) (s : Str)
      → StringsSound cache
      → Means key s
      → StringsSound (Dict.put cache key s)
  put-StringsSound cache key s sound m = record {
    entry = λ j t h. elim (get-put_cases string_key-IsLawful cache key j s t h) [
      | inl (same, equal) ↦ subst₂ Means same equal m
      | inr old ↦ sound.entry j t old
    ];
  }

pub record TailsSound (bytes : Bytes) (cache : Dict ℕ (List Str)) : Type 0 where
  pub entry :
      (n : ℕ) (ps : List Str) → Dict.get cache n ≡ some ps → (links : ℕ) × Parts bytes links n ps

pub record IsSound (bytes : Bytes) (r : CatalogBinaryReader) : Type 0 where
  pub buffered : r.base.buffer ≡ some bytes
  pub strings : StringsSound bytes r.version r.string_cache
  pub tails : TailsSound bytes r.dynamic_tail_cache

-- The default separator never makes a string dynamic.
plain-cache_key : (encoded : ℕ) → cache_key encoded no_separator ≡ plain encoded
unfolding str_eq
plain-cache_key encoded = ground arith

not_dynamic : (encoded : ℕ) → is_dynamic encoded no_separator ≡ false
unfolding str_eq
not_dynamic encoded = ground arith

abbrev ReadsPart : Bytes → ℕ → CatalogBinaryReader → Type 0
ReadsPart bytes encoded r =
    (cache : Dict StringKey Str) × (read_part encoded r
      ≡ (part_at bytes encoded, record r { string_cache = cache }))
    × StringsSound bytes r.version cache

is_special : ℕ → Bool
is_special encoded = (encoded == uint32_max) || (encoded == uint32_max_minus_one)

module _ (bytes : Bytes) (encoded : ℕ) (r : CatalogBinaryReader) (sound : IsSound bytes r) where
  special_part : is_special encoded ≡ true → ReadsPart bytes encoded r
  unfolding read_part part_at is_special
  special_part h = (r.string_cache, rw h, sound.strings)

  cached_part :
      (s : Str)
      → is_special encoded ≡ false
      → Dict.get r.string_cache (plain encoded) ≡ some s
      → ReadsPart bytes encoded r
  unfolding read_part part_at is_special
  cached_part s h e = (
    r.string_cache,
    rw (h, plain-cache_key, e, sound.strings.entry (plain encoded) s e),
    sound.strings,
  )

  fetched_part :
      is_special encoded ≡ false
      → Dict.get r.string_cache (plain encoded) ≡ none
      → ReadsPart bytes encoded r
  unfolding read_part part_at is_special
  fetched_part h e =
      elim (Result-cases (basic_at bytes (encoded % 0x40000000) (has_bit 0x80000000 encoded))) [
        | inl (s, read) ↦ (
          Dict.put r.string_cache (plain encoded) s,
          rw (
            h,
            plain-cache_key,
            e,
            not_dynamic,
            read_basic-basic_at bytes r.base sound.buffered,
            read,
          ),
          put-StringsSound bytes r.version r.string_cache (plain encoded) s sound.strings read,
        )
        | inr (x, failed) ↦ (
          r.string_cache,
          rw (
            h,
            plain-cache_key,
            e,
            not_dynamic,
            read_basic-basic_at bytes r.base sound.buffered,
            failed,
          ),
          sound.strings,
        )
      ]

-- A read of a part gives what the bytes say, and changes the string cache at most.
pub read_part-part_at :
    (bytes : Bytes) (encoded : ℕ) (r : CatalogBinaryReader)
    → IsSound bytes r
    → ReadsPart bytes encoded r
read_part-part_at bytes encoded r sound = elim (Bool-cases (is_special encoded)) [
  | inl h ↦ special_part bytes encoded r sound h
  | inr h ↦ elim (Option-cases (Dict.get r.string_cache (plain encoded))) [
    | inl e ↦ fetched_part bytes encoded r sound h e
    | inr (s, e) ↦ cached_part bytes encoded r sound s h e
  ]
]
