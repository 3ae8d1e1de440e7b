-- ===== src/Binary/Strings/Transparent.antt =====
-- The string caches of `CatalogBinaryReader` cannot be seen in what `read_encoded_string` gives.
use mathlib.Core.Path.{subst}
use addressables_tools_py.Prelude.{
  ℕ, ◌%◌, ◌<◌, ℤ, pos, Bool, true, false, ◌||◌, [], Option, none, some, ◌==◌, if◌then◌else◌, ◌≡◌,
  ◌≢◌, refl, arith, ap, Bool-cases, Option-cases, inl, inr, sym,
}
use addressables_tools_py.Prelude.Dict
use addressables_tools_py.Prelude.Dict.{Dict, nat_key}
use addressables_tools_py.Python.Exec.{Result, ok, err, Result-cases, continue, ◌>>◌, pure}
use addressables_tools_py.Python.Stream.{Bytes}
use addressables_tools_py.Python.Codec.{Str}
use addressables_tools_py.Binary.State.{
  CatalogBinaryReader, uint32_max, uint32_max_minus_one, string_key, on_base, new_reader,
}
use addressables_tools_py.Binary.Strings.{
  cache_string, has_bit, is_dynamic, cache_key, read_dynamic_string, read_encoded_string,
  read_basic_string,
}
use addressables_tools_py.Binary.Strings.Wire.{basic_at, some_text, read_basic-basic_at}
use addressables_tools_py.Binary.Strings.Sound.{
  IsSound, StringsSound, TailsSound, Means, put-StringsSound,
}
use addressables_tools_py.Binary.Strings.Encoded.{
  Dynamic-dynamic_at, dynamic_at, encoded_at, dynamic_at-Dynamic,
}
use addressables_tools_py.Binary.Strings.Answers.{Answers, dynamic-Answers, with_caches-IsSound}

abbrev is_special : ℕ → Bool
is_special encoded = (encoded == uint32_max) || (encoded == uint32_max_minus_one)

pub ne_max : (n : ℕ) → n < 0x40000000 → n ≢ uint32_max
ne_max n h = omega arith

-- The text that an encoded offset stands for, with no cache.
text_at : Bytes → ℤ → ℕ → Str → Result Str
text_at bytes version encoded separator =
    if is_dynamic encoded separator
    then dynamic_at bytes version (encoded % 0x40000000) separator
    else basic_at bytes (encoded % 0x40000000) (has_bit 0x80000000 encoded)

module _ (bytes : Bytes) (encoded : ℕ) (separator : Str) where
  -- What a read that misses the cache calls.
  fetch : CatalogBinaryReader → Result Str × CatalogBinaryReader
  fetch =
      if is_dynamic encoded separator
      then read_dynamic_string (encoded % 0x40000000) separator
      else on_base (read_basic_string (encoded % 0x40000000) (has_bit 0x80000000 encoded))

  fetch-Answers :
      (r : CatalogBinaryReader)
      → IsSound bytes r
      → Answers bytes r (text_at bytes r.version encoded separator) (fetch r)
  unfolding fetch text_at
  fetch-Answers r sound = elim (Bool-cases (is_dynamic encoded separator)) [
    | inl e ↦ rw e (
        dynamic-Answers bytes separator r sound (encoded % 0x40000000)
          (ne_max (encoded % 0x40000000) (omega arith)))
    | inr e ↦ (
      r.string_cache,
      r.dynamic_tail_cache,
      rw (e, read_basic-basic_at bytes r.base sound.buffered),
      sound.strings,
      sound.tails,
    )
  ]

  text_at-Means :
      (version : ℤ) (s : Str)
      → text_at bytes version encoded separator ≡ ok s
      → Means bytes version (cache_key encoded separator) s
  unfolding text_at
  text_at-Means version s h = elim (Bool-cases (is_dynamic encoded separator)) [
    | inl e ↦ rw e (dynamic_at-Dynamic bytes version separator (encoded % 0x40000000) s (rw e at h))
    | inr e ↦ rw e (rw e at h)
  ]

  Means-text_at :
      (version : ℤ) (s : Str)
      → Means bytes version (cache_key encoded separator) s
      → text_at bytes version encoded separator ≡ ok s
  unfolding text_at
  Means-text_at version s h = elim (Bool-cases (is_dynamic encoded separator)) [
    | inl e ↦ rw e (Dynamic-dynamic_at (ne_max (encoded % 0x40000000) (omega arith)) (rw e at h))
    | inr e ↦ rw e (rw e at h)
  ]

  abbrev Answered : CatalogBinaryReader → Type 0
  Answered r =
      Answers bytes r (encoded_at bytes r.version encoded separator)
        (read_encoded_string encoded separator r)

  module _ (r : CatalogBinaryReader) (sound : IsSound bytes r) where
    special-Answered : is_special encoded ≡ true → Answered r
    unfolding read_encoded_string encoded_at
    special-Answered h = (r.string_cache, r.dynamic_tail_cache, rw h, sound.strings, sound.tails)

    module _ (h : is_special encoded ≡ false) where
      encoded_at-text_at :
          encoded_at bytes r.version encoded separator
          ≡ some_text (text_at bytes r.version encoded separator)
      unfolding encoded_at text_at
      encoded_at-text_at = rw h

      hit :
          (s : Str)
          → Dict.get r.string_cache (cache_key encoded separator) ≡ some s
          → read_encoded_string encoded separator r ≡ (ok (some s), r)
      unfolding read_encoded_string
      hit s cached = rw (h, cached)

      cached-Answered :
          (s : Str) → Dict.get r.string_cache (cache_key encoded separator) ≡ some s → Answered r
      cached-Answered s cached = (
        r.string_cache,
        r.dynamic_tail_cache,
        rw (
          hit s cached,
          encoded_at-text_at,
          Means-text_at r.version s (sound.strings.entry (cache_key encoded separator) s cached),
        ),
        sound.strings,
        sound.tails,
      )

      abbrev store : Result Str → CatalogBinaryReader → Result (Option Str) × CatalogBinaryReader
      store (err x) s = (err x, s)
      store (ok text) s = (
        ok (some text),
        record s { string_cache = Dict.put s.string_cache (cache_key encoded separator) text },
      )

      continue-store :
          (o : Result Str) (s : CatalogBinaryReader)
          → continue o
              (λ text. cache_string (cache_key encoded separator) text >> pure (some text))
              s
            ≡ store o s
      continue-store (ok text) s = refl
      continue-store (err x) s = refl

      miss :
          Dict.get r.string_cache (cache_key encoded separator) ≡ none
          → read_encoded_string encoded separator r ≡ store (fetch r).0 (fetch r).1
      unfolding read_encoded_string fetch
      miss missing = rw (h, missing) (continue-store (fetch r).0 (fetch r).1)

      missed-Answered : Dict.get r.string_cache (cache_key encoded separator) ≡ none → Answered r
      missed-Answered missing =
          let (strings, tails, out, sound', sound'') = fetch-Answers r sound in
          elim (Result-cases (text_at bytes r.version encoded separator)) [
            | inl (s, found) ↦ (
              Dict.put strings (cache_key encoded separator) s,
              tails,
              rw (miss missing, out, encoded_at-text_at, found),
              put-StringsSound bytes r.version strings (cache_key encoded separator) s sound'
                  (text_at-Means r.version s found),
              sound'',
            )
            | inr (x, failed) ↦ (
              strings,
              tails,
              rw (miss missing, out, encoded_at-text_at, failed),
              sound',
              sound'',
            )
          ]

    answered : Answered r
    answered = elim (Bool-cases (is_special encoded)) [
      | inl h ↦ special-Answered h
      | inr h ↦ elim (Option-cases (Dict.get r.string_cache (cache_key encoded separator))) [
        | inl missing ↦ missed-Answered h missing
        | inr (s, cached) ↦ cached-Answered h s cached
      ]
    ]

-- A read of a string answers as `encoded_at` says, whatever sound caches hold.
pub read_encoded_string-encoded_at :
    (bytes : Bytes) (encoded : ℕ) (separator : Str) (r : CatalogBinaryReader)
    → IsSound bytes r
    → Answers bytes r
        (encoded_at bytes r.version encoded separator)
        (read_encoded_string encoded separator r)
read_encoded_string-encoded_at = answered

abbrev pub without_caches : CatalogBinaryReader → CatalogBinaryReader
without_caches r = record r { string_cache = []; dynamic_tail_cache = [] }

pub no_strings : (bytes : Bytes) (version : ℤ) → StringsSound bytes version []
unfolding Dict.get
no_strings bytes version = record { entry = λ key s h. cc }

pub no_tails : (bytes : Bytes) → TailsSound bytes []
unfolding Dict.get
no_tails bytes = record { entry = λ n ps h. cc }

pub without_caches-IsSound :
    (bytes : Bytes) (r : CatalogBinaryReader)
    → r.base.buffer ≡ some bytes
    → IsSound bytes (without_caches r)
without_caches-IsSound bytes r h = record {
  buffered = h;
  strings = no_strings bytes r.version;
  tails = no_tails bytes;
}

-- With sound caches of strings and of tails, read_encoded_string returns or raises what it does with
-- both caches empty; afterwards the caches are sound again, and nothing else of the reader changed.
pub read_encoded_string_transparent :
    (bytes : Bytes) (encoded : ℕ) (separator : Str) (r : CatalogBinaryReader)
    → IsSound bytes r
    → ((read_encoded_string encoded separator r).0
        ≡ (read_encoded_string encoded separator (without_caches r)).0)
      × IsSound bytes (read_encoded_string encoded separator r).1
      × (without_caches (read_encoded_string encoded separator r).1 ≡ without_caches r)
read_encoded_string_transparent bytes encoded separator r sound =
    let (strings, tails, out, s, t) = answered bytes encoded separator r sound in
    let (_, _, out', _, _) =
      answered bytes encoded separator (without_caches r)
        (without_caches-IsSound bytes r sound.buffered) in
    (
      cc (
        ap (λ (o : Result (Option Str) × CatalogBinaryReader). o.0) out,
        ap (λ (o : Result (Option Str) × CatalogBinaryReader). o.0) out',
      ),
      subst (λ (o : Result (Option Str) × CatalogBinaryReader). IsSound bytes o.1) (sym out)
          (with_caches-IsSound strings tails sound s t),
      ap (λ (o : Result (Option Str) × CatalogBinaryReader). without_caches o.1) out,
    )

-- A reader that has just been made over a buffer has sound caches.
pub new_reader-IsSound : (content bytes : Bytes) → IsSound bytes (new_reader content (some bytes))
new_reader-IsSound content bytes = record {
  buffered = refl;
  strings = no_strings bytes (pos 1);
  tails = no_tails bytes;
}
