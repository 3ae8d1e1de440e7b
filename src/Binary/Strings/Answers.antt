-- ===== src/Binary/Strings/Answers.antt =====
-- Reads of strings answer what the bytes say, and keep the caches sound.
use mathlib.Core.Path.{subst₂}
use addressables_tools_py.Prelude.{
  ℕ, false, List, [], ◌∷◌, ◌++◌, Option, none, some, ◌==◌, length, drop, ◌≡◌, ◌≢◌, refl, ap,
  Bool-cases, Option-cases, inl, inr,
}
use addressables_tools_py.Prelude.Dict
use addressables_tools_py.Prelude.Dict.{Dict, nat_key, nat_key-IsLawful, get-put_cases}
use addressables_tools_py.Python.Exec.{PyError, Result, ok, err, Result-cases}
use addressables_tools_py.Python.Stream.{Bytes}
use addressables_tools_py.Python.Codec.{Str}
use addressables_tools_py.Binary.Reader.{BinaryReader}
use addressables_tools_py.Binary.State.{StringKey, CatalogBinaryReader, uint32_max, string_key}
use addressables_tools_py.Binary.Strings.{
  cache_tail, source, to_list, read_rest, read_dynamic_string, collect_parts,
}
use addressables_tools_py.Binary.Strings.Encoded.{rest_at, dynamic_at, first_rounds}
use addressables_tools_py.Binary.Strings.Wire.{two_at, part_at, Parts, read_two-two_at}
use addressables_tools_py.Binary.Strings.Sound.{
  IsSound, StringsSound, TailsSound, read_part-part_at,
}
use addressables_tools_py.Binary.Strings.Loop.{parts_loop, start, Parts-parts_loop}
use addressables_tools_py.Binary.Strings.Tails.{
  Gives, with_strings-IsSound, collect_parts-parts_loop,
}

-- A read gives this result; it keeps the caches sound and changes nothing else.
abbrev pub Answers :
    {A : Type 0} → Bytes → CatalogBinaryReader → Result A → Result A × CatalogBinaryReader → Type 0
Answers bytes r result outcome =
    (strings : Dict StringKey Str) × (tails : Dict ℕ (List Str)) × (outcome
      ≡ (result, record r { string_cache = strings; dynamic_tail_cache = tails }))
    × StringsSound bytes r.version strings
    × TailsSound bytes tails

length-source :
    (bytes : Bytes) (b : BinaryReader) → b.buffer ≡ some bytes → length (source b) ≡ length bytes
length-source bytes b h = rw h

drop_first : (o : Option Str) (ps : List Str) → drop (length (to_list o)) (to_list o ++ ps) ≡ ps
drop_first none ps = refl
drop_first (some s) ps = refl

put-TailsSound :
    (bytes : Bytes) (cache : Dict ℕ (List Str)) (n : ℕ) {links : ℕ} (ps : List Str)
    → TailsSound bytes cache
    → Parts bytes links n ps
    → TailsSound bytes (Dict.put cache n ps)
put-TailsSound bytes cache n {links} ps sound chain = record {
  entry = λ m qs h. elim (get-put_cases nat_key-IsLawful cache n m ps qs h) [
    | inl (same, equal) ↦ (links, subst₂ (Parts bytes links) same equal chain)
    | inr old ↦ sound.entry m qs old
  ];
}

module _ (bytes : Bytes) (offset : ℕ) (real : offset ≢ uint32_max) (separator : Str)
    (first : Option Str) (next part : ℕ) (r : CatalogBinaryReader) (sound : IsSound bytes r)
    (pair : two_at bytes offset ≡ ok (part, (next, tt)))
    (text : part_at bytes part ≡ ok first) where
  rest_loop :
      Gives bytes r
        (parts_loop bytes (length bytes) next (offset ∷ []) (to_list first))
        (collect_parts (length bytes) next (offset ∷ []) (to_list first) r)
  rest_loop =
      collect_parts-parts_loop bytes (length bytes) next (offset ∷ []) (to_list first) r sound
        (first_rounds bytes offset pair) ((1, start real pair text), tt)

  source_loop :
      collect_parts (length (source r.base)) next (offset ∷ []) (to_list first) r
      ≡ collect_parts (length bytes) next (offset ∷ []) (to_list first) r
  source_loop =
      ap (λ (n : ℕ). collect_parts n next (offset ∷ []) (to_list first) r)
        (length-source bytes r.base sound.buffered)

  module _ (ne : (next == uint32_max) ≡ false) where
    rest_fails :
        (x : PyError)
        → parts_loop bytes (length bytes) next (offset ∷ []) (to_list first) ≡ err x
        → Answers bytes r
            (rest_at bytes r.version offset separator first next)
            (read_rest offset separator first next r)
    unfolding rest_at read_rest
    rest_fails x failed =
        let (cache, out, strings) = rest_loop in
        (cache, r.dynamic_tail_cache, rw (ne, source_loop, out, failed), strings, sound.tails)

    -- The tail that is cached is that of a chain that ends.
    tail_Parts :
        (parts : List Str)
        → parts_loop bytes (length bytes) next (offset ∷ []) (to_list first) ≡ ok parts
        → (links : ℕ) × Parts bytes links next (drop (length (to_list first)) parts)
    tail_Parts parts found =
        let (links, ps, chain, equal) =
          Parts-parts_loop bytes (length bytes) next (offset ∷ []) (to_list first) parts found in
        (links, rw (equal, drop_first first ps) chain)

    rest_found :
        (parts : List Str)
        → parts_loop bytes (length bytes) next (offset ∷ []) (to_list first) ≡ ok parts
        → Answers bytes r
            (rest_at bytes r.version offset separator first next)
            (read_rest offset separator first next r)
    unfolding rest_at read_rest
    rest_found parts found =
        let (cache, out, strings) = rest_loop in
        elim (Option-cases (Dict.get r.dynamic_tail_cache next)) [
          | inr (tail, cached) ↦ (
            cache,
            r.dynamic_tail_cache,
            rw (ne, source_loop, out, found, cached, cache_tail),
            strings,
            sound.tails,
          )
          | inl missing ↦ (
            cache,
            Dict.put r.dynamic_tail_cache next (drop (length (to_list first)) parts),
            rw (ne, source_loop, out, found, missing, cache_tail),
            strings,
            put-TailsSound bytes r.dynamic_tail_cache next _ sound.tails (tail_Parts parts found).1,
          )
        ]

  rest-Answers :
      Answers bytes r
        (rest_at bytes r.version offset separator first next)
        (read_rest offset separator first next r)
  rest-Answers = elim (Bool-cases (next == uint32_max)) [
    | inl e ↦ (
      r.string_cache,
      r.dynamic_tail_cache,
      unfold rest_at read_rest in rw e,
      sound.strings,
      sound.tails,
    )
    | inr ne ↦
        elim (Result-cases (parts_loop bytes (length bytes) next (offset ∷ []) (to_list first))) [
          | inl (parts, found) ↦ rest_found ne parts found
          | inr (x, failed) ↦ rest_fails ne x failed
        ]
  ]

pub with_caches-IsSound :
    {bytes : Bytes} {r : CatalogBinaryReader} (strings : Dict StringKey Str)
    (tails : Dict ℕ (List Str))
    → IsSound bytes r
    → StringsSound bytes r.version strings
    → TailsSound bytes tails
    → IsSound bytes (record r { string_cache = strings; dynamic_tail_cache = tails })
with_caches-IsSound strings tails sound s t = record {
  buffered = sound.buffered;
  strings = s;
  tails = t;
}

module _ (bytes : Bytes) (separator : Str) (r : CatalogBinaryReader) (sound : IsSound bytes r) where
  -- A dynamic string is read as if there were no caches.
  pub dynamic-Answers :
      (offset : ℕ)
      → offset ≢ uint32_max
      → Answers bytes r
          (dynamic_at bytes r.version offset separator)
          (read_dynamic_string offset separator r)
  unfolding dynamic_at read_dynamic_string
  dynamic-Answers offset real = elim (Result-cases (two_at bytes offset)) [
    | inr (x, failed) ↦ (
      r.string_cache,
      r.dynamic_tail_cache,
      rw (read_two-two_at bytes r.base sound.buffered, failed, dynamic_at),
      sound.strings,
      sound.tails,
    )
    | inl ((part, (next, _)), pair) ↦
        let (cache, read, strings) = read_part-part_at bytes part r sound in
        elim (Result-cases (part_at bytes part)) [
          | inr (x, failed) ↦ (
            cache,
            r.dynamic_tail_cache,
            rw (read_two-two_at bytes r.base sound.buffered, pair, read, failed, dynamic_at),
            strings,
            sound.tails,
          )
          | inl (first, text) ↦
              let (strings', tails', out, sound', sound'') =
                rest-Answers bytes offset real separator first next part
                  (record r { string_cache = cache }) (with_strings-IsSound cache sound strings)
                  pair text in
              (
                strings',
                tails',
                rw (read_two-two_at bytes r.base sound.buffered, pair, read, text, dynamic_at) out,
                sound',
                sound'',
              )
        ]
  ]
