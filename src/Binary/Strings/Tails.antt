-- ===== src/Binary/Strings/Tails.antt =====
-- The loop over the parts of a dynamic string, with the caches of a reader, gives what it gives
-- without them.
use addressables_tools_py.Prelude.{
  ℕ, zero, suc, true, false, List, ◌∷◌, ◌++◌, Option, none, some, ◌==◌, contains, ◌≡◌, refl,
  Bool-cases, Option-cases, inl, inr,
}
use addressables_tools_py.Prelude.Dict
use addressables_tools_py.Prelude.Dict.{Dict, nat_key}
use addressables_tools_py.Python.Exec.{PyError, Result, ok, err, Result-cases, ◌>>=◌}
use addressables_tools_py.Python.Stream.{Bytes}
use addressables_tools_py.Python.Codec.{Str}
use addressables_tools_py.Binary.State.{StringKey, CatalogBinaryReader, uint32_max, string_key}
use addressables_tools_py.Binary.Strings.{to_list, collect_parts, read_part}
use addressables_tools_py.Binary.Strings.Wire.{two_at, part_at, read_two-two_at}
use addressables_tools_py.Binary.Strings.Sound.{IsSound, StringsSound, read_part-part_at}
use addressables_tools_py.Binary.Strings.Loop.{
  parts_loop, HasRounds, HasRounds-step, AllLead, AllLead-step, start, parts_loop-Parts, two_at-lt,
  max_ne, rounds-pos,
}

-- A step gives this result, and changes the string cache at most.
abbrev pub Gives :
    {A : Type 0} → Bytes → CatalogBinaryReader → Result A → Result A × CatalogBinaryReader → Type 0
Gives bytes r result outcome =
    (cache : Dict StringKey Str) × (outcome ≡ (result, record r { string_cache = cache }))
    × StringsSound bytes r.version cache

pub with_strings-IsSound :
    {bytes : Bytes} {r : CatalogBinaryReader} (cache : Dict StringKey Str)
    → IsSound bytes r
    → StringsSound bytes r.version cache
    → IsSound bytes (record r { string_cache = cache })
with_strings-IsSound cache sound strings = record {
  buffered = sound.buffered;
  strings = strings;
  tails = sound.tails;
}

-- One round, by what it finds.
module _ (bytes : Bytes) (fuel next : ℕ) (visited : List ℕ) (parts : List Str)
    (r : CatalogBinaryReader) (sound : IsSound bytes r) (e : (next == uint32_max) ≡ false) where
  abbrev Round : Type 0
  Round =
      Gives bytes r (parts_loop bytes (suc fuel) next visited parts)
        (collect_parts (suc fuel) next visited parts r)

  collect_cached :
      (tail : List Str)
      → Dict.get r.dynamic_tail_cache next ≡ some tail
      → collect_parts (suc fuel) next visited parts r ≡ (ok (parts ++ tail), r)
  unfolding collect_parts
  collect_cached tail cached = rw (e, cached)

  cached_round :
      (tail : List Str)
      → Dict.get r.dynamic_tail_cache next ≡ some tail
      → HasRounds bytes (suc fuel) visited
      → AllLead bytes visited next
      → Round
  cached_round tail cached rounds all = (
    r.string_cache,
    rw (
      collect_cached tail cached,
      parts_loop-Parts (suc fuel) visited parts (sound.tails.entry next tail cached).1 rounds all,
    ),
    sound.strings,
  )

  module _ (missing : Dict.get r.dynamic_tail_cache next ≡ none) where
    cyclic_round : contains visited next ≡ true → Round
    unfolding collect_parts parts_loop
    cyclic_round back = (r.string_cache, rw (e, missing, back), sound.strings)

    module _ (fresh : contains visited next ≡ false) where
      broken_round : (x : PyError) → two_at bytes next ≡ err x → Round
      unfolding collect_parts parts_loop
      broken_round x failed = (
        r.string_cache,
        rw (e, missing, fresh, read_two-two_at bytes r.base sound.buffered, failed),
        sound.strings,
      )

      module _ (part following : ℕ) (pair : two_at bytes next ≡ ok (part, (following, tt))) where
        collect_link :
            collect_parts (suc fuel) next visited parts r
            ≡ (read_part part >>= λ o.
                  collect_parts fuel following (next ∷ visited) (parts ++ to_list o))
                r
        unfolding collect_parts
        collect_link = rw (e, missing, fresh, read_two-two_at bytes r.base sound.buffered, pair)

        abbrev after_part : Result (Option Str) → Result (List Str)
        after_part (err x) = err x
        after_part (ok o) = parts_loop bytes fuel following (next ∷ visited) (parts ++ to_list o)

        loop_link : parts_loop bytes (suc fuel) next visited parts ≡ after_part (part_at bytes part)
        unfolding parts_loop
        loop_link = rw (e, fresh, pair) (after_lem (part_at bytes part))
          where
            after_lem :
                (t : Result (Option Str))
                → elim t [
                  | err x ↦ err x
                  | ok o ↦ parts_loop bytes fuel following (next ∷ visited) (parts ++ to_list o)
                ]
                  ≡ after_part t
            after_lem (ok o) = refl
            after_lem (err x) = refl

        part_fails : (x : PyError) → part_at bytes part ≡ err x → Round
        part_fails x failed =
            let (cache, read, strings) = read_part-part_at bytes part r sound in
            (cache, rw (collect_link, loop_link, read, failed), strings)

        part_found :
            (o : Option Str)
            → part_at bytes part ≡ ok o
            → ((s : CatalogBinaryReader)
                → IsSound bytes s
                → Gives bytes s
                    (parts_loop bytes fuel following (next ∷ visited) (parts ++ to_list o))
                    (collect_parts fuel following (next ∷ visited) (parts ++ to_list o) s))
            → Round
        part_found o text rest =
            let (cache, read, strings) = read_part-part_at bytes part r sound in
            let (cache', out, strings') =
              rest (record r { string_cache = cache }) (with_strings-IsSound cache sound strings) in
            (cache', rw (collect_link, loop_link, read, text) out, strings')

-- The loop with the caches gives what the loop without them gives.
pub collect_parts-parts_loop :
    (bytes : Bytes) (fuel next : ℕ) (visited : List ℕ) (parts : List Str) (r : CatalogBinaryReader)
    → IsSound bytes r
    → HasRounds bytes fuel visited
    → AllLead bytes visited next
    → Gives bytes r
        (parts_loop bytes fuel next visited parts)
        (collect_parts fuel next visited parts r)
collect_parts-parts_loop bytes zero next visited parts r sound rounds all =
    absurd (rounds-pos visited rounds)
collect_parts-parts_loop bytes (suc fuel) next visited parts r sound rounds all =
    elim (Bool-cases (next == uint32_max)) [
      | inl e ↦ (r.string_cache, unfold collect_parts parts_loop in rw e, sound.strings)
      | inr e ↦ elim (Option-cases (Dict.get r.dynamic_tail_cache next)) [
        | inr (tail, cached) ↦
            cached_round bytes fuel next visited parts r sound e tail cached rounds all
        | inl missing ↦ elim (Bool-cases (contains visited next)) [
          | inl back ↦ cyclic_round bytes fuel next visited parts r sound e missing back
          | inr fresh ↦ elim (Result-cases (two_at bytes next)) [
            | inr (x, failed) ↦
                broken_round bytes fuel next visited parts r sound e missing fresh x failed
            | inl ((part, (following, _)), pair) ↦ elim (Result-cases (part_at bytes part)) [
              | inr (x, failed) ↦
                  part_fails bytes fuel next visited parts r sound e missing fresh part following
                    pair x failed
              | inl (o, text) ↦
                  part_found bytes fuel next visited parts r sound e missing fresh part following
                    pair o text
                    λ s sound'.
                      collect_parts-parts_loop bytes fuel following (next ∷ visited)
                        (parts ++ to_list o) s sound'
                        (HasRounds-step next rounds fresh (two_at-lt bytes next pair))
                        (
                          (_, start (max_ne next e) pair text),
                          AllLead-step bytes visited all (max_ne next e) pair text,
                        )
            ]
          ]
        ]
      ]
    ]
