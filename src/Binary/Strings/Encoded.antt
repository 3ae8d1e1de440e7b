-- ===== src/Binary/Strings/Encoded.antt =====
-- `read_encoded_string` as a function of the bytes, and the caches in front of it.
use addressables_tools_py.Prelude.{
  ℕ, ◌%◌, ℤ, ◌||◌, List, [], ◌∷◌, Option, none, ◌==◌, length, if◌then◌else◌, ◌≡◌, ◌≢◌, refl, arith,
  Bool-cases, inl, inr, ==_iff,
}
use addressables_tools_py.Prelude.Dict.{nat_key}
use addressables_tools_py.Python.Exec.{Result, ok, err, Result-cases}
use addressables_tools_py.Python.Stream.{Bytes}
use addressables_tools_py.Python.Codec.{Str}
use addressables_tools_py.Binary.Reader.{two_uint32}
use addressables_tools_py.Python.Struct.{Values}
use addressables_tools_py.Binary.State.{uint32_max, uint32_max_minus_one, string_key}
use addressables_tools_py.Binary.Strings.{to_list, or_empty, joined, has_bit, is_dynamic}
use addressables_tools_py.Binary.Strings.Wire.{two_at, part_at, basic_at, some_text, Parts, last}
use addressables_tools_py.Binary.Strings.Sound.{Dynamic, dynamic_string, rendered}
use addressables_tools_py.Binary.Strings.Loop.{
  parts_loop, parts_loop-Parts, HasRounds, start, Parts-parts_loop, two_at-lt,
}

abbrev pub finish : ℤ → Str → Result (List Str) → Result Str
finish version separator (err x) = err x
finish version separator (ok parts) = ok (joined version separator parts)

unfoldable pub rest_at : Bytes → ℤ → ℕ → Str → Option Str → ℕ → Result Str
rest_at bytes version offset separator first next =
    if next == uint32_max
    then ok (or_empty first)
    else finish version separator
        (parts_loop bytes (length bytes) next (offset ∷ []) (to_list first))

-- A dynamic string of the bytes, with no cache.
unfoldable pub dynamic_at : Bytes → ℤ → ℕ → Str → Result Str
unfolding rest_at
dynamic_at bytes version offset separator = elim (two_at bytes offset) [
  | err x ↦ err x
  | ok (part, (next, _)) ↦ elim (part_at bytes part) [
    | err x ↦ err x
    | ok first ↦ rest_at bytes version offset separator first next
  ]
]

-- An encoded string of the bytes, with no cache.
unfoldable pub encoded_at : Bytes → ℤ → ℕ → Str → Result (Option Str)
unfolding dynamic_at
encoded_at bytes version encoded separator =
    if (encoded == uint32_max) || (encoded == uint32_max_minus_one)
    then ok none
    else some_text (
        if is_dynamic encoded separator
        then dynamic_at bytes version (encoded % 0x40000000) separator
        else basic_at bytes (encoded % 0x40000000) (has_bit 0x80000000 encoded))

pub first_rounds :
    (bytes : Bytes) (offset : ℕ) {v : Values two_uint32}
    → two_at bytes offset ≡ ok v
    → HasRounds bytes (length bytes) (offset ∷ [])
first_rounds bytes offset pair = record {
  small = (two_at-lt bytes offset pair, tt);
  distinct = (refl, tt);
  rounds = omega arith;
}

-- What the part of a read after the first part returns, in terms of a chain that ends.
pub rest_rendered :
    (bytes : Bytes) (version : ℤ) (offset : ℕ) (separator : Str) (first : Option Str) (next : ℕ)
    (s : Str)
    → rest_at bytes version offset separator first next ≡ ok s
    → (links : ℕ) × (ps : List Str) × Parts bytes links next ps
      × (s ≡ rendered version separator first next ps)
unfolding rest_at rendered
rest_rendered bytes version offset separator first next s h =
    elim (Bool-cases (next == uint32_max)) [
      | inl e ↦ (0, [], last ((==_iff next uint32_max).0 e), rw e (cc (rw e at h)))
      | inr ne ↦
          elim (Result-cases (parts_loop bytes (length bytes) next (offset ∷ []) (to_list first))) [
            | inr (x, failed) ↦ cc (rw (ne, failed) at h)
            | inl (parts, found) ↦
                let (links, ps, chain, equal) =
                  Parts-parts_loop bytes (length bytes) next (offset ∷ []) (to_list first) parts
                    found in
                (links, ps, chain, rw (ne, ← equal) (cc (rw (ne, found) at h)))
          ]
    ]

-- A text that is found at an offset is that of a dynamic string there.
pub dynamic_at-Dynamic :
    (bytes : Bytes) (version : ℤ) (separator : Str) (offset : ℕ) (s : Str)
    → dynamic_at bytes version offset separator ≡ ok s
    → Dynamic bytes version offset separator s
unfolding dynamic_at
dynamic_at-Dynamic bytes version separator offset s h = elim (Result-cases (two_at bytes offset)) [
  | inr (x, failed) ↦ cc (rw (failed, dynamic_at) at h)
  | inl ((part, (next, _)), pair) ↦ elim (Result-cases (part_at bytes part)) [
    | inr (x, failed) ↦ cc (rw (pair, failed, dynamic_at) at h)
    | inl (first, text) ↦
        let (links, ps, chain, equal) =
          rest_rendered bytes version offset separator first next s
            (rw (pair, text, dynamic_at) at h) in
        dynamic_string pair text chain equal
  ]
]

-- A dynamic string of the bytes is found.
pub Dynamic-dynamic_at :
    {bytes : Bytes} {version : ℤ} {separator : Str} {offset : ℕ} {s : Str}
    → offset ≢ uint32_max
    → Dynamic bytes version offset separator s
    → dynamic_at bytes version offset separator ≡ ok s
unfolding dynamic_at rest_at rendered
Dynamic-dynamic_at {bytes} real
      (dynamic_string {offset = offset} {next = next} {first = first} pair text chain equal) =
    elim (Bool-cases (next == uint32_max)) [
      | inl e ↦ rw (equal, pair, text, e, dynamic_at)
      | inr ne ↦ rw (
        equal,
        pair,
        text,
        ne,
        parts_loop-Parts (length bytes) (offset ∷ []) (to_list first) chain
            (first_rounds bytes offset pair) ((1, start real pair text), tt),
        dynamic_at,
      )
    ]
