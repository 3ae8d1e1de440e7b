-- ===== src/Binary/Strings/Errors.antt =====
-- The exceptions of `read_encoded_string` over a buffer, and what it returns for dynamic strings.
use addressables_tools_py.Prelude.{
  ℕ, zero, suc, ◌%◌, true, false, ◌||◌, List, [], ◌∷◌, ◌++◌, Option, some, ◌==◌, length, contains,
  ◌≡◌, ◌↔◌, refl, arith, Bool-cases, inl, inr, ℤ,
}
use addressables_tools_py.Python.Exec.{ok, Result-cases}
use addressables_tools_py.Python.Stream.{Bytes}
use addressables_tools_py.Python.Struct.{Values}
use addressables_tools_py.Python.Codec.{Str}
use addressables_tools_py.Binary.State.{CatalogBinaryReader, uint32_max, uint32_max_minus_one}
use addressables_tools_py.Binary.Strings.{is_dynamic, has_bit, to_list, read_encoded_string}
use addressables_tools_py.Binary.Strings.Wire.{two_at, part_at}
use addressables_tools_py.Binary.Strings.Sound.{IsSound, Dynamic}
use addressables_tools_py.Binary.Strings.Loop.{
  parts_loop, HasRounds, HasRounds-step, rounds-pos, two_at-lt,
}
use addressables_tools_py.Binary.Strings.Encoded.{
  encoded_at, dynamic_at, rest_at, dynamic_at-Dynamic, Dynamic-dynamic_at, first_rounds,
}
use addressables_tools_py.Binary.Strings.Refusals.{
  RaisesReadErrors, two_at-errors, basic_at-errors, of_some_text, some_text-errors, part_at-errors,
}
use addressables_tools_py.Binary.Strings.Transparent.{read_encoded_string-encoded_at, ne_max}
use addressables_tools_py.Binary.Reader.{two_uint32}

-- The loop ends by its own tests.
parts_loop-errors :
    (bytes : Bytes) (fuel next : ℕ) (visited : List ℕ) (parts : List Str)
    → HasRounds bytes fuel visited
    → RaisesReadErrors (parts_loop bytes fuel next visited parts)
unfolding parts_loop
parts_loop-errors bytes zero next visited parts rounds = absurd (rounds-pos visited rounds)
parts_loop-errors bytes (suc fuel) next visited parts rounds =
    elim (Bool-cases (next == uint32_max)) [
      | inl e ↦ rw e tt
      | inr e ↦ elim (Bool-cases (contains visited next)) [
        | inl back ↦ rw (e, back) (inl refl)
        | inr fresh ↦ elim (Result-cases (two_at bytes next)) [
          | inr (x, failed) ↦ rw (e, fresh, failed) (rw failed at (two_at-errors bytes next))
          | inl ((part, (following, _)), pair) ↦ elim (Result-cases (part_at bytes part)) [
            | inr (x, failed) ↦
                rw (e, fresh, pair, failed) (rw failed at (part_at-errors bytes part))
            | inl (o, text) ↦
                rw (e, fresh, pair, text)
                  (parts_loop-errors bytes fuel following (next ∷ visited) (parts ++ to_list o)
                    (HasRounds-step next rounds fresh (two_at-lt bytes next pair)))
          ]
        ]
      ]
    ]

rest_at-errors :
    (bytes : Bytes) (version : ℤ) (offset : ℕ) (separator : Str) (first : Option Str) (next : ℕ)
    {v : Values two_uint32}
    → two_at bytes offset ≡ ok v
    → RaisesReadErrors (rest_at bytes version offset separator first next)
unfolding rest_at
rest_at-errors bytes version offset separator first next pair =
    elim (Bool-cases (next == uint32_max)) [
      | inl e ↦ rw e tt
      | inr ne ↦
          elim (Result-cases (parts_loop bytes (length bytes) next (offset ∷ []) (to_list first))) [
            | inl (parts, found) ↦ rw (ne, found) tt
            | inr (x, failed) ↦
                rw (ne, failed)
                  (rw failed at (
                    parts_loop-errors bytes (length bytes) next (offset ∷ []) (to_list first)
                      (first_rounds bytes offset pair)))
          ]
    ]

dynamic_at-errors :
    (bytes : Bytes) (version : ℤ) (offset : ℕ) (separator : Str)
    → RaisesReadErrors (dynamic_at bytes version offset separator)
unfolding dynamic_at
dynamic_at-errors bytes version offset separator = elim (Result-cases (two_at bytes offset)) [
  | inr (x, failed) ↦
      rw (failed, RaisesReadErrors, dynamic_at) (rw failed at (two_at-errors bytes offset))
  | inl ((part, (next, _)), pair) ↦ elim (Result-cases (part_at bytes part)) [
    | inr (x, failed) ↦
        rw (pair, failed, RaisesReadErrors, dynamic_at) (rw failed at (part_at-errors bytes part))
    | inl (first, text) ↦
        rw (pair, text, RaisesReadErrors, dynamic_at)
          (rest_at-errors bytes version offset separator first next pair)
  ]
]

encoded_at-errors :
    (bytes : Bytes) (version : ℤ) (encoded : ℕ) (separator : Str)
    → RaisesReadErrors (encoded_at bytes version encoded separator)
unfolding encoded_at
encoded_at-errors bytes version encoded separator =
    elim (Bool-cases ((encoded == uint32_max) || (encoded == uint32_max_minus_one))) [
      | inl e ↦ rw e tt
      | inr e ↦ elim (Bool-cases (is_dynamic encoded separator)) [
        | inl d ↦
            rw (e, d)
              (some_text-errors _
                (dynamic_at-errors bytes version (encoded % 0x40000000) separator))
        | inr d ↦
            rw (e, d)
              (some_text-errors _
                (basic_at-errors bytes (encoded % 0x40000000) (has_bit 0x80000000 encoded)))
      ]
    ]

-- Over a buffer and sound caches, read_encoded_string returns, or raises BinaryReadError or
-- UnicodeDecodeError: its loop never runs out of rounds, whatever the bytes.
pub read_encoded_string-errors :
    (bytes : Bytes) (encoded : ℕ) (separator : Str) (r : CatalogBinaryReader)
    → IsSound bytes r
    → RaisesReadErrors (read_encoded_string encoded separator r).0
read_encoded_string-errors bytes encoded separator r sound =
    let (_, _, out, _, _) = read_encoded_string-encoded_at bytes encoded separator r sound in
    rw out (encoded_at-errors bytes r.version encoded separator)

-- Over a buffer and sound caches, an offset with the dynamic bit that is none of the two null
-- offsets is read as a text, with a separator other than the default, exactly when that is the text
-- of a chain of parts that ends: the first part alone, or the parts joined, from the last on if the
-- version is above 1.
pub read_encoded_string-Dynamic :
    (bytes : Bytes) (encoded : ℕ) (separator s : Str) (r : CatalogBinaryReader)
    → IsSound bytes r
    → ((encoded == uint32_max) || (encoded == uint32_max_minus_one)) ≡ false
    → is_dynamic encoded separator ≡ true
    → ((read_encoded_string encoded separator r).0 ≡ ok (some s))
      ↔ Dynamic bytes r.version (encoded % 0x40000000) separator s
unfolding encoded_at
read_encoded_string-Dynamic bytes encoded separator s r sound real d =
    let (_, _, out, _, _) = read_encoded_string-encoded_at bytes encoded separator r sound in
    (
      λ h.
          dynamic_at-Dynamic bytes r.version separator (encoded % 0x40000000) s
            (of_some_text _ s (rw (out, real, d) at h)),
      λ h. rw (out, real, d, Dynamic-dynamic_at (ne_max (encoded % 0x40000000) (omega arith)) h),
    )
