-- ===== src/Binary/Strings/Loop.antt =====
-- The loop over the parts of a dynamic string, as a function of the bytes with no cache: it ends
-- within the length of the bytes, and it lists the parts of a chain that ends.
use addressables_tools_py.Prelude.{
  ℕ, zero, suc, ◌+◌, ◌<◌, true, false, List, [], ◌∷◌, ◌++◌, Option, ◌==◌, length, All, contains,
  if◌then◌else◌, ◌≡◌, ◌≢◌, refl, arith, ap, Bool-cases, inl, inr, ==_iff, ◌∙◌,
}
use mathlib.Core.Path.{subst}
use mathlib.Core.Bool.{false≢true}
use mathlib.Core.List.{append_assoc, append-nil}
use addressables_tools_py.Prelude.Distinct.{IsDistinct, pigeonhole}
use addressables_tools_py.Python.Exec.{
  Result, ok, err, Result-cases, binary_read_error, fuel_exhausted,
}
use addressables_tools_py.Python.Stream.{Bytes}
use addressables_tools_py.Python.Struct.{Values}
use addressables_tools_py.Python.Codec.{Str}
use addressables_tools_py.Binary.Reader.{two_uint32}
use addressables_tools_py.Binary.State.{uint32_max}
use addressables_tools_py.Binary.Strings.{to_list}
use addressables_tools_py.Binary.Strings.Wire.{two_at, part_at, Parts, last, link}

unfoldable pub parts_loop : Bytes → ℕ → ℕ → List ℕ → List Str → Result (List Str)
parts_loop bytes zero next visited parts =
    if next == uint32_max then ok parts else err fuel_exhausted
parts_loop bytes (suc fuel) next visited parts =
    if next == uint32_max
    then ok parts
    else if contains visited next
    then err binary_read_error
    else elim (two_at bytes next) [
      | err e ↦ err e
      | ok (part, (following, _)) ↦ elim (part_at bytes part) [
        | err e ↦ err e
        | ok o ↦ parts_loop bytes fuel following (next ∷ visited) (parts ++ to_list o)
      ]
    ]

-- One position leads to another along some links of a chain.
pub data Leads (bytes : Bytes) (v : ℕ) : ℕ → ℕ → Type 0 where
  start :
      {part n : ℕ} {o : Option Str}
      → v ≢ uint32_max
      → two_at bytes v ≡ ok (part, (n, tt))
      → part_at bytes part ≡ ok o
      → Leads bytes v 1 n
  step :
      {m k part n : ℕ} {o : Option Str}
      → Leads bytes v m k
      → k ≢ uint32_max
      → two_at bytes k ≡ ok (part, (n, tt))
      → part_at bytes part ≡ ok o
      → Leads bytes v (suc m) n

Leads-Parts :
    {bytes : Bytes} {v m n links : ℕ} {ps : List Str}
    → Leads bytes v m n
    → Parts bytes links n ps
    → (total : ℕ) × (qs : List Str) × (links < total) × Parts bytes total v qs
Leads-Parts (start h pair text) p = (_, _, omega arith, link h pair text p)
Leads-Parts (step l h pair text) p =
    let (total, qs, longer, chain) = Leads-Parts l (link h pair text p) in
    (total, qs, omega arith, chain)

-- What an offset and a part say is one thing.
next_unique :
    (bytes : Bytes) (n : ℕ) {part next part' next' : ℕ}
    → two_at bytes n ≡ ok (part, (next, tt))
    → two_at bytes n ≡ ok (part', (next', tt))
    → next' ≡ next
next_unique bytes n a b = cc

Parts-links_unique :
    {bytes : Bytes} {n k k' : ℕ} {ps ps' : List Str}
    → Parts bytes k n ps
    → Parts bytes k' n ps'
    → k ≡ k'
Parts-links_unique (last e) (last e') = refl
Parts-links_unique (last e) (link h _ _ _) = absurd (h e)
Parts-links_unique (link h _ _ _) (last e) = absurd (h e)
Parts-links_unique {bytes} {n} (link h pair _ p) (link {links = links} {ps = qs} h' pair' _ q) =
    ap suc (
      Parts-links_unique p (subst (λ m. Parts bytes links m qs) (next_unique bytes n pair pair') q))

-- A chain that ends does not come back.
pub no_return :
    {bytes : Bytes} {m n links : ℕ} {ps : List Str} → Leads bytes n m n → Parts bytes links n ps → ⊥
no_return l p =
    let (total, qs, longer, chain) = Leads-Parts l p in
    absurd (omega (arith, Parts-links_unique p chain))

pub two_at-lt :
    (bytes : Bytes) (n : ℕ) {v : Values two_uint32} → two_at bytes n ≡ ok v → n < length bytes
unfolding two_at
two_at-lt bytes n h = ground arith

-- Every visited offset leads to the next one.
abbrev pub AllLead : Bytes → List ℕ → ℕ → Type 0
AllLead bytes visited next = All (λ v. (m : ℕ) × Leads bytes v m next) visited

pub AllLead-step :
    (bytes : Bytes) (visited : List ℕ) {k part n : ℕ} {o : Option Str}
    → AllLead bytes visited k
    → k ≢ uint32_max
    → two_at bytes k ≡ ok (part, (n, tt))
    → part_at bytes part ≡ ok o
    → AllLead bytes visited n
AllLead-step bytes [] all h pair text = tt
AllLead-step bytes (v ∷ visited) all h pair text =
    ((_, step all.0.1 h pair text), AllLead-step bytes visited all.1 h pair text)

Leads-back :
    {bytes : Bytes} (visited : List ℕ) (n : ℕ)
    → AllLead bytes visited n
    → contains visited n ≡ true
    → (m : ℕ) × Leads bytes n m n
Leads-back [] n all h = absurd (false≢true h)
Leads-back {bytes} (v ∷ visited) n all h = elim (Bool-cases (v == n)) [
  | inl e ↦ subst (λ w. (m : ℕ) × Leads bytes w m n) ((==_iff v n).0 e) all.0
  | inr e ↦ Leads-back visited n all.1 (rw e at h)
]

-- The visited offsets are distinct places of the bytes, and rounds are left for the others.
pub record HasRounds (bytes : Bytes) (fuel : ℕ) (visited : List ℕ) : Type 0 where
  pub small : All (λ v. v < length bytes) visited
  pub distinct : IsDistinct visited
  pub rounds : length bytes < fuel + length visited

pub rounds-pos : {bytes : Bytes} (visited : List ℕ) → HasRounds bytes zero visited → ⊥
rounds-pos {bytes} visited h =
    absurd (omega (arith, pigeonhole (length bytes) visited h.small h.distinct, h.rounds))

pub HasRounds-step :
    {bytes : Bytes} {fuel : ℕ} {visited : List ℕ} (n : ℕ)
    → HasRounds bytes (suc fuel) visited
    → contains visited n ≡ false
    → n < length bytes
    → HasRounds bytes fuel (n ∷ visited)
HasRounds-step n h fresh inside = record {
  small = (inside, h.small);
  distinct = (fresh, h.distinct);
  rounds = omega (arith, h.rounds);
}

not_max : (n : ℕ) → n ≢ uint32_max → (n == uint32_max) ≡ false
not_max n h = ground arith

pub max_ne : (n : ℕ) → (n == uint32_max) ≡ false → n ≢ uint32_max
max_ne n h = ground arith

-- The loop lists the parts of a chain that ends.
pub parts_loop-Parts :
    {bytes : Bytes} {next links : ℕ} {ps : List Str} (fuel : ℕ) (visited : List ℕ)
    (parts : List Str)
    → Parts bytes links next ps
    → HasRounds bytes fuel visited
    → AllLead bytes visited next
    → parts_loop bytes fuel next visited parts ≡ ok (parts ++ ps)
unfolding parts_loop
parts_loop-Parts zero visited parts p h all = absurd (rounds-pos visited h)
parts_loop-Parts {bytes} (suc fuel) visited parts (last e) h all = rw (e, append-nil)
parts_loop-Parts {bytes} (suc fuel) visited parts (link {n = n} {o = o} {ps = ps} ne pair text p) h
      all =
    elim (Bool-cases (contains visited n)) [
      | inl back ↦ absurd (no_return (Leads-back visited n all back).1 (link ne pair text p))
      | inr fresh ↦
          rw (not_max n ne, fresh, pair, text)
            (parts_loop-Parts fuel (n ∷ visited) (parts ++ to_list o) p
                (HasRounds-step n h fresh (two_at-lt _ n pair))
                ((_, start ne pair text), AllLead-step bytes visited all ne pair text)
              ∙ ap ok (append_assoc parts (to_list o) ps))
    ]

-- A list of parts that the loop returns is that of a chain that ends.
pub Parts-parts_loop :
    (bytes : Bytes) (fuel next : ℕ) (visited : List ℕ) (parts out : List Str)
    → parts_loop bytes fuel next visited parts ≡ ok out
    → (links : ℕ) × (ps : List Str) × Parts bytes links next ps × (out ≡ parts ++ ps)
unfolding parts_loop
Parts-parts_loop bytes zero next visited parts out h = elim (Bool-cases (next == uint32_max)) [
  | inl e ↦ (0, [], last ((==_iff next uint32_max).0 e), rw append-nil (cc (rw e at h)))
  | inr e ↦ cc (rw e at h)
]
Parts-parts_loop bytes (suc fuel) next visited parts out h =
    elim (Bool-cases (next == uint32_max)) [
      | inl e ↦ (0, [], last ((==_iff next uint32_max).0 e), rw append-nil (cc (rw e at h)))
      | inr e ↦ elim (Bool-cases (contains visited next)) [
        | inl back ↦ cc (rw (e, back) at h)
        | inr fresh ↦ elim (Result-cases (two_at bytes next)) [
          | inr (x, failed) ↦ cc (rw (e, fresh, failed) at h)
          | inl ((part, (following, _)), pair) ↦ elim (Result-cases (part_at bytes part)) [
            | inr (x, failed) ↦ cc (rw (e, fresh, pair, failed) at h)
            | inl (o, text) ↦
                let (links, ps, chain, equal) =
                  Parts-parts_loop bytes fuel following (next ∷ visited) (parts ++ to_list o) out
                    (rw (e, fresh, pair, text) at h) in
                (
                  suc links,
                  to_list o ++ ps,
                  link (max_ne next e) pair text chain,
                  equal ∙ append_assoc parts (to_list o) ps,
                )
          ]
        ]
      ]
    ]
