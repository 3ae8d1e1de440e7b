-- ===== src/Decoder/Registry/Resolve.antt =====
-- `_resolve` follows the aliases to the name where they end, and refuses those that do not end.
use addressables_tools_py.Prelude.{
  ℕ, zero, suc, ◌≤◌, ◌<◌, true, false, List, [], ◌∷◌, none, some, length, ◌≡◌, ◌↔◌, ◌⊎◌, inl, inr,
  refl, arith, ap, ◌∙◌, Bool-cases, Option-cases, All,
}
use mathlib.Core.Path.{subst}
use mathlib.Core.Bool.{false≢true}
use addressables_tools_py.Prelude.Dict
use addressables_tools_py.Prelude.Dict.{Dict}
use addressables_tools_py.Python.Exec.{ok, err, value_error}
use addressables_tools_py.Python.Codec.{Str}
use addressables_tools_py.Models.Object.{str_eq, str_eq_iff}
use addressables_tools_py.Decoder.Registry.{
  str_key, contains_str, resolve_loop, DecoderRegistry, resolve,
}
use addressables_tools_py.Decoder.Registry.Rounds.{
  unvisited, unvisited_none, resolve_end, resolve_back, resolve_next, no_rounds, next_rounds,
}

same_target :
    (aliases : Dict Str Str) (name : Str) {n n' : Str}
    → Dict.get aliases name ≡ some n
    → Dict.get aliases name ≡ some n'
    → n' ≡ n
same_target aliases name e e' = cc

-- Following some aliases from a name ends at a target that is no alias.
pub data EndsAt (aliases : Dict Str Str) (target : Str) : ℕ → Str → Type 0 where
  end : Dict.get aliases target ≡ none → EndsAt aliases target 0 target
  follow :
      {steps : ℕ} {name next : Str}
      → Dict.get aliases name ≡ some next
      → EndsAt aliases target steps next
      → EndsAt aliases target (suc steps) name

EndsAt-unique :
    {aliases : Dict Str Str} {s t : Str} {j k : ℕ} {name : Str}
    → EndsAt aliases s j name
    → EndsAt aliases t k name
    → j ≡ k
EndsAt-unique (end e) (end e') = refl
EndsAt-unique (end e) (follow f _) = cc
EndsAt-unique (follow f _) (end e) = cc
EndsAt-unique {aliases} {t = t} {name = name} (follow e p) (follow {steps = steps} e' q) =
    ap suc (EndsAt-unique p (subst (EndsAt aliases t steps) (same_target aliases name e e') q))

-- A visited name leads to the one that the loop is at, by some aliases.
data Leads (aliases : Dict Str Str) (v : Str) : ℕ → Str → Type 0 where
  one : {n : Str} → Dict.get aliases v ≡ some n → Leads aliases v 1 n
  more :
      {m : ℕ} {k n : Str}
      → Leads aliases v m k
      → Dict.get aliases k ≡ some n
      → Leads aliases v (suc m) n

Leads-EndsAt :
    {aliases : Dict Str Str} {v n target : Str} {m steps : ℕ}
    → Leads aliases v m n
    → EndsAt aliases target steps n
    → (total : ℕ) × (steps < total) × EndsAt aliases target total v
Leads-EndsAt (one e) p = (_, omega arith, follow e p)
Leads-EndsAt (more l e) p =
    let (total, longer, q) = Leads-EndsAt l (follow e p) in (total, omega arith, q)

no_return :
    {aliases : Dict Str Str} {n target : Str} {m steps : ℕ}
    → Leads aliases n m n
    → EndsAt aliases target steps n
    → ⊥
no_return l p =
    let (total, longer, q) = Leads-EndsAt l p in absurd (omega (arith, EndsAt-unique p q))

abbrev AllLead : Dict Str Str → List Str → Str → Type 0
AllLead aliases visited name = All (λ v. (m : ℕ) × Leads aliases v m name) visited

AllLead-more :
    (aliases : Dict Str Str) (visited : List Str) (k : Str) {n : Str}
    → AllLead aliases visited k
    → Dict.get aliases k ≡ some n
    → AllLead aliases visited n
AllLead-more aliases [] k all e = tt
AllLead-more aliases (v ∷ visited) k all e =
    ((_, more all.0.1 e), AllLead-more aliases visited k all.1 e)

Leads-back :
    (aliases : Dict Str Str) (visited : List Str) (n : Str)
    → AllLead aliases visited n
    → contains_str visited n ≡ true
    → (m : ℕ) × Leads aliases n m n
Leads-back aliases [] n all h = absurd (false≢true h)
Leads-back aliases (v ∷ visited) n all h = elim (Bool-cases (str_eq v n)) [
  | inl e ↦ subst (λ w. (m : ℕ) × Leads aliases w m n) ((str_eq_iff v n).0 e) all.0
  | inr e ↦ Leads-back aliases visited n all.1 (rw e at h)
]

-- Where the aliases end, the loop returns.
resolve_loop-EndsAt :
    {aliases : Dict Str Str} {target name : Str} {steps : ℕ} (fuel : ℕ) (visited : List Str)
    → EndsAt aliases target steps name
    → unvisited aliases visited ≤ fuel
    → AllLead aliases visited name
    → resolve_loop fuel aliases name visited ≡ ok target
resolve_loop-EndsAt {aliases} {name} fuel visited (end e) h all =
    resolve_end aliases name visited fuel e
resolve_loop-EndsAt {aliases} {name} zero visited (follow e p) h all =
    elim (Bool-cases (contains_str visited name)) [
      | inl back ↦ absurd (no_return (Leads-back aliases visited name all back).1 (follow e p))
      | inr fresh ↦ absurd (no_rounds aliases name visited e h fresh)
    ]
resolve_loop-EndsAt {aliases} {name} (suc fuel) visited (follow e p) h all =
    elim (Bool-cases (contains_str visited name)) [
      | inl back ↦ absurd (no_return (Leads-back aliases visited name all back).1 (follow e p))
      | inr fresh ↦
          resolve_next aliases name visited e fuel fresh
          ∙ resolve_loop-EndsAt fuel (name ∷ visited) p
              (next_rounds aliases name visited e fuel h fresh)
              ((1, one e), AllLead-more aliases visited name all e)
    ]

abbrev Ends : Dict Str Str → ℕ → Str → List Str → Type 0
Ends aliases fuel name visited =
    ((target : Str) × (resolve_loop fuel aliases name visited ≡ ok target)
      × (steps : ℕ) × EndsAt aliases target steps name)
    ⊎ (resolve_loop fuel aliases name visited ≡ err value_error)

Ends-next :
    (aliases : Dict Str Str) (fuel : ℕ) (name next : Str) (visited : List Str)
    → Dict.get aliases name ≡ some next
    → contains_str visited name ≡ false
    → Ends aliases fuel next (name ∷ visited)
    → Ends aliases (suc fuel) name visited
Ends-next aliases fuel name next visited e fresh (inl (target, out, steps, p)) =
    inl (target, resolve_next aliases name visited e fuel fresh ∙ out, suc steps, follow e p)
Ends-next aliases fuel name next visited e fresh (inr out) =
    inr (resolve_next aliases name visited e fuel fresh ∙ out)

-- The loop returns where the aliases end, or raises ValueError.
resolve_loop-Ends :
    (aliases : Dict Str Str) (fuel : ℕ) (name : Str) (visited : List Str)
    → unvisited aliases visited ≤ fuel
    → Ends aliases fuel name visited
resolve_loop-Ends aliases zero name visited h = elim (Option-cases (Dict.get aliases name)) [
  | inl e ↦ inl (name, resolve_end aliases name visited zero e, 0, end e)
  | inr (next, e) ↦ elim (Bool-cases (contains_str visited name)) [
    | inl back ↦ inr (resolve_back aliases name visited e zero back)
    | inr fresh ↦ absurd (no_rounds aliases name visited e h fresh)
  ]
]
resolve_loop-Ends aliases (suc fuel) name visited h = elim (Option-cases (Dict.get aliases name)) [
  | inl e ↦ inl (name, resolve_end aliases name visited (suc fuel) e, 0, end e)
  | inr (next, e) ↦ elim (Bool-cases (contains_str visited name)) [
    | inl back ↦ inr (resolve_back aliases name visited e (suc fuel) back)
    | inr fresh ↦ Ends-next aliases fuel name next visited e fresh (
        resolve_loop-Ends aliases fuel next (name ∷ visited)
          (next_rounds aliases name visited e fuel h fresh))
  ]
]

-- DecoderRegistry._resolve returns or raises ValueError: it never runs out of rounds. It returns a
-- target exactly when following the aliases from the name ends there, at a name with no alias.
pub resolve-EndsAt :
    (g : DecoderRegistry) (name : Str)
    → (((target : Str) × (resolve g name ≡ ok target)) ⊎ (resolve g name ≡ err value_error))
      × ((target : Str)
          → (resolve g name ≡ ok target) ↔ ((steps : ℕ) × EndsAt g.aliases target steps name))
unfolding resolve
resolve-EndsAt g name =
    let ends = resolve_loop-Ends g.aliases (length g.aliases) name [] (unvisited_none g.aliases) in
    (
      elim ends [ inl (target, out, _, _) ↦ inl (target, out) | inr out ↦ inr out ],
      λ target. (
        λ h. elim ends [
          | inl (t, out, steps, p) ↦
              (steps, subst (λ s. EndsAt g.aliases s steps name) (cc (out, h)) p)
          | inr out ↦ cc (out, h)
        ],
        λ (steps, p). resolve_loop-EndsAt (length g.aliases) [] p (unvisited_none g.aliases) tt,
      ),
    )
