-- ===== src/Compat/Sharing.antt =====
-- Which wrappers `CompatCatalog.Resources` of src/AddressablesTools.py shares.
use addressables_tools_py.Prelude.{
  ℕ, ◌<◌, ◌≡◌, ◌⊎◌, ◌↔◌, refl, sym, ap, ◌∙◌, inl, inr, List, [], ◌∷◌, Option, none, some, All, ◌==◌,
  arith, Bool-cases, ==_iff, ==_refl,
}
use addressables_tools_py.Prelude.Dict
use addressables_tools_py.Prelude.Dict.{Dict, nat_key, nat_key-IsLawful, get-put, get-put_cases}
use addressables_tools_py.Models.Object.{Object}
use addressables_tools_py.Compat.Snapshot.{
  Wrapper, LocationCache, Snapshot, no_wrappers, new_wrapper, wrap_location, wrap_locations,
  fill_snapshot, resources_snapshot,
}
use addressables_tools_py.Compat.Values.{
  Legacy, wrap_legacy, legacy_key, legacy_eq, legacy_is_hashable,
}
use addressables_tools_py.Python.Exec.{ok, type_error}
use addressables_tools_py.Python.Result.Returns.{
  Returns, Returns-ok, Returns-err, Returns-if, Returns-bind,
}
use addressables_tools_py.Models.Catalog.{ContentCatalogData, Resources}

pub Option-cases : {A : Type 0} (o : Option A) → (o ≡ none) ⊎ ((a : A) × (o ≡ some a))
Option-cases none = inl refl
Option-cases (some a) = inr (a, refl)

abbrev OccursIn : Wrapper → List Wrapper → Type 0
OccursIn w [] = ⊥
OccursIn w (v ∷ ws) = (w ≡ v) ⊎ OccursIn w ws

abbrev identity_of : Wrapper → Option Wrapper → ℕ
identity_of v none = v.identity
identity_of v (some w) = w.identity

module _ (id : Object → ℕ) where
  -- A wrapper is at its location's identity, and no two have the same identity.
  pub record IsCache (c : LocationCache) : Type 0 where
    pub at_source : (n : ℕ) (w : Wrapper) → Dict.get c.wrappers n ≡ some w → id w.source ≡ n
    pub old : (n : ℕ) (w : Wrapper) → Dict.get c.wrappers n ≡ some w → w.identity < c.next
    pub apart :
        (m n : ℕ) (v w : Wrapper)
        → Dict.get c.wrappers m ≡ some v
        → Dict.get c.wrappers n ≡ some w
        → v.identity ≡ w.identity
        → m ≡ n

  pub empty-IsCache : IsCache no_wrappers
  unfolding Dict.get
  empty-IsCache = record {
    at_source = λ n w h. absurd cc;
    old = λ n w h. absurd cc;
    apart = λ m n v w h k e. absurd cc;
  }

  abbrev pub Extends : LocationCache → LocationCache → Type 0
  Extends c d =
      (n : ℕ) (w : Wrapper) → Dict.get c.wrappers n ≡ some w → Dict.get d.wrappers n ≡ some w

  abbrev pub IsIn : LocationCache → Wrapper → Type 0
  IsIn c w = Dict.get c.wrappers (id w.source) ≡ some w

  -- What a step makes of a cache.
  abbrev pub IsStep : LocationCache → Object → Wrapper × LocationCache → Type 0
  IsStep c x (w, d) = IsCache d × Extends c d × IsIn d w × (id w.source ≡ id x)

  Extends-new :
      (c : LocationCache) (x : Object)
      → Dict.get c.wrappers (id x) ≡ none
      → Extends c (new_wrapper id x c).1
  Extends-new c x missing n w h =
      rw (get-put nat_key-IsLawful c.wrappers (id x) n (new_wrapper id x c).0)
        (elim (Bool-cases (id x == n)) [
          | inl e ↦ absurd (cc (h, missing, (==_iff (id x) n).0 e))
          | inr e ↦ rw e h
        ])

  -- What a lookup finds after a new wrapper.
  found-new :
      (c : LocationCache) (x : Object) (n : ℕ) (w : Wrapper)
      → Dict.get (new_wrapper id x c).1.wrappers n ≡ some w
      → ((id x ≡ n) × ((new_wrapper id x c).0 ≡ w)) ⊎ (Dict.get c.wrappers n ≡ some w)
  found-new c x n w h =
      get-put_cases nat_key-IsLawful c.wrappers (id x) n (new_wrapper id x c).0 w h

  new-apart :
      (c : LocationCache) (x : Object) (m n : ℕ) (v w : Wrapper)
      → IsCache c
      → Dict.get (new_wrapper id x c).1.wrappers m ≡ some v
      → Dict.get (new_wrapper id x c).1.wrappers n ≡ some w
      → v.identity ≡ w.identity
      → m ≡ n
  new-apart c x m n v w good h k e = elim (found-new c x m v h) [
    | inl (a, p) ↦ elim (found-new c x n w k) [
      | inl (b, q) ↦ sym a ∙ b
      | inr q ↦ absurd (omega (arith, ap (λ u. u.identity) p, good.old n w q, e))
    ]
    | inr p ↦ elim (found-new c x n w k) [
      | inl (b, q) ↦ absurd (omega (arith, ap (λ u. u.identity) q, good.old m v p, e))
      | inr q ↦ good.apart m n v w p q e
    ]
  ]

  new-IsStep :
      (c : LocationCache) (x : Object)
      → IsCache c
      → Dict.get c.wrappers (id x) ≡ none
      → IsStep c x (new_wrapper id x c)
  new-IsStep c x good missing = (
    record {
      at_source = λ n w h. elim (found-new c x n w h) [
        | inl (here, this) ↦ sym (ap (λ u. id u.source) this) ∙ here
        | inr before ↦ good.at_source n w before
      ];
      old = λ n w h. elim (found-new c x n w h) [
        | inl (here, this) ↦ omega (arith, ap (λ u. u.identity) this)
        | inr before ↦ omega (arith, good.old n w before)
      ];
      apart = λ m n v w h k e. new-apart c x m n v w good h k e;
    },
    Extends-new c x missing,
    rw (get-put nat_key-IsLawful c.wrappers (id x) (id x) (new_wrapper id x c).0, ==_refl (id x))
        refl,
    refl,
  )

  wrap_location-IsStep :
      (x : Object) (c : LocationCache) → IsCache c → IsStep c x (wrap_location id x c)
  unfolding wrap_location
  wrap_location-IsStep x c good = elim (Option-cases (Dict.get c.wrappers (id x))) [
    | inl e ↦ rw (e, wrap_location, IsStep) (new-IsStep c x good e)
    | inr (w, e) ↦
        rw (e, wrap_location, IsStep)
          (good, (λ n v h. h), rw (good.at_source (id x) w e) e, good.at_source (id x) w e)
  ]

  -- Wrappers that stand for these locations.
  abbrev pub StandFor : LocationCache → List Object → List Wrapper → Type 0
  StandFor c [] [] = Unit
  StandFor c (x ∷ xs) (w ∷ ws) = (IsIn c w × (id w.source ≡ id x)) × StandFor c xs ws
  StandFor c _ _ = ⊥

  StandFor-Extends :
      (c d : LocationCache) (xs : List Object) (ws : List Wrapper)
      → Extends c d
      → StandFor c xs ws
      → StandFor d xs ws
  StandFor-Extends c d [] [] k h = tt
  StandFor-Extends c d (x ∷ xs) (w ∷ ws) k h =
      ((k (id w.source) w h.0.0, h.0.1), StandFor-Extends c d xs ws k h.1)
  StandFor-Extends c d [] (w ∷ ws) k h = absurd h
  StandFor-Extends c d (x ∷ xs) [] k h = absurd h

  pub wrap_locations-StandFor :
      (xs : List Object) (c : LocationCache)
      → IsCache c
      → IsCache (wrap_locations id xs c).1
        × Extends c (wrap_locations id xs c).1
        × StandFor (wrap_locations id xs c).1 xs (wrap_locations id xs c).0
  unfolding wrap_locations
  wrap_locations-StandFor [] c good = (good, (λ n w h. h), tt)
  wrap_locations-StandFor (x ∷ xs) c good =
      let step = wrap_location-IsStep x c good in
      let (good', more, others) = wrap_locations-StandFor xs (wrap_location id x c).1 step.0 in
      (good', (λ n w h. more n w (step.1 n w h)), ((more _ _ step.2, step.3), others))

  -- The wrappers of the lists of a snapshot are all in the cache.
  abbrev AreIn : LocationCache → List Wrapper → Type 0
  AreIn c ws = All (IsIn c) ws

  abbrev HoldsIn : LocationCache → Snapshot → Type 0
  HoldsIn c [] = Unit
  HoldsIn c ((key, ws) ∷ rest) = AreIn c ws × HoldsIn c rest

  AreIn-StandFor :
      (c : LocationCache) (xs : List Object) (ws : List Wrapper) → StandFor c xs ws → AreIn c ws
  AreIn-StandFor c [] [] h = tt
  AreIn-StandFor c (x ∷ xs) (w ∷ ws) h = (h.0.0, AreIn-StandFor c xs ws h.1)
  AreIn-StandFor c [] (w ∷ ws) h = absurd h
  AreIn-StandFor c (x ∷ xs) [] h = absurd h

  AreIn-Extends : (c d : LocationCache) (ws : List Wrapper) → Extends c d → AreIn c ws → AreIn d ws
  AreIn-Extends c d [] k h = tt
  AreIn-Extends c d (w ∷ ws) k h = (k (id w.source) w h.0, AreIn-Extends c d ws k h.1)

  HoldsIn-Extends : (c d : LocationCache) (s : Snapshot) → Extends c d → HoldsIn c s → HoldsIn d s
  HoldsIn-Extends c d [] k h = tt
  HoldsIn-Extends c d ((key, ws) ∷ rest) k h =
      (AreIn-Extends c d ws k h.0, HoldsIn-Extends c d rest k h.1)

  HoldsIn-put :
      (c : LocationCache) (s : Snapshot) (key : Legacy) (ws : List Wrapper)
      → HoldsIn c s
      → AreIn c ws
      → HoldsIn c (Dict.put s key ws)
  unfolding Dict.put
  HoldsIn-put c [] key ws h k = (k, tt)
  HoldsIn-put c ((j, vs) ∷ rest) key ws h k = elim (Bool-cases (legacy_eq j key)) [
    | inl e ↦ rw e (k, h.1)
    | inr e ↦ rw e (h.0, HoldsIn-put c rest key ws h.1 k)
  ]

  abbrev IsKept : Snapshot → Type 0
  IsKept s = (c : LocationCache) × IsCache c × HoldsIn c s

  fill_snapshot-IsKept :
      (rest : Resources) (s : Snapshot) (c : LocationCache)
      → IsCache c
      → HoldsIn c s
      → Returns IsKept (fill_snapshot id rest s c)
  unfolding fill_snapshot
  fill_snapshot-IsKept [] s c good h = Returns-ok (c, good, h)
  fill_snapshot-IsKept ((key, xs) ∷ rest) s c good h =
      let (good', more, here) = wrap_locations-StandFor xs c good in
      Returns-bind
        (Returns-if {P = HoldsIn (wrap_locations id xs c).1} (legacy_is_hashable (wrap_legacy key))
          (Returns-ok (
            HoldsIn-put (wrap_locations id xs c).1 s (wrap_legacy key) (wrap_locations id xs c).0
              (HoldsIn-Extends c (wrap_locations id xs c).1 s more h)
              (AreIn-StandFor (wrap_locations id xs c).1 xs (wrap_locations id xs c).0 here)))
          (Returns-err type_error))
        λ s' h'. fill_snapshot-IsKept rest s' (wrap_locations id xs c).1 good' h'

  -- A wrapper in one of the lists.
  abbrev pub Occurs : Wrapper → Snapshot → Type 0
  Occurs w [] = ⊥
  Occurs w ((key, ws) ∷ rest) = OccursIn w ws ⊎ Occurs w rest

  found-In :
      (c : LocationCache) (w : Wrapper) (ws : List Wrapper) → AreIn c ws → OccursIn w ws → IsIn c w
  found-In c w [] h k = absurd k
  found-In c w (v ∷ ws) h (inl e) = rw e h.0
  found-In c w (v ∷ ws) h (inr k) = found-In c w ws h.1 k

  Occurs-In : (c : LocationCache) (w : Wrapper) (s : Snapshot) → HoldsIn c s → Occurs w s → IsIn c w
  Occurs-In c w [] h k = absurd k
  Occurs-In c w ((key, ws) ∷ rest) h (inl k) = found-In c w ws h.0 k
  Occurs-In c w ((key, ws) ∷ rest) h (inr k) = Occurs-In c w rest h.1 k

  same_wrapper : (v w : Wrapper) → some v ≡ some w → v.identity ≡ w.identity
  same_wrapper v w e = ap (identity_of v) e

  kept-shares :
      (s : Snapshot) (v w : Wrapper)
      → IsKept s
      → Occurs v s
      → Occurs w s
      → (v.identity ≡ w.identity) ↔ (id v.source ≡ id w.source)
  kept-shares s v w (c, good, h) i j =
      let p = Occurs-In c v s h i in
      let q = Occurs-In c w s h j in
      (
        (λ e. good.apart (id v.source) (id w.source) v w p q e),
        (λ e. same_wrapper v w (sym p ∙ (ap (Dict.get c.wrappers) e ∙ q))),
      )

  -- In the snapshot of a catalog's resources two wrappers are the same object exactly when the
  -- locations that they stand for are.
  pub resources_snapshot-shares :
      (catalog : ContentCatalogData) (s : Snapshot) (v w : Wrapper)
      → resources_snapshot id catalog ≡ ok s
      → Occurs v s
      → Occurs w s
      → (v.identity ≡ w.identity) ↔ (id v.source ≡ id w.source)
  unfolding resources_snapshot
  resources_snapshot-shares catalog s v w h i j =
      kept-shares s v w
        (rw h at (fill_snapshot-IsKept catalog.resources [] no_wrappers empty-IsCache tt).at) i j
