-- ===== src/Compat/Entries.antt =====
-- What `CompatCatalog.Resources` of src/AddressablesTools.py has for a key.
use addressables_tools_py.Prelude.{
  ℕ, ◌≡◌, refl, sym, ap, ◌∙◌, Bool, inl, inr, true, false, List, [], ◌∷◌, Option, none, some,
  Bool-cases, if◌then◌else◌,
}
use addressables_tools_py.Prelude.Dict
use addressables_tools_py.Python.Exec.{ok, type_error}
use addressables_tools_py.Python.Result.Returns.{
  Returns, Returns-ok, Returns-err, Returns-if, Returns-bind, Returns-weaken,
}
use addressables_tools_py.Models.Object.{
  Object, nothing, int, bool, str, hash128, type_reference, serialized_type, class_json_object,
  offsets, common_info, options, location, opaque,
}
use addressables_tools_py.Models.Catalog.{ContentCatalogData, Resources, object_key, key_eq}
use addressables_tools_py.Models.Locations.{ids}
use addressables_tools_py.Models.Keys.{IsNew, HasDistinctKeys}
use addressables_tools_py.Compat.Values.{
  Legacy, wrap_legacy, unwrap, legacy_key, legacy_eq, legacy_is_hashable,
}
use addressables_tools_py.Compat.Snapshot.{
  Wrapper, LocationCache, Snapshot, no_wrappers, wrap_locations, fill_snapshot, resources_snapshot,
}
use addressables_tools_py.Compat.Sharing.{IsCache, StandFor, empty-IsCache, wrap_locations-StandFor}

unwrap-wrap_legacy : (x : Object) → unwrap (wrap_legacy x) ≡ x
unwrap-wrap_legacy nothing = refl
unwrap-wrap_legacy (int _) = refl
unwrap-wrap_legacy (bool _) = refl
unwrap-wrap_legacy (str _) = refl
unwrap-wrap_legacy (hash128 _) = refl
unwrap-wrap_legacy (type_reference _) = refl
unwrap-wrap_legacy (serialized_type _) = refl
unwrap-wrap_legacy (class_json_object _ _) = refl
unwrap-wrap_legacy (offsets _) = refl
unwrap-wrap_legacy (common_info _) = refl
unwrap-wrap_legacy (options _) = refl
unwrap-wrap_legacy (location _) = refl
unwrap-wrap_legacy (opaque _) = refl

legacy_eq-wrap_legacy : (j k : Object) → legacy_eq (wrap_legacy j) (wrap_legacy k) ≡ key_eq j k
legacy_eq-wrap_legacy j k = rw (unwrap-wrap_legacy j, unwrap-wrap_legacy k) refl

-- A key that is not in a snapshot, and keys of which none is.
abbrev IsAbsent : Object → Snapshot → Type 0
IsAbsent key [] = Unit
IsAbsent key ((j, _) ∷ rest) = (legacy_eq j (wrap_legacy key) ≡ false) × IsAbsent key rest

abbrev AreAbsent : Resources → Snapshot → Type 0
AreAbsent [] s = Unit
AreAbsent ((key, _) ∷ rest) s = IsAbsent key s × AreAbsent rest s

abbrev pub or_else {ℓ} : {A : Type ℓ} → Option A → Option A → Option A
or_else none b = b
or_else (some a) b = some a

get-put_absent :
    (s : Snapshot) (key : Object) (ws : List Wrapper) (q : Legacy)
    → IsAbsent key s
    → Dict.get (Dict.put s (wrap_legacy key) ws) q
      ≡ or_else (Dict.get s q) (if legacy_eq (wrap_legacy key) q then some ws else none)
unfolding Dict.get Dict.put
get-put_absent [] key ws q h = refl
get-put_absent ((j, vs) ∷ rest) key ws q h = elim (Bool-cases (legacy_eq j q)) [
  | inl e ↦ rw (h.0, e) refl
  | inr e ↦ rw (h.0, e) (get-put_absent rest key ws q h.1)
]

IsAbsent-put :
    (s : Snapshot) (key k : Object) (ws : List Wrapper)
    → IsAbsent key s
    → IsAbsent k s
    → key_eq key k ≡ false
    → IsAbsent k (Dict.put s (wrap_legacy key) ws)
unfolding Dict.put
IsAbsent-put [] key k ws h l e = (legacy_eq-wrap_legacy key k ∙ e, tt)
IsAbsent-put ((j, vs) ∷ rest) key k ws h l e = rw h.0 (l.0, IsAbsent-put rest key k ws h.1 l.1 e)

AreAbsent-put :
    (rest : Resources) (s : Snapshot) (key : Object) (ws : List Wrapper)
    → IsAbsent key s
    → AreAbsent rest s
    → IsNew key rest
    → AreAbsent rest (Dict.put s (wrap_legacy key) ws)
AreAbsent-put [] s key ws h l fresh = tt
AreAbsent-put ((k, _) ∷ rest) s key ws h l fresh =
    (IsAbsent-put s key k ws h l.0 fresh.0, AreAbsent-put rest s key ws h l.1 fresh.1)

or_else-none : (o : Option (List ℕ)) → or_else o none ≡ o
or_else-none none = refl
or_else-none (some xs) = refl

-- `id` is the identity of objects.
module _ (id : Object → ℕ) where
  -- The identities of the locations that wrappers stand for, and of locations.
  abbrev pub source_ids : List Wrapper → List ℕ
  source_ids [] = []
  source_ids (w ∷ ws) = id w.source ∷ source_ids ws

  abbrev pub source_ids_of : Option (List Wrapper) → Option (List ℕ)
  source_ids_of none = none
  source_ids_of (some ws) = some (source_ids ws)

  abbrev pub ids_of : Option (List Object) → Option (List ℕ)
  ids_of none = none
  ids_of (some xs) = some (ids id xs)

  combine :
      (o : Option (List Wrapper)) (b : Bool) (ws : List Wrapper) (xs : List Object)
      (r : Option (List Object))
      → source_ids ws ≡ ids id xs
      → or_else (source_ids_of (or_else o (if b then some ws else none))) (ids_of r)
        ≡ or_else (source_ids_of o) (ids_of (if b then some xs else r))
  combine none true ws xs r h = ap some h
  combine none false ws xs r h = refl
  combine (some vs) b ws xs r h = refl

  sources-StandFor :
      (c : LocationCache) (xs : List Object) (ws : List Wrapper)
      → StandFor id c xs ws
      → source_ids ws ≡ ids id xs
  sources-StandFor c [] [] h = refl
  sources-StandFor c (x ∷ xs) (w ∷ ws) h = rw (h.0.1, sources-StandFor c xs ws h.1) refl
  sources-StandFor c [] (w ∷ ws) h = absurd h
  sources-StandFor c (x ∷ xs) [] h = absurd h

  -- What the filled snapshot has for a key.
  abbrev Answers : Resources → Snapshot → Snapshot → Type 0
  Answers rest s filled =
      (q : Object)
      → source_ids_of (Dict.get filled (wrap_legacy q))
        ≡ or_else (source_ids_of (Dict.get s (wrap_legacy q))) (ids_of (Dict.get rest q))

  answer-put :
      (key : Object) (xs : List Object) (ws : List Wrapper) (rest : Resources) (s : Snapshot)
      → source_ids ws ≡ ids id xs
      → IsAbsent key s
      → (filled : Snapshot) → Answers rest (Dict.put s (wrap_legacy key) ws) filled
      → Answers ((key, xs) ∷ rest) s filled
  unfolding Dict.get
  answer-put key xs ws rest s same absent filled h q =
      h q
      ∙ rw (get-put_absent s key ws (wrap_legacy q) absent, legacy_eq-wrap_legacy key q)
          (combine (Dict.get s (wrap_legacy q)) (key_eq key q) ws xs (Dict.get rest q) same)

  fill_snapshot-Answers :
      (rest : Resources) (s : Snapshot) (c : LocationCache)
      → IsCache id c
      → HasDistinctKeys rest
      → AreAbsent rest s
      → Returns (Answers rest s) (fill_snapshot id rest s c)
  unfolding fill_snapshot Dict.get
  fill_snapshot-Answers [] s c good distinct absent =
      Returns-ok λ q. sym (or_else-none (source_ids_of (Dict.get s (wrap_legacy q))))
  fill_snapshot-Answers ((key, xs) ∷ rest) s c good distinct absent =
      let (good', more, here) = wrap_locations-StandFor id xs c good in
      Returns-bind
        (Returns-if {P = λ s'. s' ≡ Dict.put s (wrap_legacy key) (wrap_locations id xs c).0}
          (legacy_is_hashable (wrap_legacy key)) (Returns-ok refl) (Returns-err type_error))
        λ s' e. rw e (
          Returns-weaken
            (fill_snapshot-Answers rest (Dict.put s (wrap_legacy key) (wrap_locations id xs c).0)
              (wrap_locations id xs c).1 good' distinct.1
              (AreAbsent-put rest s key (wrap_locations id xs c).0 absent.0 absent.1 distinct.0))
            (answer-put key xs (wrap_locations id xs c).0 rest s
              (sources-StandFor (wrap_locations id xs c).1 xs (wrap_locations id xs c).0 here)
              absent.0))

  nothing_absent : (resources : Resources) → AreAbsent resources []
  nothing_absent [] = tt
  nothing_absent ((key, _) ∷ rest) = (tt, nothing_absent rest)

  -- The snapshot of a catalog's resources has for a wrapped key wrappers of the locations that the
  -- catalog has for the key, in their order and told by their identity, and no list where the catalog
  -- has none. The keys of the catalog are distinct.
  pub resources_snapshot-get :
      (catalog : ContentCatalogData) (s : Snapshot) (key : Object)
      → HasDistinctKeys catalog.resources
      → resources_snapshot id catalog ≡ ok s
      → source_ids_of (Dict.get s (wrap_legacy key)) ≡ ids_of (Dict.get catalog.resources key)
  unfolding resources_snapshot Dict.get
  resources_snapshot-get catalog s key distinct h =
      (rw h at
          (fill_snapshot-Answers catalog.resources [] no_wrappers (empty-IsCache id) distinct
            (nothing_absent catalog.resources)).at)
        key
