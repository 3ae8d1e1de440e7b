-- ===== src/Models/Lookup.antt =====
-- Looking up what was stored in the resources of a catalog.
use addressables_tools_py.Prelude.{
  ℤ, pos, negsuc, Bool, true, false, List, [], ◌∷◌, Option, none, some, ◌≡◌, refl, ==_refl,
  Bool-cases, inl, inr, ◌⊎◌, ◌≢◌, ◌∙◌, sym, ap,
}
use addressables_tools_py.Prelude.Dict
use addressables_tools_py.Prelude.Dict.{Dict, Key}
use addressables_tools_py.Python.Exec.{Result, ok, err, type_error}
use addressables_tools_py.Python.Codec.{Str}
use addressables_tools_py.Models.Object.{
  Object, nothing, int, bool, str, hash128, type_reference, serialized_type, class_json_object,
  offsets, common_info, options, location, opaque, SerializedType, str_eq, str_eq_refl,
}
use addressables_tools_py.Decoder.Registry.{str_key, str_key-IsLawful}
use addressables_tools_py.Models.Catalog.{
  int_eq, optional_str_eq, type_eq, key_eq, object_key, is_hashable, Resources, set_resource,
  ContentCatalogData, locate, or_empty,
}

int_eq_refl : (n : ℤ) → int_eq n n ≡ true
int_eq_refl (pos n) = ==_refl n
int_eq_refl (negsuc n) = ==_refl n

optional_str_eq_refl : (s : Option Str) → optional_str_eq s s ≡ true
optional_str_eq_refl none = refl
optional_str_eq_refl (some s) = str_eq_refl s

type_eq_refl : (t : SerializedType) → type_eq t t ≡ true
type_eq_refl t = rw (optional_str_eq_refl t.assembly_name, optional_str_eq_refl t.class_name) refl

-- A key that can be hashed is equal to itself.
key_eq_refl : (k : Object) → is_hashable k ≡ true → key_eq k k ≡ true
key_eq_refl nothing h = refl
key_eq_refl (int n) h = int_eq_refl n
key_eq_refl (bool true) h = refl
key_eq_refl (bool false) h = refl
key_eq_refl (str s) h = str_eq_refl s
key_eq_refl (hash128 s) h = str_eq_refl s
key_eq_refl (type_reference s) h = str_eq_refl s
key_eq_refl (serialized_type t) h = type_eq_refl t
key_eq_refl (class_json_object t s) h = rw (type_eq_refl t, str_eq_refl s) refl
key_eq_refl (opaque n) h = ==_refl n
key_eq_refl (offsets _) h = cc
key_eq_refl (common_info _) h = cc
key_eq_refl (options _) h = cc
key_eq_refl (location _) h = cc

get-put_same :
    (d : Resources) (k : Object) (v : List Object)
    → key_eq k k ≡ true
    → Dict.get (Dict.put d k v) k ≡ some v
unfolding Dict.get Dict.put
get-put_same [] k v h = rw h refl
get-put_same ((j, w) ∷ d) k v h = elim (Bool-cases (key_eq j k)) [
  | inl e ↦ rw e (rw e refl)
  | inr e ↦ rw e (rw e (get-put_same d k v h))
]

located :
    (catalog : ContentCatalogData) (key : Object) (locations : List Object)
    → is_hashable key ≡ true
    → Dict.get catalog.resources key ≡ some locations
    → locate catalog key ≡ ok locations
unfolding locate
located catalog key locations h found = rw (h, found, locate) refl

-- After a store that gives this result.
abbrev pub StoredAt : ContentCatalogData → Object → List Object → Result Resources → Type 0
StoredAt catalog key locations (err e) =
    (is_hashable key ≡ false) × (e ≡ type_error) × (locate catalog key ≡ err type_error)
StoredAt catalog key locations (ok resources) =
    locate (record catalog { resources = resources }) key ≡ ok locations

key-StoredAt :
    (catalog : ContentCatalogData) (key : Object) (locations : List Object)
    → StoredAt catalog key locations (set_resource catalog.resources key locations)
unfolding set_resource locate
key-StoredAt catalog key locations = elim (Bool-cases (is_hashable key)) [
  | inl e ↦
      rw (e, set_resource)
        (located (record catalog { resources = Dict.put catalog.resources key locations }) key
          locations e (get-put_same catalog.resources key locations (key_eq_refl key e)))
  | inr e ↦ rw (e, set_resource) (e, refl, rw (e, locate) refl)
]

-- A key is a text, or equal to none.
text_or_not : (i : Object) → ((u : Str) × (i ≡ str u)) ⊎ ((s : Str) → key_eq i (str s) ≡ false)
text_or_not (str u) = inl (u, refl)
text_or_not nothing = inr λ s. refl
text_or_not (int n) = inr λ s. refl
text_or_not (bool true) = inr λ s. refl
text_or_not (bool false) = inr λ s. refl
text_or_not (hash128 _) = inr λ s. refl
text_or_not (type_reference _) = inr λ s. refl
text_or_not (serialized_type _) = inr λ s. refl
text_or_not (class_json_object _ _) = inr λ s. refl
text_or_not (opaque _) = inr λ s. refl
text_or_not (offsets _) = inr λ s. refl
text_or_not (common_info _) = inr λ s. refl
text_or_not (options _) = inr λ s. refl
text_or_not (location _) = inr λ s. refl

not_both : (b : Bool) → b ≡ true → b ≡ false → ⊥
not_both b h k = cc

-- A store for one text changes nothing for another.
get-put_other :
    (d : Resources) (s t : Str) (v : List Object)
    → str_eq s t ≡ false
    → Dict.get (Dict.put d (str s) v) (str t) ≡ Dict.get d (str t)
unfolding Dict.get Dict.put
get-put_other [] s t v h = rw h refl
get-put_other ((i, w) ∷ d) s t v h = elim (text_or_not i) [
  | inr none_equal ↦ rw (none_equal s, none_equal t) (get-put_other d s t v h)
  | inl (u, same) ↦ rw same (elim (Bool-cases (str_eq u s)) [
    | inl e ↦ rw (e, ap (λ x. str_eq x t) ((str_key-IsLawful u s).0 e) ∙ h) refl
    | inr e ↦ elim (Bool-cases (str_eq u t)) [
      | inl k ↦ rw (e, k) refl
      | inr k ↦ rw (e, k) (get-put_other d s t v h)
    ]
  ])
]

-- After locations were stored for the text s, locate gives them for s, and for a text t that is not s
-- what it gave before.
abbrev pub TextStored : ContentCatalogData → Str → Str → List Object → Type 0
TextStored catalog s t locations =
    (resources : Resources) × (set_resource catalog.resources (str s) locations ≡ ok resources)
    × (((s ≡ t) × (locate (record catalog { resources = resources }) (str t) ≡ ok locations))
        ⊎ ((s ≢ t)
            × (locate (record catalog { resources = resources }) (str t) ≡ locate catalog (str t))))

text-TextStored :
    (catalog : ContentCatalogData) (s t : Str) (locations : List Object)
    → TextStored catalog s t locations
unfolding set_resource locate
text-TextStored catalog s t locations = (
  Dict.put catalog.resources (str s) locations,
  refl,
  elim (Bool-cases (str_eq s t)) [
    | inl e ↦
        let same : s ≡ t = (str_key-IsLawful s t).0 e in
        inl (
          same,
          rw (← same) (
              ap (λ found. ok (or_empty found))
                (get-put_same catalog.resources (str s) locations (str_eq_refl s))),
        )
    | inr e ↦ inr (
      λ same. not_both (str_eq s t) (sym (ap (str_eq s) same) ∙ str_eq_refl s) e,
      ap (λ found. ok (or_empty found)) (get-put_other catalog.resources s t locations e),
    )
  ],
)

-- What is stored for a key that can be hashed is what locate gives for it; with any other key,
-- storing and locating both raise TypeError. After a store for a text, locate gives what was stored
-- for that text, and for any other text what it gave before.
pub locate-set_resource :
    (catalog : ContentCatalogData) (key : Object) (s t : Str) (locations : List Object)
    → StoredAt catalog key locations (set_resource catalog.resources key locations)
      × TextStored catalog s t locations
locate-set_resource catalog key s t locations =
    (key-StoredAt catalog key locations, text-TextStored catalog s t locations)
