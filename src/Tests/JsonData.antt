-- ===== src/Tests/JsonData.antt =====
-- A JSON catalog for the tests.
use addressables_tools_py.Prelude.{
  ℤ, pos, ◌≡◌, ◌⊎◌, List, [], ◌∷◌, ◌++◌, true, if◌then◌else◌, inl, inr, sym, ap, Bool-cases,
}
use addressables_tools_py.Python.Exec.{
  PyError, Result, ok, err, value_error, overflow_error, json_decode_error, recursion_error,
}
use addressables_tools_py.Python.Stream.{Bytes}
use addressables_tools_py.Python.Codec.{Str}
use addressables_tools_py.Python.Text.{codes, str_eq}
use addressables_tools_py.Python.Json.{
  Json, text, array, object, Items, no_items, item, Members, no_members, member, Builtins,
  RaisesAsDocumented,
}
use addressables_tools_py.Python.Base64.Encode.{encode}
use addressables_tools_py.Models.Object.{Object, pack_uint32}
use addressables_tools_py.Binary.Arrays.Wire.{pack_words}
use addressables_tools_py.Catalog.Json.StoredBuckets.{pack_buckets}

-- Key data: two keys, the text "k" at 4 and the number 9 at 10.
abbrev pub key_bytes : Bytes
key_bytes = pack_uint32 2 ++ (0 ∷ 1 ∷ 0 ∷ 0 ∷ 0 ∷ b'k' ∷ 4 ∷ pack_uint32 9)

-- One location: the first internal ID, provider and type, no dependency, hash 7, no data, key 0.
abbrev pub entry_bytes : Bytes
entry_bytes = pack_words (1 ∷ 0 ∷ 0 ∷ 0xffffffff ∷ 7 ∷ 0xffffffff ∷ 0 ∷ 0 ∷ [])

abbrev members : List (Str × Json) → Members
members [] = no_members
members ((name, j) ∷ rest) = member name j (members rest)

abbrev texts : List Str → Items
texts [] = no_items
texts (s ∷ ss) = item (text s) (texts ss)

abbrev pub type_members : Members
type_members =
    members
      ((codes "m_AssemblyName", text (codes "A")) ∷ (codes "m_ClassName", text (codes "C")) ∷ [])

abbrev provider_members : Members
provider_members =
    members ((codes "m_Id", text (codes "i")) ∷ (codes "m_ObjectType", object type_members) ∷ [])

-- The members, for given buckets.
abbrev pub raw_members : Str → Members
raw_members buckets = members (
    (codes "m_LocatorId", text (codes "l"))
    ∷ (codes "m_InstanceProviderData", object provider_members)
    ∷ (codes "m_SceneProviderData", object provider_members)
    ∷ (codes "m_ResourceProviderData", array no_items)
    ∷ (codes "m_ProviderIds", array (texts (codes "p" ∷ [])))
    ∷ (codes "m_InternalIds", array (texts (codes "0#x" ∷ [])))
    ∷ (codes "m_InternalIdPrefixes", array (texts (codes "pre/" ∷ [])))
    ∷ (codes "m_resourceTypes", array (item (object type_members) no_items))
    ∷ (codes "m_BucketDataString", text buckets)
    ∷ (codes "m_KeyDataString", text (encode key_bytes))
    ∷ (codes "m_EntryDataString", text (encode entry_bytes))
    ∷ (codes "m_ExtraDataString", text [])
    ∷ [])

-- Both keys have the location.
abbrev pub good_buckets : Str
good_buckets = encode (pack_buckets ((4, 0 ∷ []) ∷ (10, 0 ∷ 0 ∷ []) ∷ []))

-- The empty text is no JSON, "!" is the catalog with a faulty bucket, and others are the catalog.
abbrev load_text : Str → Result Json
load_text [] = err json_decode_error
load_text s =
    if str_eq s (codes "!")
    then ok (object (raw_members (codes "AA=A")))
    else ok (object (raw_members good_buckets))

abbrev number_of : Str → Result ℤ
number_of s = if str_eq s (codes "0") then ok (pos 0) else err value_error

abbrev pub builtins : Builtins
builtins = record {
  loads = load_text;
  text_of = λ j. [];
  int_of_text = number_of;
  int_of_float = λ x. err overflow_error;
  float_truth = λ x. true;
}

abbrev pub no_text : Object → Str
no_text x = []

abbrev error_of : {A : Type 0} → Result A → PyError
error_of (ok a) = json_decode_error
error_of (err e) = e

same_error : {A : Type 0} {d e : PyError} → ◌≡◌ {A = Result A} (err d) (err e) → d ≡ e
same_error h = ap error_of h

not_error : {A : Type 0} {a : A} {e : PyError} → ok a ≡ err e → ⊥
not_error h = cc

number_of-documented : (s : Str) (e : PyError) → number_of s ≡ err e → e ≡ value_error
number_of-documented s e h = elim (Bool-cases (str_eq s (codes "0"))) [
  | inl k ↦ absurd (not_error (rw (k, number_of) at h))
  | inr k ↦ sym (same_error (rw (k, number_of) at h))
]

load_text-documented :
    (s : Str) (e : PyError)
    → load_text s ≡ err e
    → (e ≡ json_decode_error) ⊎ ((e ≡ recursion_error) ⊎ (e ≡ value_error))
load_text-documented [] e h = inl (sym (same_error h))
load_text-documented (c ∷ s) e h = elim (Bool-cases (str_eq (c ∷ s) (codes "!"))) [
  | inl k ↦ absurd (not_error (rw (k, load_text) at h))
  | inr k ↦ absurd (not_error (rw (k, load_text) at h))
]

pub builtins-RaisesAsDocumented : RaisesAsDocumented builtins
builtins-RaisesAsDocumented = record {
  loads_raises = load_text-documented;
  text_raises = λ s e h. number_of-documented s e h;
  float_raises = λ x e h. inr (sym (same_error h));
}
