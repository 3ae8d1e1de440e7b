-- ===== src/Models/Catalog.antt =====
-- `ResourceLocation` and `ContentCatalogData` of src/addressablestools/models.py.
use addressables_tools_py.Prelude.{
  ℕ, ℤ, Bool, true, false, List, [], ◌∷◌, ◌++◌, Option, none, some, contains, if◌then◌else◌, not,
  pos, negsuc, ◌==◌, ◌&&◌,
}
use addressables_tools_py.Prelude.Dict
use addressables_tools_py.Prelude.Dict.{Dict, Key}
use addressables_tools_py.Python.Exec.{Result, ok, err, type_error}
use addressables_tools_py.Python.Codec.{Str}
use addressables_tools_py.Models.Object.{
  Object, nothing, int, bool, str, hash128, type_reference, serialized_type, class_json_object,
  offsets, common_info, options, location, opaque, SerializedType, str_eq,
}

-- `type` and `_data_type` hold what the reader's cache gave for a type.
pub record ResourceLocation : Type 0 where
  pub internal_id : Option Str
  pub provider_id : Option Str
  pub dependency_key : Object
  pub dependencies : Option (List Object)
  pub payload : Object
  pub hash_code : ℤ
  pub dependency_hash_code : ℤ
  pub primary_key : Option Str
  pub type : Object
  pub data_type : Option SerializedType

-- ResourceLocation.data_is; the class is given by its `isinstance` test.
pub data_is : ResourceLocation → (Object → Bool) → Bool
data_is loc is_instance = is_instance loc.payload

-- ResourceLocation.data_as
pub data_as : ResourceLocation → (Object → Bool) → Result Object
data_as loc is_instance = if is_instance loc.payload then ok loc.payload else err type_error

-- `id` is None or a text, and `object_type` what the reader's cache gave for a type.
pub record ObjectInitializationData : Type 0 where
  pub id : Option Str
  pub object_type : Object
  pub payload : Option Str

-- The integer that an object is equal to, as a key of a dictionary: True == 1.
abbrev pub as_int : Object → Option ℤ
as_int (int n) = some n
as_int (bool true) = some (pos 1)
as_int (bool false) = some (pos 0)
as_int _ = none

abbrev pub int_eq : ℤ → ℤ → Bool
int_eq (pos m) (pos n) = m == n
int_eq (negsuc m) (negsuc n) = m == n
int_eq _ _ = false

abbrev pub optional_str_eq : Option Str → Option Str → Bool
optional_str_eq none none = true
optional_str_eq (some s) (some t) = str_eq s t
optional_str_eq _ _ = false

abbrev pub type_eq : SerializedType → SerializedType → Bool
type_eq s t =
    optional_str_eq s.assembly_name t.assembly_name && optional_str_eq s.class_name t.class_name

abbrev pub number_eq : Option ℤ → Option ℤ → Bool
number_eq (some m) (some n) = int_eq m n
number_eq _ _ = false

-- `==` of two keys of a dictionary.
abbrev pub key_eq : Object → Object → Bool
key_eq nothing nothing = true
key_eq (str s) (str t) = str_eq s t
key_eq (hash128 s) (hash128 t) = str_eq s t
key_eq (type_reference s) (type_reference t) = str_eq s t
key_eq (serialized_type s) (serialized_type t) = type_eq s t
key_eq (class_json_object s x) (class_json_object t y) = type_eq s t && str_eq x y
key_eq (opaque m) (opaque n) = m == n
key_eq a b = number_eq (as_int a) (as_int b)

instance abbrev pub object_key : Key Object
object_key = record { same = key_eq }

-- Lists and mutable dataclasses have no hash.
abbrev pub is_hashable : Object → Bool
is_hashable (offsets _) = false
is_hashable (common_info _) = false
is_hashable (options _) = false
is_hashable (location _) = false
is_hashable _ = true

abbrev pub Resources : Type 0
Resources = Dict Object (List Object)

-- resources[key] = locations
unfoldable pub set_resource : Resources → Object → List Object → Result Resources
set_resource resources key locations =
    if is_hashable key then ok (Dict.put resources key locations) else err type_error

pub record ContentCatalogData : Type 0 where
  pub version : ℤ
  pub locator_id : Option Str
  pub build_result_hash : Option Str
  pub instance_provider_data : Option ObjectInitializationData
  pub scene_provider_data : Option ObjectInitializationData
  pub resource_provider_data : List ObjectInitializationData
  pub provider_ids : List Str
  pub internal_ids : List Str
  pub keys : Option (List Str)
  pub resource_types : List SerializedType
  pub internal_id_prefixes : List Str
  pub resources : Resources

abbrev pub or_empty : Option (List Object) → List Object
or_empty none = []
or_empty (some locations) = locations

-- tuple(self.resources.get(key, ())): looking a key up hashes it.
unfoldable pub locate : ContentCatalogData → Object → Result (List Object)
locate catalog key =
    if is_hashable key then ok (or_empty (Dict.get catalog.resources key)) else err type_error

-- The loops of iter_locations; `id` is Python's identity of an object.
module _ (id : Object → ℕ) where
  unfoldable pub iter_list : List Object → List ℕ → List Object × List ℕ
  iter_list [] seen = ([], seen)
  iter_list (x ∷ xs) seen =
      let fresh = not (contains seen (id x)) in
      let (out, seen') = iter_list xs (if fresh then id x ∷ seen else seen) in
      (if fresh then x ∷ out else out, seen')

  unfoldable pub iter_resources : Resources → List ℕ → List Object
  unfolding iter_list
  iter_resources [] seen = []
  iter_resources ((_, locations) ∷ rest) seen =
      let (out, seen') = iter_list locations seen in out ++ iter_resources rest seen'

  unfoldable pub iter_locations : ContentCatalogData → List Object
  unfolding iter_resources
  iter_locations catalog = iter_resources catalog.resources []
