-- ===== src/Catalog/Json/Records.antt =====
-- The records of the locations of a JSON catalog and their checks, in `_read_locations` of
-- src/addressablestools/catalog.py.
use addressables_tools_py.Prelude.{
  ℕ, zero, suc, ℤ, pos, Bool, ◌&&◌, List, [], ◌∷◌, length, take, drop, leb_ℤ, ltb_ℤ, if◌then◌else◌,
}
use addressables_tools_py.Python.Exec.{Result, ok, err}
use addressables_tools_py.Python.Result.{◌>>◌}
use addressables_tools_py.Python.Stream.{Bytes}
use addressables_tools_py.Python.Struct.{Struct, Values, int32, values}
use addressables_tools_py.Python.Sequence.{get_item}
use addressables_tools_py.Python.Codec.{Str}
use addressables_tools_py.Models.Object.{Object, nothing, SerializedType}
use addressables_tools_py.Catalog.Json.Fields.{item_at, is_index}

-- The lists that the records point into, and the hashes of the provider IDs.
pub record Tables : Type 0 where
  pub internal_ids : List Str
  pub provider_ids : List Str
  pub provider_hashes : List ℤ
  pub keys : List Object
  pub primary_keys : List Object
  pub resource_types : List SerializedType

-- The seven numbers of a location.
pub record LocationRecord : Type 0 where
  pub internal_id_index : ℤ
  pub provider_index : ℤ
  pub dependency_key_index : ℤ
  pub dependency_hash : ℤ
  pub data_index : ℤ
  pub primary_key_index : ℤ
  pub resource_type_index : ℤ

abbrev pub json_location : Struct
json_location = int32 ∷ int32 ∷ int32 ∷ int32 ∷ int32 ∷ int32 ∷ int32 ∷ []

abbrev pub to_record : Values json_location → LocationRecord
to_record (i, (p, (k, (h, (d, (n, (t, _))))))) = record {
  internal_id_index = i;
  provider_index = p;
  dependency_key_index = k;
  dependency_hash = h;
  data_index = d;
  primary_key_index = n;
  resource_type_index = t;
}

-- iter_unpack over that many records
unfoldable pub records : ℕ → Bytes → List LocationRecord
unfolding values
records zero bs = []
records (suc n) bs = to_record (values json_location (take 28 bs)) ∷ records n (drop 28 bs)

-- The test of the hot loop.
abbrev pub is_valid : Tables → LocationRecord → Bool
is_valid t x =
    is_index t.internal_ids x.internal_id_index
    && is_index t.provider_ids x.provider_index
    && ltb_ℤ x.dependency_key_index (pos (length t.keys))
    && is_index t.primary_keys x.primary_key_index
    && is_index t.resource_types x.resource_type_index

abbrev pub done {ℓ} : {A : Type ℓ} → Result A → Result (Unit {0})
done (ok _) = ok tt
done (err e) = err e

-- if dependency_key_index >= 0: …
abbrev pub check_key : Tables → LocationRecord → Result (Unit {0})
check_key t x =
    if leb_ℤ (pos 0) x.dependency_key_index
    then done (item_at t.keys x.dependency_key_index)
    else ok tt

abbrev pub key_at : Tables → LocationRecord → Result Object
key_at t x =
    if leb_ℤ (pos 0) x.dependency_key_index
    then get_item t.keys x.dependency_key_index
    else ok nothing

-- The checks that the slow path makes, in its order.
unfoldable pub check_fields : Tables → LocationRecord → Result (Unit {0})
unfolding item_at
check_fields t x = do
  item_at t.internal_ids x.internal_id_index
  item_at t.provider_ids x.provider_index
  check_key t x
  item_at t.primary_keys x.primary_key_index
  item_at t.resource_types x.resource_type_index
  ok tt

unfoldable pub check_record : Tables → LocationRecord → Result (Unit {0})
unfolding check_fields
check_record t x = if is_valid t x then ok tt else check_fields t x
