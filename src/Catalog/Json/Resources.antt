-- ===== src/Catalog/Json/Resources.antt =====
-- The resource table of a JSON catalog: `_read_locations` and `_decode_json_resources` of
-- src/addressablestools/catalog.py. A location stands for its place among the locations, which come
-- beside the table.
use addressables_tools_py.Prelude.{
  ℕ, suc, ℤ, pos, Bool, false, ◌||◌, List, [], ◌∷◌, Option, length, leb_ℤ, ltb_ℤ, if◌then◌else◌,
}
use addressables_tools_py.Python.Exec.{Result, ok}
use addressables_tools_py.Python.Result.{◌>>=◌, ◌>>◌, for_each}
use addressables_tools_py.Python.Sequence.{get_item, least, greatest}
use addressables_tools_py.Python.Stream.{Bytes}
use addressables_tools_py.Python.Base64.{b64decode}
use addressables_tools_py.Python.Codec.{Str}
use addressables_tools_py.Python.Text.{codes}
use addressables_tools_py.Python.Json.{Members, Builtins}
use addressables_tools_py.Python.Json.Convert.{get_member, to_str}
use addressables_tools_py.Models.Object.{Object, location}
use addressables_tools_py.Models.Catalog.{
  ResourceLocation, ContentCatalogData, Resources, set_resource,
}
use addressables_tools_py.Catalog.Json.Fields.{item_at, is_index}
use addressables_tools_py.Catalog.Json.Buckets.{read_buckets}
use addressables_tools_py.Catalog.Json.Keys.{read_keys, over_bytes}
use addressables_tools_py.Catalog.Json.Locations.{read_location_bytes}

-- The locations as objects: the first has the given place.
unfoldable pub places {ℓ} : {A : Type ℓ} → ℕ → List A → List Object
places n [] = []
places n (_ ∷ xs) = location n ∷ places (suc n) xs

-- The locations of one bucket.
abbrev pub check_entry : List Object → ℤ → Result (Unit {0})
check_entry locations entry =
    if is_index locations entry then ok tt else (item_at locations entry >>= λ _. ok tt)

-- if entries and (min(entries) < 0 or max(entries) >= location_count)
abbrev pub any_outside : List Object → List ℤ → Bool
any_outside locations [] = false
any_outside locations (e ∷ es) =
    ltb_ℤ (least e es) (pos 0) || leb_ℤ (pos (length locations)) (greatest e es)

abbrev pub check_entries : List Object → List ℤ → Result (Unit {0})
check_entries locations entries = for_each (item_at locations) entries >>= λ _. ok tt

unfoldable pub bucket_locations : List Object → List ℤ → Result (List Object)
unfolding item_at for_each
bucket_locations locations (entry ∷ []) = do
  check_entry locations entry
  found ← get_item locations entry
  ok (found ∷ [])
bucket_locations locations entries = do
  if any_outside locations entries then check_entries locations entries else ok tt
  for_each (get_item locations) entries

-- The loop over zip(keys, bucket_entries).
unfoldable pub fill_table : List Object → List Object → List (List ℤ) → Resources → Result Resources
unfolding bucket_locations set_resource
fill_table locations (key ∷ keys) (entries ∷ rest) resources = do
  found ← bucket_locations locations entries
  resources' ← set_resource resources key found
  fill_table locations keys rest resources'
fill_table locations _ _ resources = ok resources

-- A table and the locations that it refers to.
abbrev pub Decoded : Type 0
Decoded = Resources × List ResourceLocation

module _ (b : Builtins) where
  abbrev pub decoded_member : Members → Str → Result Bytes
  decoded_member raw name = do found ← get_member raw name; b64decode (to_str b found)

module _ (b : Builtins) (hash : Option Str → ℤ) (text_of_object : Object → Str) where
  unfoldable pub read_locations :
      ContentCatalogData → Members → List Object → Result (List ResourceLocation)
  unfolding get_member b64decode read_location_bytes
  read_locations catalog raw keys = do
    entry_data ← decoded_member b raw (codes "m_EntryDataString")
    extra_data ← decoded_member b raw (codes "m_ExtraDataString")
    over_bytes (read_location_bytes b hash text_of_object catalog keys entry_data) extra_data

  unfoldable pub decode_json_resources : ContentCatalogData → Members → Result Decoded
  unfolding get_member read_buckets read_keys read_locations places fill_table
  decode_json_resources catalog raw = do
    buckets ← get_member raw (codes "m_BucketDataString")
    (key_offsets, bucket_entries) ← read_buckets (to_str b buckets)
    key_data ← get_member raw (codes "m_KeyDataString")
    keys ← read_keys b (to_str b key_data) key_offsets
    locations ← read_locations catalog raw keys
    resources ← fill_table (places 0 locations) keys bucket_entries []
    ok (resources, locations)
