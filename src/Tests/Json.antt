-- ===== src/Tests/Json.antt =====
-- JSON catalogs, on concrete data.
use addressables_tools_py.Prelude.{◌≡◌, refl, [], ◌∷◌, some, none, pos, negsuc, List, ◌++◌, arith}
use addressables_tools_py.Prelude.Dict
use addressables_tools_py.Python.Exec.{Result, ok, err, catalog_parse_error, for_each}
use addressables_tools_py.Python.Exec.Raises.{Raises}
use addressables_tools_py.Python.Result
use addressables_tools_py.Python.Result.Returns.{Returns}
use addressables_tools_py.Python.Stream
use addressables_tools_py.Python.Stream.{size_limit}
use addressables_tools_py.Python.Struct.{unpack}
use addressables_tools_py.Python.Codec.{decode_ascii}
use addressables_tools_py.Python.Text.{str_eq}
use addressables_tools_py.Python.Base64.Encode.{encode}
use addressables_tools_py.Models.Object.{Object, str, int, codes, location}
use addressables_tools_py.Models.Catalog.{ContentCatalogData, ResourceLocation, Resources}
use addressables_tools_py.Backend.{auto, python, no_decoders}
use addressables_tools_py.Catalog.Json.Fields.{item_at}
use addressables_tools_py.Catalog.Json.Buckets.{read_buckets}
use addressables_tools_py.Catalog.Json.StoredBuckets.{Bucket, pack_buckets, read_buckets-stored}
use addressables_tools_py.Catalog.Json.Keys.{read_key, reader_over}
use addressables_tools_py.Catalog.Json.FastKeys.{value_of}
use addressables_tools_py.Catalog.Json.AllKeys.{collect, decoded, read_keys-decode_v1}
use addressables_tools_py.Catalog.Json.Prefixes.{apply_internal_id_prefix}
use addressables_tools_py.Catalog.Json.Prefixed.{chosen, apply_internal_id_prefix-chosen}
use addressables_tools_py.Catalog.Json.Records.{
  Tables, LocationRecord, check_fields, check_record, records,
}
use addressables_tools_py.Catalog.Json.Checks.{CheckedAs, RaisedBy, check_record-CheckedAs}
use addressables_tools_py.Catalog.Json.Locations.{tables, read_location, read_data}
use addressables_tools_py.Catalog.Json.Resources.{bucket_locations, decode_json_resources}
use addressables_tools_py.Catalog.Json.Entries.{bucket_locations-item_at}
use addressables_tools_py.Catalog.Json.Bounds.{IsOfCatalog, decode_json_resources-IsOfCatalog}
use addressables_tools_py.Catalog.Json.Parse.{parse_json_catalog}
use addressables_tools_py.Catalog.Json.Outcome.{IsRefusal, parse_json_catalog-errors}
use addressables_tools_py.Catalog.Json.StoredRecords.{pack_records, records-stored}
use addressables_tools_py.Tests.Data.{no_hash}
use addressables_tools_py.Tests.JsonData.{
  builtins, builtins-RaisesAsDocumented, no_text, key_bytes, good_buckets, raw_members,
}

abbrev table_of : Result (ContentCatalogData × List ResourceLocation) → Result Resources
table_of (ok (c, _)) = ok c.resources
table_of (err e) = err e

two_keys :
    table_of (parse_json_catalog builtins no_hash no_text no_decoders auto (codes "{}"))
    ≡ ok ((str (codes "k"), location 0 ∷ []) ∷ (int (pos 9), location 0 ∷ location 0 ∷ []) ∷ [])
unfolding parse_json_catalog str_eq encode pack_buckets Stream.read unpack decode_ascii Dict.put
two_keys = refl

-- Padding that comes too early.
faulty_buckets :
    table_of (parse_json_catalog builtins no_hash no_text no_decoders auto (codes "!"))
    ≡ err catalog_parse_error
unfolding parse_json_catalog str_eq
faulty_buckets = refl

parse_json_catalog-errors_example :
    Raises
      (IsRefusal (builtins.loads (codes "!")) python)
      (parse_json_catalog builtins no_hash no_text no_decoders python (codes "!"))
parse_json_catalog-errors_example =
    parse_json_catalog-errors builtins builtins-RaisesAsDocumented no_hash no_text no_decoders
      python (λ d h catalog raw. absurd (cc)) (codes "!")

read_keys-decode_v1_example :
    value_of (for_each (read_key builtins key_bytes) (4 ∷ 10 ∷ []) (reader_over key_bytes)).0
    ≡ collect (decoded builtins key_bytes (some key_bytes)) (4 ∷ 10 ∷ [])
read_keys-decode_v1_example =
    read_keys-decode_v1 builtins key_bytes (some key_bytes) (omega arith) (4 ∷ 10 ∷ [])
      (reader_over key_bytes) (refl, refl)

abbrev two_places : List Object
two_places = location 0 ∷ location 1 ∷ []

bucket_locations-item_at_example :
    bucket_locations two_places (pos 0 ∷ pos 2 ∷ negsuc 0 ∷ [])
    ≡ Result.for_each (item_at two_places) (pos 0 ∷ pos 2 ∷ negsuc 0 ∷ [])
bucket_locations-item_at_example =
    bucket_locations-item_at two_places (pos 0 ∷ pos 2 ∷ negsuc 0 ∷ [])

abbrev empty_catalog : ContentCatalogData
empty_catalog = record {
  version = pos 0;
  locator_id = none;
  build_result_hash = none;
  instance_provider_data = none;
  scene_provider_data = none;
  resource_provider_data = [];
  provider_ids = codes "p" ∷ [];
  internal_ids = codes "x" ∷ [];
  keys = none;
  resource_types = record { assembly_name = some (codes "A"); class_name = some (codes "C") } ∷ [];
  internal_id_prefixes = [];
  resources = [];
}

decode_json_resources-IsOfCatalog_example :
    Returns
      (IsOfCatalog builtins no_hash no_text empty_catalog (raw_members good_buckets))
      (decode_json_resources builtins no_hash no_text empty_catalog (raw_members good_buckets))
decode_json_resources-IsOfCatalog_example =
    decode_json_resources-IsOfCatalog builtins no_hash no_text empty_catalog
      (raw_members good_buckets)

abbrev one_record : LocationRecord
one_record = record {
  internal_id_index = pos 0;
  provider_index = pos 0;
  dependency_key_index = negsuc 0;
  dependency_hash = pos 7;
  data_index = negsuc 0;
  primary_key_index = pos 0;
  resource_type_index = pos 0;
}

abbrev one_key : List Object
one_key = str (codes "k") ∷ []

abbrev one_table : Tables
one_table = tables builtins no_hash no_text empty_catalog one_key (codes "x" ∷ [])

check_record-CheckedAs_example :
    (check_record one_table one_record ≡ check_fields one_table one_record)
    × CheckedAs one_table one_record (check_record one_table one_record)
    × RaisedBy one_table one_record
        (read_location builtins no_hash no_text one_table one_record (reader_over key_bytes)).0
        (read_data builtins one_record.data_index (reader_over key_bytes)).0
check_record-CheckedAs_example =
    check_record-CheckedAs builtins no_hash no_text empty_catalog one_key (codes "x" ∷ [])
      one_record (reader_over key_bytes)

abbrev two_buckets : List Bucket
two_buckets = (4, 0 ∷ []) ∷ (10, 0 ∷ 0 ∷ []) ∷ []

read_buckets-stored_example :
    read_buckets (encode (pack_buckets two_buckets))
    ≡ ok (4 ∷ 10 ∷ [], (pos 0 ∷ []) ∷ (pos 0 ∷ pos 0 ∷ []) ∷ [])
read_buckets-stored_example = read_buckets-stored two_buckets (omega arith) (
  (omega arith, omega arith, (omega arith, tt)),
  ((omega arith, omega arith, (omega arith, (omega arith, tt))), tt),
)

apply_internal_id_prefix-chosen_example :
    (apply_internal_id_prefix builtins (codes "pre/" ∷ []) (codes "0") ≡ ok (codes "0"))
    × (apply_internal_id_prefix builtins (codes "pre/" ∷ []) (codes "0" ++ (b'#' ∷ codes "x"))
        ≡ chosen
            (codes "pre/" ∷ [])
            (codes "0" ++ (b'#' ∷ codes "x"))
            (codes "x")
            (builtins.int_of_text (codes "0")))
apply_internal_id_prefix-chosen_example =
    apply_internal_id_prefix-chosen builtins builtins-RaisesAsDocumented.text_raises
      (codes "pre/" ∷ []) (codes "0") (codes "x") (refl, tt)

records-stored_example : records 1 (pack_records (one_record ∷ [])) ≡ one_record ∷ []
records-stored_example = records-stored (one_record ∷ []) (
  (omega arith, omega arith, omega arith, omega arith, omega arith, omega arith, omega arith),
  tt,
)
