-- ===== src/Binary/Header.antt =====
-- `class CatalogBinaryHeader` of src/addressablestools/binary.py.
pub mod Range
use addressables_tools_py.Prelude.{ℕ, ℤ, pos, ◌&&◌, leb_ℤ, not, ◌==◌, if◌then◌else◌}
use addressables_tools_py.Python.Exec.{
  Exec, pure, raise_if, modify, ◌>>=◌, ◌>>◌, unsupported_catalog_version_error,
}
use addressables_tools_py.Models.Catalog.{int_eq}
use addressables_tools_py.Binary.Reader.{read_int32, read_uint32}
use addressables_tools_py.Binary.State.{CatalogBinaryReader, uint32_max, on_base}

pub record CatalogBinaryHeader : Type 0 where
  pub magic : ℤ
  pub version : ℤ
  pub keys_offset : ℕ
  pub id_offset : ℕ
  pub instance_provider_offset : ℕ
  pub scene_provider_offset : ℕ
  pub init_objects_array_offset : ℕ
  pub build_result_hash_offset : ℕ

unfoldable pub read_header : Exec CatalogBinaryReader CatalogBinaryHeader
read_header = do
  magic ← on_base read_int32
  version ← on_base read_int32
  raise_if (not (leb_ℤ (pos 1) version && leb_ℤ version (pos 3))) unsupported_catalog_version_error
  modify (λ r. record r { version = version })
  keys ← on_base read_uint32
  id ← on_base read_uint32
  instance_provider ← on_base read_uint32
  scene_provider ← on_base read_uint32
  init_objects ← on_base read_uint32
  build_result_hash ←
      if int_eq version (pos 1) && keys == 0x20 then pure uint32_max else on_base read_uint32
  pure (record {
    magic = magic;
    version = version;
    keys_offset = keys;
    id_offset = id;
    instance_provider_offset = instance_provider;
    scene_provider_offset = scene_provider;
    init_objects_array_offset = init_objects;
    build_result_hash_offset = build_result_hash;
  })
