-- ===== src/Decoder/Object/Sound.antt =====
-- Decoding a value keeps the caches of strings sound, if the custom decoders do.
use addressables_tools_py.Prelude.{ℕ, ℤ, Option}
use addressables_tools_py.Python.Exec.Keeps.{Keeps}
use addressables_tools_py.Python.Stream.{Bytes}
use addressables_tools_py.Python.Struct.{Struct}
use addressables_tools_py.Binary.Reader.{read_struct_from}
use addressables_tools_py.Binary.State.{on_base}
use addressables_tools_py.Binary.Strings.Sound.{IsSound}
use addressables_tools_py.Binary.Stable.{IsSound-IsStable}
use addressables_tools_py.Decoder.Registry.{Registry}
use addressables_tools_py.Decoder.Object.{decode_v2}
use addressables_tools_py.Decoder.Object.Kept.{DecodersKeep, read_fields-Keeps, decode_v2-Keeps}

module _ (bytes : Bytes) where
  pub read_fields-IsSound :
      (layout : Struct) (p : ℤ) → Keeps (IsSound bytes) (on_base (read_struct_from layout p))
  read_fields-IsSound = read_fields-Keeps bytes (IsSound bytes) (IsSound-IsStable bytes)

  -- Every decoder that a registry gives keeps the caches sound.
  abbrev pub RegistryKeeps : Option Registry → Type 0
  RegistryKeeps = DecodersKeep bytes (IsSound bytes) (IsSound-IsStable bytes)

  module _ (registry : Option Registry) (keeps : RegistryKeeps registry) where
    pub decode_v2-IsSound : (offset : ℕ) → Keeps (IsSound bytes) (decode_v2 registry offset)
    decode_v2-IsSound =
        decode_v2-Keeps bytes (IsSound bytes) (IsSound-IsStable bytes) registry keeps
