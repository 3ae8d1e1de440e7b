-- ===== src/Compat/Handler.antt =====
-- What decoding does with a patcher and a handler of src/AddressablesTools.py.
use addressables_tools_py.Prelude.{
  ℕ, false, Option, none, some, ◌≡◌, refl, Bool-cases, inl, inr, ◌==◌, pos, if◌then◌else◌, ap, ◌∙◌,
}
use addressables_tools_py.Prelude.Dict
use addressables_tools_py.Python.Exec.{Result, ok, err, Exec, lift, pure, raise, continue, ◌>>=◌}
use addressables_tools_py.Python.Codec.{Str}
use addressables_tools_py.Models.Object.{Object, nothing, SerializedType, str_eq, str_eq_refl}
use addressables_tools_py.Binary.State.{CatalogBinaryReader, uint32_max, on_base}
use addressables_tools_py.Binary.Reader.{read_struct_from, two_uint32}
use addressables_tools_py.Decoder.Registry.{BinaryDecodeContext, Registry, resolve, get_decoder}
use addressables_tools_py.Decoder.Names.{built_in}
use addressables_tools_py.Decoder.Object.{
  type_and_name, decode_v2_typed, resolve_with, decoder_with, decode_as, decode_built_in,
}
use addressables_tools_py.Compat.Registry.{
  Patcher, Handler, legacy_handler_match_name, patcher_or, handler_or, legacy_registry,
  legacy_decoders, decode_legacy, resolve_patched,
}

-- What the old interface promises: without a name the handler decodes, with one the built-in type.
abbrev pub patched :
    Result (Option Str) → Handler → BinaryDecodeContext → Exec CatalogBinaryReader Object
patched (err e) handler context = raise e
patched (ok none) handler context = handler context.offset context.is_default
patched (ok (some name)) handler context =
    decode_built_in (built_in name) context.is_default context.offset

-- How decode_v2 goes on with the match name.
abbrev pub decode_named : Registry → BinaryDecodeContext → Str → Exec CatalogBinaryReader Object
decode_named g context match_name = lift (resolve_with (some g) match_name) >>= λ name.
    decode_as (decoder_with (some g) name) context name

-- The patcher does not give the name under which the handler is registered.
abbrev pub IsApart : Result (Option Str) → Type 0
IsApart (ok (some name)) = str_eq legacy_handler_match_name name ≡ false
IsApart _ = Unit

handler_found :
    (handler : Handler)
    → get_decoder (legacy_decoders handler) legacy_handler_match_name ≡ some (decode_legacy handler)
unfolding legacy_decoders get_decoder Dict.get Dict.put
handler_found handler = rw (str_eq_refl legacy_handler_match_name) refl

handler_missing :
    (handler : Handler) (name : Str)
    → str_eq legacy_handler_match_name name ≡ false
    → get_decoder (legacy_decoders handler) name ≡ none
unfolding legacy_decoders get_decoder Dict.get Dict.put
handler_missing handler name h = rw h refl

name_kept : (handler : Handler) (name : Str) → resolve (legacy_decoders handler) name ≡ ok name
unfolding legacy_decoders resolve Dict.get
name_kept handler name = refl

-- After the patcher.
patched-decode :
    (found : Result (Option Str)) (handler : Handler) (context : BinaryDecodeContext)
    (r : CatalogBinaryReader)
    → IsApart found
    → (lift (resolve_patched (legacy_decoders handler) found)
          >>= (λ name. decode_as (get_decoder (legacy_decoders handler) name) context name))
        r
      ≡ patched found handler context r
patched-decode (err e) handler context r h = refl
patched-decode (ok none) handler context r h = rw (handler_found handler) refl
patched-decode (ok (some name)) handler context r h =
    rw (name_kept handler name, handler_missing handler name h) refl

-- With a legacy registry, what the old interface promises.
decode_named-patched :
    (patcher : Option Patcher) (handler : Option Handler) (context : BinaryDecodeContext)
    (match_name : Str) (r : CatalogBinaryReader)
    → IsApart (patcher_or patcher match_name)
    → decode_named (legacy_registry patcher handler) context match_name r
      ≡ patched (patcher_or patcher match_name) (handler_or handler) context r
unfolding legacy_registry
decode_named-patched patcher handler context match_name r h =
    patched-decode (patcher_or patcher match_name) (handler_or handler) context r h

-- The first part of code is the same, or its parts are put together otherwise.
module _ {S A B : Type 0} where
  continue-same :
      (out : Result A) (f g : A → Exec S B) (s : S)
      → ((a : A) (s : S) → f a s ≡ g a s)
      → continue out f s ≡ continue out g s
  continue-same (ok a) f g s h = h a s
  continue-same (err e) f g s h = refl

  bind-same :
      (m : Exec S A) {f g : A → Exec S B} (s : S)
      → ((a : A) (s : S) → f a s ≡ g a s)
      → (m >>= f) s ≡ (m >>= g) s
  bind-same m {f} {g} s h = continue-same (m s).0 f g (m s).1 h

module _ {S A B C : Type 0} where
  continue_assoc :
      (out : Result A) (f : A → Exec S B) (g : B → Exec S C) (s : S)
      → continue out (λ a. f a >>= g) s ≡ continue (continue out f s).0 g (continue out f s).1
  continue_assoc (ok a) f g s = refl
  continue_assoc (err e) f g s = refl

-- decode_v2 as the old interface has it, with a patcher.
module _ (patcher : Patcher) (handler : Option Handler) where
  abbrev context_of : ℕ → SerializedType → BinaryDecodeContext
  context_of offset t = record {
    offset = offset;
    is_default = offset == uint32_max;
    serialized_type = t;
  }

  abbrev pub patched_value :
      ℕ → SerializedType × Str → Exec CatalogBinaryReader (Object × Option SerializedType)
  patched_value offset (t, match_name) = do
    value ← patched (patcher match_name) (handler_or handler) (context_of offset t)
    pure (value, some t)

  abbrev pub patched_v2 : ℕ → Exec CatalogBinaryReader (Object × Option SerializedType)
  patched_v2 offset r =
      if offset == uint32_max
      then (ok (nothing, none), r)
      else (do
        (type_offset, (object_offset, _)) ← on_base (read_struct_from two_uint32 (pos offset))
        found ← type_and_name type_offset
        patched_value object_offset found)
          r

  -- After the type and the name were read.
  named-value :
      (offset : ℕ) (found : SerializedType × Str) (r : CatalogBinaryReader)
      → IsApart (patcher found.1)
      → (do
        name ← lift (resolve_with (some (legacy_registry (some patcher) handler)) found.1)
        value ←
            decode_as
              (decoder_with (some (legacy_registry (some patcher) handler)) name)
              (context_of offset found.0)
              name
        pure (value, some found.0))
          r
        ≡ patched_value offset found r
  named-value offset (t, match_name) r apart =
      continue_assoc ((legacy_registry (some patcher) handler).resolve_name match_name)
        (λ name.
          decode_as (decoder_with (some (legacy_registry (some patcher) handler)) name)
            (context_of offset t) name)
        (λ value. pure (value, some t)) r
      ∙ ap (λ out. continue out.0 (λ value. pure (value, some t)) out.1)
          (decode_named-patched (some patcher) handler (context_of offset t) match_name r apart)

  -- With a patcher that never gives the name under which the handler is registered, a value of a
  -- binary catalog is decoded like this: the handler decodes it, from its offset and whether it is the
  -- default one, if the patcher gives up its match name; otherwise it is decoded as the built-in type
  -- of the name that the patcher gives; what the patcher raises is raised.
  pub decode_v2_typed-patched :
      (offset : ℕ) (r : CatalogBinaryReader)
      → ((match_name : Str) → IsApart (patcher match_name))
      → decode_v2_typed (some (legacy_registry (some patcher) handler)) offset r
        ≡ patched_v2 offset r
  unfolding decode_v2_typed
  decode_v2_typed-patched offset r apart = elim (Bool-cases (offset == uint32_max)) [
    | inl e ↦ rw e refl
    | inr e ↦ rw e (
        bind-same (on_base (read_struct_from two_uint32 (pos offset))) r λ fields s.
          bind-same (type_and_name fields.0) s
            λ found s'. named-value fields.1.0 found s' (apart found.1))
  ]
