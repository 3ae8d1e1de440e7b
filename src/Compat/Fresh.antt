-- ===== src/Compat/Fresh.antt =====
-- When a property of src/AddressablesTools.py gives the same wrapper again: `_wrap_cached`.
use addressables_tools_py.Prelude.{
  ◌≡◌, refl, Bool, true, false, ◌&&◌, Option, some, inl, inr, Bool-cases, ◌∙◌, sym,
}
use addressables_tools_py.Prelude.Dict
use addressables_tools_py.Prelude.Dict.{Dict, get-put}
use addressables_tools_py.Python.Exec.{ok}
use addressables_tools_py.Python.Codec.{Str}
use addressables_tools_py.Models.Object.{Object, SerializedType, str_eq_refl}
use addressables_tools_py.Decoder.Registry.{str_key, str_key-IsLawful}
use addressables_tools_py.Compat.Sharing.{Option-cases}
use addressables_tools_py.Compat.Cached.{
  Made, Slot, Slots, is_container, made_of, make, is_kept, wrap_cached,
}

both : (a b : Bool) → (a && b) ≡ true → a ≡ true
both true b h = refl
both false b h = cc

module _ (same : Object → Object → Bool)
    (same_type : Option SerializedType → Option SerializedType → Bool) where
  -- A slot for the value and the type, at the name, with this wrapper.
  abbrev IsSlot : Str → Object → Option SerializedType → Made → Slots → Type 0
  IsSlot name value type m s =
      (slot : Slot) × (Dict.get s.slots name ≡ some slot)
      × (slot.wrapper ≡ m)
      × (is_kept same same_type value type slot ≡ true)

  made-IsSlot :
      (name : Str) (value : Object) (type : Option SerializedType) (s : Slots)
      → same value value ≡ true
      → same_type type type ≡ true
      → IsSlot name value type
          (record { identity = s.next; value = made_of value type })
          (make same same_type name value type s).1
  made-IsSlot name value type s h k = (
    record {
      source = value;
      type = type;
      wrapper = record { identity = s.next; value = made_of value type };
    },
    rw (get-put str_key-IsLawful s.slots name name _, str_eq_refl name) refl,
    refl,
    rw (h, k) refl,
  )

  -- What such a slot gives.
  kept :
      (name : Str) (value : Object) (type : Option SerializedType) (m : Made) (s : Slots)
      → is_container value ≡ false
      → IsSlot name value type m s
      → wrap_cached same same_type name value type s ≡ (ok m, s)
  unfolding wrap_cached
  kept name value type m s h (slot, there, this, again) = rw (h, there, again, this) refl

  IsSlot-cases :
      (name : Str) (value : Object) (type : Option SerializedType) (s : Slots)
      → is_container value ≡ false
      → same value value ≡ true
      → same_type type type ≡ true
      → (m : Made) × (wrap_cached same same_type name value type s
          ≡ (ok m, (wrap_cached same same_type name value type s).1))
        × IsSlot name value type m (wrap_cached same same_type name value type s).1
  unfolding wrap_cached
  IsSlot-cases name value type s plain h k = elim (Option-cases (Dict.get s.slots name)) [
    | inl e ↦ rw (plain, e, wrap_cached) (_, refl, made-IsSlot name value type s h k)
    | inr (slot, e) ↦ elim (Bool-cases (is_kept same same_type value type slot)) [
      | inl again ↦ rw (plain, e, again, wrap_cached) (_, refl, (slot, e, refl, again))
      | inr other ↦ rw (plain, e, other, wrap_cached) (_, refl, made-IsSlot name value type s h k)
    ]
  ]

  -- A slot for another object.
  replaced :
      (name : Str) (value : Object) (type : Option SerializedType) (m : Made) (s : Slots)
      (other : Object) (other_type : Option SerializedType)
      → is_container other ≡ false
      → ((x : Object) → same x value ≡ true → same x other ≡ false)
      → IsSlot name value type m s
      → (wrap_cached same same_type name other other_type s).0
        ≡ ok (record { identity = s.next; value = made_of other other_type })
  unfolding wrap_cached
  replaced name value type m s other other_type plain apart (slot, there, this, again) =
      rw (plain, there, apart slot.source (both (same slot.source value) _ again)) refl

  -- A property whose value is no container gives the same wrapper when it is read again, and nothing
  -- changes; once it has another value that is no container, it gives a new wrapper of that. The value
  -- and its type are the same objects as themselves, and no object is the same as both values.
  pub wrap_cached-again :
      (name : Str) (value other : Object) (type other_type : Option SerializedType) (s : Slots)
      → is_container value ≡ false
      → is_container other ≡ false
      → same value value ≡ true
      → same_type type type ≡ true
      → ((x : Object) → same x value ≡ true → same x other ≡ false)
      → (wrap_cached same same_type name value type (wrap_cached same same_type name value type s).1
          ≡ wrap_cached same same_type name value type s)
        × ((wrap_cached same same_type name other other_type
              (wrap_cached same same_type name value type s).1).0
            ≡ ok (record {
              identity = (wrap_cached same same_type name value type s).1.next;
              value = made_of other other_type;
            }))
  wrap_cached-again name value other type other_type s plain plain' h k apart =
      let (m, first, slot) = IsSlot-cases name value type s plain h k in
      (
        kept name value type m (wrap_cached same same_type name value type s).1 plain slot
            ∙ sym first,
        replaced name value type m (wrap_cached same same_type name value type s).1 other other_type
            plain' apart slot,
      )
