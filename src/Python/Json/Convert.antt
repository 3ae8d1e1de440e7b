-- ===== src/Python/Json/Convert.antt =====
-- int(), bool() and str() of what json.loads gives, and the lookups of its objects.
use addressables_tools_py.Prelude.{
  ℤ, pos, negsuc, Bool, true, false, not, ◌==◌, List, [], ◌∷◌, Option, none, some, if◌then◌else◌,
}
use addressables_tools_py.Python.Exec.{Result, ok, err, type_error, key_error}
use addressables_tools_py.Python.Codec.{Str}
use addressables_tools_py.Python.Text.{codes, str_eq}
use addressables_tools_py.Python.Json.{
  Json, null, boolean, integer, float, text, array, object, Items, no_items, item, Members,
  no_members, member, Builtins,
}

-- A text or None, as JSON.
abbrev pub of_optional : Option Str → Json
of_optional none = null
of_optional (some s) = text s

abbrev pub elements : Items → List Json
elements no_items = []
elements (item j js) = j ∷ elements js

-- The member of a name, and None where there is none: d.get(name).
unfoldable pub get_or : Json → Members → Str → Json
get_or default no_members name = default
get_or default (member n j ms) name =
    let rest = get_or default ms name in if str_eq n name then j else rest

-- d[name]
unfoldable pub get_member : Members → Str → Result Json
get_member no_members name = err key_error
get_member (member n j ms) name =
    let rest = get_member ms name in if str_eq n name then ok j else rest

abbrev pub is_null : Json → Bool
is_null null = true
is_null _ = false

abbrev is_zero : ℤ → Bool
is_zero (pos n) = n == 0
is_zero (negsuc n) = false

module _ (b : Builtins) where
  -- int(value)
  abbrev pub to_int : Json → Result ℤ
  to_int null = err type_error
  to_int (boolean true) = ok (pos 1)
  to_int (boolean false) = ok (pos 0)
  to_int (integer n) = ok n
  to_int (float x) = b.int_of_float x
  to_int (text s) = b.int_of_text s
  to_int (array _) = err type_error
  to_int (object _) = err type_error

  -- bool(value)
  abbrev pub to_bool : Json → Bool
  to_bool null = false
  to_bool (boolean v) = v
  to_bool (integer n) = not (is_zero n)
  to_bool (float x) = b.float_truth x
  to_bool (text []) = false
  to_bool (text (_ ∷ _)) = true
  to_bool (array no_items) = false
  to_bool (array (item _ _)) = true
  to_bool (object no_members) = false
  to_bool (object (member _ _ _)) = true

  -- str(value)
  abbrev pub to_str : Json → Str
  to_str null = codes "None"
  to_str (boolean true) = codes "True"
  to_str (boolean false) = codes "False"
  to_str (text s) = s
  to_str j = b.text_of j
