-- ===== src/Python/Json.antt =====
-- The values of the `json` module, and what the program asks of Python about them: the functions of
-- the record `Builtins` are not modelled, they are arguments of what uses them.
pub mod Convert
use addressables_tools_py.Prelude.{
  ℕ, ℤ, pos, negsuc, Bool, true, false, not, ◌==◌, List, [], ◌∷◌, Option, none, some, if◌then◌else◌,
  ◌≡◌, ◌⊎◌,
}
use addressables_tools_py.Python.Exec.{
  PyError, Result, ok, err, type_error, value_error, overflow_error, json_decode_error,
  recursion_error,
}
use addressables_tools_py.Python.Codec.{Str}

-- What json.loads gives. A float is known by a number only; the members of an object have
-- different names.
mutual
  pub data Json : Type 0 where
    null : Json
    boolean : Bool → Json
    integer : ℤ → Json
    float : ℕ → Json
    text : Str → Json
    array : Items → Json
    object : Members → Json

  pub data Items : Type 0 where
    no_items : Items
    item : Json → Items → Items

  pub data Members : Type 0 where
    no_members : Members
    member : Str → Json → Members → Members

-- json.loads; str() of what is not None, a bool or a text; int() of a text and of a float; whether a
-- float is not zero.
pub record Builtins : Type 0 where
  pub loads : Str → Result Json
  pub text_of : Json → Str
  pub int_of_text : Str → Result ℤ
  pub int_of_float : ℕ → Result ℤ
  pub float_truth : ℕ → Bool

-- What Python documents of the exceptions of these functions: int() of a text raises ValueError, int()
-- of a float raises OverflowError for an infinity and ValueError for a NaN, json.loads raises
-- JSONDecodeError, RecursionError where the text is nested too deeply, or the plain ValueError of int()
-- where an integer has more digits than Python's limit.
pub record RaisesAsDocumented (b : Builtins) : Type 0 where
  pub loads_raises :
      (s : Str) (e : PyError)
      → b.loads s ≡ err e
      → (e ≡ json_decode_error) ⊎ ((e ≡ recursion_error) ⊎ (e ≡ value_error))
  pub text_raises : (s : Str) (e : PyError) → b.int_of_text s ≡ err e → e ≡ value_error
  pub float_raises :
      (n : ℕ) (e : PyError) → b.int_of_float n ≡ err e → (e ≡ value_error) ⊎ (e ≡ overflow_error)
