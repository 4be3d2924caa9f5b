-- ===== src/Sony/Fields.antt =====
-- crates/server/src/sources/sony/account/fields.rs: the field rules of the signed-in lists.
use psstore.Prelude.{Option, none, some, Result, ok, err}
use psstore.Prelude.Texts.{Text}
use psstore.Sony.Json.{Value, null, boolean, number, string, array, object, get_field}
use psstore.Sony.Json

pub data Field {ℓ} (A : Type ℓ) : Type ℓ where
  kept : A → Field A
  dropped out_of_scope : Field A

pub data WrongType : Type 0 where
  wrong_type : WrongType

-- the match on the value of a key
unfoldable pub nullable_value : Option Value → Result (Option Text) WrongType
nullable_value none = ok none
nullable_value (some null) = ok none
nullable_value (some (string s)) = ok (some s)
nullable_value (some (boolean b)) = err wrong_type
nullable_value (some (number n)) = err wrong_type
nullable_value (some (array values)) = err wrong_type
nullable_value (some (object fields)) = err wrong_type

unfoldable pub nullable_string : Json.Fields → Text → Result (Option Text) WrongType
unfolding get_field nullable_value
nullable_string obj key = nullable_value (get_field key obj)
