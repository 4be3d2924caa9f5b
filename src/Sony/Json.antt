-- ===== src/Sony/Json.antt =====
-- crates/server/src/sources/sony/catalog/json.rs: the decode rules over a JSON value. The value is the
-- one of `serde_json`: a number by its `as_u64`, and an object with each key once.
use psstore.Prelude.{
  ℕ, Bool, true, false, Option, none, some, List, [], ◌∷◌, Result, ok, err, ◌>>=◌, if◌then◌else◌,
}
use psstore.Prelude.Texts.{Text, text_eq}

mutual
  pub data Value : Type 0 where
    null : Value
    boolean : Bool → Value
    number : Option ℕ → Value
    string : Text → Value
    array : Values → Value
    object : Fields → Value

  pub data Values : Type 0 where
    nil : Values
    cons : Value → Values → Values

  pub data Fields : Type 0 where
    end : Fields
    field : Text → Value → Fields → Fields

unfoldable pub elements : Values → List Value
elements nil = []
elements (cons value values) = value ∷ elements values

-- `Map::get` and `Map::values`
unfoldable pub get_field : Text → Fields → Option Value
get_field key end = none
get_field key (field name value rest) =
    let later = get_field key rest in if text_eq name key then some value else later

unfoldable pub field_values : Fields → List Value
field_values end = []
field_values (field name value rest) = value ∷ field_values rest

-- `Value::as_object`, `as_array`, `as_str`, `as_bool`, `as_u64` and `is_null`
abbrev pub as_object : Value → Option Fields
as_object (object obj) = some obj
as_object _ = none

unfoldable pub as_array : Value → Option (List Value)
unfolding elements
as_array (array values) = some (elements values)
as_array _ = none

abbrev pub as_str : Value → Option Text
as_str (string value) = some value
as_str _ = none

abbrev pub as_bool : Value → Option Bool
as_bool (boolean value) = some value
as_bool _ = none

abbrev pub as_u64 : Value → Option ℕ
as_u64 (number value) = value
as_u64 _ = none

abbrev pub is_null : Value → Bool
is_null null = true
is_null _ = false

pub data Invalid : Type 0 where
  invalid : Invalid

-- `Option::ok_or`, `Option::transpose` after a `map`, and `collect` into a `Result`
abbrev pub ok_or {ℓ κ} : {A : Type ℓ} {E : Type κ} → E → Option A → Result A E
ok_or e none = err e
ok_or e (some a) = ok a

abbrev pub transpose : {A B E : Type 0} → (A → Result B E) → Option A → Result (Option B) E
transpose decode none = ok none
transpose decode (some a) = decode a >>= λ b. ok (some b)

unfoldable pub collect : {A B E : Type 0} → (A → Result B E) → List A → Result (List B) E
collect decode [] = ok []
collect decode (a ∷ xs) = decode a >>= λ b. collect decode xs >>= λ bs. ok (b ∷ bs)

-- `object`
unfoldable pub object_of : Value → Result Fields Invalid
object_of value = ok_or invalid (as_object value)

-- `string`
unfoldable pub string_of : Value → Result Text Invalid
string_of value = ok_or invalid (as_str value)

unfoldable pub present : Fields → Text → Option Value
unfolding get_field
present obj key = elim (get_field key obj) [
  | none ↦ none
  | some value ↦ if is_null value then none else some value
]

unfoldable pub opt_string : Fields → Text → Result (Option Text) Invalid
unfolding present
opt_string obj key = transpose (λ value. ok_or invalid (as_str value)) (present obj key)

unfoldable pub opt_bool : Fields → Text → Result (Option Bool) Invalid
unfolding present
opt_bool obj key = transpose (λ value. ok_or invalid (as_bool value)) (present obj key)

unfoldable pub opt_list : Fields → Text → Result (Option (List Value)) Invalid
unfolding present as_array
opt_list obj key = transpose (λ value. ok_or invalid (as_array value)) (present obj key)

unfoldable pub opt_list_of :
    {A : Type 0} → Fields → Text → (Value → Result A Invalid) → Result (Option (List A)) Invalid
unfolding opt_list collect
opt_list_of obj key decode = opt_list obj key >>= λ items. transpose (collect decode) items

unfoldable pub opt_strings : Fields → Text → Result (Option (List Text)) Invalid
unfolding opt_list_of string_of
opt_strings obj key = opt_list_of obj key string_of

-- the closure of `opt_nullable_strings`
unfoldable pub nullable_string_of : Value → Result (Option Text) Invalid
unfolding string_of
nullable_string_of value = if is_null value then ok none else (string_of value >>= λ s. ok (some s))

unfoldable pub opt_nullable_strings : Fields → Text → Result (Option (List (Option Text))) Invalid
unfolding opt_list_of nullable_string_of
opt_nullable_strings obj key = opt_list_of obj key nullable_string_of

unfoldable pub opt_object_of :
    {A : Type 0} → Fields → Text → (Value → Result A Invalid) → Result (Option A) Invalid
unfolding present
opt_object_of obj key decode = transpose decode (present obj key)
