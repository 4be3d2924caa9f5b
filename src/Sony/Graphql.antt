-- ===== src/Sony/Graphql.antt =====
-- crates/server/src/sources/sony/graphql_errors.rs: the errors inside an answer with HTTP 200. The
-- Unicode lower case of a text is a parameter.
pub mod Outage
use psstore.Prelude.{
  ℕ, Bool, true, false, ◌&&◌, ◌||◌, Option, none, some, List, [], ◌∷◌, Result, ok, err, ◌>>=◌, any,
  all, filter_map, leb, ltb, ◌==◌, if◌then◌else◌,
}
use psstore.Prelude.Texts.{Text, text}
use psstore.Js.Date.{◌>=>◌}
use psstore.Sony.Json.{
  Value, null, boolean, number, string, array, object, Fields, Invalid, invalid, elements,
  as_object, as_u64, as_array, get_field, field_values, is_null, ok_or, as_str, collect,
}
use psstore.Sony.Grid.{result_ok, is_text}

-- `str::contains`
unfoldable pub starts_with : Text → Text → Bool
starts_with [] s = true
starts_with (c ∷ pat) [] = false
starts_with (c ∷ pat) (d ∷ s) = c == d && starts_with pat s

unfoldable pub contains : Text → Text → Bool
unfolding starts_with
contains pat [] = starts_with pat []
contains pat (c ∷ s) = starts_with pat (c ∷ s) || contains pat s

-- an absent key, a text, or a value of the wrong shape
unfoldable pub optional_string : Fields → Text → Result (Option Text) Invalid
unfolding get_field
optional_string obj key = elim (get_field key obj) [
  | none ↦ ok none
  | some value ↦ ok_or invalid (as_str value) >>= λ s. ok (some s)
]

-- the code of an error in its extensions
unfoldable pub extension_code : Option Value → Result (Option Text) Invalid
unfolding optional_string
extension_code none = ok none
extension_code (some value) =
    ok_or invalid (as_object value) >>= λ extensions. optional_string extensions (text "code")

unfoldable pub decode_error : Value → Result (Option Text × Option Text) Invalid
unfolding get_field optional_string extension_code
decode_error value = do
  obj ← ok_or invalid (as_object value)
  message ← optional_string obj (text "message")
  code ← extension_code (get_field (text "extensions") obj)
  ok (message, code)

-- the array `errors` of a body that is an object
unfoldable pub body_errors : Value → Option (List Value)
unfolding get_field as_array
body_errors body = as_object body >=> get_field (text "errors") >=> as_array

abbrev pub mentions : (Text → Text) → Text → Option Text → Bool
mentions lower pat none = false
mentions lower pat (some s) = contains pat (lower s)

unfoldable pub is_rotation_error : (Text → Text) → Option Text × Option Text → Bool
unfolding contains
is_rotation_error lower fields =
    is_text (text "PERSISTED_QUERY_NOT_FOUND") fields.1
    || mentions lower (text "persistedquerynotfound") fields.1
    || mentions lower (text "persistedquerynotfound") fields.0

unfoldable pub is_persisted_query_rotation : (Text → Text) → Value → Bool
unfolding body_errors collect decode_error is_rotation_error
is_persisted_query_rotation lower body = elim (body_errors body) [
  | none ↦ false
  | some errors ↦ elim (collect decode_error errors) [
    | err e ↦ false
    | ok decoded ↦ any (is_rotation_error lower) decoded
  ]
]

-- `data` absent, null, or an object with null values only
unfoldable pub has_no_data : Option Value → Bool
unfolding field_values
has_no_data none = true
has_no_data (some null) = true
has_no_data (some (object fields)) = all is_null (field_values fields)
has_no_data (some (boolean b)) = false
has_no_data (some (number n)) = false
has_no_data (some (string s)) = false
has_no_data (some (array values)) = false

abbrev pub is_server_status : Option ℕ → Bool
is_server_status none = false
is_server_status (some status) = leb 500 status && ltb status 600

unfoldable pub status_code : Option Fields → Option ℕ
unfolding get_field
status_code obj = obj >=> get_field (text "statusCode") >=> as_u64

unfoldable pub has_server_status : Value → Bool
unfolding get_field status_code
has_server_status value = elim (as_object value) [
  | none ↦ false
  | some obj ↦
      is_server_status (status_code (some obj))
      || is_server_status (status_code (get_field (text "extensions") obj >=> as_object))
]

unfoldable pub is_graphql_server_error : Value → Bool
unfolding get_field body_errors has_no_data has_server_status
is_graphql_server_error body = elim (body_errors body) [
  | none ↦ false
  | some errors ↦
      has_no_data (as_object body >=> get_field (text "data")) && any has_server_status errors
]
