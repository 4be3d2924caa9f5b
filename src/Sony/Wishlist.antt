-- ===== src/Sony/Wishlist.antt =====
-- crates/server/src/sources/sony/account/wishlist.rs: the signed-in wishlist. The Unicode lower
-- case of a text is a parameter.
pub mod Page
pub mod Scope
use psstore.Prelude.{
  ℕ, ◌+◌, Bool, true, false, ◌&&◌, ◌||◌, not, Option, none, some, List, [], ◌∷◌, Result, ok, err,
  ◌>>=◌, any, is_empty, if◌then◌else◌,
}
unfoldable use psstore.Prelude.{ℕ_discrete}
use psstore.Prelude.Texts.{Text, text, text_eq}
use psstore.Prelude.Dedupe.{dedupe}
use psstore.Js.Date.{◌>=>◌}
use psstore.Ids.{parse_product_id, parse_concept_id}
use psstore.Library.{WishlistId, WishlistEntry, product_wish, concept_wish}
use psstore.Sony.Json.{
  Value, null, boolean, number, string, array, object, as_object, as_array, as_str, get_field,
  elements, is_null, ok_or, collect,
}
use psstore.Sony.Json
use psstore.Sony.Grid.{is_text, result_ok}
use psstore.Sony.Product.{text_or_empty}
use psstore.Sony.Graphql.{contains}
use psstore.Sony.Fields.{Field, kept, dropped, out_of_scope, WrongType, wrong_type, nullable_string}

-- equality of ids, as the set `seen` asks it
unfoldable pub WishlistId-discrete : Discrete WishlistId
unfolding ℕ_discrete
WishlistId-discrete = hlevel ℕ_discrete

pub record WishlistPage : Type 0 where
  pub entries : List WishlistEntry
  pub dropped_count : ℕ
  pub out_of_scope_count : ℕ

pub data WishlistOutcome : Type 0 where
  denied drift : WishlistOutcome
  listed : WishlistPage → WishlistOutcome

unfoldable pub wishlist_id : Option Text → Text → Option WishlistId
wishlist_id typename id =
    if is_text (text "Product") typename
    then (parse_product_id id >=> λ product_id. some (product_wish product_id))
    else if is_text (text "Concept") typename
    then (parse_concept_id id >=> λ concept_id. some (concept_wish concept_id))
    else none

unfoldable pub box_art_url : Option Value → Text
unfolding nullable_string
box_art_url box_art = elim (box_art >=> as_object) [
  | none ↦ []
  | some art ↦ text_or_empty (result_ok (nullable_string art (text "url")) >=> λ url. url)
]

-- the match on `platforms`
unfoldable pub platform_values : Option Value → Result (List Value) WrongType
unfolding elements
platform_values none = ok []
platform_values (some null) = ok []
platform_values (some (array values)) = ok (elements values)
platform_values (some (boolean b)) = err wrong_type
platform_values (some (number n)) = err wrong_type
platform_values (some (string s)) = err wrong_type
platform_values (some (object fields)) = err wrong_type

pub record RawWish : Type 0 where
  pub platforms : List Value
  pub typename : Option Text
  pub id : Option Text
  pub name : Option Text
  pub image_url : Text

unfoldable pub raw_wish : Json.Fields → Result RawWish WrongType
unfolding get_field nullable_string platform_values box_art_url
raw_wish entry = do
  platforms ← platform_values (get_field (text "platforms") entry)
  typename ← nullable_string entry (text "__typename")
  id ← nullable_string entry (text "id")
  name ← nullable_string entry (text "name")
  ok (record {
    platforms = platforms;
    typename = typename;
    id = id;
    name = name;
    image_url = box_art_url (get_field (text "boxArt") entry);
  })

unfoldable pub scoped_wish : RawWish → Text → Option WishlistId → Field WishlistEntry
scoped_wish raw name none = out_of_scope
scoped_wish raw name (some id) =
    if any (λ platform. is_text (text "PS5") (as_str platform)) raw.platforms
    then kept (record { id = id; name = name; image_url = raw.image_url })
    else out_of_scope

unfoldable pub named_wish : RawWish → Option Text → Option Text → Field WishlistEntry
unfolding scoped_wish wishlist_id
named_wish raw (some id) (some name) =
    if is_empty id || is_empty name
    then dropped
    else scoped_wish raw name (wishlist_id raw.typename id)
named_wish raw _ _ = dropped

unfoldable pub checked_wish : Result RawWish WrongType → Field WishlistEntry
unfolding named_wish
checked_wish (err e) = dropped
checked_wish (ok raw) = named_wish raw raw.id raw.name

unfoldable pub decode_wish : Value → Field WishlistEntry
unfolding raw_wish checked_wish
decode_wish value = checked_wish (ok_or wrong_type (as_object value) >>= raw_wish)

abbrev pub add_wish : Field WishlistEntry → WishlistPage → WishlistPage
add_wish (kept entry) page = record page { entries = entry ∷ page.entries }
add_wish dropped page = record page { dropped_count = page.dropped_count + 1 }
add_wish out_of_scope page = record page { out_of_scope_count = page.out_of_scope_count + 1 }

-- the loop, before the check of repeated ids
unfoldable pub read_wishes : List Value → WishlistPage
unfolding decode_wish
read_wishes [] = record { entries = []; dropped_count = 0; out_of_scope_count = 0 }
read_wishes (value ∷ values) = add_wish (decode_wish value) (read_wishes values)

unfoldable pub wishlist_page : List Value → WishlistPage
unfolding read_wishes WishlistId-discrete
wishlist_page values =
    let page = read_wishes values in
    record page {
      entries = dedupe WishlistId-discrete (λ (entry : WishlistEntry). entry.id) page.entries;
    }

-- the array at `data.storeWishlistSecure`
unfoldable pub wishlist_values : Value → Option (List Value)
unfolding get_field as_array
wishlist_values body =
    as_object body
    >=> get_field (text "data")
    >=> as_object
    >=> get_field (text "storeWishlistSecure")
    >=> as_array

-- `message.unwrap_or_default()` of an error that is an object
unfoldable pub error_message : Value → Result Text WrongType
unfolding nullable_string
error_message value = ok_or wrong_type (as_object value) >>= λ obj.
    nullable_string obj (text "message") >>= λ message. ok (text_or_empty message)

-- `data.get("storeWishlistSecure") == Some(&Value::Null)`
abbrev pub is_some_null : Option Value → Bool
is_some_null none = false
is_some_null (some value) = is_null value

-- the errors, an array, and the data, an object
unfoldable pub errors_and_data : Value → Option (List Value × Json.Fields)
unfolding get_field as_array
errors_and_data body = as_object body >=> λ root.
    get_field (text "errors") root >=> as_array >=> λ errors.
    get_field (text "data") root >=> as_object >=> λ fields. some (errors, fields)

unfoldable pub is_access_denied : (Text → Text) → Value → Bool
unfolding get_field errors_and_data collect error_message contains
is_access_denied lower body = elim (errors_and_data body) [
  | none ↦ false
  | some found ↦
      is_some_null (get_field (text "storeWishlistSecure") found.1)
      && elim (collect error_message found.0) [
        | err e ↦ false
        | ok messages ↦ any (λ message. contains (text "access denied") (lower message)) messages
      ]
]

unfoldable pub parse : (Text → Text) → Value → WishlistOutcome
unfolding wishlist_values wishlist_page is_access_denied
parse lower body = elim (wishlist_values body) [
  | none ↦ if is_access_denied lower body then denied else drift
  | some values ↦ listed (wishlist_page values)
]
