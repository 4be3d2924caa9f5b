-- ===== src/Sony/Purchased.antt =====
-- crates/server/src/sources/sony/account/purchased.rs: one page of the signed-in library.
pub mod Page
use psstore.Prelude.{
  ℕ, ◌+◌, Bool, true, false, Option, none, some, List, [], ◌∷◌, Result, ok, err, ◌>>=◌, length,
  is_empty, if◌then◌else◌,
}
use psstore.Prelude.Texts.{Text, text, text_eq}
use psstore.Js.Date.{◌>=>◌}
use psstore.Ids.{ProductId, parse_product_id}
use psstore.Library.{PurchasedEntry}
use psstore.Sony.Json.{
  Value, null, boolean, number, string, array, object, as_object, as_array, get_field, ok_or,
}
use psstore.Sony.Json
use psstore.Sony.Grid.{is_text}
use psstore.Sony.Product.{text_or_empty}
use psstore.Sony.Fields.{Field, kept, dropped, out_of_scope, WrongType, wrong_type, nullable_string}

pub record PurchasedPage : Type 0 where
  pub raw_count : ℕ
  pub entries : List PurchasedEntry
  pub dropped_count : ℕ
  pub out_of_scope_count : ℕ

-- the match on `image`
unfoldable pub image_url_of : Option Value → Result (Option Text) WrongType
unfolding nullable_string
image_url_of none = ok none
image_url_of (some null) = ok none
image_url_of (some (object image)) = nullable_string image (text "url")
image_url_of (some (boolean b)) = err wrong_type
image_url_of (some (number n)) = err wrong_type
image_url_of (some (string s)) = err wrong_type
image_url_of (some (array values)) = err wrong_type

-- the fields that an element must have, absent or of the right type
pub record RawGame : Type 0 where
  pub product_id : Option Text
  pub name : Option Text
  pub platform : Option Text
  pub image_url : Option Text

unfoldable pub raw_game : Json.Fields → Result RawGame WrongType
unfolding get_field nullable_string image_url_of
raw_game game = do
  product_id ← nullable_string game (text "productId")
  name ← nullable_string game (text "name")
  platform ← nullable_string game (text "platform")
  image_url ← image_url_of (get_field (text "image") game)
  ok (record { product_id = product_id; name = name; platform = platform; image_url = image_url })

unfoldable pub scoped_game : RawGame → Text → Option ProductId → Field PurchasedEntry
scoped_game raw name none = out_of_scope
scoped_game raw name (some product_id) =
    if is_text (text "PS5") raw.platform
    then kept
        (record { product_id = product_id; name = name; image_url = text_or_empty raw.image_url })
    else out_of_scope

unfoldable pub named_game : RawGame → Option Text → Option Text → Field PurchasedEntry
unfolding scoped_game
named_game raw (some product_id) (some name) =
    if is_empty name then dropped else scoped_game raw name (parse_product_id product_id)
named_game raw _ _ = dropped

unfoldable pub checked_game : Result RawGame WrongType → Field PurchasedEntry
unfolding named_game
checked_game (err e) = dropped
checked_game (ok raw) = named_game raw raw.product_id raw.name

unfoldable pub decode_entry : Value → Field PurchasedEntry
unfolding raw_game checked_game
decode_entry value = checked_game (ok_or wrong_type (as_object value) >>= raw_game)

abbrev pub add_field : Field PurchasedEntry → PurchasedPage → PurchasedPage
add_field (kept entry) page = record page { entries = entry ∷ page.entries }
add_field dropped page = record page { dropped_count = page.dropped_count + 1 }
add_field out_of_scope page = record page { out_of_scope_count = page.out_of_scope_count + 1 }

-- the loop over the games, on the page that the rest of them gives
unfoldable pub read_page : ℕ → List Value → PurchasedPage
unfolding decode_entry
read_page raw_count [] = record {
  raw_count = raw_count;
  entries = [];
  dropped_count = 0;
  out_of_scope_count = 0;
}
read_page raw_count (game ∷ games) = add_field (decode_entry game) (read_page raw_count games)

-- the array at `data.purchasedTitlesRetrieve.games`
unfoldable pub page_games : Value → Option (List Value)
unfolding get_field as_array
page_games body =
    as_object body
    >=> get_field (text "data")
    >=> as_object
    >=> get_field (text "purchasedTitlesRetrieve")
    >=> as_object
    >=> get_field (text "games")
    >=> as_array

unfoldable pub parse_page : Value → Option PurchasedPage
unfolding page_games read_page
parse_page body = page_games body >=> λ games. some (read_page (length games) games)
