-- ===== src/Ids.antt =====
-- crates/domain/src/product_id.rs, id.rs and browse.rs: the formats of ids and keys. A text is the
-- list of its characters; a format check reads its UTF-8 bytes.
pub mod Bytes
pub mod Formats
use psstore.Prelude.{
  ℕ, ◌≤◌, Bool, true, false, ◌&&◌, ◌||◌, not, Option, none, some, List, [], ◌∷◌, Result, ok, err,
  ◌==◌, leb, length, all, find?, is_empty, if◌then◌else◌, take, drop,
}
use psstore.Prelude.Texts.{Text, text, bytes, text_eq}
use psstore.Ids.Bytes.{is_upper, is_digit, is_dash, is_underscore, is_zero}
use psstore.Js.Trim.{js_trim}

-- the `pattern` of `is_valid_product_id`
abbrev pub pattern_checks : List (ℕ → Bool)
pattern_checks =
    is_upper ∷ is_upper ∷ is_digit ∷ is_digit ∷ is_digit ∷ is_digit ∷ is_dash ∷ is_upper ∷ is_upper
    ∷ is_upper ∷ is_upper ∷ is_digit ∷ is_digit ∷ is_digit ∷ is_digit ∷ is_digit ∷ is_underscore
    ∷ is_zero ∷ is_zero ∷ is_dash ∷ []

-- `pattern.iter().zip(bytes).all(…)`: the shorter of the two ends the walk
unfoldable pub matches_all : List (ℕ → Bool) → List ℕ → Bool
matches_all [] bs = true
matches_all (p ∷ ps) [] = true
matches_all (p ∷ ps) (b ∷ bs) = p b && matches_all ps bs

unfoldable pub is_valid_product_id : Text → Bool
unfolding matches_all
is_valid_product_id id =
    leb (length pattern_checks) (length (bytes id)) && matches_all pattern_checks (bytes id)

-- A Rust newtype with a private field is the text that its constructor accepts.
pub record ProductId : Type 0 where
  pub as_str : Text

pub record ConceptId : Type 0 where
  pub as_str : Text

pub record GameId : Type 0 where
  pub as_str : Text

pub data InvalidId : Type 0 where
  invalid_id : InvalidId

-- `bool::then`, with its value
abbrev pub then_some {ℓ} : {A : Type ℓ} → Bool → A → Option A
then_some true a = some a
then_some false a = none

unfoldable pub parse_product_id : Text → Option ProductId
parse_product_id value = then_some (is_valid_product_id value) (record { as_str = value })

unfoldable pub parse_concept_id : Text → Option ConceptId
parse_concept_id value =
    then_some (not (is_empty value) && all is_digit (bytes value)) (record { as_str = value })

-- `GameId::from_path`
unfoldable pub game_id_from_path : Text → Option GameId
game_id_from_path raw =
    let id = js_trim raw in then_some (not (is_empty id)) (record { as_str = id })

-- `TryFrom<String> for GameId`
unfoldable pub try_game_id : Text → Result GameId InvalidId
try_game_id value = if is_empty value then err invalid_id else ok (record { as_str = value })

-- `From<ProductId>` and `From<ConceptId>`
unfoldable pub product_game_id : ProductId → GameId
product_game_id id = record { as_str = id.as_str }

unfoldable pub concept_game_id : ConceptId → GameId
concept_game_id id = record { as_str = id.as_str }

-- `GameId::product_id`
unfoldable pub product_id_of : GameId → Option ProductId
product_id_of id = parse_product_id id.as_str

pub record GenreKey : Type 0 where
  pub as_str : Text

abbrev pub is_genre_byte : ℕ → Bool
is_genre_byte b = is_upper b || is_digit b || (b == b'_' || b == b'/' || b == b'-')

unfoldable pub is_genre_key : Text → Bool
is_genre_key value =
    leb 1 (length (bytes value)) && leb (length (bytes value)) 64 && all is_genre_byte (bytes value)

unfoldable pub parse_genre_key : Text → Option GenreKey
parse_genre_key value = then_some (is_genre_key value) (record { as_str = value })

pub data BrowseOrder : Type 0 where
  best_selling most_downloaded newest oldest name_asc name_desc : BrowseOrder

-- `BrowseOrder::ALL`
abbrev pub all_orders : List BrowseOrder
all_orders = best_selling ∷ most_downloaded ∷ newest ∷ oldest ∷ name_asc ∷ name_desc ∷ []

-- `BrowseOrder::as_str`
unfoldable pub order_key : BrowseOrder → Text
order_key best_selling = text "best-selling"
order_key most_downloaded = text "most-downloaded"
order_key newest = text "newest"
order_key oldest = text "oldest"
order_key name_asc = text "name-asc"
order_key name_desc = text "name-desc"

unfoldable pub parse_order : Text → Option BrowseOrder
parse_order value = find? (λ order. text_eq (order_key order) value) all_orders
