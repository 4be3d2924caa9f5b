-- ===== src/Sony/Grid.antt =====
-- crates/server/src/sources/sony/catalog/grid.rs: the category grids, decoded element by element.
pub mod Counts
use psstore.Prelude.{
  ℕ, ◌+◌, ◌-◌, Bool, true, false, not, ◌&&◌, Option, none, some, List, [], ◌∷◌, Result, ok, err,
  ◌>>=◌, map, filter_map, find?, length, is_empty, ltb, if◌then◌else◌,
}
use psstore.Prelude.Texts.{Text, text, text_eq}
use psstore.Js.Date.{◌>=>◌}
use psstore.Game.{
  Media, ConceptPrice, ConceptProductRef, Concept, CategoryGridProduct, Genre, RawGenre,
}
use psstore.Mapper.{or_default, unwrap_or, product_to_concept}
use psstore.Listing.{narrow_genres}
use psstore.Sony.Json.{
  Value, null, Fields, Invalid, object_of, get_field, is_null, opt_string, opt_bool, opt_list,
  opt_list_of, opt_strings, opt_object_of,
}

-- `Result::ok`
abbrev pub result_ok {ℓ κ} : {A : Type ℓ} {E : Type κ} → Result A E → Option A
result_ok (ok a) = some a
result_ok (err e) = none

unfoldable pub media : Value → Result Media Invalid
unfolding object_of opt_string
media value = do
  obj ← object_of value
  url ← opt_string obj (text "url")
  role ← opt_string obj (text "role")
  kind ← opt_string obj (text "type")
  ok (record { url = url; role = role; kind = kind })

unfoldable pub concept_price : Value → Result ConceptPrice Invalid
unfolding object_of opt_string opt_strings
concept_price value = do
  obj ← object_of value
  base_price ← opt_string obj (text "basePrice")
  discounted_price ← opt_string obj (text "discountedPrice")
  discount_text ← opt_string obj (text "discountText")
  service_branding ← opt_strings obj (text "serviceBranding")
  upsell_service_branding ← opt_strings obj (text "upsellServiceBranding")
  upsell_text ← opt_string obj (text "upsellText")
  ok (record {
    base_price = base_price;
    discounted_price = discounted_price;
    discount_text = discount_text;
    service_branding = service_branding;
    upsell_service_branding = upsell_service_branding;
    upsell_text = upsell_text;
  })

unfoldable pub product_ref : Value → Result ConceptProductRef Invalid
unfolding object_of opt_string opt_strings
product_ref value = do
  obj ← object_of value
  id ← opt_string obj (text "id")
  release_date ← opt_string obj (text "releaseDate")
  provider_name ← opt_string obj (text "providerName")
  genres ← opt_strings obj (text "genres")
  ok (record {
    id = id;
    release_date = release_date;
    provider_name = provider_name;
    genres = genres;
  })

unfoldable pub concept : Value → Result Concept Invalid
unfolding object_of opt_string opt_list_of opt_object_of media concept_price product_ref
concept value = do
  obj ← object_of value
  id ← opt_string obj (text "id")
  name ← opt_string obj (text "name")
  images ← opt_list_of obj (text "media") media
  price ← opt_object_of obj (text "price") concept_price
  products ← opt_list_of obj (text "products") product_ref
  ok (record { id = id; name = name; media = images; price = price; products = products })

unfoldable pub grid_product : Value → Result CategoryGridProduct Invalid
unfolding object_of opt_string opt_strings opt_list_of opt_object_of media concept_price
grid_product value = do
  obj ← object_of value
  np_title_id ← opt_string obj (text "npTitleId")
  id ← opt_string obj (text "id")
  name ← opt_string obj (text "name")
  images ← opt_list_of obj (text "media") media
  price ← opt_object_of obj (text "price") concept_price
  platforms ← opt_strings obj (text "platforms")
  classification ← opt_string obj (text "storeDisplayClassification")
  ok (record {
    id = id;
    name = name;
    media = images;
    price = price;
    platforms = platforms;
    store_display_classification = classification;
  })

-- one round of the loops that keep what decodes and count the rest
abbrev pub keep_or_count {ℓ} : {A : Type ℓ} → Option A → List A × ℕ → List A × ℕ
keep_or_count (some a) rest = (a ∷ rest.0, rest.1)
keep_or_count none rest = (rest.0, rest.1 + 1)

-- the loop, over any decoder
unfoldable pub decode_all {ℓ} : {A : Type ℓ} → (Value → Option A) → List Value → List A × ℕ
decode_all decode [] = ([], 0)
decode_all decode (item ∷ items) = keep_or_count (decode item) (decode_all decode items)

unfoldable pub decode_each : {A : Type 0} → (Value → Result A Invalid) → List Value → List A × ℕ
unfolding decode_all
decode_each decode items = decode_all (λ item. result_ok (decode item)) items

-- `filter(|node| !node.is_null())`
abbrev pub non_null : Value → Option Value
non_null value = if is_null value then none else some value

unfoldable pub grid_node : Value → Option Value
unfolding object_of get_field
grid_node json = result_ok (object_of json) >=> get_field (text "data") >=> λ data_value.
    if is_null data_value
    then none
    else (result_ok (object_of data_value) >=> get_field (text "categoryGridRetrieve") >=> non_null)

pub record ParsedGrid : Type 0 where
  pub concepts : List Concept
  pub products : List CategoryGridProduct
  pub dropped : ℕ

-- the lists of a node whose outer shape is readable
unfoldable pub grid_lists : Value → Option (List Value × List Value)
unfolding object_of opt_list
grid_lists node = result_ok (object_of node) >=> λ obj.
    result_ok (opt_list obj (text "concepts")) >=> λ concepts.
    result_ok (opt_list obj (text "products")) >=> λ products.
    some (or_default concepts, or_default products)

unfoldable pub parsed_grid : List Value × List Value → ParsedGrid
unfolding decode_each concept grid_product
parsed_grid lists =
    let concepts = decode_each concept lists.0 in
    let products = decode_each grid_product lists.1 in
    record { concepts = concepts.0; products = products.0; dropped = concepts.1 + products.1 }

unfoldable pub parse_grid : Value → Option ParsedGrid
unfolding grid_lists parsed_grid
parse_grid node = grid_lists node >=> λ lists. some (parsed_grid lists)

pub data CategoryGridOutcome : Type 0 where
  grid_drift : CategoryGridOutcome
  grid : List Concept → ℕ → CategoryGridOutcome

unfoldable pub extract_category_grid : Value → CategoryGridOutcome
unfolding grid_node parse_grid
extract_category_grid json = elim (grid_node json >=> parse_grid) [
  | none ↦ grid_drift
  | some parsed ↦
      grid
        (if is_empty parsed.concepts
          then map product_to_concept parsed.products
          else parsed.concepts)
        parsed.dropped
]

unfoldable pub parse_grid_is_last : Value → Option Bool
unfolding object_of opt_bool opt_object_of
parse_grid_is_last node = result_ok (object_of node) >=> λ obj.
    result_ok (
      opt_object_of obj (text "pageInfo")
        (λ value. object_of value >>= λ info. opt_bool info (text "isLast")))
    >=> λ page_info. page_info >=> λ is_last. is_last

pub data BrowseOutcome : Type 0 where
  browse_drift : BrowseOutcome
  browsed : List Concept → Bool → ℕ → BrowseOutcome

unfoldable pub extract_browse_page : Value → ℕ → BrowseOutcome
unfolding grid_node parse_grid parse_grid_is_last
extract_browse_page json size = elim (grid_node json) [
  | none ↦ browse_drift
  | some node ↦ elim (parse_grid node) [
    | none ↦ browse_drift
    | some parsed ↦
        browsed parsed.concepts
          (unwrap_or (parse_grid_is_last node) (ltb (length parsed.concepts) size)) parsed.dropped
  ]
]

-- `GENRE_FACET_NAME`
abbrev pub genre_facet_name : Text
genre_facet_name = text "conceptGenres"

unfoldable pub genre_value : Value → Option RawGenre
unfolding object_of opt_string
genre_value item = result_ok (object_of item) >=> λ obj.
    result_ok (opt_string obj (text "key")) >=> λ key.
    result_ok (opt_string obj (text "displayName")) >=> λ name. key >=> λ key_text.
    name >=> λ name_text.
    if not (is_empty key_text) && not (is_empty name_text)
    then some (record { key = key_text; name = name_text })
    else none

unfoldable pub facet_option : Value → Option (Option Text × Option (List Value))
unfolding object_of opt_string opt_list
facet_option option = result_ok (object_of option) >=> λ facet.
    result_ok (opt_string facet (text "name")) >=> λ name.
    result_ok (opt_list facet (text "values")) >=> λ values. some (name, values)

-- `as_deref() == Some(…)`
abbrev pub is_text : Text → Option Text → Bool
is_text expected none = false
is_text expected (some value) = text_eq value expected

-- the values of the genre facet
unfoldable pub genre_values : Value → Option (List Value)
unfolding object_of opt_list facet_option
genre_values node = result_ok (object_of node) >=> λ obj.
    result_ok (opt_list obj (text "facetOptions")) >=> λ options.
    find? (λ (facet : Option Text × Option (List Value)). is_text genre_facet_name facet.0)
      (filter_map facet_option (or_default options))
    >=> λ facet. facet.1

unfoldable pub parse_genre_facet : Value → Option (List RawGenre × ℕ)
unfolding genre_values decode_all genre_value
parse_genre_facet node = genre_values node >=> λ values. some (decode_all genre_value values)

pub data GenresOutcome : Type 0 where
  genres_drift : GenresOutcome
  genre_list : List Genre → ℕ → GenresOutcome

-- `usize` subtraction: the narrowed genres are no more than the raw ones
unfoldable pub genres_outcome : List RawGenre × ℕ → GenresOutcome
genres_outcome facet =
    let genres = narrow_genres facet.0 in
    if is_empty genres
    then genres_drift
    else genre_list genres (facet.1 + length facet.0 - length genres)

unfoldable pub extract_genres : Value → GenresOutcome
unfolding grid_node parse_genre_facet genres_outcome
extract_genres json = elim (grid_node json >=> parse_genre_facet) [
  | none ↦ genres_drift
  | some facet ↦ genres_outcome facet
]
