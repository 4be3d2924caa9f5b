-- ===== src/Sony/Product.antt =====
-- crates/server/src/sources/sony/catalog/product.rs: the product detail and the product price.
pub mod Offers
use psstore.Prelude.{
  Bool, true, false, not, ◌&&◌, ◌||◌, Option, none, some, List, [], ◌∷◌, Result, ok, err, ◌>>=◌,
  filter, filter_map, find?, any, is_empty, if◌then◌else◌,
}
use psstore.Prelude.Texts.{Text, text, text_eq}
use psstore.Js.Trim.{js_trim}
use psstore.Js.Date.{◌>=>◌}
use psstore.Game.{
  Media, ProductDetail, default_detail, ProductPrice, StandardPrice, PlusOffer, included,
}
use psstore.Mapper.{or_default, non_empty, find_map}
use psstore.Sony.Json.{
  Value, Fields, Invalid, object_of, as_object, get_field, is_null, opt_string, opt_bool, opt_list,
  opt_list_of, opt_strings, opt_nullable_strings, opt_object_of,
}
use psstore.Sony.Grid.{result_ok, media, is_text}

pub record Description : Type 0 where
  pub kind : Option Text
  pub value : Option Text

pub record ProductNode : Type 0 where
  pub name : Option Text
  pub media : Option (List Media)
  pub release_date : Option Text
  pub publisher_name : Option Text
  pub store_display_classification : Option Text
  pub platforms : Option (List Text)
  pub descriptions : Option (List Description)
  pub genres : Option (List (Option Text))

unfoldable pub description : Value → Result Description Invalid
unfolding object_of opt_string
description value = do
  obj ← object_of value
  sub_type ← opt_string obj (text "subType")
  kind ← opt_string obj (text "type")
  content ← opt_string obj (text "value")
  ok (record { kind = kind; value = content })

unfoldable pub localized_genre : Value → Result (Option Text) Invalid
unfolding object_of opt_string
localized_genre value = object_of value >>= λ obj. opt_string obj (text "value")

unfoldable pub product_node : Value → Result ProductNode Invalid
unfolding object_of opt_string opt_strings opt_list_of media description localized_genre
product_node value = do
  obj ← object_of value
  id ← opt_string obj (text "id")
  name ← opt_string obj (text "name")
  images ← opt_list_of obj (text "media") media
  release_date ← opt_string obj (text "releaseDate")
  publisher_name ← opt_string obj (text "publisherName")
  classification ← opt_string obj (text "storeDisplayClassification")
  platforms ← opt_strings obj (text "platforms")
  descriptions ← opt_list_of obj (text "descriptions") description
  genres ← opt_list_of obj (text "combinedLocalizedGenres") localized_genre
  ok (record {
    name = name;
    media = images;
    release_date = release_date;
    publisher_name = publisher_name;
    store_display_classification = classification;
    platforms = platforms;
    descriptions = descriptions;
    genres = genres;
  })

unfoldable pub product_retrieve : Value → Option Value
unfolding object_of get_field
product_retrieve json =
    result_ok (object_of json)
    >=> get_field (text "data")
    >=> as_object
    >=> get_field (text "productRetrieve")

-- `Option::unwrap_or_default` for a text
abbrev pub text_or_empty : Option Text → Text
text_or_empty none = []
text_or_empty (some value) = value

unfoldable pub description_by_type : List Description → Text → Text
description_by_type descriptions kind = text_or_empty (
    find? (λ (entry : Description). is_text kind entry.kind) descriptions
    >=> λ (entry : Description). entry.value)

-- `into_iter().flatten().filter(|text| !text.is_empty())`
unfoldable pub non_empty_texts : Option (List (Option Text)) → List Text
non_empty_texts values =
    filter (λ value. not (is_empty value)) (filter_map (λ value. value) (or_default values))

-- the end of `extract_product_detail`
unfoldable pub node_detail : ProductNode → ProductDetail
unfolding description_by_type non_empty_texts non_empty
node_detail node =
    let descriptions = or_default node.descriptions in
    let long = description_by_type descriptions (text "LONG") in
    record {
      name = non_empty node.name;
      media = or_default node.media;
      release_date = non_empty node.release_date;
      genres = non_empty_texts node.genres;
      description = if is_empty long then description_by_type descriptions (text "SHORT") else long;
      publisher_name = non_empty node.publisher_name;
      store_display_classification = non_empty node.store_display_classification;
      platforms = or_default node.platforms;
    }

unfoldable pub extract_product_detail : Value → ProductDetail
unfolding product_retrieve product_node node_detail
extract_product_detail json =
    elim (product_retrieve json >=> λ node.
    if is_null node then none else result_ok (product_node node)) [
      | none ↦ default_detail
      | some node ↦ node_detail node
    ]

-- `PS_PLUS` and `INCLUDED_CTA_TYPES`
abbrev pub ps_plus : Text
ps_plus = text "PS_PLUS"

abbrev pub included_cta_types : List Text
included_cta_types =
    text "UPSELL_PS_PLUS_GAME_CATALOG"
    ∷ text "UPSELL_PS_PLUS_FREE"
    ∷ text "UPSELL_PS_PLUS_CLASSIC_GAME_COLLECTION"
    ∷ []

pub record CtaPrice : Type 0 where
  pub applicability : Option Text
  pub base_price : Option Text
  pub display_discount_text : Option Text
  pub discounted_price : Option Text
  pub is_tied_to_subscription : Option Bool
  pub service_branding : Option (List (Option Text))

pub record Cta : Type 0 where
  pub kind : Option Text
  pub price : Option CtaPrice

unfoldable pub cta_price : Value → Result CtaPrice Invalid
unfolding object_of opt_string opt_bool opt_nullable_strings
cta_price value = do
  obj ← object_of value
  applicability ← opt_string obj (text "applicability")
  base_price ← opt_string obj (text "basePrice")
  display_discount_text ← opt_string obj (text "displayDiscountText")
  discounted_price ← opt_string obj (text "discountedPrice")
  is_tied ← opt_bool obj (text "isTiedToSubscription")
  service_branding ← opt_nullable_strings obj (text "serviceBranding")
  ok (record {
    applicability = applicability;
    base_price = base_price;
    display_discount_text = display_discount_text;
    discounted_price = discounted_price;
    is_tied_to_subscription = is_tied;
    service_branding = service_branding;
  })

unfoldable pub cta : Value → Result Cta Invalid
unfolding object_of opt_string opt_object_of cta_price
cta value = do
  obj ← object_of value
  kind ← opt_string obj (text "type")
  price ← opt_object_of obj (text "price") cta_price
  ok (record { kind = kind; price = price })

-- the `webctas` list of a response, or none
unfoldable pub webctas : Value → Option (List Value)
unfolding object_of get_field opt_list
webctas json = result_ok (object_of json) >=> get_field (text "data") >=> λ data_value.
    if is_null data_value
    then none
    else (result_ok (object_of data_value) >=> get_field (text "productRetrieve") >=> λ node.
        if is_null node
        then none
        else (result_ok (object_of node) >=> λ obj.
            result_ok (opt_list obj (text "webctas")) >=> λ entries. entries))

unfoldable pub decoded_ctas : Value → List Cta
unfolding webctas cta
decoded_ctas json = filter_map (λ entry. result_ok (cta entry)) (or_default (webctas json))

-- a branding list with PS Plus
unfoldable pub has_ps_plus : CtaPrice → Bool
has_ps_plus price = any (is_text ps_plus) (or_default price.service_branding)

abbrev pub is_upsell : CtaPrice → Bool
is_upsell price = is_text (text "UPSELL") price.applicability

-- the `match` of `offer_from_cta`
unfoldable pub tied_offer : Option Text → Option Text → Option Bool → Option PlusOffer
unfolding js_trim
tied_offer kind discounted_price (some true) =
    kind >=> λ name. if any (text_eq name) included_cta_types then some included else none
tied_offer kind discounted_price (some false) = discounted_price >=> λ price.
    if is_empty (js_trim price) then none else some (PlusOffer.price price)
tied_offer kind discounted_price none = none

unfoldable pub offer_from_cta : Cta → Option PlusOffer
unfolding has_ps_plus tied_offer
offer_from_cta entry = entry.price >=> λ price.
    if not (is_upsell price) || not (has_ps_plus price)
    then none
    else tied_offer entry.kind price.discounted_price price.is_tied_to_subscription

-- `== Some(true)`
abbrev pub is_some_true : Option Bool → Bool
is_some_true (some b) = b
is_some_true none = false

unfoldable pub standard_from_cta : Cta → Option StandardPrice
standard_from_cta entry = entry.price >=> λ price.
    let standard : StandardPrice = record {
      base_price = text_or_empty price.base_price;
      discounted_price = text_or_empty price.discounted_price;
      discount_text = text_or_empty price.display_discount_text;
    } in
    if is_upsell price || is_some_true price.is_tied_to_subscription
    then none
    else if not (is_empty standard.base_price) || not (is_empty standard.discounted_price)
    then some standard
    else none

unfoldable pub parse_product_price : Value → ProductPrice
unfolding decoded_ctas offer_from_cta standard_from_cta
parse_product_price json =
    let ctas = decoded_ctas json in
    record { plus_offer = find_map offer_from_cta ctas; standard = find_map standard_from_cta ctas }
