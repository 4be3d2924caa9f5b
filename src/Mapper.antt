-- ===== src/Mapper.antt =====
-- crates/domain/src/mapper.rs: Sony concepts and products to game cards.
pub mod Cards
use psstore.Prelude.{
  ℕ, Bool, true, false, not, ◌&&◌, ◌||◌, Option, none, some, List, [], ◌∷◌, ◌++◌, map, ◌==◌, leb,
  filter, filter_map, find?, any, is_empty, ◌-◌, if◌then◌else◌,
}
use psstore.Prelude.Int.{ℤ, ltb_ℤ}
use psstore.Prelude.Texts.{Text, text, text_eq}
use psstore.Js.Jiff.{Jiff}
use psstore.Js.Date.{◌>=>◌, parse_date_ms, to_iso_string}
use psstore.Ids.{GameId, ProductId, product_game_id}
use psstore.Game.{
  Game, IdKind, Media, ConceptPrice, default_price, ConceptProductRef, Concept, CategoryGridProduct,
  ProductDetail, StandardPrice, PlusMonthlyEntry,
}

-- `Option::unwrap_or`, `unwrap_or_default` on a text or a list, `Option::or_else`, `Iterator::next`
abbrev pub unwrap_or {ℓ} : {A : Type ℓ} → Option A → A → A
unwrap_or none a = a
unwrap_or (some b) a = b

abbrev pub or_default {ℓ} : {A : Type ℓ} → Option (List A) → List A
or_default none = []
or_default (some s) = s

abbrev pub or_else {ℓ} : {A : Type ℓ} → Option A → Option A → Option A
or_else none o = o
or_else (some a) o = some a

abbrev pub is_some {ℓ} : {A : Type ℓ} → Option A → Bool
is_some none = false
is_some (some a) = true

abbrev pub first {ℓ} : {A : Type ℓ} → List A → Option A
first [] = none
first (x ∷ xs) = some x

-- `Iterator::find_map`
abbrev pub find_map {ℓ κ} : {A : Type ℓ} {B : Type κ} → (A → Option B) → List A → Option B
find_map f [] = none
find_map f (x ∷ xs) = or_else (f x) (find_map f xs)

module _ (j : Jiff) where
  unfoldable pub to_iso_or_default : Option Text → Text
  to_iso_or_default none = []
  to_iso_or_default (some []) = []
  to_iso_or_default (some (c ∷ s)) = or_default (parse_date_ms j (c ∷ s) >=> to_iso_string j)

unfoldable pub non_empty : Option Text → Option Text
non_empty none = none
non_empty (some s) = if is_empty s then none else some s

pub record Image : Type 0 where
  pub role : Text
  pub url : Text

-- `kind.as_deref() == Some(name)`
abbrev pub is_some_text : Option Text → Text → Bool
is_some_text none name = false
is_some_text (some s) name = text_eq s name

unfoldable pub media_of : Concept → List Media
media_of concept = or_default concept.media

unfoldable pub image_media : Concept → List Image
unfolding media_of non_empty
image_media concept =
    filter_map
      (λ (item : Media).
        non_empty item.url >=> λ url. some (record { role = or_default item.role; url = url }))
      (filter (λ (item : Media). is_some_text item.kind (text "IMAGE")) (media_of concept))

unfoldable pub concept_screenshots : Concept → List Text
unfolding image_media
concept_screenshots concept =
    map (λ (image : Image). image.url)
      (filter (λ (image : Image). text_eq image.role (text "SCREENSHOT")) (image_media concept))

abbrev pub cover_role_priority : List Text
cover_role_priority =
    text "MASTER"
    ∷ text "GAMEHUB_COVER_ART"
    ∷ text "PORTRAIT_BANNER"
    ∷ text "FOUR_BY_THREE_BANNER"
    ∷ text "SIXTEEN_BY_NINE_BANNER"
    ∷ text "SCREENSHOT"
    ∷ []

unfoldable pub pick_cover : List Text → List Image → Text
pick_cover roles images = or_default (
    or_else (find_map (λ role. find? (λ (image : Image). text_eq image.role role) images) roles)
      (first images)
    >=> λ (image : Image). some image.url)

unfoldable pub concept_cover : Concept → Text
unfolding pick_cover image_media
concept_cover concept = pick_cover cover_role_priority (image_media concept)

unfoldable pub concept_videos : Concept → List Text
unfolding media_of non_empty
concept_videos concept =
    filter_map (λ (item : Media). non_empty item.url)
      (filter (λ (item : Media). is_some_text item.kind (text "VIDEO")) (media_of concept))

unfoldable pub first_product : Concept → Option ConceptProductRef
first_product concept = concept.products >=> first

-- `char::to_uppercase`, exact for a comparison with `PS_PLUS`: no other character has an upper case
-- form that is made of the characters of that text.
unfoldable pub to_upper : ℕ → ℕ
to_upper c = if leb b'a' c && leb c b'z' then c - 32 else if c == 0x17f then b'S' else c

unfoldable pub is_ps_plus : Text → Bool
unfolding to_upper
is_ps_plus branding = text_eq (map to_upper branding) (text "PS_PLUS")

unfoldable pub is_concept_discounted : Concept → Bool
unfolding non_empty
is_concept_discounted concept =
    let base = or_default (concept.price >=> λ p. p.base_price) in
    let discounted = or_default (concept.price >=> λ p. p.discounted_price) in
    let has_discount_text = is_some (non_empty (concept.price >=> λ p. p.discount_text)) in
    has_discount_text
    || (not (is_empty base) && (not (is_empty discounted) && not (text_eq base discounted)))

unfoldable pub is_concept_plus : Concept → Bool
unfolding is_ps_plus
is_concept_plus concept = elim concept.price [
  | none ↦ false
  | some price ↦
      any is_ps_plus (or_default price.service_branding ++ or_default price.upsell_service_branding)
]

unfoldable pub concept_product_id : Concept → Text
unfolding first_product
concept_product_id concept = or_default (or_else (first_product concept >=> λ p. p.id) concept.id)

unfoldable pub product_to_concept : CategoryGridProduct → Concept
product_to_concept product = record {
  id = product.id;
  name = product.name;
  media = product.media;
  price = product.price;
  products =
      some
        (record { id = product.id; release_date = none; provider_name = none; genres = none } ∷ []);
}

unfoldable pub plus_upsell_text : Concept → Option Text
unfolding is_ps_plus non_empty
plus_upsell_text concept = concept.price >=> λ (price : ConceptPrice).
    if any is_ps_plus (or_default price.upsell_service_branding)
    then non_empty price.upsell_text
    else none

module _ (j : Jiff) where
  unfoldable pub concept_to_game : Concept → GameId → ℤ → Game
  unfolding first_product to_iso_or_default is_concept_discounted non_empty
  concept_to_game concept id now_ms =
      let product = first_product concept in
      let release_date = to_iso_or_default j (product >=> λ p. p.release_date) in
      let is_discounted = is_concept_discounted concept in
      let has_release_date = not (is_empty release_date) in
      let base_price = concept.price >=> λ p. p.base_price in
      record {
        id = id;
        name = or_default concept.name;
        date = release_date;
        url = concept_cover concept;
        price = or_default (
            or_else (non_empty (concept.price >=> λ p. p.discounted_price)) (non_empty base_price));
        original_price = if is_discounted then or_default base_price else [];
        discount_text =
            if is_discounted then or_default (concept.price >=> λ p. p.discount_text) else [];
        discount_date = if is_discounted && has_release_date then release_date else [];
        screenshots = concept_screenshots concept;
        videos = concept_videos concept;
        genres = or_default (product >=> λ p. p.genres);
        description = [];
        studio = or_default (product >=> λ p. p.provider_name);
        pre_order =
            has_release_date
            && unwrap_or (parse_date_ms j release_date >=> λ ms. some (ltb_ℤ now_ms ms)) false;
        plus_upsell_text = plus_upsell_text concept;
        plus_offer = none;
        id_kind = IdKind.product;
      }

  unfoldable pub detail_concept : ProductId → ProductDetail → Option StandardPrice → Concept
  detail_concept id detail standard = record {
    id = some id.as_str;
    name = detail.name;
    media = some detail.media;
    price = standard >=> λ (price : StandardPrice). some (record default_price {
      base_price = some price.base_price;
      discounted_price = some price.discounted_price;
      discount_text = some price.discount_text;
    });
    products = some (
        record {
          id = some id.as_str;
          release_date = detail.release_date;
          provider_name = detail.publisher_name;
          genres = some detail.genres;
        }
        ∷ []);
  }

  unfoldable pub product_detail_to_game :
      ProductId → ProductDetail → Option StandardPrice → ℤ → Game
  unfolding concept_to_game detail_concept product_game_id
  product_detail_to_game id detail standard now_ms =
      concept_to_game (detail_concept id detail standard) (product_game_id id) now_ms

  unfoldable pub monthly_entry_to_game : PlusMonthlyEntry → Game
  unfolding to_iso_or_default product_game_id
  monthly_entry_to_game entry = record {
    id = product_game_id entry.product_id;
    name = entry.name;
    date = to_iso_or_default j (some entry.release_date);
    url = entry.image_url;
    price = [];
    original_price = [];
    discount_text = [];
    discount_date = [];
    screenshots = [];
    videos = [];
    genres = entry.genres;
    description = [];
    studio = [];
    pre_order = false;
    plus_upsell_text = none;
    plus_offer = none;
    id_kind = IdKind.product;
  }

unfoldable pub fill_card_from_detail : Game → Game → Game
fill_card_from_detail card from_detail =
    let price_source = if is_empty card.price then from_detail else card in
    record card {
      screenshots = if is_empty card.screenshots then from_detail.screenshots else card.screenshots;
      videos = if is_empty card.videos then from_detail.videos else card.videos;
      price = price_source.price;
      original_price = price_source.original_price;
      discount_text = price_source.discount_text;
      discount_date = price_source.discount_date;
    }
