-- ===== src/Game.antt =====
-- crates/domain/src/game.rs and catalog.rs: the game card, the list payloads, and Sony's store
-- data after the boundary decode. A field that Sony did not send is `none`.
use psstore.Prelude.{ℕ, Bool, Option, none, List, [], leb}
use psstore.Prelude.Texts.{Text}
use psstore.Ids.{GameId, ProductId, GenreKey, BrowseOrder, then_some}

-- game.rs

pub data PlusOffer : Type 0 where
  price : Text → PlusOffer
  included : PlusOffer

pub data IdKind : Type 0 where
  product concept : IdKind

pub record Game : Type 0 where
  pub id : GameId
  pub name : Text
  pub date : Text
  pub url : Text
  pub price : Text
  pub original_price : Text
  pub discount_text : Text
  pub discount_date : Text
  pub screenshots : List Text
  pub videos : List Text
  pub genres : List Text
  pub description : Text
  pub studio : Text
  pub pre_order : Bool
  pub plus_upsell_text : Option Text
  pub plus_offer : Option PlusOffer
  pub id_kind : IdKind

pub record CriticScore : Type 0 where
  pub value : ℕ

-- `CriticScore::new`
unfoldable pub critic_score : ℕ → Option CriticScore
critic_score value = then_some (leb value 100) (record { value = value })

pub record PageResult : Type 0 where
  pub games : List Game
  pub total_count : ℕ
  pub next_offset : Option ℕ

pub record Genre : Type 0 where
  pub key : Text
  pub name : Text

-- catalog.rs

pub record Media : Type 0 where
  pub url : Option Text
  pub role : Option Text
  pub kind : Option Text

pub record ConceptPrice : Type 0 where
  pub base_price : Option Text
  pub discounted_price : Option Text
  pub discount_text : Option Text
  pub service_branding : Option (List Text)
  pub upsell_service_branding : Option (List Text)
  pub upsell_text : Option Text

abbrev pub default_price : ConceptPrice
default_price = record {
  base_price = none;
  discounted_price = none;
  discount_text = none;
  service_branding = none;
  upsell_service_branding = none;
  upsell_text = none;
}

pub record ConceptProductRef : Type 0 where
  pub id : Option Text
  pub release_date : Option Text
  pub provider_name : Option Text
  pub genres : Option (List Text)

pub record Concept : Type 0 where
  pub id : Option Text
  pub name : Option Text
  pub media : Option (List Media)
  pub price : Option ConceptPrice
  pub products : Option (List ConceptProductRef)

pub record CategoryGridProduct : Type 0 where
  pub id : Option Text
  pub name : Option Text
  pub media : Option (List Media)
  pub price : Option ConceptPrice
  pub platforms : Option (List Text)
  pub store_display_classification : Option Text

pub record ProductDetail : Type 0 where
  pub name : Option Text
  pub media : List Media
  pub release_date : Option Text
  pub genres : List Text
  pub description : Text
  pub publisher_name : Option Text
  pub store_display_classification : Option Text
  pub platforms : List Text

-- `ProductDetail::default()`
abbrev pub default_detail : ProductDetail
default_detail = record {
  name = none;
  media = [];
  release_date = none;
  genres = [];
  description = [];
  publisher_name = none;
  store_display_classification = none;
  platforms = [];
}

pub record StandardPrice : Type 0 where
  pub base_price : Text
  pub discounted_price : Text
  pub discount_text : Text

pub record ProductPrice : Type 0 where
  pub plus_offer : Option PlusOffer
  pub standard : Option StandardPrice

pub record PlusMonthlyEntry : Type 0 where
  pub product_id : ProductId
  pub name : Text
  pub image_url : Text
  pub release_date : Text
  pub genres : List Text

pub data SearchEntry : Type 0 where
  product : CategoryGridProduct → SearchEntry
  concept : Concept → SearchEntry

pub data SearchCandidate : Type 0 where
  known : ProductId → Concept → SearchCandidate
  unverified : ProductId → Concept → SearchCandidate

-- `SearchCandidate::product_id`
unfoldable pub candidate_product_id : SearchCandidate → ProductId
candidate_product_id (known product_id _) = product_id
candidate_product_id (unverified product_id _) = product_id

pub record SearchPage : Type 0 where
  pub candidates : List SearchCandidate
  pub is_last : Bool
  pub raw_count : ℕ

pub record BrowsePage : Type 0 where
  pub concepts : List Concept
  pub is_last : Bool

pub record RawGenre : Type 0 where
  pub key : Text
  pub name : Text

pub data SonyFeature : Type 0 where
  new upcoming discounted : SonyFeature

pub record BrowseRequest : Type 0 where
  pub genre : GenreKey
  pub order : BrowseOrder
  pub offset : ℕ
  pub size : ℕ
