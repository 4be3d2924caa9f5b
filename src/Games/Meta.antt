-- ===== src/Games/Meta.antt =====
-- crates/server/src/application/games.rs: the details and prices that the lists and the game page
-- read, the failures of lookups made lenient.
use psstore.Prelude.{Bool, true, false, not, Option, none, some, List, Result, ok, err, is_empty}
use psstore.Prelude.Texts.{Text}
use psstore.Js.Jiff.{Jiff}
use psstore.Ids.{GameId, ProductId, product_id_of}
use psstore.Game.{Game, IdKind, ProductDetail, default_detail, ProductPrice}
use psstore.Mapper.{to_iso_or_default}
use psstore.Prelude.Actions.{Action, ◌>>=◌, pure}
use psstore.Games.Port.{Port}

pub record ProductMeta : Type 0 where
  pub date : Text
  pub has_sony_date : Bool
  pub classification : Option Text
  pub genres : List Text
  pub platforms : List Text

-- `is_some_and(|text| !text.is_empty())`
abbrev pub is_some_text : Option Text → Bool
is_some_text none = false
is_some_text (some text) = not (is_empty text)

-- `ProductMeta::of`
unfoldable pub meta_of : Jiff → ProductDetail → ProductMeta
meta_of j detail = record {
  date = to_iso_or_default j detail.release_date;
  has_sony_date = is_some_text detail.release_date;
  classification = detail.store_display_classification;
  genres = detail.genres;
  platforms = detail.platforms;
}

-- `Result::unwrap_or_default` for the details and the prices
abbrev pub detail_or_default : {E : Type 0} → Result ProductDetail E → ProductDetail
detail_or_default (ok detail) = detail
detail_or_default (err e) = default_detail

abbrev pub default_product_price : ProductPrice
default_product_price = record { plus_offer = none; standard = none }

abbrev pub price_or_default : {E : Type 0} → Result ProductPrice E → ProductPrice
price_or_default (ok price) = price
price_or_default (err e) = default_product_price

abbrev pub is_product : IdKind → Bool
is_product IdKind.product = true
is_product IdKind.concept = false

module _ {W : Type 0} (port : Port W) where
  -- `Inner::detail`
  unfoldable pub lenient_detail : ProductId → Action W ProductDetail
  lenient_detail product_id =
      port.details product_id >>= λ outcome. pure (detail_or_default outcome)

  unfoldable pub card_detail : GameId → Action W ProductDetail
  unfolding lenient_detail
  card_detail id = elim (product_id_of id) [
    | none ↦ pure default_detail
    | some product_id ↦ lenient_detail product_id
  ]

  unfoldable pub card_meta : Jiff → GameId → Action W ProductMeta
  unfolding card_detail meta_of
  card_meta j id = card_detail id >>= λ detail. pure (meta_of j detail)

  unfoldable pub enrich_date : Jiff → Game → Action W Game
  unfolding card_meta
  enrich_date j game = card_meta j game.id >>= λ meta. pure (record game { date = meta.date })

  unfoldable pub price_or_none : ProductId → Action W ProductPrice
  price_or_none product_id = port.prices product_id >>= λ outcome. pure (price_or_default outcome)

  unfoldable pub card_price : Game → Action W ProductPrice
  unfolding price_or_none
  card_price game = elim (is_product game.id_kind) [
    | false ↦ pure default_product_price
    | true ↦ elim (product_id_of game.id) [
      | none ↦ pure default_product_price
      | some product_id ↦ price_or_none product_id
    ]
  ]
