-- ===== src/Games/Page.antt =====
-- crates/server/src/application/games.rs: the game page. The lists are asked in turn, and the
-- product itself only when no list has the game.
pub mod Found
use psstore.Prelude.{
  ◌≡◌, Bool, true, false, not, ◌&&◌, Option, none, some, List, [], ◌∷◌, Result, ok, err, is_empty,
  find?, filter, if◌then◌else◌,
}
use psstore.Prelude.Int.{ℤ}
use psstore.Prelude.Texts.{Text, text, text_eq}
use psstore.Js.Jiff.{Jiff}
use psstore.Ids.{GameId, ProductId, product_id_of}
use psstore.Game.{
  Game, Concept, ProductDetail, ProductPrice, SonyFeature, new, upcoming, discounted,
}
use psstore.Mapper.{
  unwrap_or, concept_product_id, fill_card_from_detail, product_detail_to_game, to_iso_or_default,
  is_some,
}
use psstore.Listing.{is_ps5_game, map_concepts_to_games}
use psstore.Errors.{UpstreamError, unavailable, GameLookupError, not_found, lookup_upstream}
use psstore.Prelude.Actions.{Action, Attempt, ◌>>=◌, ◌>=?◌, pure, try_join}
use psstore.Games.Port.{Port, clock}
use psstore.Games.Meta.{is_product, price_or_none, card_detail, card_price}

-- `map_or(game.date, |text| to_iso_or_default(Some(text)))`
abbrev pub date_or : Jiff → Option Text → Text → Text
date_or j none date = date
date_or j (some text) date = to_iso_or_default j (some text)

abbrev pub or_if_empty {ℓ} : {A : Type ℓ} → List A → List A → List A
or_if_empty first second = if is_empty first then second else first

-- the card before the fields of the detail: a product card takes the missing parts from its detail
unfoldable pub filled_card : Jiff → Game → ProductDetail → ProductPrice → ℤ → Game
filled_card j game detail price now_ms = elim (is_product game.id_kind) [
  | false ↦ game
  | true ↦ elim (product_id_of game.id) [
    | none ↦ game
    | some product_id ↦
        fill_card_from_detail game
          (product_detail_to_game j product_id detail price.standard now_ms)
  ]
]

-- the result of `enrich_with_detail`
unfoldable pub detailed_card : Jiff → Game → ProductDetail → ProductPrice → Game
detailed_card j game detail price = record game {
  date = date_or j detail.release_date game.date;
  genres = or_if_empty detail.genres game.genres;
  description = or_if_empty detail.description game.description;
  studio = unwrap_or detail.publisher_name game.studio;
  plus_offer = price.plus_offer;
}

abbrev pub has_id : GameId → Game → Bool
has_id id game = text_eq game.id.as_str id.as_str

-- `From<UpstreamError> for GameLookupError`, on the failure of a lookup
abbrev pub upstream : {W A : Type 0} → Attempt W A UpstreamError → Attempt W A GameLookupError
upstream m w =
    let (r, w') = m w in elim r [ ok a ↦ (ok a, w') | err e ↦ (err (lookup_upstream e), w') ]

module _ {W : Type 0} (j : Jiff) (port : Port W) where
  unfoldable pub enrich_with_detail : Game → Action W Game
  unfolding filled_card detailed_card card_detail card_price
  enrich_with_detail game = card_detail port game.id >>= λ detail. card_price port game >>= λ price.
      clock port >>= λ now_ms.
      pure (detailed_card j (filled_card j game detail price now_ms) detail price)

  unfoldable pub find_in_feature : SonyFeature → GameId → Attempt W (Option Game) UpstreamError
  find_in_feature feature id = port.concepts feature >=? λ concepts. clock port >>= λ now_ms.
      let matching =
        filter (λ (concept : Concept). text_eq (concept_product_id concept) id.as_str) concepts in
      pure (ok (find? (has_id id) (map_concepts_to_games j matching now_ms)))

  -- the checks of `by_product_id` on the detail
  unfoldable pub is_ps5_detail : ProductDetail → Bool
  is_ps5_detail detail =
      not (is_empty detail.platforms)
      && is_ps5_game detail.platforms detail.store_display_classification

  unfoldable pub product_page :
      GameId → ProductId → ProductDetail → ProductPrice → ℤ → Result Game GameLookupError
  product_page id product_id detail price now_ms =
      if not (is_ps5_detail detail) then err (not_found id) else elim detail.name [
        | none ↦
            err (lookup_upstream (unavailable (text "Sony returned a PS5 product without a name")))
        | some name ↦
            ok (record (product_detail_to_game j product_id detail price.standard now_ms) {
              description = detail.description;
              plus_offer = price.plus_offer;
            })
      ]

  unfoldable pub by_product_id : GameId → Attempt W Game GameLookupError
  unfolding product_page try_join price_or_none
  by_product_id id = elim (product_id_of id) [
    | none ↦ pure (err (not_found id))
    | some product_id ↦
        upstream (
          try_join port.second_fails_first (port.strict_details product_id)
            (price_or_none port product_id >>= λ price. pure (ok price)))
        >=? λ found.
            clock port >>= λ now_ms. pure (product_page id product_id found.0 found.1 now_ms)
  ]

  -- the card of a list, or the rest of the search for it
  abbrev pub or_next : Option Game → Attempt W Game GameLookupError → Attempt W Game GameLookupError
  or_next none rest = rest
  or_next (some game) rest = enrich_with_detail game >>= λ page. pure (ok page)

  unfoldable pub game_by_id : GameId → Attempt W Game GameLookupError
  unfolding find_in_feature by_product_id
  game_by_id id = upstream (port.concepts new) >=? λ released. clock port >>= λ now_ms.
      or_next (find? (has_id id) (map_concepts_to_games j released now_ms)) (
        upstream (find_in_feature upcoming id) >=? λ soon. or_next soon (
          upstream (find_in_feature discounted id) >=? λ reduced. or_next reduced (
            upstream port.monthly >=? λ monthly.
            or_next (find? (has_id id) monthly) (by_product_id id))))
