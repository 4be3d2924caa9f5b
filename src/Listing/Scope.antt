-- ===== src/Listing/Scope.antt =====
-- The scope rules of the lists: which ids, kinds and keys a list can hold.
use mathlib.Core.List.{Sublist}
use mathlib.Core.Path.{subst}
use psstore.Prelude.{
  ◌≡◌, refl, ◌↔◌, true, false, Option, none, some, List, [], ◌∷◌, ◌++◌, arith, filter_map, find?,
  is_empty, All, All-filter_map, Option-cases, inl, inr,
}
use psstore.Prelude.Int.{ℤ}
use psstore.Prelude.Texts.{Text, Text-discrete}
use psstore.Prelude.Dedupe.{
  has_key, DistinctKeys, dedupe-DistinctKeys, find-dedupe, dedupe-sublist, dedupe-All,
}
use psstore.Js.Jiff.{Jiff}
use psstore.Js.Date.{◌>=>◌}
use psstore.Ids.{
  GameId, ProductId, parse_product_id, try_game_id, product_game_id, product_id_of,
  is_valid_product_id, then_some,
}
use psstore.Ids.Formats.{then_some_eq, parse_product_id-some, product_id_of-product_game_id}
use psstore.Game.{
  Game, IdKind, Concept, ConceptProductRef, SearchEntry, SearchCandidate, known,
  candidate_product_id,
}
use psstore.Mapper.{
  is_some, or_default, first, concept_product_id, concept_to_game, product_to_concept,
}
use psstore.Listing.{
  merge_release_grids, concept_card, map_concepts_to_games, upcoming_card_of, upcoming_card,
  map_upcoming_concepts_to_games, is_ps5_game, narrow_search_entry, narrow_search_entries,
}

-- The merged grids are a part of the released grid and then the upcoming one, in this order, with
-- no id twice; for each id the card is the first one, so a released card wins.
pub merge_release_grids_lem :
    (released upcoming : List Game)
    → Sublist (merge_release_grids released upcoming) (released ++ upcoming)
      × DistinctKeys Text-discrete
          (λ (game : Game). game.id.as_str)
          (merge_release_grids released upcoming)
      × ((id : Text)
          → find?
              (has_key Text-discrete (λ (game : Game). game.id.as_str) id)
              (merge_release_grids released upcoming)
            ≡ find?
                (has_key Text-discrete (λ (game : Game). game.id.as_str) id)
                (released ++ upcoming))
unfolding merge_release_grids
merge_release_grids_lem released upcoming =
    let key : Game → Text = λ (game : Game). game.id.as_str in
    (
      dedupe-sublist Text-discrete key (released ++ upcoming),
      dedupe-DistinctKeys Text-discrete key (released ++ upcoming),
      λ id. find-dedupe Text-discrete key id (released ++ upcoming),
    )

module _ (j : Jiff) (now_ms : ℤ) where
  id-concept_to_game :
      (concept : Concept) (id : GameId) → (concept_to_game j concept id now_ms).id ≡ id
  unfolding concept_to_game
  id-concept_to_game concept id = refl

  kind-concept_to_game :
      (concept : Concept) (id : GameId)
      → (concept_to_game j concept id now_ms).id_kind ≡ IdKind.product
  unfolding concept_to_game
  kind-concept_to_game concept id = refl

  abbrev pub IsProductCard : Game → Type 0
  IsProductCard game = (is_some (product_id_of game.id) ≡ true) × (game.id_kind ≡ IdKind.product)

  concept_card_product :
      (concept : Concept) (game : Game)
      → concept_card j now_ms concept ≡ some game
      → IsProductCard game
  unfolding concept_card
  concept_card_product concept game h =
      elim (Option-cases (parse_product_id (concept_product_id concept))) [
        | inl bad ↦ absurd (ground arith)
        | inr (id, parsed) ↦ ground (
          arith,
          id-concept_to_game concept (product_game_id id),
          kind-concept_to_game concept (product_game_id id),
          product_id_of-product_game_id (concept_product_id concept) id parsed,
        )
      ]

  -- A card of NEW and of DISCOUNTED has a product id, and its kind says so.
  pub map_concepts_to_games-products :
      (concepts : List Concept) → All IsProductCard (map_concepts_to_games j concepts now_ms)
  unfolding map_concepts_to_games
  map_concepts_to_games-products concepts =
      All-filter_map _ (concept_card j now_ms) concepts concept_card_product

  -- the kind of an UPCOMING card is that of its id, and the id is the concept's product id text
  abbrev pub IsUpcomingCard : Game → Type 0
  IsUpcomingCard game =
      (is_empty game.id.as_str ≡ false)
      × ((game.id_kind ≡ IdKind.product) ↔ (is_some (product_id_of game.id) ≡ true))

  upcoming_card_of_is :
      (value : Text) (concept : Concept) (game : Game)
      → upcoming_card_of j now_ms concept (try_game_id value) ≡ some game
      → IsUpcomingCard game
  unfolding upcoming_card_of try_game_id
  upcoming_card_of_is [] concept game h = cc
  upcoming_card_of_is (c ∷ s) concept game h =
      ground (arith, id-concept_to_game concept (record { as_str = c ∷ s }))

  upcoming_card_is :
      (concept : Concept) (game : Game)
      → upcoming_card j now_ms concept ≡ some game
      → IsUpcomingCard game
  unfolding upcoming_card
  upcoming_card_is concept game h = upcoming_card_of_is (concept_product_id concept) concept game h

  -- A card of UPCOMING has an id that is not empty, and its kind is `product` exactly when the id
  -- is a product id.
  pub map_upcoming_concepts_to_games-kinds :
      (concepts : List Concept)
      → All IsUpcomingCard (map_upcoming_concepts_to_games j concepts now_ms)
  unfolding map_upcoming_concepts_to_games
  map_upcoming_concepts_to_games-kinds concepts =
      All-filter_map _ (upcoming_card j now_ms) concepts upcoming_card_is

-- the product id of the candidate is valid
abbrev pub IsInSearchScope : SearchCandidate → Type 0
IsInSearchScope candidate = is_valid_product_id (candidate_product_id candidate).as_str ≡ true

bound_id :
    (o : Option Text) (id : ProductId)
    → (o >=> parse_product_id) ≡ some id
    → is_valid_product_id id.as_str ≡ true
bound_id none id h = cc
bound_id (some value) id h = let (valid, same) = parse_product_id-some value id h in rw same valid

narrow_search_entry-scope :
    (entry : SearchEntry) (candidate : SearchCandidate)
    → narrow_search_entry entry ≡ some candidate
    → IsInSearchScope candidate
unfolding narrow_search_entry candidate_product_id
narrow_search_entry-scope (SearchEntry.product product) candidate h =
    elim (Option-cases (product.id >=> parse_product_id)) [
      | inl bad ↦ absurd (ground arith)
      | inr (id, parsed) ↦
          let valid : is_valid_product_id id.as_str ≡ true = bound_id product.id id parsed in
          let kept : then_some
                (is_ps5_game (or_default product.platforms) product.store_display_classification)
                (known id (product_to_concept product))
              ≡ some candidate =
            (rw parsed at h) in
          let same = (then_some_eq _ (known id (product_to_concept product)) candidate kept).1 in
          subst (λ c. is_valid_product_id (candidate_product_id c).as_str ≡ true) same valid
    ]
narrow_search_entry-scope (SearchEntry.concept concept) candidate h =
    let o : Option Text =
      concept.products >=> first >=> (λ (product : ConceptProductRef). product.id) in
    elim (Option-cases (o >=> parse_product_id)) [
      | inl bad ↦ absurd (ground arith)
      | inr (id, parsed) ↦
          let valid : is_valid_product_id id.as_str ≡ true = bound_id o id parsed in ground arith
    ]

-- The candidates of a search have valid product ids, no id stands twice, and they are candidates of
-- single entries in Sony's order.
pub narrow_search_entries_lem :
    (entries : List SearchEntry)
    → All IsInSearchScope (narrow_search_entries entries)
      × DistinctKeys Text-discrete
          (λ c. (candidate_product_id c).as_str)
          (narrow_search_entries entries)
      × Sublist (narrow_search_entries entries) (filter_map narrow_search_entry entries)
unfolding narrow_search_entries
narrow_search_entries_lem entries =
    let key : SearchCandidate → Text = λ c. (candidate_product_id c).as_str in
    let found = filter_map narrow_search_entry entries in
    (
      dedupe-All Text-discrete key IsInSearchScope found
          (All-filter_map IsInSearchScope narrow_search_entry entries narrow_search_entry-scope),
      dedupe-DistinctKeys Text-discrete key found,
      dedupe-sublist Text-discrete key found,
    )
