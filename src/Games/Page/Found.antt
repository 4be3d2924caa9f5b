-- ===== src/Games/Page/Found.antt =====
-- What the game page answers: the game of the asked id, or a failure that says what is missing.
use mathlib.Core.Path.{subst}
use psstore.Prelude.{
  ◌≡◌, refl, ap, ◌∙◌, inl, inr, Bool, true, false, Option, none, some, List, arith, Result, ok, err,
  find?, filter, find?-some, Bool-cases, Option-cases,
}
use psstore.Prelude.Int.{ℤ}
use psstore.Prelude.Texts.{Text, text, text_eq, text_eq_iff}
use psstore.Js.Jiff.{Jiff}
use psstore.Ids.{GameId, ProductId, product_id_of, product_game_id}
use psstore.Ids.Formats.{parse_product_id-some}
use psstore.Game.{
  Game, Concept, ProductDetail, ProductPrice, SonyFeature, new, upcoming, discounted,
}
use psstore.Mapper.{
  concept_product_id, fill_card_from_detail, product_detail_to_game, concept_to_game,
}
use psstore.Listing.{map_concepts_to_games}
use psstore.Errors.{UpstreamError, unavailable, GameLookupError, not_found, lookup_upstream}
use psstore.Prelude.Actions.{Action, Attempt, ◌>>=◌, ◌>=?◌, pure, try_join}
use psstore.Games.Port.{Port, clock}
use psstore.Games.Meta.{price_or_none, card_detail, card_price}
use psstore.Games.Page.{
  has_id, upstream, filled_card, detailed_card, enrich_with_detail, find_in_feature, is_ps5_detail,
  product_page, by_product_id, or_next, game_by_id,
}

-- the outcome of a list lookup and a continuation, from the outcomes of the two
upstream-bind :
    {W A B : Type 0} (P : Result B GameLookupError × W → Type 0) (m : Attempt W A UpstreamError)
    (f : A → Attempt W B GameLookupError) (w : W)
    → ((a : A) (w' : W) → m w ≡ (ok a, w') → P (f a w'))
    → ((e : UpstreamError) (w' : W) → m w ≡ (err e, w') → P (err (lookup_upstream e), w'))
    → P ((upstream m >=? f) w)
upstream-bind {W} {A} {B} P m f w good bad = go (m w) refl
  where
    go : (p : Result A UpstreamError × W) → m w ≡ p → P ((upstream (λ v. p) >=? f) w)
    go (ok a, w') h = good a w' h
    go (err e, w') h = bad e w' h

-- a lookup next to one that cannot fail
join_lenient :
    {W A B E : Type 0} (P : Result (A × B) E × W → Type 0) (second_first : W → Bool)
    (m : Attempt W A E) (k : Action W B) (w : W)
    → ((a : A) (b : B) (w' w'' : W) → m w ≡ (ok a, w') → P (ok (a, b), w''))
    → ((e : E) (w' w'' : W) → m w ≡ (err e, w') → P (err e, w''))
    → P (try_join second_first m (k >>= λ b. pure (ok b)) w)
unfolding try_join
join_lenient {W} {A} {B} {E} P second_first m k w good bad = go (m w) refl
  where
    go :
        (p : Result A E × W)
        → m w ≡ p
        → P (try_join second_first (λ v. p) (k >>= λ b. pure (ok b)) w)
    go (ok a, w') h = good a (k w').0 w' (k w').1 h
    go (err e, w') h = bad e w' (k w').1 h

same_id : (id : GameId) (game : Game) → has_id id game ≡ true → game.id ≡ id
same_id id game h =
    ap (λ (s : Text). record { as_str = s }) ((text_eq_iff game.id.as_str id.as_str).0 h)

module _ {W : Type 0} (j : Jiff) (port : Port W) where
  id-filled_card :
      (game : Game) (detail : ProductDetail) (price : ProductPrice) (now_ms : ℤ)
      → (filled_card j game detail price now_ms).id ≡ game.id
  unfolding filled_card fill_card_from_detail
  id-filled_card game detail price now_ms = ground arith

  id-enrich_with_detail : (game : Game) (w : W) → (enrich_with_detail j port game w).0.id ≡ game.id
  unfolding enrich_with_detail detailed_card
  id-enrich_with_detail game w =
      let (detail, w') = card_detail port game.id w in
      let (price, w'') = card_price port game w' in
      id-filled_card game detail price (port.now_ms w'')

  -- Why the product itself is missing: the id is no product id, or Sony's own detail says that it is
  -- no PS5 game.
  pub data NoProduct (id : GameId) : Type 0 where
    no_product_id : product_id_of id ≡ none → NoProduct id
    no_ps5_game :
        (product_id : ProductId) (detail : ProductDetail) (w w' : W)
        → product_id_of id ≡ some product_id
        → port.strict_details product_id w ≡ (ok detail, w')
        → is_ps5_detail j port detail ≡ false
        → NoProduct id

  -- Why the page fails: one of the lists or the detail failed, or the detail has no name.
  pub data Failure (id : GameId) : UpstreamError → Type 0 where
    list_failed :
        (feature : SonyFeature) (error : UpstreamError) (w w' : W)
        → port.concepts feature w ≡ (err error, w')
        → Failure id error
    monthly_failed :
        (error : UpstreamError) (w w' : W) → port.monthly w ≡ (err error, w') → Failure id error
    detail_failed :
        (product_id : ProductId) (error : UpstreamError) (w w' : W)
        → product_id_of id ≡ some product_id
        → port.strict_details product_id w ≡ (err error, w')
        → Failure id error
    no_name :
        (product_id : ProductId) (detail : ProductDetail) (w w' : W)
        → product_id_of id ≡ some product_id
        → port.strict_details product_id w ≡ (ok detail, w')
        → is_ps5_detail j port detail ≡ true
        → detail.name ≡ none
        → Failure id (unavailable (text "Sony returned a PS5 product without a name"))

  abbrev pub IsPage : GameId → Result Game GameLookupError × W → Type 0
  IsPage id (ok game, w) = game.id ≡ id
  IsPage id (err (not_found missing), w) = (missing ≡ id) × NoProduct id
  IsPage id (err (lookup_upstream error), w) = Failure id error

  or_next-IsPage :
      (id : GameId) (found : Option Game) (rest : Attempt W Game GameLookupError) (w : W)
      → ((game : Game) → found ≡ some game → game.id ≡ id)
      → IsPage id (rest w)
      → IsPage id (or_next j port found rest w)
  or_next-IsPage id none rest w same h = h
  or_next-IsPage id (some game) rest w same h = id-enrich_with_detail game w ∙ same game refl

  found_id :
      (id : GameId) (games : List Game) (game : Game)
      → find? (has_id id) games ≡ some game
      → game.id ≡ id
  found_id id games game h = same_id id game (find?-some (has_id id) games game h)

  id-product_page :
      (id : GameId) (product_id : ProductId) (detail : ProductDetail) (price : ProductPrice)
      (now_ms : ℤ)
      → product_id_of id ≡ some product_id
      → (product_detail_to_game j product_id detail price.standard now_ms).id ≡ id
  unfolding product_detail_to_game concept_to_game product_game_id product_id_of
  id-product_page id product_id detail price now_ms is_id =
      ap (λ (s : Text). record { as_str = s }) (parse_product_id-some id.as_str product_id is_id).1

  product_page-IsPage :
      (id : GameId) (product_id : ProductId) (detail : ProductDetail) (price : ProductPrice)
      (now_ms : ℤ) (w w' v : W)
      → product_id_of id ≡ some product_id
      → port.strict_details product_id w ≡ (ok detail, w')
      → IsPage id (product_page j port id product_id detail price now_ms, v)
  unfolding product_page
  product_page-IsPage id product_id detail price now_ms w w' v is_id asked =
      elim (Bool-cases (is_ps5_detail j port detail)) [
        | inr other ↦
            rw (other, product_page) (refl, no_ps5_game product_id detail w w' is_id asked other)
        | inl ps5 ↦ elim (Option-cases detail.name) [
          | inl nameless ↦
              rw (ps5, nameless, product_page)
                (no_name product_id detail w w' is_id asked ps5 nameless)
          | inr (name, named) ↦
              rw (ps5, named, product_page)
                (id-product_page id product_id detail price now_ms is_id)
        ]
      ]

  by_product_id-IsPage : (id : GameId) (w : W) → IsPage id (by_product_id j port id w)
  unfolding by_product_id
  by_product_id-IsPage id w = elim (Option-cases (product_id_of id)) [
    | inl no_id ↦ rw (no_id, by_product_id) (refl, no_product_id no_id)
    | inr (product_id, is_id) ↦
        rw (is_id, by_product_id)
          (join_lenient
            (λ r. IsPage id (
              (upstream (λ v. r) >=? λ found. clock port >>= λ now_ms.
              pure (product_page j port id product_id found.0 found.1 now_ms))
                w))
            port.second_fails_first (port.strict_details product_id) (price_or_none port product_id)
            w
            (λ detail price w' w'' asked.
              product_page-IsPage id product_id detail price (port.now_ms w'') w w' w'' is_id asked)
            (λ error w' w'' failed. detail_failed product_id error w w' is_id failed))
  ]

  abbrev pub FoundIn : GameId → Result (Option Game) UpstreamError × W → Type 0
  FoundIn id (ok found, w) = (game : Game) → found ≡ some game → game.id ≡ id
  FoundIn id (err error, w) = Failure id error

  find_in_feature-FoundIn :
      (feature : SonyFeature) (id : GameId) (w : W)
      → FoundIn id (find_in_feature j port feature id w)
  unfolding find_in_feature
  find_in_feature-FoundIn feature id w = go (port.concepts feature w) refl
    where
      go :
          (p : Result (List Concept) UpstreamError × W)
          → port.concepts feature w ≡ p
          → FoundIn id (
              ((λ v. p) >=? λ concepts. clock port >>= λ now_ms. pure (
                  ok (
                    find? (has_id id) (
                      map_concepts_to_games j
                        (filter
                          (λ (concept : Concept). text_eq (concept_product_id concept) id.as_str)
                          concepts)
                        now_ms))))
                w)
      go (ok concepts, w') h = found_id id (
          map_concepts_to_games j
            (filter (λ (concept : Concept). text_eq (concept_product_id concept) id.as_str)
              concepts)
            (port.now_ms w'))
      go (err error, w') h = list_failed feature error w w' h

  feature-IsPage :
      (feature : SonyFeature) (id : GameId) (rest : Attempt W Game GameLookupError) (w : W)
      → ((v : W) → IsPage id (rest v))
      → IsPage id
          ((upstream (find_in_feature j port feature id) >=? λ found. or_next j port found rest) w)
  feature-IsPage feature id rest w h =
      upstream-bind (IsPage id) (find_in_feature j port feature id)
        (λ found. or_next j port found rest) w
        (λ found w' asked.
          or_next-IsPage id found rest w'
            (subst (FoundIn id) asked (find_in_feature-FoundIn feature id w)) (h w'))
        (λ error w' asked. subst (FoundIn id) asked (find_in_feature-FoundIn feature id w))

  -- The game page of an id is a game with this id. It is not found only if the id is no product id,
  -- or if Sony's own detail of the product says that it is no PS5 game; and it fails only if a list
  -- or this detail failed, or if the detail is that of a PS5 game and has no name.
  pub game_by_id-IsPage : (id : GameId) (w : W) → IsPage id (game_by_id j port id w)
  unfolding game_by_id
  game_by_id-IsPage id w =
      upstream-bind (IsPage id) (port.concepts new)
        (λ released. clock port >>= λ now_ms.
          or_next j port (find? (has_id id) (map_concepts_to_games j released now_ms)) (
            upstream (find_in_feature j port upcoming id) >=? λ soon. or_next j port soon (
              upstream (find_in_feature j port discounted id) >=? λ reduced.
              or_next j port reduced (
                upstream port.monthly >=? λ monthly.
                or_next j port (find? (has_id id) monthly) (by_product_id j port id)))))
        w
        (λ released w' asked.
          or_next-IsPage id (find? (has_id id) (map_concepts_to_games j released (port.now_ms w')))
            _ w' (found_id id (map_concepts_to_games j released (port.now_ms w')))
            (feature-IsPage upcoming id _ w' λ v. feature-IsPage discounted id _ v λ u.
              upstream-bind (IsPage id) port.monthly
                (λ monthly. or_next j port (find? (has_id id) monthly) (by_product_id j port id)) u
                (λ monthly u' read.
                  or_next-IsPage id (find? (has_id id) monthly) (by_product_id j port id) u'
                    (found_id id monthly) (by_product_id-IsPage id u'))
                (λ error u' failed. monthly_failed error u u' failed)))
        (λ error w' failed. list_failed new error w w' failed)
