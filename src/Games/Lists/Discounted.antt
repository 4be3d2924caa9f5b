-- ===== src/Games/Lists/Discounted.antt =====
-- DISCOUNTED keeps full games only, whatever the detail lookups answer.
use psstore.Prelude.{
  ℕ, ◌≡◌, refl, inl, inr, ◌&&◌, true, List, [], ◌∷◌, Result, ok, err, arith, All, Bool-cases,
}
use psstore.Prelude.Sort.{sort_by-All}
use psstore.Prelude.Actions.{Action, ◌>>=◌, ◌>=?◌, pure, for_each}
use psstore.Js.Jiff.{Jiff}
use psstore.Game.{Game, Concept, PageResult, discounted}
use psstore.Listing.{
  date_desc, dated_after, sort_by_date, paginate, map_concepts_to_games, is_game_classification,
}
use psstore.Listing.Order.{IsSorted, sort_by_date-IsSorted}
use psstore.Errors.{UpstreamError}
use psstore.Games.Port.{Port, clock}
use psstore.Games.Meta.{ProductMeta, card_meta}
use psstore.Games.Lists.{with_meta, discounted_cards, discounted_games}

for_each-All :
    {W A B : Type 0} (P : B → Type 0) (f : A → Action W B)
    → ((a : A) (w : W) → P (f a w).0)
    → (xs : List A) (w : W) → All P (for_each f xs w).0
unfolding for_each
for_each-All P f h [] w = tt
for_each-All P f h (a ∷ xs) w = (h a w, for_each-All P f h xs (f a w).1)

module _ {W : Type 0} (j : Jiff) (port : Port W) where
  -- the answer of a detail lookup for the card, in some state
  pub record IsFullGame (card : Game) : Type 0 where
    pub meta : ProductMeta
    pub asked : W
    pub answered : W
    pub is_meta : card_meta port j card.id asked ≡ (meta, answered)
    pub date : card.date ≡ meta.date
    pub has_sony_date : meta.has_sony_date ≡ true
    pub is_game : is_game_classification meta.classification ≡ true

  pub record Lists (offset size : ℕ) (w : W) (answer : PageResult) : Type 0 where
    pub concepts : List Concept
    pub after : W
    pub read : port.concepts discounted w ≡ (ok concepts, after)
    pub cards : List Game
    pub page : answer ≡ paginate cards offset size
    pub sorted : IsSorted j date_desc cards
    pub full_games : All IsFullGame cards

  abbrev pub IsListing : ℕ → ℕ → W → Result PageResult UpstreamError × W → Type 0
  IsListing offset size w (ok answer, w') = Lists offset size w answer
  IsListing offset size w (err error, w') = port.concepts discounted w ≡ (err error, w')

  -- a card with the meta that a lookup for it gave
  abbrev Looked : Game × ProductMeta → Type 0
  Looked entry =
      (asked : W) × (answered : W) × (card_meta port j entry.0.id asked ≡ (entry.1, answered))

  with_meta-Looked : (game : Game) (w : W) → Looked (with_meta j port game w).0
  unfolding with_meta
  with_meta-Looked game w = (w, (card_meta port j game.id w).1, refl)

  discounted_cards-All :
      (entries : List (Game × ProductMeta))
      → All Looked entries
      → All IsFullGame (discounted_cards j port entries)
  unfolding discounted_cards
  discounted_cards-All [] h = tt
  discounted_cards-All ((game, meta) ∷ entries) ((asked, answered, is_meta), rest) =
      elim (Bool-cases (meta.has_sony_date && is_game_classification meta.classification)) [
        | inl kept ↦ rw kept (
          record {
            meta = meta;
            asked = asked;
            answered = answered;
            is_meta = is_meta;
            date = refl;
            has_sony_date = ground (arith, kept);
            is_game = ground (arith, kept);
          },
          discounted_cards-All entries rest,
        )
        | inr not_kept ↦ rw not_kept (discounted_cards-All entries rest)
      ]

  -- For every page of DISCOUNTED: an answer is a page of a list in which a detail lookup of each
  -- card gave a full game or a bundle with a release date of Sony, which is the date of the card, and
  -- which has the newest date first. So a lookup that fails drops its card. A failure is that of
  -- the grid.
  pub discounted_games-IsListing :
      (offset size : ℕ) (w : W) → IsListing offset size w (discounted_games j port offset size w)
  unfolding discounted_games sort_by_date
  discounted_games-IsListing offset size w = go (port.concepts discounted w) refl
    where
      go :
          (p : Result (List Concept) UpstreamError × W)
          → port.concepts discounted w ≡ p
          → IsListing offset size w (
              ((λ v. p) >=? λ concepts. clock port >>= λ now_ms.
              for_each (with_meta j port) (map_concepts_to_games j concepts now_ms) >>= λ enriched.
              pure (
                ok (
                  paginate
                    (sort_by_date j (discounted_cards j port enriched) date_desc)
                    offset
                    size)))
                w)
      go (ok concepts, after) h =
          let enriched =
            (for_each (with_meta j port) (map_concepts_to_games j concepts (port.now_ms after))
              after).0 in
          record {
            concepts = concepts;
            after = after;
            read = h;
            cards = sort_by_date j (discounted_cards j port enriched) date_desc;
            page = refl;
            sorted = (sort_by_date-IsSorted j (discounted_cards j port enriched) date_desc).0;
            full_games = sort_by-All (dated_after j date_desc) IsFullGame _ (
                discounted_cards-All enriched
                  (for_each-All Looked (with_meta j port) with_meta-Looked _ after));
          }
      go (err error, after) h = h
