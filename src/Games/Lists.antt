-- ===== src/Games/Lists.antt =====
-- crates/server/src/application/games.rs: NEW, UPCOMING, DISCOUNTED and the monthly games, from
-- Sony's grids to a page of cards.
pub mod Release
pub mod Discounted
use psstore.Prelude.{
  ℕ, ◌&&◌, ◌||◌, Bool, true, false, Option, some, List, [], ◌∷◌, ◌++◌, Result, ok, err, map, filter,
  length, take, drop, if◌then◌else◌,
}
use psstore.Prelude.Int.{ℤ}
use psstore.Prelude.Actions.{Action, Attempt, ◌>>=◌, ◌>=?◌, pure, for_each, try_join}
use psstore.Js.Jiff.{Jiff}
use psstore.Game.{Game, PageResult, new, upcoming, discounted, SonyFeature}
use psstore.Listing.{
  SortOrder, date_desc, date_asc, sort_by_date, paginate, has_release_date, in_new_window,
  in_upcoming_window, merge_release_grids, map_concepts_to_games, map_upcoming_concepts_to_games,
  is_game_classification,
}
use psstore.Errors.{UpstreamError}
use psstore.Games.Port.{Port, clock}
use psstore.Games.Meta.{ProductMeta, is_product, card_meta, enrich_date}

pub data Window : Type 0 where
  in_new in_upcoming : Window

-- the `match` of `release_listing`
abbrev pub window_order : Window → SortOrder
window_order in_new = date_desc
window_order in_upcoming = date_asc

abbrev pub window_games : Jiff → Window → List Game → ℤ → List Game
window_games j in_new games now_ms = in_new_window j games now_ms
window_games j in_upcoming games now_ms = in_upcoming_window j games now_ms

-- the page sizes that `Inner::concepts` asks for
unfoldable pub list_page_size : SonyFeature → ℕ
list_page_size new = 300
list_page_size _ = 120

-- the chained cards of the two grids, each with whether it is released
unfoldable pub release_cards : List Game → List Game → List (Bool × Game)
release_cards released upcoming_games =
    map (λ game. (true, game)) released ++ map (λ game. (false, game)) upcoming_games

-- the end of `release_games`: the enriched cards, split again
unfoldable pub released_and_upcoming : Jiff → ℕ → List Game → List Game
released_and_upcoming j released_count enriched =
    merge_release_grids (filter (has_release_date j) (take released_count enriched))
      (drop released_count enriched)

module _ {W : Type 0} (j : Jiff) (port : Port W) where
  unfoldable pub enrich_release : Bool × Game → Action W Game
  enrich_release card =
      if card.0 || is_product card.1.id_kind then enrich_date port j card.1 else pure card.1

  unfoldable pub release_games : Attempt W (List Game) UpstreamError
  unfolding release_cards enrich_release released_and_upcoming try_join for_each
  release_games =
      try_join port.second_fails_first (port.concepts new) (port.concepts upcoming) >=? λ grids.
      clock port >>= λ now_ms.
      let released = map_concepts_to_games j grids.0 now_ms in
      let soon = map_upcoming_concepts_to_games j grids.1 now_ms in
      for_each enrich_release (release_cards released soon) >>= λ enriched.
      pure (ok (released_and_upcoming j (length released) enriched))

  unfoldable pub release_listing : Window → ℕ → ℕ → Attempt W PageResult UpstreamError
  unfolding release_games
  release_listing window offset size = release_games >=? λ games. clock port >>= λ now_ms. pure (
      ok (
        paginate (sort_by_date j (window_games j window games now_ms) (window_order window)) offset
          size))

  unfoldable pub with_meta : Game → Action W (Game × ProductMeta)
  with_meta game = card_meta port j game.id >>= λ meta. pure (game, meta)

  -- the cards that the filter and the map of `discounted_games` leave
  unfoldable pub discounted_cards : List (Game × ProductMeta) → List Game
  discounted_cards enriched =
      map (λ entry. record entry.0 { date = entry.1.date })
        (filter (λ entry. entry.1.has_sony_date && is_game_classification entry.1.classification)
          enriched)

  unfoldable pub discounted_games : ℕ → ℕ → Attempt W PageResult UpstreamError
  unfolding with_meta discounted_cards for_each
  discounted_games offset size = port.concepts discounted >=? λ concepts. clock port >>= λ now_ms.
      for_each with_meta (map_concepts_to_games j concepts now_ms) >>= λ enriched.
      pure (ok (paginate (sort_by_date j (discounted_cards enriched) date_desc) offset size))

  unfoldable pub monthly_games : ℕ → ℕ → Attempt W PageResult UpstreamError
  monthly_games offset size = port.monthly >=? λ games. pure (ok (paginate games offset size))
