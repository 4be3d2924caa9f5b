-- ===== src/Games/Lists/Release.antt =====
-- NEW and UPCOMING: a list needs both grids, and holds each game once, in its window and in order.
use mathlib.Core.List.{Sublist, Perm}
use psstore.Prelude.{
  map, find?, ◌++◌, false, ℕ, ◌≡◌, ◌⊎◌, Bool, true, List, Result, ok, err, filter,
}
use psstore.Prelude.Int.{ℤ}
use psstore.Prelude.Texts.{Text, Text-discrete}
use psstore.Prelude.Dedupe.{has_key, DistinctKeys}
use psstore.Prelude.Actions.{for_each}
use psstore.Js.Jiff.{Jiff}
use psstore.Game.{Game, Concept, PageResult, new, upcoming}
use psstore.Listing.{
  release_ms, paginate, released_before, undated_or_from, add_i64, sub_i64, max_local_day_ms,
  client_clock_margin_ms, has_release_date, map_concepts_to_games, map_upcoming_concepts_to_games,
}
use psstore.Listing.Order.{IsSorted}
use psstore.Errors.{UpstreamError}
use psstore.Games.Port.{Port}
use psstore.Games.Lists.{Window, in_new, in_upcoming, window_order, enrich_release}

-- the instants of a window
unfoldable pub is_in_window : Jiff → Window → ℤ → Game → Bool
is_in_window j in_new now_ms game =
    released_before (add_i64 (add_i64 now_ms max_local_day_ms) client_clock_margin_ms)
      (release_ms j game)
is_in_window j in_upcoming now_ms game =
    undated_or_from (sub_i64 now_ms client_clock_margin_ms) (release_ms j game)

abbrev pub is_of_id : Text → Game → Bool
is_of_id id = has_key Text-discrete (λ (game : Game). game.id.as_str) id

abbrev pub DistinctIds : List Game → Type 0
DistinctIds games = DistinctKeys Text-discrete (λ (game : Game). game.id.as_str) games

module _ {W : Type 0} (j : Jiff) (port : Port W) where
  -- both grids are read, and what the page is made of
  pub record Lists (window : Window) (offset size : ℕ) (w w' : W) (answer : PageResult)
      : Type 0 where
    pub released : List Concept
    pub soon : List Concept
    pub between : W
    pub after : W
    pub read_new : port.concepts new w ≡ (ok released, between)
    pub read_upcoming : port.concepts upcoming between ≡ (ok soon, after)
    -- the cards of both grids, with the dates of their lookups
    pub new_cards : List Game
    pub upcoming_cards : List Game
    pub looked_up : W
    pub dated_new :
        for_each
          (enrich_release j port)
          (map (λ game. (true, game)) (map_concepts_to_games j released (port.now_ms after)))
          after
        ≡ (new_cards, looked_up)
    pub dated_upcoming :
        for_each
          (enrich_release j port)
          (map (λ game. (false, game)) (map_upcoming_concepts_to_games j soon (port.now_ms after)))
          looked_up
        ≡ (upcoming_cards, w')
    -- the first card of each id, a released one only with a date
    pub merged : List Game
    pub part : Sublist merged (filter (has_release_date j) new_cards ++ upcoming_cards)
    pub distinct : DistinctIds merged
    pub first_of_id :
        (id : Text)
        → find? (is_of_id id) merged
          ≡ find? (is_of_id id) (filter (has_release_date j) new_cards ++ upcoming_cards)
    -- the page is of those in the window now, in order
    pub cards : List Game
    pub page : answer ≡ paginate cards offset size
    pub same_cards : Perm cards (filter (is_in_window j window (port.now_ms w')) merged)
    pub sorted : IsSorted j (window_order window) cards

  pub record Fails (w : W) (error : UpstreamError) : Type 0 where
    pub between : W
    pub after : W
    pub grid : Result (List Concept) UpstreamError
    pub read_new : port.concepts new w ≡ (grid, between)
    pub failed : (grid ≡ err error) ⊎ (port.concepts upcoming between ≡ (err error, after))

  abbrev pub IsListing : Window → ℕ → ℕ → W → Result PageResult UpstreamError × W → Type 0
  IsListing window offset size w (ok answer, w') = Lists window offset size w w' answer
  IsListing window offset size w (err error, w') = Fails w error

  -- both grids, or the failure of one
  abbrev pub IsGrids : W → Result (List Concept × List Concept) UpstreamError × W → Type 0
  IsGrids w (ok (released, soon), after) =
      (between : W) × (port.concepts new w ≡ (ok released, between))
      × (port.concepts upcoming between ≡ (ok soon, after))
  IsGrids w (err error, after) = Fails w error
