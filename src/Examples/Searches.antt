-- ===== src/Examples/Searches.antt =====
-- The search of games.rs over a catalog whose first raw page has no game.
use psstore.Prelude.{ℕ, none, some, [], ◌∷◌, Result, ok, ◌==◌, if◌then◌else◌, true, false}
use psstore.Prelude.Int.{ℤ, pos}
use psstore.Prelude.Texts.{Text, text}
use psstore.Ids.{ProductId}
use psstore.Game.{Concept, ProductDetail, default_detail, SearchPage, known}
use psstore.Errors.{UpstreamError}
use psstore.Games.{search_games}
use psstore.Games.Search.{IsOutcome, search_games_lem}
use psstore.Examples.Calendar.{calendar}

abbrev no_details : ℕ → ProductId → ProductDetail
no_details more id = default_detail

abbrev still_clock : ℕ → ℤ
still_clock more = pos 0

abbrev bare_concept : Concept
bare_concept = record {
  id = none;
  name = some (text "Found");
  media = none;
  price = none;
  products = none;
}

abbrev catalog_page : Text → ℕ → ℕ → Result SearchPage UpstreamError
catalog_page term offset size =
    if offset == 0
    then ok (record { candidates = []; is_last = false; raw_count = 10 })
    else ok (record {
      candidates =
          known (record { as_str = text "EP0006-PPSA04874_00-APEXLEGENDRSPWN1" }) bare_concept ∷ [];
      is_last = true;
      raw_count = 1;
    })

search_games_lem_example :
    IsOutcome calendar no_details still_clock catalog_page
      (text "found")
      10
      2
      0
      (search_games calendar no_details still_clock catalog_page (text "found") 10 0)
search_games_lem_example =
    search_games_lem calendar no_details still_clock catalog_page (text "found") 10 0
