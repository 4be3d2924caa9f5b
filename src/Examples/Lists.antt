-- ===== src/Examples/Lists.antt =====
-- The lists of listing.rs at concrete cards.
use mathlib.Core.List.{Perm, Sublist}
use psstore.Prelude.{
  ℕ, ◌+◌, ◌^◌, ◌≤◌, ◌<◌, ◌≡◌, refl, Bool, true, false, Option, none, some, List, [], ◌∷◌, ◌++◌,
  arith, length, drop, filter, filter_map, find?, All, ltb, if◌then◌else◌,
}
use psstore.Prelude.Int.{ℤ, pos}
use psstore.Prelude.Texts.{Text, text, Text-discrete}
use psstore.Prelude.Dedupe.{DistinctKeys, has_key}
use psstore.Game.{Game, Concept, SearchEntry, candidate_product_id}
use psstore.Listing.{
  date_desc, sort_by_date, release_ms, in_new_window, in_upcoming_window, released_before,
  undated_or_from, merge_release_grids, narrow_search_entry, narrow_search_entries,
}
use psstore.Listing.Order.{IsSorted, sort_by_date-IsSorted}
use psstore.Listing.Pages.{read_pages, read_pages-drop}
use psstore.Listing.Windows.{windows_cover_client}
use psstore.Listing.Scope.{merge_release_grids_lem, IsInSearchScope, narrow_search_entries_lem}
use psstore.Ids.{ProductId, is_valid_product_id}
use psstore.Game.{RawGenre}
use psstore.Listing.{browse_candidate_ids}
use psstore.Listing.Candidates.{Ps5First, browse_candidate_ids_lem}
use psstore.Examples.Calendar.{calendar, three_games}

sort_by_date-IsSorted_example :
    IsSorted calendar date_desc (sort_by_date calendar three_games date_desc)
    × Perm (sort_by_date calendar three_games date_desc) three_games
sort_by_date-IsSorted_example = sort_by_date-IsSorted calendar three_games date_desc

read_pages-drop_example : read_pages three_games 2 4 1 ≡ drop 1 three_games
read_pages-drop_example =
    read_pages-drop three_games 2 4 1 (omega arith) (omega arith) (omega arith)

abbrev now_ms : ℤ
now_ms = pos 1000000000

windows_cover_client_example :
    (filter
        (λ game. released_before (pos 1003600000) (release_ms calendar game))
        (in_new_window calendar three_games now_ms)
      ≡ filter (λ game. released_before (pos 1003600000) (release_ms calendar game)) three_games)
    × (filter
          (λ game. undated_or_from (pos 1003600000) (release_ms calendar game))
          (in_upcoming_window calendar three_games now_ms)
        ≡ filter (λ game. undated_or_from (pos 1003600000) (release_ms calendar game)) three_games)
unfolding psstore.Prelude.Int.◌+ℤ◌
windows_cover_client_example =
    windows_cover_client calendar now_ms (pos 1000000001) (pos 1003600000) three_games
      (record { above = omega arith; below = omega arith })
      (record {
        not_late = omega arith;
        not_early = omega arith;
        next = omega arith;
        near = omega arith;
      })

abbrev id_of_game : Game → Text
id_of_game game = game.id.as_str

merge_release_grids_lem_example :
    Sublist (merge_release_grids three_games three_games) (three_games ++ three_games)
    × DistinctKeys Text-discrete
        (λ (game : Game). game.id.as_str)
        (merge_release_grids three_games three_games)
    × ((id : Text)
        → find?
            (has_key Text-discrete (λ (game : Game). game.id.as_str) id)
            (merge_release_grids three_games three_games)
          ≡ find?
              (has_key Text-discrete (λ (game : Game). game.id.as_str) id)
              (three_games ++ three_games))
merge_release_grids_lem_example = merge_release_grids_lem three_games three_games

abbrev apex : Text
apex = text "EP0006-PPSA04874_00-APEXLEGENDRSPWN1"

abbrev apex_concept : Concept
apex_concept = record {
  id = some (text "10002694");
  name = some (text "Apex");
  media = none;
  price = none;
  products =
      some
        (record { id = some apex; release_date = none; provider_name = none; genres = none } ∷ []);
}

abbrev two_entries : List SearchEntry
two_entries = SearchEntry.concept apex_concept ∷ SearchEntry.concept apex_concept ∷ []

narrow_search_entries_lem_example :
    All IsInSearchScope (narrow_search_entries two_entries)
    × DistinctKeys Text-discrete
        (λ c. (candidate_product_id c).as_str)
        (narrow_search_entries two_entries)
    × Sublist (narrow_search_entries two_entries) (filter_map narrow_search_entry two_entries)
narrow_search_entries_lem_example = narrow_search_entries_lem two_entries

browse_candidate_ids_lem_example :
    (length (browse_candidate_ids apex_concept) ≤ 3)
    × All
        (λ (id : ProductId). is_valid_product_id id.as_str ≡ true)
        (browse_candidate_ids apex_concept)
    × Ps5First (browse_candidate_ids apex_concept)
browse_candidate_ids_lem_example = browse_candidate_ids_lem apex_concept

abbrev raw_genres : List RawGenre
raw_genres =
    record { key = text "RPG"; name = text "Role" }
    ∷ record { key = text "ACTION"; name = text "Action" }
    ∷ record { key = text "rpg"; name = text "Lower" }
    ∷ []
