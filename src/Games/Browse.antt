-- ===== src/Games/Browse.antt =====
-- crates/server/src/application/games.rs: one BROWSE page. A concept becomes a card by the first of
-- its products that Sony's detail proves a PS5 game.
pub mod Outcome
use psstore.Prelude.{
  ℕ, zero, suc, Bool, true, false, not, ◌&&◌, ◌-◌, Option, none, some, List, [], ◌∷◌, Result, ok,
  err, any, is_empty, length, filter_map, if◌then◌else◌,
}
use psstore.Prelude.Int.{ℤ}
use psstore.Prelude.Texts.{Text, text, Text-discrete}
use psstore.Prelude.Dedupe.{dedupe}
use psstore.Js.Jiff.{Jiff}
use psstore.Ids.{ProductId, then_some}
use psstore.Game.{Game, Concept, ProductDetail, BrowsePage, BrowseRequest, PageResult}
use psstore.Mapper.{or_default}
use psstore.Listing.{is_ps5_game, browse_candidate_ids, browse_concept_to_game, saturating_add}
use psstore.Errors.{UpstreamError, unavailable}
use psstore.Prelude.Actions.{Action, Attempt, ◌>>=◌, ◌>=?◌, pure, for_each}
use psstore.Games.Port.{Port, clock}

pub data BrowseResolution : Type 0 where
  resolved : Game → BrowseResolution
  dropped failed : BrowseResolution

abbrev pub is_failed : BrowseResolution → Bool
is_failed failed = true
is_failed _ = false

abbrev pub card_of_resolution : BrowseResolution → Option Game
card_of_resolution (resolved game) = some game
card_of_resolution _ = none

-- `BROWSE_RAW_PAGE_BOUND`
abbrev pub browse_raw_page_bound : ℕ
browse_raw_page_bound = 3

-- the cards of one raw page: the first card of each id
unfoldable pub resolved_games : List BrowseResolution → List Game
resolved_games entries =
    dedupe Text-discrete (λ (game : Game). game.id.as_str) (filter_map card_of_resolution entries)

-- the checks after the lookups of one raw page, and its answer
unfoldable pub browse_answer :
    BrowseRequest → BrowsePage → List BrowseResolution → Result PageResult UpstreamError
unfolding resolved_games
browse_answer request page entries =
    let games = resolved_games entries in
    if any is_failed entries && is_empty games
    then err (unavailable (text "Sony product lookups failed for a browse page"))
    else ok (record {
      games = games;
      total_count = length games;
      next_offset = then_some (not page.is_last) (saturating_add request.offset request.size);
    })

-- the arm `Some(next) if games.is_empty()`
abbrev pub next_if_empty : PageResult → Option ℕ
next_if_empty page = if is_empty page.games then page.next_offset else none

module _ {W : Type 0} (j : Jiff) (port : Port W) where
  -- the loop of `resolve_browse_concept` over the candidates
  unfoldable pub resolve_candidates : Concept → ℤ → List ProductId → Action W BrowseResolution
  resolve_candidates concept now_ms [] = pure dropped
  resolve_candidates concept now_ms (product_id ∷ product_ids) =
      port.strict_details product_id >>= λ outcome. elim outcome [
        | err error ↦ pure failed
        | ok detail ↦ elim (is_ps5_game detail.platforms detail.store_display_classification) [
          | false ↦ resolve_candidates concept now_ms product_ids
          | true ↦ pure (
              resolved (
                browse_concept_to_game j concept product_id (or_default detail.release_date)
                  detail.genres now_ms))
        ]
      ]

  unfoldable pub resolve_browse_concept : ℤ → Concept → Action W BrowseResolution
  unfolding resolve_candidates
  resolve_browse_concept now_ms concept =
      resolve_candidates concept now_ms (browse_candidate_ids concept)

  -- the loop; the first argument is `pages_left - 1`
  unfoldable pub read_browse : ℕ → BrowseRequest → Attempt W PageResult UpstreamError
  read_browse zero request = port.browse_page request >=? λ page. clock port >>= λ now_ms.
      for_each (resolve_browse_concept now_ms) page.concepts >>= λ entries.
      pure (browse_answer request page entries)
  read_browse (suc more) request = port.browse_page request >=? λ page. clock port >>= λ now_ms.
      for_each (resolve_browse_concept now_ms) page.concepts >>= λ entries.
      pure (browse_answer request page entries) >=? λ answer. elim (next_if_empty answer) [
        | none ↦ pure (ok answer)
        | some next ↦ read_browse more (record request { offset = next })
      ]

  unfoldable pub read_browse_page : BrowseRequest → Attempt W PageResult UpstreamError
  unfolding read_browse
  read_browse_page request = read_browse (browse_raw_page_bound - 1) request
