-- ===== src/Games.antt =====
-- crates/server/src/application/games.rs: the search of the games service. Sony's search pages and
-- the product details are answers of the catalog port, a parameter here; `in_order_bounded` gives
-- the resolved candidates in their order.
pub mod Port
pub mod Meta
pub mod Page
pub mod Browse
pub mod Lists
pub mod Search
use psstore.Prelude.{
  ℕ, zero, suc, Bool, true, false, not, ◌&&◌, ◌-◌, Option, none, some, List, [], Result, ok, ◌>>=◌,
  filter_map, length, is_empty, if◌then◌else◌,
}
use psstore.Prelude.Int.{ℤ}
use psstore.Prelude.Texts.{Text}
use psstore.Js.Jiff.{Jiff}
use psstore.Ids.{ProductId, product_game_id, then_some}
use psstore.Game.{
  Game, Concept, ProductDetail, SearchCandidate, known, unverified, SearchPage, PageResult,
}
use psstore.Mapper.{to_iso_or_default, concept_to_game}
use psstore.Listing.{is_ps5_game, saturating_add}
use psstore.Errors.{UpstreamError}

-- `SEARCH_RAW_PAGE_BOUND`
abbrev pub search_raw_page_bound : ℕ
search_raw_page_bound = 3

module _ (j : Jiff) (detail : ProductId → ProductDetail) (now_ms : ℤ) where
  -- `resolve_search_candidate` after its `match` on the candidate
  unfoldable pub resolve_candidate : ProductId → Concept → Bool → Option Game
  unfolding product_game_id
  resolve_candidate product_id concept is_unverified =
      let base = concept_to_game j concept (product_game_id product_id) now_ms in
      let meta = detail product_id in
      let card : Game = record base {
        date = to_iso_or_default j meta.release_date;
        genres = if is_empty meta.genres then base.genres else meta.genres;
      } in
      if is_unverified && not (is_ps5_game meta.platforms meta.store_display_classification)
      then none
      else some card

  unfoldable pub resolve_search_candidate : SearchCandidate → Option Game
  unfolding resolve_candidate
  resolve_search_candidate (known product_id concept) = resolve_candidate product_id concept false
  resolve_search_candidate (unverified product_id concept) =
      resolve_candidate product_id concept true

  unfoldable pub page_games : SearchPage → List Game
  page_games found = filter_map resolve_search_candidate found.candidates

-- A request reads its clock and its product details anew for each raw page: they are given by the
-- number of the pages that the loop may still read after it.
module _ (j : Jiff) (details : ℕ → ProductId → ProductDetail) (clock : ℕ → ℤ)
    (search_page : Text → ℕ → ℕ → Result SearchPage UpstreamError) (term : Text) (size : ℕ) where
  abbrev pub games_at : ℕ → SearchPage → List Game
  games_at more found = page_games j (details more) (clock more) found

  unfoldable pub next_of : SearchPage → ℕ → Option ℕ
  next_of found raw_offset = then_some (not found.is_last) (saturating_add raw_offset size)

  unfoldable pub search_answer : ℕ → SearchPage → ℕ → PageResult
  unfolding next_of
  search_answer more found raw_offset =
      let games = games_at more found in
      record { games = games; total_count = length games; next_offset = next_of found raw_offset }

  -- the arm `Some(next) if games.is_empty()`
  unfoldable pub read_on : ℕ → SearchPage → ℕ → Option ℕ
  read_on more found raw_offset =
      if is_empty (games_at more found) then next_of found raw_offset else none

  -- the loop; the first argument is `pages_left - 1`
  unfoldable pub search_from : ℕ → ℕ → Result PageResult UpstreamError
  unfolding search_answer read_on
  search_from zero raw_offset =
      search_page term raw_offset size >>= λ found. ok (search_answer zero found raw_offset)
  search_from (suc more) raw_offset = search_page term raw_offset size >>= λ found.
      elim (read_on (suc more) found raw_offset) [
        | none ↦ ok (search_answer (suc more) found raw_offset)
        | some next ↦ search_from more next
      ]

  unfoldable pub search_games : ℕ → Result PageResult UpstreamError
  unfolding search_from
  search_games offset = search_from (search_raw_page_bound - 1) offset
