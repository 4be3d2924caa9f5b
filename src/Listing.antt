-- ===== src/Listing.antt =====
-- crates/domain/src/listing.rs: sorting, pagination, windows, scope filters and the mappings of
-- concepts to game cards.
pub mod Order
pub mod Pages
pub mod Windows
pub mod Scope
pub mod Genres
pub mod Candidates
use Prim.Native.Nat.{Ordering}
use psstore.Prelude.{
  ℕ, ◌+◌, ◌*◌, ◌-◌, ◌^◌, Bool, true, false, not, ◌&&◌, ◌||◌, Option, none, some, List, [], ◌∷◌,
  ◌++◌, map, Result, ok, err, ltb, leb, length, take, drop, filter, filter_map, any, is_empty, min,
  if◌then◌else◌,
}
use psstore.Prelude.Int.{ℤ, pos, ◌+ℤ◌, ◌-ℤ◌, ltb_ℤ, leb_ℤ, wrap_i64}
use psstore.Prelude.Texts.{Text, text, bytes, text_eq, Text-discrete}
use psstore.Prelude.Sort.{sort_by}
use psstore.Prelude.Dedupe.{dedupe}
use psstore.Js.Jiff.{Jiff}
use psstore.Js.Date.{◌>=>◌, parse_date_ms, to_iso_string}
use psstore.Js.Collation.{locale_compare_en, is_greater}
use psstore.Ids.{
  GameId, ProductId, InvalidId, parse_product_id, try_game_id, product_game_id, product_id_of,
  is_genre_key, then_some,
}
use psstore.Game.{
  Game, IdKind, PageResult, Genre, Concept, ConceptProductRef, CategoryGridProduct,
  PlusMonthlyEntry, SearchEntry, SearchCandidate, known, unverified, candidate_product_id, RawGenre,
}
use psstore.Mapper.{
  unwrap_or, or_default, is_some, first, concept_product_id, concept_to_game, is_concept_discounted,
  monthly_entry_to_game, product_to_concept,
}

pub data SortOrder : Type 0 where
  date_desc date_asc : SortOrder

-- `i64::cmp`
abbrev pub cmp_ℤ : ℤ → ℤ → Ordering
cmp_ℤ a b = if ltb_ℤ a b then Ordering.lt else if ltb_ℤ b a then Ordering.gt else Ordering.eq

-- the closure of `sort_by_date`, on the two parsed dates
unfoldable pub date_cmp : SortOrder → Option ℤ → Option ℤ → Ordering
date_cmp date_desc (some a) (some b) = cmp_ℤ b a
date_cmp date_asc (some a) (some b) = cmp_ℤ a b
date_cmp order (some a) none = Ordering.lt
date_cmp order none (some b) = Ordering.gt
date_cmp order none none = Ordering.eq

module _ (j : Jiff) where
  unfoldable pub release_ms : Game → Option ℤ
  release_ms game = parse_date_ms j game.date

  abbrev pub dated_after : SortOrder → Game → Game → Bool
  dated_after order a b = is_greater (date_cmp order (release_ms a) (release_ms b))

  unfoldable pub sort_by_date : List Game → SortOrder → List Game
  sort_by_date games order = sort_by (dated_after order) games

-- `usize::saturating_add`
unfoldable pub saturating_add : ℕ → ℕ → ℕ
saturating_add a b = min (a + b) (2 ^ 64 - 1)

unfoldable pub paginate : List Game → ℕ → ℕ → PageResult
unfolding saturating_add
paginate games offset size =
    let total_count = length games in
    let end = saturating_add offset size in
    record {
      games = take size (drop offset games);
      total_count = total_count;
      next_offset = then_some (ltb end total_count) end;
    }

abbrev pub max_local_day_ms : ℤ
max_local_day_ms = pos (25 * 60 * 60 * 1000)

abbrev pub client_clock_margin_ms : ℤ
client_clock_margin_ms = pos (12 * 60 * 60 * 1000)

-- `i64` addition and subtraction
unfoldable pub add_i64 : ℤ → ℤ → ℤ
add_i64 a b = wrap_i64 (a +ℤ b)

unfoldable pub sub_i64 : ℤ → ℤ → ℤ
sub_i64 a b = wrap_i64 (a -ℤ b)

-- `is_some_and(|ms| ms < end)` and `is_none_or(|ms| ms >= start)`
abbrev pub released_before : ℤ → Option ℤ → Bool
released_before end none = false
released_before end (some ms) = ltb_ℤ ms end

abbrev pub undated_or_from : ℤ → Option ℤ → Bool
undated_or_from start none = true
undated_or_from start (some ms) = leb_ℤ start ms

module _ (j : Jiff) where
  unfoldable pub has_release_date : Game → Bool
  has_release_date game = is_some (release_ms j game)

  unfoldable pub in_new_window : List Game → ℤ → List Game
  unfolding add_i64
  in_new_window games now_ms =
      let end = add_i64 (add_i64 now_ms max_local_day_ms) client_clock_margin_ms in
      filter (λ game. released_before end (release_ms j game)) games

  unfoldable pub in_upcoming_window : List Game → ℤ → List Game
  unfolding sub_i64
  in_upcoming_window games now_ms =
      let start = sub_i64 now_ms client_clock_margin_ms in
      filter (λ game. undated_or_from start (release_ms j game)) games

-- Equal ids are equal texts, so a set of ids is a set of texts.
unfoldable pub merge_release_grids : List Game → List Game → List Game
merge_release_grids released upcoming =
    dedupe Text-discrete (λ (game : Game). game.id.as_str) (released ++ upcoming)

module _ (j : Jiff) where
  unfoldable pub concept_card : ℤ → Concept → Option Game
  concept_card now_ms concept = parse_product_id (concept_product_id concept) >=> λ id.
      some (concept_to_game j concept (product_game_id id) now_ms)

  unfoldable pub map_concepts_to_games : List Concept → ℤ → List Game
  unfolding concept_card
  map_concepts_to_games concepts now_ms = filter_map (concept_card now_ms) concepts

  unfoldable pub map_monthly_to_games : List PlusMonthlyEntry → List Game
  unfolding sort_by_date
  map_monthly_to_games entries = sort_by_date j (map (monthly_entry_to_game j) entries) date_desc

  -- `Result::ok`, then the closure of `map_upcoming_concepts_to_games`
  unfoldable pub upcoming_card_of : ℤ → Concept → Result GameId InvalidId → Option Game
  upcoming_card_of now_ms concept (err e) = none
  upcoming_card_of now_ms concept (ok id) = some (record (concept_to_game j concept id now_ms) {
    id_kind = if is_some (product_id_of id) then IdKind.product else IdKind.concept;
  })

  unfoldable pub upcoming_card : ℤ → Concept → Option Game
  unfolding upcoming_card_of
  upcoming_card now_ms concept =
      upcoming_card_of now_ms concept (try_game_id (concept_product_id concept))

  unfoldable pub map_upcoming_concepts_to_games : List Concept → ℤ → List Game
  unfolding upcoming_card
  map_upcoming_concepts_to_games concepts now_ms = filter_map (upcoming_card now_ms) concepts

abbrev pub game_classifications : List Text
game_classifications = text "FULL_GAME" ∷ text "GAME_BUNDLE" ∷ []

unfoldable pub is_game_classification : Option Text → Bool
is_game_classification none = false
is_game_classification (some value) = any (λ c. text_eq c value) game_classifications

abbrev pub ps5_platform : Text
ps5_platform = text "PS5"

unfoldable pub is_ps5_game : List Text → Option Text → Bool
unfolding is_game_classification
is_ps5_game platforms classification =
    any (λ platform. text_eq platform ps5_platform) platforms
    && is_game_classification classification

unfoldable pub narrow_search_entry : SearchEntry → Option SearchCandidate
unfolding is_ps5_game
narrow_search_entry (SearchEntry.product product) =
    (product.id >=> parse_product_id) >=> λ product_id.
    then_some (is_ps5_game (or_default product.platforms) product.store_display_classification)
      (known product_id (product_to_concept product))
narrow_search_entry (SearchEntry.concept concept) =
    concept.products
    >=> first
    >=> (λ (product : ConceptProductRef). product.id)
    >=> parse_product_id
    >=> λ product_id. some (unverified product_id concept)

unfoldable pub narrow_search_entries : List SearchEntry → List SearchCandidate
unfolding narrow_search_entry candidate_product_id
narrow_search_entries entries =
    dedupe Text-discrete (λ c. (candidate_product_id c).as_str)
      (filter_map narrow_search_entry entries)

-- `is_genre_key(&genre.key) && seen.insert(…)`: a key of another format is not inserted
unfoldable pub narrow_genres : List RawGenre → List Genre
narrow_genres genres =
    sort_by (λ (a b : Genre). is_greater (locale_compare_en a.name b.name))
      (map (λ (genre : RawGenre). record { key = genre.key; name = genre.name })
        (dedupe Text-discrete (λ (genre : RawGenre). genre.key)
          (filter (λ (genre : RawGenre). is_genre_key genre.key) genres)))

abbrev pub browse_max_candidates : ℕ
browse_max_candidates = 3

-- `id.as_str().get(7..11) == Some("PPSA")`, on the bytes: where these are the bytes of `PPSA`, both
-- ends of the slice are boundaries of characters
unfoldable pub is_ps5_title_product_id : ProductId → Bool
is_ps5_title_product_id id = text_eq (take 4 (drop 7 (bytes id.as_str))) (text "PPSA")

unfoldable pub concept_ids : Concept → List ProductId
concept_ids concept =
    dedupe Text-discrete (λ (id : ProductId). id.as_str)
      (filter_map (λ (product : ConceptProductRef). product.id >=> parse_product_id)
        (or_default concept.products))

unfoldable pub browse_candidate_ids : Concept → List ProductId
unfolding concept_ids is_ps5_title_product_id
browse_candidate_ids concept =
    let ids = concept_ids concept in
    take browse_max_candidates
      (filter is_ps5_title_product_id ids ++ filter (λ id. not (is_ps5_title_product_id id)) ids)

module _ (j : Jiff) where
  unfoldable pub browse_concept_to_game : Concept → ProductId → Text → List Text → ℤ → Game
  browse_concept_to_game concept product_id release_date genres now_ms =
      let base = concept_to_game j concept (product_game_id product_id) now_ms in
      let release = parse_date_ms j release_date in
      let date = or_default (release >=> to_iso_string j) in
      record base {
        discount_date = if is_concept_discounted concept then date else [];
        genres = if is_empty genres then base.genres else genres;
        pre_order =
            not (is_empty date) && unwrap_or (release >=> λ ms. some (ltb_ℤ now_ms ms)) false;
        date = date;
      }
