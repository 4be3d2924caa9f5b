-- ===== src/Sony/Catalog.antt =====
-- crates/server/src/sources/sony/catalog.rs: the client of Sony's store. The URL of a request, one
-- attempt to send it, the JSON parser and the lower case are parameters.
pub mod Checked
use psstore.Prelude.{
  ℕ, ◌+◌, ◌-◌, ◌*◌, ◌/◌, ◌^◌, min, Bool, true, false, not, ◌&&◌, Option, none, some, List, [], ◌∷◌,
  ◌++◌, ◌||◌, ◌==◌, is_empty, length, Result, ok, err, if◌then◌else◌,
}
use psstore.Prelude.Texts.{Text, text}
use psstore.Prelude.Actions.{Action, Attempt, ◌>>=◌, ◌>=?◌, pure}
use psstore.Ids.{ProductId}
use psstore.Js.Date.{padded}
use psstore.Game.{
  Concept, ProductDetail, ProductPrice, SearchPage, BrowsePage, BrowseRequest, Genre,
  PlusMonthlyEntry, SonyFeature,
}
use psstore.Listing.{narrow_search_entries}
use psstore.Errors.{UpstreamError, unavailable, query_rotated, rate_limited}
use psstore.Transport.{Answer, Attempts, follow, TransportError, failed, send, send_retrying}
use psstore.Sony.Json.{Value}
use psstore.Sony.Grid.{
  extract_category_grid, grid_drift, grid, extract_browse_page, browse_drift, browsed,
  extract_genres, genres_drift, genre_list,
}
use psstore.Sony.Search.{parse_search_response, search_drift, searched}
use psstore.Sony.Product.{extract_product_detail, parse_product_price}
use psstore.Sony.Monthly.{parse_plus_monthly, monthly_drift, monthly}
use psstore.Sony.Graphql.{is_persisted_query_rotation, is_graphql_server_error}

-- `SONY_TIMEOUT`, in nanoseconds
abbrev pub sony_timeout : ℕ
sony_timeout = 6000 * 1000000

abbrev pub sony_attempts : Attempts
sony_attempts = record { timeout = sony_timeout; retries = 1; retry_after_max = sony_timeout }

-- `GridQuery`, and the requests with other operations
pub data Request : Type 0 where
  feature_grid : SonyFeature → ℕ → ℕ → Request
  browse_grid : BrowseRequest → Request
  genre_grid monthly_feed : Request
  product : ProductId → Request
  product_price : ProductId → Request
  search : Text → ℕ → ℕ → Request

-- `as_millis().div_ceil(1000)` of a delay in nanoseconds, in a `u64`
unfoldable pub delay_seconds : ℕ → ℕ
delay_seconds delay = min ((delay / 1000000 + 999) / 1000) (2 ^ 64 - 1)

abbrev pub option_seconds : Option ℕ → Option ℕ
option_seconds none = none
option_seconds (some delay) = some (delay_seconds delay)

unfoldable pub upstream_error : TransportError → UpstreamError
unfolding delay_seconds padded
upstream_error (TransportError.rate_limited delay) =
    rate_limited (text "Sony upstream rate limited the request (HTTP 429)") (option_seconds delay)
upstream_error (TransportError.status code) =
    unavailable (text "Sony upstream returned " ++ padded 3 code)
upstream_error failed = unavailable (text "Sony upstream unavailable")

unfoldable pub rotated : Text → UpstreamError
rotated operation =
    query_rotated
      (text "Sony rejected the persisted query (hash rotated); re-run pnpm sony:refresh") operation

-- the bytes of `"errors"`
abbrev pub errors_key : List ℕ
errors_key = 34 ∷ 101 ∷ 114 ∷ 114 ∷ 111 ∷ 114 ∷ 115 ∷ 34 ∷ []

-- whether a window of the bytes is the given text
abbrev pub starts_with_bytes : List ℕ → List ℕ → Bool
starts_with_bytes [] body = true
starts_with_bytes (b ∷ window) [] = false
starts_with_bytes (b ∷ window) (c ∷ body) = b == c && starts_with_bytes window body

unfoldable pub has_window : List ℕ → List ℕ → Bool
has_window window [] = is_empty window
has_window window (b ∷ body) = starts_with_bytes window (b ∷ body) || has_window window body

-- `map_err(upstream_error)`
abbrev pub map_failure : {W A : Type 0} → Attempt W A TransportError → Attempt W A UpstreamError
map_failure m w =
    let (r, w') = m w in elim r [ ok a ↦ (ok a, w') | err e ↦ (err (upstream_error e), w') ]

module _ {W : Type 0} (lower : Text → Text) (parse_json : List ℕ → Option Value)
    (operation_of : Request → Text) (url_of : Request → Result Text UpstreamError)
    (ask : Text → ℕ → Action W (Option Answer)) (sleep : ℕ → W → W) where
  unfoldable pub reports_server_error : List ℕ → Bool
  unfolding is_graphql_server_error has_window
  reports_server_error body =
      has_window errors_key body
      && elim (parse_json body) [ none ↦ false | some json ↦ is_graphql_server_error json ]

  unfoldable pub json_body : List ℕ → Result Value UpstreamError
  json_body body = elim (parse_json body) [
    | none ↦ err (unavailable (text "Sony upstream returned a body that is not JSON"))
    | some json ↦ ok json
  ]

  unfoldable pub graphql : Request → Attempt W Value UpstreamError
  unfolding reports_server_error json_body send_retrying upstream_error
  graphql request = pure (url_of request) >=? λ url.
      map_failure (
        send_retrying sony_attempts follow (λ answer. reports_server_error answer.body) (ask url)
          sleep)
      >=? λ answer. pure (json_body answer.body)

  -- the checks of `graphql_checked` on the answer
  unfoldable pub checked_json : Request → Value → Result Value UpstreamError
  unfolding is_persisted_query_rotation is_graphql_server_error rotated
  checked_json request json =
      if is_persisted_query_rotation lower json
      then err (rotated (operation_of request))
      else if is_graphql_server_error json
      then err (unavailable (text "Sony upstream reported a server error"))
      else ok json

  unfoldable pub graphql_checked : Request → Attempt W Value UpstreamError
  unfolding graphql checked_json
  graphql_checked request = graphql request >=? λ json. pure (checked_json request json)

  -- the matches on the outcomes of the decoders
  unfoldable pub grid_result : Value → Result (List Concept) UpstreamError
  grid_result json = elim (extract_category_grid json) [
    | grid_drift ↦ err (unavailable (text "Sony category grid has an unexpected shape"))
    | grid concepts dropped ↦ ok concepts
  ]

  unfoldable pub fetch_concepts : SonyFeature → ℕ → ℕ → Attempt W (List Concept) UpstreamError
  unfolding graphql_checked grid_result
  fetch_concepts feature size offset =
      graphql_checked (feature_grid feature size offset) >=? λ json. pure (grid_result json)

  unfoldable pub fetch_product_detail : ProductId → Attempt W ProductDetail UpstreamError
  unfolding graphql_checked
  fetch_product_detail id =
      graphql_checked (product id) >=? λ json. pure (ok (extract_product_detail json))

  unfoldable pub fetch_product_price : ProductId → Attempt W ProductPrice UpstreamError
  unfolding graphql_checked
  fetch_product_price id =
      graphql_checked (product_price id) >=? λ json. pure (ok (parse_product_price json))

  unfoldable pub search_result : Value → Result SearchPage UpstreamError
  search_result json = elim (parse_search_response json) [
    | search_drift ↦ err (unavailable (text "Sony search response has an unexpected shape"))
    | searched entries is_last dropped ↦ ok (record {
      candidates = narrow_search_entries entries;
      is_last = is_last;
      raw_count = length entries + dropped;
    })
  ]

  unfoldable pub fetch_search_page : Text → ℕ → ℕ → Attempt W SearchPage UpstreamError
  unfolding graphql_checked search_result
  fetch_search_page term offset size =
      graphql_checked (search term offset size) >=? λ json. pure (search_result json)

  unfoldable pub browse_result : Value → ℕ → Result BrowsePage UpstreamError
  browse_result json size = elim (extract_browse_page json size) [
    | browse_drift ↦ err (unavailable (text "Sony browse grid has an unexpected shape"))
    | browsed concepts is_last dropped ↦ ok (record { concepts = concepts; is_last = is_last })
  ]

  unfoldable pub fetch_browse_page : BrowseRequest → Attempt W BrowsePage UpstreamError
  unfolding graphql_checked browse_result
  fetch_browse_page request =
      graphql_checked (browse_grid request) >=? λ json. pure (browse_result json request.size)

  unfoldable pub genres_result : Value → Result (List Genre) UpstreamError
  genres_result json = elim (extract_genres json) [
    | genres_drift ↦ err (unavailable (text "Sony genre facet has an unexpected shape"))
    | genre_list genres dropped ↦ ok genres
  ]

  unfoldable pub fetch_genres : Attempt W (List Genre) UpstreamError
  unfolding graphql_checked genres_result
  fetch_genres = graphql_checked genre_grid >=? λ json. pure (genres_result json)

  unfoldable pub monthly_result : Value → Result (List PlusMonthlyEntry) UpstreamError
  monthly_result json = elim (parse_plus_monthly json) [
    | monthly_drift ↦ err (unavailable (text "PS Plus monthly list has an unexpected shape"))
    | monthly entries dropped outside ↦ ok entries
  ]

  -- The monthly feed is no GraphQL answer: it is sent by `send` and not checked for a rotation.
  unfoldable pub fetch_plus_monthly : Attempt W (List PlusMonthlyEntry) UpstreamError
  unfolding send json_body monthly_result upstream_error
  fetch_plus_monthly = pure (url_of monthly_feed) >=? λ url.
      map_failure (send sony_attempts follow (ask url) sleep) >=? λ answer.
      pure (json_body answer.body) >=? λ json. pure (monthly_result json)
