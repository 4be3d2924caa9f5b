-- ===== src/Examples/Decoders.antt =====
-- The decoders of Sony's answers, the parameters and failures of the HTTP layer, and the bounded
-- lookups, at concrete data.
use psstore.Prelude.{
  ℕ, ◌+◌, ◌-◌, ◌*◌, ◌^◌, ◌≤◌, ◌≡◌, ◌↔◌, ◌⊎◌, refl, inl, inr, true, false, not, ◌||◌, Bool, Option,
  none, some, List, [], ◌∷◌, ◌++◌, Result, ok, err, arith, map, length, leb, min, all, is_empty,
  All, if◌then◌else◌,
}
use psstore.Prelude.Texts.{Text, text, bytes}
use psstore.Js.Trim.{is_whitespace, trim_start, trim_end}
use psstore.Ids.Bytes.{is_digit}
use psstore.Errors.{not_found, rate_limited, GameLookupError}
use psstore.Game.{default_detail}
use psstore.Bounded.{done, next, in_order_bounded}
use psstore.Bounded.Order.{in_order_bounded_lem}
use psstore.Transport.{max_body_bytes, read_chunks, number_of, parse_retry_after_value}
use psstore.Transport.Body.{read_chunks_lem, parse_retry_after_value_lem}
use psstore.Sony.Json.{Value, null, number, array, object, nil, cons, end, field}
use psstore.Sony.Grid.{
  extract_category_grid, extract_browse_page, extract_genres, grid_drift, browse_drift,
  genres_drift,
}
use psstore.Sony.Grid.Counts.{IsGenres, extract_genres-IsGenres}
use psstore.Sony.Search.{parse_search_response, search_drift}
use psstore.Sony.Product.{extract_product_detail, decoded_ctas, Cta, parse_product_price}
use psstore.Sony.Product.Offers.{IsOptionOf, In, IsOffer, IsStandard, parse_product_price_lem}
use psstore.Sony.Monthly.{parse_plus_monthly}
use psstore.Sony.Monthly.Entries
use psstore.Sony.Monthly.Entries.{parse_plus_monthly-IsOutcome}
use psstore.Sony.Graphql.Outage.{is_graphql_server_error_lem}
use psstore.Sony.Purchased.{parse_page}
use psstore.Sony.Wishlist.{parse, wishlist_values}
use psstore.Sony.Wishlist.Page.{IsParsed, parse-IsParsed}
use psstore.Http.Problem.{of_lookup, of_upstream}
use psstore.Http.Problem.Status.{
  IsNotFound, of_lookup-IsNotFound, IsLimited, IsDelay, of_upstream_lem,
}
use psstore.Http.Params.{Float, search}
use psstore.Http.Params.Bounds.{Accepted, IsSearch, search-IsSearch}

abbrev two_done : List (ℕ × ℕ)
two_done = (1, 8) ∷ (0, 7) ∷ []

-- the second of two lookups ends first
in_order_bounded_lem_example : in_order_bounded two_done ≡ 7 ∷ 8 ∷ []
in_order_bounded_lem_example = in_order_bounded_lem 2 (7 ∷ 8 ∷ []) two_done (
    next ((0, 7) ∷ []) (1, 8) [] ((0, 7) ∷ []) (omega arith)
      (next [] (0, 7) [] [] (omega arith) done))

read_chunks_lem_example :
    read_chunks (1 ∷ []) (map some ((2 ∷ []) ∷ (3 ∷ []) ∷ []))
    ≡ (if leb (length {A = ℕ} (1 ∷ 2 ∷ 3 ∷ [])) max_body_bytes then some (1 ∷ 2 ∷ 3 ∷ []) else none)
read_chunks_lem_example = read_chunks_lem (1 ∷ []) ((2 ∷ []) ∷ (3 ∷ []) ∷ []) (omega arith)

parse_retry_after_value_lem_example : parse_retry_after_value (text " 9 ") 5 ≡ (
    let trimmed = bytes (trim_end is_whitespace (trim_start is_whitespace (text " 9 "))) in
    if is_empty trimmed || not (all is_digit trimmed)
    then none
    else some (min (number_of 0 trimmed * 1000000000) 5))
parse_retry_after_value_lem_example = parse_retry_after_value_lem (text " 9 ") 5 (omega arith)

abbrev empty_object : Value
empty_object = object end

-- an answer with an error of status 500 and a null node
abbrev outage : Value
outage = object (
    field (text "errors")
      (array (cons (object (field (text "statusCode") (number (some 500)) end)) nil))
      (field (text "data") (object (field (text "categoryGridRetrieve") null end)) end))

extract_genres-IsGenres_example : IsGenres outage (extract_genres outage)
extract_genres-IsGenres_example = extract_genres-IsGenres outage

parse_product_price_lem_example :
    IsOptionOf
      (λ offer. (entry : Cta) × In entry (decoded_ctas outage) × IsOffer entry offer)
      (parse_product_price outage).plus_offer
    × IsOptionOf
        (λ standard. (entry : Cta) × In entry (decoded_ctas outage) × IsStandard entry standard)
        (parse_product_price outage).standard
parse_product_price_lem_example = parse_product_price_lem outage

parse_plus_monthly-IsOutcome_example :
    Entries.IsOutcome
      (array (cons empty_object nil))
      (parse_plus_monthly (array (cons empty_object nil)))
parse_plus_monthly-IsOutcome_example = parse_plus_monthly-IsOutcome (array (cons empty_object nil))

is_graphql_server_error_lem_example :
    (extract_category_grid outage ≡ grid_drift)
    × (extract_browse_page outage 10 ≡ browse_drift)
    × (extract_genres outage ≡ genres_drift)
    × (parse_search_response outage ≡ search_drift)
    × (extract_product_detail outage ≡ default_detail)
    × (decoded_ctas outage ≡ [])
    × (wishlist_values outage ≡ none)
    × (parse_page outage ≡ none)
unfolding psstore.Sony.Graphql.is_graphql_server_error psstore.Prelude.Texts.text_eq
is_graphql_server_error_lem_example = is_graphql_server_error_lem outage 10 refl

parse-IsParsed_example : IsParsed (λ s. s) outage (parse (λ s. s) outage)
parse-IsParsed_example = parse-IsParsed (λ s. s) outage

abbrev missing : GameLookupError
missing = not_found (record { as_str = text "1" })

of_lookup-IsNotFound_example : ((of_lookup missing).status_code ≡ 404) ↔ IsNotFound missing
of_lookup-IsNotFound_example = of_lookup-IsNotFound missing

of_upstream_lem_example :
    let limited = rate_limited [] (some (2 ^ 40)) in
    (((of_upstream limited).status_code ≡ 503) ↔ IsLimited limited)
    × (((of_upstream limited).status_code ≡ 502) ↔ (IsLimited limited → ⊥))
    × IsDelay (of_upstream limited).retry_after_seconds
    × ((IsLimited limited → ⊥) → (of_upstream limited).retry_after_seconds ≡ none)
of_upstream_lem_example = of_upstream_lem (rate_limited [] (some (2 ^ 40)))

-- numbers in place of floating point
abbrev natural_float : Float
natural_float = record {
  F = ℕ;
  of_nat = λ n. n;
  minus_one = 1;
  infinity = 0;
  add = λ a b. a + b;
  mul = λ a b. a * b;
  parse = λ s. some (number_of 0 s);
  is_finite = λ a. true;
  is_integral = λ a. true;
  exceeds_safe = λ a. false;
  is_negative = λ a. false;
  to_u64 = λ a. a;
}

abbrev one_term : Text → List (Text × Text)
one_term raw = (text "q", raw) ∷ []

search-IsSearch_example :
    Accepted
      (λ found. IsSearch natural_float one_term found.0 found.1)
      (search natural_float one_term (some (text " apex ")))
search-IsSearch_example = search-IsSearch natural_float one_term (some (text " apex "))
