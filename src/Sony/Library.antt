-- ===== src/Sony/Library.antt =====
-- crates/server/src/sources/sony/account.rs: the signed-in lists of Sony. The persisted-query calls, with
-- their transport failures, and the deadlines are parameters.
pub mod Whole
use psstore.Prelude.{
  ℕ, zero, suc, ◌+◌, ◌/◌, ◌%◌, Bool, true, false, ◌||◌, ◌&&◌, not, Option, none, some, List, [],
  ◌∷◌, ◌++◌, ltb, ◌==◌, Result, ok, err, if◌then◌else◌,
}
use psstore.Prelude.Texts.{Text, text}
use psstore.Prelude.Actions.{Action, Attempt, ◌>>=◌, ◌>=?◌, pure}
use psstore.Errors.{
  UpstreamError, unavailable, query_rotated, rate_limited, AccountError, session_rejected,
  account_upstream,
}
use psstore.Library.{PurchasedEntry, dedupe_purchased, WishlistEntry}
use psstore.Transport.{TransportError, failed, Answer, in_range}
use psstore.Sony.Json.{Value}
use psstore.Sony.Graphql.{is_persisted_query_rotation}
use psstore.Sony.Purchased.{PurchasedPage, parse_page}
use psstore.Sony.Wishlist.{WishlistOutcome, denied, drift, listed, parse}

abbrev pub purchased_page_size : ℕ
purchased_page_size = 100

abbrev pub purchased_max_pages : ℕ
purchased_max_pages = 20

pub data Call : Type 0 where
  authorize token purchased_call wishlist_call : Call

unfoldable pub outage : Text → AccountError
outage message = account_upstream (unavailable message)

unfoldable pub rejected : AccountError
rejected = session_rejected (text "Sony rejected the sign-in")

unfoldable pub rotated_query : Text → AccountError
rotated_query operation = account_upstream (
    query_rotated
      (text "Sony rejected the persisted query (hash rotated); re-run pnpm sony:refresh") operation)

-- whole seconds of a delay in nanoseconds, rounded up
abbrev pub round_up : Option ℕ → Option ℕ
round_up none = none
round_up (some delay) = some (delay / 1000000000 + (if delay % 1000000000 == 0 then 0 else 1))

unfoldable pub limited : Option ℕ → AccountError
limited delay =
    account_upstream
      (rate_limited (text "Sony sign-in rate limited the request (HTTP 429)") (round_up delay))

abbrev pub is_wishlist : Call → Bool
is_wishlist wishlist_call = true
is_wishlist _ = false

abbrev pub is_authorize : Call → Bool
is_authorize authorize = true
is_authorize _ = false

unfoldable pub call_failed : Text → TransportError → Call → AccountError
unfolding limited rotated_query rejected outage
call_failed operation (TransportError.rate_limited delay) call = limited delay
call_failed operation (TransportError.status code) call =
    if is_wishlist call && code == 400
    then rotated_query operation
    else if (code == 401 || code == 403) && not (is_authorize call)
    then rejected
    else outage (text "Sony sign-in unavailable")
call_failed operation failed call = outage (text "Sony sign-in unavailable")

-- `json_body`; the JSON parser is a parameter
unfoldable pub answer_json : (List ℕ → Option Value) → Answer → Result Value AccountError
unfolding outage
answer_json parse_json answer =
    if in_range 200 300 answer.code
    then elim (parse_json answer.body) [
      | none ↦ err (outage (text "Sony sign-in unavailable"))
      | some json ↦ ok json
    ]
    else err (outage (text "Sony sign-in unavailable"))

-- `within`: the state after the deadline, when the work needs longer
unfoldable pub within :
    {W A : Type 0} → (W → Option W) → Text → Attempt W A AccountError → Attempt W A AccountError
unfolding outage
within time_up message work w = elim (time_up w) [
  | none ↦ work w
  | some w' ↦ (err (outage message), w')
]

module _ (lower : Text → Text) (operation : Text) where
  -- the checks of one library page
  unfoldable pub checked_page : Value → Result PurchasedPage AccountError
  unfolding rotated_query outage
  checked_page body =
      if is_persisted_query_rotation lower body
      then err (rotated_query operation)
      else elim (parse_page body) [
        | none ↦ err (outage (text "Sony library list has an unexpected shape"))
        | some page ↦ ok page
      ]

  module _ {W : Type 0} (page_body : ℕ → Attempt W Value AccountError) where
    -- the loop; the first argument is the number of pages that may still be read
    unfoldable pub crawl :
        ℕ → ℕ → List PurchasedEntry → Attempt W (List PurchasedEntry) AccountError
    unfolding checked_page outage
    crawl zero page collected =
        pure (err (outage (text "Sony library list exceeds the supported size")))
    crawl (suc left) page collected = page_body page >=? λ body.
        pure (checked_page body) >=? λ outcome. elim (ltb outcome.raw_count purchased_page_size) [
          | true ↦ pure (ok (dedupe_purchased (collected ++ outcome.entries)))
          | false ↦ crawl left (page + 1) (collected ++ outcome.entries)
        ]

    unfoldable pub fetch_purchased : (W → Option W) → Attempt W (List PurchasedEntry) AccountError
    unfolding crawl within
    fetch_purchased time_up =
        within time_up (text "Sony library list timed out") (crawl purchased_max_pages 0 [])

  -- the checks of the wishlist
  unfoldable pub checked_wishlist : Value → Result (List WishlistEntry) AccountError
  unfolding rotated_query rejected outage
  checked_wishlist body =
      if is_persisted_query_rotation lower body
      then err (rotated_query operation)
      else elim (parse lower body) [
        | denied ↦ err rejected
        | drift ↦ err (outage (text "Sony wishlist has an unexpected shape"))
        | listed page ↦ ok page.entries
      ]

  unfoldable pub fetch_wishlist :
      {W : Type 0}
      → Attempt W Value AccountError
      → (W → Option W)
      → Attempt W (List WishlistEntry) AccountError
  unfolding checked_wishlist within
  fetch_wishlist wishlist_body time_up =
      within time_up (text "Sony wishlist timed out")
        (wishlist_body >=? λ body. pure (checked_wishlist body))
