-- ===== src/Examples/Clients.antt =====
-- The clients of Sony and the sign-in, at concrete data.
use psstore.Prelude.{
  inl, ℕ, zero, suc, ◌+◌, ◌≡◌, refl, Bool, true, false, Option, none, some, List, [], ◌∷◌, Result,
  ok, err,
}
use psstore.Prelude.Texts.{Text, text}
use psstore.Prelude.Actions.{Action, Attempt}
use psstore.Ids.{ProductId}
use psstore.Game.{new}
use psstore.Errors.{UpstreamError, AccountError}
use psstore.Transport.{Answer}
use psstore.Sony.Json.{Value, null, array, object, nil, cons, end, field}
use psstore.Sony.Catalog.{Request, feature_grid, product, fetch_concepts, fetch_product_detail}
use psstore.Sony.Catalog.Checked.{IsFetched, IsGrid, IsDetail, fetch_concepts-IsFetched}
use psstore.Sony.Library.{purchased_max_pages, fetch_purchased}
use psstore.Library.{PurchasedEntry, dedupe_purchased}
use psstore.Sony.Library.Whole.{IsWhole, Pages, fetch_purchased-IsWhole}
use psstore.Http.Session.{is_valid_npsso, npsso_from_cookie, sign_in}
use psstore.Http.Session.Cookie.{sent_pair, npsso_from_cookie-sent_pair}
use psstore.Http.Session.SignIn.{IsAnswer, sign_in-IsAnswer}

-- a store that answers an empty grid at once; the state counts the requests
abbrev keep : Text → Text
keep s = s

abbrev empty_grid : Value
empty_grid = object (
    field (text "data")
      (object (
        field (text "categoryGridRetrieve") (object (field (text "concepts") (array nil) end)) end))
      end)

abbrev parse_grid_body : List ℕ → Option Value
parse_grid_body body = some empty_grid

abbrev no_operation : Request → Text
no_operation request = []

abbrev same_url : Request → Result Text UpstreamError
same_url request = ok []

abbrev counted_answer : Text → ℕ → Action ℕ (Option Answer)
counted_answer url timeout w = (some (record { code = 200; retry_after = none; body = [] }), w + 1)

abbrev no_sleep : ℕ → ℕ → ℕ
no_sleep delay w = w

abbrev some_product : ProductId
some_product = record { as_str = text "EP0001-PPSA00001_00-GAME000000000001" }

fetch_concepts-IsFetched_example :
    IsFetched keep parse_grid_body no_operation same_url counted_answer no_sleep
      (IsGrid keep parse_grid_body no_operation same_url counted_answer no_sleep)
      (feature_grid new 10 0)
      0
      (fetch_concepts keep parse_grid_body no_operation same_url counted_answer no_sleep new 10 0 0)
    × IsFetched keep parse_grid_body no_operation same_url counted_answer no_sleep
        (IsDetail keep parse_grid_body no_operation same_url counted_answer no_sleep)
        (product some_product)
        0
        (fetch_product_detail keep parse_grid_body no_operation same_url counted_answer no_sleep
          some_product 0)
fetch_concepts-IsFetched_example =
    fetch_concepts-IsFetched keep parse_grid_body no_operation same_url counted_answer no_sleep new
      10 0 some_product 0

abbrev short_library : ℕ → Attempt ℕ Value AccountError
short_library page w = (
  ok (
      object (
        field (text "data")
          (object (
            field (text "purchasedTitlesRetrieve")
              (object (field (text "games") (array (cons null nil)) end)) end))
          end)),
  w + 1,
)

abbrev in_time : ℕ → Option ℕ
in_time w = none

fetch_purchased-IsWhole_example :
    IsWhole keep
      (text "library")
      short_library
      purchased_max_pages
      0
      0
      []
      (fetch_purchased keep (text "library") short_library in_time 0)
    × ((read : List PurchasedEntry) (v : ℕ)
        → in_time 0 ≡ none
        → Pages keep (text "library") short_library purchased_max_pages 0 0 read v
        → fetch_purchased keep (text "library") short_library in_time 0
          ≡ (ok (dedupe_purchased read), v))
fetch_purchased-IsWhole_example =
    fetch_purchased-IsWhole keep (text "library") short_library in_time 0

abbrev sixteen : Text
sixteen = text "aaaa.bbbb_cccc-d"

npsso_from_cookie-sent_pair_example :
    npsso_from_cookie (some (sent_pair sixteen) ∷ []) ≡ some sixteen
unfolding is_valid_npsso psstore.Prelude.Texts.bytes psstore.Prelude.Texts.utf8
npsso_from_cookie-sent_pair_example = npsso_from_cookie-sent_pair sixteen refl

abbrev session_body : List ℕ → Option Value
session_body body = some (object (field (text "npsso") (psstore.Sony.Json.string sixteen) end))

abbrev any_header : Text → Bool
any_header s = true

abbrev accepts : Text → Attempt ℕ (Unit {0}) AccountError
accepts npsso w = (ok tt, w + 1)

sign_in-IsAnswer_example :
    IsAnswer session_body any_header accepts
      (some (some (text "application/json; charset=utf-8")))
      (ok [])
      0
      (sign_in session_body any_header accepts
        (some (some (text "application/json; charset=utf-8")))
        (ok [])
        0)
sign_in-IsAnswer_example =
    sign_in-IsAnswer session_body any_header accepts
      (some (some (text "application/json; charset=utf-8"))) (ok []) 0

-- the one page of the library is not full, and its only element is dropped
library_test : fetch_purchased keep (text "library") short_library in_time 0 ≡ (ok [], 1)
unfolding fetch_purchased psstore.Sony.Graphql.is_persisted_query_rotation
    psstore.Prelude.Texts.text_eq psstore.Sony.Purchased.parse_page psstore.Library.dedupe_purchased
    psstore.Prelude.Dedupe.dedupe
library_test = refl

sign_in_test :
    sign_in session_body any_header accepts (some (some (text "text/plain"))) (ok []) 0 ≡ (
      psstore.Http.Session.problem
          (psstore.Http.Problem.new_problem psstore.Http.Problem.unsupported_media_type),
      0,
    )
unfolding sign_in psstore.Prelude.Texts.text_eq
sign_in_test = refl
