-- ===== src/Examples/Services.antt =====
-- The services of games.rs and account.rs, and the retries of transport.rs, at concrete answers.
use psstore.Prelude.{ℕ, ◌+◌, true, false, Option, none, some, List, [], ◌∷◌, Result, ok, err}
use psstore.Prelude.Int.{pos}
use psstore.Prelude.Texts.{text}
use psstore.Ids.{GameId, ProductId}
use psstore.Game.{Concept, default_detail, SonyFeature, new, upcoming, discounted, BrowseRequest}
use psstore.Errors.{UpstreamError, unavailable}
use psstore.Library.{WishlistEntry, product_wish, concept_wish}
use psstore.Games.Port.{Port}
use psstore.Games.Page.{game_by_id}
use psstore.Games.Page.Found
use psstore.Games.Page.Found.{game_by_id-IsPage}
use psstore.Games.Browse.{read_browse_page}
use psstore.Games.Browse.Outcome
use psstore.Games.Browse.Outcome.{read_browse_page-IsOutcome}
use psstore.Games.Lists.{discounted_games}
use psstore.Games.Lists.Release
use psstore.Games.Lists.Discounted
use psstore.Games.Lists.Discounted.{discounted_games-IsListing}
use psstore.Account
use psstore.Account.{wishlist}
use psstore.Account.Lists
use psstore.Account.Lists.{wishlist-IsOutcome}
use psstore.Transport.{Attempts, Answer, follow, send_retrying}
use psstore.Transport.Retry.{IsSent, send_retrying-IsSent}
use psstore.Examples.Calendar.{calendar, june}

abbrev apex : ProductId
apex = record { as_str = text "EP0006-PPSA04874_00-APEXLEGENDRSPWN1" }

abbrev apex_concept : Concept
apex_concept = record {
  id = none;
  name = some (text "Found");
  media = none;
  price = none;
  products = some (
      record {
        id = some (text "EP0006-PPSA04874_00-APEXLEGENDRSPWN1");
        release_date = none;
        provider_name = none;
        genres = none;
      }
      ∷ []);
}

abbrev feature_answer : SonyFeature → Result (List Concept) UpstreamError
feature_answer new = ok (apex_concept ∷ [])
feature_answer upcoming = ok []
feature_answer discounted = err (unavailable (text "down"))

-- a store that counts its calls: DISCOUNTED is down, the rest answers
abbrev store : Port ℕ
store = record {
  now_ms = λ w. pos 0;
  concepts = λ feature w. (feature_answer feature, w + 1);
  details = λ id w. (ok default_detail, w + 1);
  strict_details = λ id w. (
    ok (record default_detail {
      platforms = text "PS5" ∷ [];
      store_display_classification = some (text "FULL_GAME");
    }),
    w + 1,
  );
  prices = λ id w. (err (unavailable (text "down")), w + 1);
  monthly = λ w. (ok (june ∷ []), w + 1);
  genres = λ w. (ok [], w + 1);
  browse_page = λ request w. (ok (record { concepts = apex_concept ∷ []; is_last = true }), w + 1);
  second_fails_first = λ w. false;
}

game_by_id-IsPage_example :
    Found.IsPage calendar store
      (record { as_str = apex.as_str })
      (game_by_id calendar store (record { as_str = apex.as_str }) 0)
game_by_id-IsPage_example = game_by_id-IsPage calendar store (record { as_str = apex.as_str }) 0

abbrev first_request : BrowseRequest
first_request = record {
  genre = record { as_str = text "ACTION" };
  order = psstore.Ids.newest;
  offset = 0;
  size = 60;
}

read_browse_page-IsOutcome_example :
    Outcome.IsOutcome calendar store 2 first_request 0
      (read_browse_page calendar store first_request 0)
read_browse_page-IsOutcome_example = read_browse_page-IsOutcome calendar store first_request 0

discounted_games-IsListing_example :
    Discounted.IsListing calendar store 0 60 0 (discounted_games calendar store 0 60 0)
discounted_games-IsListing_example = discounted_games-IsListing calendar store 0 60 0

abbrev wished : List WishlistEntry
wished =
    record { id = product_wish apex; name = text "Apex"; image_url = [] }
    ∷ record {
      id = concept_wish (record { as_str = text "10000001" });
      name = text "Soon";
      image_url = [];
    }
    ∷ []

-- the lookups run out of time
abbrev account : Account.Port ℕ
account = record {
  exchange = λ npsso w. (ok (text "token"), w + 1);
  purchased_games = λ token w. (ok [], w + 1);
  wishlist_games = λ token w. (ok wished, w + 1);
  game_in_time = λ id w. (none, w + 1);
  time_up = λ entries w. some (w + 1);
}

wishlist-IsOutcome_example :
    Lists.IsOutcome account (text "npsso") 0 (wishlist account (text "npsso") 0)
wishlist-IsOutcome_example = wishlist-IsOutcome account (text "npsso") 0

abbrev two_retries : Attempts
two_retries = record { timeout = 5; retries = 2; retry_after_max = 3 }

-- every attempt is limited
abbrev limited_answer : ℕ → ℕ → Option Answer × ℕ
limited_answer timeout w =
    (some (record { code = 429; retry_after = some (text "9"); body = [] }), w + 1)

send_retrying-IsSent_example :
    IsSent follow 3
      (λ answer. false)
      (limited_answer 5)
      (λ delay w. w + delay)
      2
      0
      (send_retrying two_retries follow (λ answer. false) limited_answer (λ delay w. w + delay) 0)
send_retrying-IsSent_example =
    send_retrying-IsSent two_retries follow (λ answer. false) limited_answer (λ delay w. w + delay)
      0
