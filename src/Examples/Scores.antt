-- ===== src/Examples/Scores.antt =====
-- The cache of the critic scores, at a concrete schedule.
use psstore.Prelude.{
  ℕ, ℕ_discrete, ◌+◌, ◌≡◌, ◌⊎◌, refl, ap, sym, true, false, Option, none, some, List, [], ◌∷◌,
  arith, Result, ok, err, leb, ◌&&◌, ◌||◌,
}
use psstore.Prelude.Maps.{get}
use psstore.Prelude.Texts.{Text}
use psstore.Prelude.Int.{ℤ, pos}
use psstore.Prelude.Actions.{Attempt}
use psstore.Game.{CriticScore}
use psstore.CriticMatch.{Unicode, CriticCandidate}
use psstore.Cache.{get_with}
use psstore.Cache.System.{Event, System, call, finish, panic, advance, done, fresh_system, run}
use psstore.Cache.System.Owner.{shared_is_owned}
use psstore.CriticScores.{
  CriticSourceError, CriticKey, key_of, score_ttl, score_cache_capacity, budgeted_lookup,
  score_or_none,
}
use psstore.CriticScores.Shown.{IsLookupOutcome, IsShown, score_or_none-IsShown}
use psstore.Examples.Calendar.{calendar, june}

abbrev ten : Result ℕ ℕ → ℕ
ten r = 10

-- the task of the key 7 ends with 5, and that of the key 8 panics
abbrev schedule : List (Event ℕ ℕ ℕ)
schedule = call 7 ∷ call 7 ∷ call 8 ∷ finish 1 (ok 5) ∷ panic 2 ∷ advance 3 ∷ []

abbrev IsFive : ℕ → Result ℕ ℕ → Type 0
IsFive key r = r ≡ ok 5

abbrev after_schedule : System ℕ ℕ ℕ
after_schedule = run ℕ_discrete 4 1000 ten schedule fresh_system

shared_is_owned_example :
    (get ℕ_discrete 1 after_schedule.running ≡ some 7)
    ⊎ ((r : Result ℕ ℕ) × (ended : ℕ) × (get ℕ_discrete 1 after_schedule.finished
          ≡ some (done r ended))
        × (r ≡ ok 5))
unfolding run get_with psstore.Cache.fresh_entry get psstore.Cache.start_lookup
    psstore.Cache.evict_over psstore.Cache.insert_entry psstore.Cache.recency_insert
    psstore.Cache.remove_key psstore.Prelude.Maps.insert ℕ_discrete psstore.Cache.touch
    psstore.Cache.complete psstore.Cache.recency_remove psstore.Cache.checked_add
shared_is_owned_example =
    shared_is_owned ℕ_discrete 4 1000 ten IsFive schedule (omega arith)
      (tt, (tt, (tt, ((λ key task. refl), (tt, (tt, tt)))))) 7 1
      ((get_with ℕ_discrete 4 7 after_schedule.now after_schedule.state).2) refl

-- a provider with one candidate, asked in time; the state counts its calls
abbrev plain_unicode : Unicode
plain_unicode = record {
  nfkd = λ s. s;
  to_lowercase = λ s. s;
  is_letter_or_number = λ c. leb 65 c && leb c 90 || leb 97 c && leb c 122;
}

abbrev one_candidate : Text → ℤ → Attempt ℕ (List CriticCandidate) CriticSourceError
one_candidate title year w = (
  ok (
      record {
        name = title;
        release_year = some year;
        rating = some (record { value = 80 });
        rating_count = 9;
      }
      ∷ []),
  w + 1,
)

abbrev in_time : ℕ → Option ℕ
in_time w = none

abbrev june_key : CriticKey
june_key = key_of june (pos 2024)

abbrev june_outcome : Result (Option CriticScore) CriticSourceError
june_outcome = (budgeted_lookup calendar plain_unicode one_candidate in_time june_key 0).0

abbrev score_schedule : List (Event CriticKey (Option CriticScore) CriticSourceError)
score_schedule = call june_key ∷ finish 1 june_outcome ∷ advance 1000 ∷ []

unfoldable key_discrete : Discrete CriticKey
unfolding ℕ_discrete
key_discrete = hlevel ℕ_discrete

abbrev after_scores : System CriticKey (Option CriticScore) CriticSourceError
after_scores =
    run key_discrete score_cache_capacity 100000000000 score_ttl score_schedule fresh_system

same_key : {a b : CriticKey} → some a ≡ some b → a ≡ b
same_key h = cc h

june_legal :
    (key : CriticKey)
    → some june_key ≡ some key
    → IsLookupOutcome calendar plain_unicode one_candidate in_time key june_outcome
june_legal key task = (
  0,
  ap (λ k. (budgeted_lookup calendar plain_unicode one_candidate in_time k 0).0)
      (sym (same_key task)),
)

score_or_none-IsShown_example :
    (get ℕ_discrete 1 after_scores.running ≡ some june_key)
    ⊎ ((r : Result (Option CriticScore) CriticSourceError) × (ended : ℕ) × (get ℕ_discrete 1
            after_scores.finished
          ≡ some (done r ended))
        × IsShown calendar plain_unicode one_candidate in_time june (pos 2024) (score_or_none r))
unfolding run key_discrete get get_with psstore.Cache.fresh_entry psstore.Prelude.Maps.insert
    psstore.Cache.complete score_ttl budgeted_lookup psstore.Cache.start_lookup
    psstore.Cache.evict_over psstore.Cache.insert_entry psstore.Cache.recency_insert
    psstore.Cache.remove_key psstore.Cache.checked_add
score_or_none-IsShown_example =
    score_or_none-IsShown calendar plain_unicode one_candidate in_time key_discrete 100000000000
      score_schedule (omega arith) (tt, (june_legal, (tt, tt))) june (pos 2024) 1
      ((get_with key_discrete score_cache_capacity june_key after_scores.now after_scores.state).2)
      refl
