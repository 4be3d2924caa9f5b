-- ===== src/CriticScores.antt =====
-- crates/server/src/application/critic_scores.rs: the critic score of a game page. The provider, the
-- time budget and the cache, with the lookups that it shares, are parameters.
pub mod Shown
use psstore.Prelude.{ℕ, ◌*◌, Option, none, some, List, Result, ok, err}
use psstore.Prelude.Texts.{Text, text}
use psstore.Prelude.Int.{ℤ}
use psstore.Prelude.Actions.{Action, Attempt, ◌>>=◌, ◌>=?◌, pure}
use psstore.Js.Jiff.{Jiff}
use psstore.Ids.{GameId}
use psstore.Game.{Game, CriticScore}
use psstore.CriticMatch.{Unicode, CriticCandidate, match_critic_score, release_year_of}

abbrev pub score_cache_capacity : ℕ
score_cache_capacity = 5000

-- the times to live, in milliseconds
abbrev pub score_ttl_ms : ℕ
score_ttl_ms = 24 * 3600 * 1000

abbrev pub score_failure_ttl_ms : ℕ
score_failure_ttl_ms = 60 * 1000

pub data CriticSourceError : Type 0 where
  source_rejected source_unavailable : CriticSourceError

unfoldable pub source_error_tag : CriticSourceError → Text
source_error_tag source_rejected = text "CriticSourceRejected"
source_error_tag source_unavailable = text "CriticSourceUnavailable"

pub record CriticKey : Type 0 where
  pub id : GameId
  pub title : Text
  pub year : ℤ

unfoldable pub score_ttl : Result (Option CriticScore) CriticSourceError → ℕ
score_ttl (ok score) = score_ttl_ms
score_ttl (err error) = score_failure_ttl_ms

abbrev pub key_of : Game → ℤ → CriticKey
key_of game year = record { id = game.id; title = game.name; year = year }

-- the end of `lookup`: every failure is no score
unfoldable pub score_or_none : Result (Option CriticScore) CriticSourceError → Option CriticScore
score_or_none (ok score) = score
score_or_none (err error) = none

module _ {W : Type 0} (j : Jiff) (u : Unicode)
    (find_games : Text → ℤ → Attempt W (List CriticCandidate) CriticSourceError)
    (time_up : W → Option W) where
  -- the cached lookup of a key, with its budget
  unfoldable pub budgeted_lookup : CriticKey → Attempt W (Option CriticScore) CriticSourceError
  unfolding match_critic_score
  budgeted_lookup key w = elim (time_up w) [
    | none ↦
        (find_games key.title key.year >=? λ candidates.
        pure (ok (match_critic_score u key.title key.year candidates)))
          w
    | some w' ↦ (err source_unavailable, w')
  ]

  module _
      (get_with : CriticKey
        → Attempt W (Option CriticScore) CriticSourceError
        → Attempt W (Option CriticScore) CriticSourceError) where
    unfoldable pub score_of_year : Game → Option ℤ → Action W (Option CriticScore)
    unfolding budgeted_lookup score_or_none
    score_of_year game none = pure none
    score_of_year game (some year) =
        get_with (key_of game year) (budgeted_lookup (key_of game year)) >>= λ outcome.
        pure (score_or_none outcome)

    unfoldable pub score_for : Game → Action W (Option CriticScore)
    unfolding score_of_year release_year_of
    score_for game = score_of_year game (release_year_of j game.date)
