-- ===== src/CriticScores/Shown.antt =====
-- A critic score that the cache shares is a match among candidates of the provider.
use mathlib.Core.Path.{subst}
use psstore.Prelude.{
  ℕ, ℕ_discrete, ◌^◌, ◌<◌, ◌≡◌, ◌⊎◌, refl, inl, inr, false, Option, none, some, List, length,
  Result, ok, err,
}
use psstore.Prelude.Maps.{get}
use psstore.Prelude.Texts.{Text}
use psstore.Prelude.Int.{ℤ}
use psstore.Prelude.Actions.{Attempt, ◌>=?◌, pure}
use psstore.Js.Jiff.{Jiff}
use psstore.Game.{Game, CriticScore}
use psstore.CriticMatch.{Unicode, CriticCandidate, match_critic_score}
use psstore.Cache.{State, get_with}
use psstore.Cache.System.{Event, done, fresh_system, run}
use psstore.Cache.System.Owner.{IsLegal, shared_is_owned}
use psstore.CriticScores.{
  CriticSourceError, source_unavailable, CriticKey, key_of, score_ttl, score_cache_capacity,
  budgeted_lookup, score_or_none,
}

module _ {W : Type 0} (j : Jiff) (u : Unicode)
    (find_games : Text → ℤ → Attempt W (List CriticCandidate) CriticSourceError)
    (time_up : W → Option W) where
  -- the candidates of one call of the provider, and the match among them
  pub record IsMatch (title : Text) (year : ℤ) (score : CriticScore) : Type 0 where
    pub before : W
    pub after : W
    pub candidates : List CriticCandidate
    pub in_time : time_up before ≡ none
    pub asked : find_games title year before ≡ (ok candidates, after)
    pub matched : match_critic_score u title year candidates ≡ some score

  abbrev pub IsMatchOrNone : CriticKey → Result (Option CriticScore) CriticSourceError → Type 0
  IsMatchOrNone key (ok (some score)) = IsMatch key.title key.year score
  IsMatchOrNone key (ok none) = Unit
  IsMatchOrNone key (err error) = Unit

  budgeted_lookup-IsMatchOrNone :
      (key : CriticKey) (w : W) → IsMatchOrNone key (budgeted_lookup j u find_games time_up key w).0
  unfolding budgeted_lookup
  budgeted_lookup-IsMatchOrNone key w = go (time_up w) refl
    where
      matched :
          (candidates : List CriticCandidate) (v : W)
          → time_up w ≡ none
          → find_games key.title key.year w ≡ (ok candidates, v)
          → (o : Option CriticScore) → match_critic_score u key.title key.year candidates ≡ o
          → IsMatchOrNone key (ok o)
      matched candidates v in_time asked none h = tt
      matched candidates v in_time asked (some score) h = record {
        before = w;
        after = v;
        candidates = candidates;
        in_time = in_time;
        asked = asked;
        matched = h;
      }

      found :
          time_up w ≡ none
          → (p : Result (List CriticCandidate) CriticSourceError × W)
          → find_games key.title key.year w ≡ p
          → IsMatchOrNone key
              (((λ v. p) >=? λ candidates.
                  pure (ok (match_critic_score u key.title key.year candidates)))
                w).0
      found in_time (ok candidates, v) asked =
          matched candidates v in_time asked (match_critic_score u key.title key.year candidates)
            refl
      found in_time (err error, v) asked = tt

      go :
          (o : Option W)
          → time_up w ≡ o
          → IsMatchOrNone key
              (elim o as (λ x. Result (Option CriticScore) CriticSourceError × W) [
                | none ↦
                    (find_games key.title key.year >=? λ candidates.
                    pure (ok (match_critic_score u key.title key.year candidates)))
                      w
                | some w' ↦ (err source_unavailable, w')
              ]).0
      go none in_time = found in_time (find_games key.title key.year w) refl
      go (some w') late = tt

  -- the outcome of one run of the cached lookup of a key
  abbrev pub IsLookupOutcome : CriticKey → Result (Option CriticScore) CriticSourceError → Type 0
  IsLookupOutcome key r = (w : W) × ((budgeted_lookup j u find_games time_up key w).0 ≡ r)

  -- what the page shows for a game and its release year
  abbrev pub IsShown : Game → ℤ → Option CriticScore → Type 0
  IsShown game year none = Unit
  IsShown game year (some score) = IsMatch game.name year score

  outcome-IsShown :
      (game : Game) (year : ℤ) (r : Result (Option CriticScore) CriticSourceError)
      → IsMatchOrNone (key_of game year) r
      → IsShown game year (score_or_none r)
  unfolding score_or_none
  outcome-IsShown game year (ok none) h = tt
  outcome-IsShown game year (ok (some score)) h = h
  outcome-IsShown game year (err error) h = tt

  -- In every schedule of fewer than 2 ^ 64 events on the cache of the scores, where each task ends with
  -- the outcome of a run of the lookup of its key, a call for a game that starts no lookup shares one
  -- that runs for its own key, or an outcome that shows no score, or the score that matches the game's
  -- title and year among the candidates of one answer of the provider that came in time.
  pub score_or_none-IsShown :
      (dec : Discrete CriticKey) (latest : ℕ)
      (es : List (Event CriticKey (Option CriticScore) CriticSourceError))
      → length es < 2 ^ 64
      → IsLegal dec score_cache_capacity latest score_ttl IsLookupOutcome es fresh_system
      → (game : Game) (year : ℤ) (shared : ℕ) (t : State CriticKey)
      → (let s = run dec score_cache_capacity latest score_ttl es fresh_system in
          get_with dec score_cache_capacity (key_of game year) s.now s.state ≡ (shared, false, t))
      → let s = run dec score_cache_capacity latest score_ttl es fresh_system in
        (get ℕ_discrete shared s.running ≡ some (key_of game year))
        ⊎ ((r : Result (Option CriticScore) CriticSourceError) × (ended : ℕ) × (get ℕ_discrete
                shared s.finished
              ≡ some (done r ended))
            × IsShown game year (score_or_none r))
  score_or_none-IsShown dec latest es room legal game year shared t shares =
      elim (shared_is_owned dec score_cache_capacity latest score_ttl IsLookupOutcome es room legal
        (key_of game year) shared t shares) [
          | inl runs ↦ inl runs
          | inr (r, ended, finished, (w, same)) ↦ inr (
            r,
            ended,
            finished,
            outcome-IsShown game year r (
                subst (IsMatchOrNone (key_of game year)) same
                  (budgeted_lookup-IsMatchOrNone (key_of game year) w)),
          )
        ]
