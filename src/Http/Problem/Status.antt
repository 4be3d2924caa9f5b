-- ===== src/Http/Problem/Status.antt =====
-- What a client can conclude from the status of a failure.
use psstore.Prelude.{ℕ, ◌≤◌, ◌≡◌, ◌↔◌, refl, Option, none, some, arith}
use psstore.Errors.{
  UpstreamError, unavailable, query_rotated, rate_limited, GameLookupError, not_found,
  lookup_upstream, AccountError, session_rejected, account_upstream,
}
use psstore.Http.Problem.{
  status, new_problem, clamp_seconds, clamp_delay, max_retry_after_seconds, of_upstream, of_lookup,
  of_account,
}

abbrev pub IsNotFound : GameLookupError → Type 0
IsNotFound (not_found id) = Unit
IsNotFound (lookup_upstream error) = ⊥

abbrev pub IsRejected : AccountError → Type 0
IsRejected (session_rejected message) = Unit
IsRejected (account_upstream error) = ⊥

abbrev pub IsLimited : UpstreamError → Type 0
IsLimited (rate_limited message delay) = Unit
IsLimited _ = ⊥

abbrev pub IsDelay : Option ℕ → Type 0
IsDelay none = Unit
IsDelay (some seconds) = seconds ≤ max_retry_after_seconds

-- A failed lookup answers 404 only when the game was not found, so an outage never reads as a missing
-- game.
pub of_lookup-IsNotFound :
    (error : GameLookupError) → ((of_lookup error).status_code ≡ 404) ↔ IsNotFound error
unfolding of_lookup of_upstream new_problem status
of_lookup-IsNotFound (not_found id) = (λ h. tt, λ h. refl)
of_lookup-IsNotFound (lookup_upstream (unavailable message)) = (λ h. omega arith, λ h. absurd h)
of_lookup-IsNotFound (lookup_upstream (query_rotated message name)) =
    (λ h. omega arith, λ h. absurd h)
of_lookup-IsNotFound (lookup_upstream (rate_limited message delay)) =
    (λ h. omega arith, λ h. absurd h)

-- A signed-in request answers 401, which clears the cookie, only when Sony rejected the sign-in.
pub of_account-IsRejected :
    (error : AccountError) → ((of_account error).status_code ≡ 401) ↔ IsRejected error
unfolding of_account of_upstream new_problem status
of_account-IsRejected (session_rejected message) = (λ h. tt, λ h. refl)
of_account-IsRejected (account_upstream (unavailable message)) = (λ h. omega arith, λ h. absurd h)
of_account-IsRejected (account_upstream (query_rotated message name)) =
    (λ h. omega arith, λ h. absurd h)
of_account-IsRejected (account_upstream (rate_limited message delay)) =
    (λ h. omega arith, λ h. absurd h)

clamp_delay-IsDelay : (delay : Option ℕ) → IsDelay (clamp_delay delay)
unfolding clamp_seconds
clamp_delay-IsDelay none = tt
clamp_delay-IsDelay (some seconds) = ground arith

-- A failure of Sony answers 503 if and only if Sony limited the request rate, and 502 otherwise; the
-- delay that it names is at most 2 ^ 31 - 1 seconds, and only a rate limit names one.
pub of_upstream_lem :
    (error : UpstreamError)
    → (((of_upstream error).status_code ≡ 503) ↔ IsLimited error)
      × (((of_upstream error).status_code ≡ 502) ↔ (IsLimited error → ⊥))
      × IsDelay (of_upstream error).retry_after_seconds
      × ((IsLimited error → ⊥) → (of_upstream error).retry_after_seconds ≡ none)
unfolding of_upstream new_problem status
of_upstream_lem (unavailable message) =
    ((λ h. omega arith, λ h. absurd h), (λ h k. k, λ h. refl), tt, λ h. refl)
of_upstream_lem (query_rotated message name) =
    ((λ h. omega arith, λ h. absurd h), (λ h k. k, λ h. refl), tt, λ h. refl)
of_upstream_lem (rate_limited message delay) = (
  (λ h. tt, λ h. refl),
  (λ h k. omega arith, λ h. absurd (h tt)),
  clamp_delay-IsDelay delay,
  λ h. absurd (h tt),
)
