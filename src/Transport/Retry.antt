-- ===== src/Transport/Retry.antt =====
-- The retries of a call: how many attempts it makes, and which attempt gives its result.
use psstore.Prelude.{
  ℕ, zero, suc, ◌≡◌, refl, ◌⊎◌, inl, inr, Bool, true, false, Option, none, some, Result, ok, err,
  ◌==◌, Bool-cases,
}
use psstore.Prelude.Actions.{Action, pure}
use psstore.Transport.{
  Redirects, Attempts, TransportError, rate_limited, status, failed, Answer, again, stop,
  is_accepted, in_range, parse_retry_after, round, pause, send_loop, send_retrying,
}

module _ (redirects : Redirects) (max : ℕ) (is_failure : Answer → Bool) where
  -- The outcomes that another attempt may follow, with the delay before it: no answer, a 429, an
  -- accepted answer that is a failure, and a status that is not 2xx, 4xx or an accepted 3xx.
  pub data Retryable : Option Answer → Option ℕ → Type 0 where
    no_answer : Retryable none none
    limited :
        (answer : Answer)
        → (answer.code == 429) ≡ true
        → Retryable (some answer) (parse_retry_after answer.retry_after max)
    failure :
        (answer : Answer)
        → (answer.code == 429) ≡ false
        → is_accepted redirects answer.code ≡ true
        → is_failure answer ≡ true
        → Retryable (some answer) none
    server_error :
        (answer : Answer)
        → (answer.code == 429) ≡ false
        → is_accepted redirects answer.code ≡ false
        → in_range 400 500 answer.code ≡ false
        → Retryable (some answer) none

  -- The result of a call whose last attempt has this outcome, with the retries that are left.
  pub data Ends (left : ℕ) : Option Answer → Result Answer TransportError → Type 0 where
    accepted :
        (answer : Answer)
        → (answer.code == 429) ≡ false
        → is_accepted redirects answer.code ≡ true
        → (left ≡ 0) ⊎ (is_failure answer ≡ false)
        → Ends left (some answer) (ok answer)
    client_error :
        (answer : Answer)
        → (answer.code == 429) ≡ false
        → is_accepted redirects answer.code ≡ false
        → in_range 400 500 answer.code ≡ true
        → Ends left (some answer) (err (status answer.code))
    no_reply : left ≡ 0 → Ends left none (err failed)
    still_limited :
        (answer : Answer)
        → left ≡ 0
        → (answer.code == 429) ≡ true
        → Ends left (some answer) (err (rate_limited (parse_retry_after answer.retry_after max)))
    still_refused :
        (answer : Answer)
        → left ≡ 0
        → (answer.code == 429) ≡ false
        → is_accepted redirects answer.code ≡ false
        → in_range 400 500 answer.code ≡ false
        → Ends left (some answer) (err (status answer.code))

  round-true_cases :
      (left : ℕ) (last : TransportError) (outcome : Option Answer)
      → ((delay : Option ℕ) × (next : TransportError) × (round redirects max is_failure true last
              outcome
            ≡ again delay next)
          × Retryable outcome delay)
        ⊎ ((result : Result Answer TransportError) × (round redirects max is_failure true last
                outcome
              ≡ stop result)
            × Ends left outcome result)
  unfolding round
  round-true_cases left last none = inl (none, failed, refl, no_answer)
  round-true_cases left last (some answer) = elim (Bool-cases (answer.code == 429)) [
    | inl is_limited ↦ inl (_, last, rw is_limited refl, limited answer is_limited)
    | inr no_limit ↦ elim (Bool-cases (is_accepted redirects answer.code)) [
      | inl is_ok ↦ elim (Bool-cases (is_failure answer)) [
        | inl fails ↦
            inl (none, last, rw (no_limit, is_ok, fails) refl, failure answer no_limit is_ok fails)
        | inr works ↦ inr (
          ok answer,
          rw (no_limit, is_ok, works) refl,
          accepted answer no_limit is_ok (inr works),
        )
      ]
      | inr no_ok ↦ elim (Bool-cases (in_range 400 500 answer.code)) [
        | inl client ↦ inr (
          err (status answer.code),
          rw (no_limit, no_ok, client) refl,
          client_error answer no_limit no_ok client,
        )
        | inr other ↦ inl (
          none,
          status answer.code,
          rw (no_limit, no_ok, other) refl,
          server_error answer no_limit no_ok other,
        )
      ]
    ]
  ]

  round-false_cases :
      (last : TransportError) (outcome : Option Answer)
      → ((next : TransportError) × (round redirects max is_failure false last outcome
            ≡ again none next)
          × Ends 0 outcome (err next))
        ⊎ ((result : Result Answer TransportError) × (round redirects max is_failure false last
                outcome
              ≡ stop result)
            × Ends 0 outcome result)
  unfolding round
  round-false_cases last none = inl (failed, refl, no_reply refl)
  round-false_cases last (some answer) = elim (Bool-cases (answer.code == 429)) [
    | inl is_limited ↦ inr (
      err (rate_limited (parse_retry_after answer.retry_after max)),
      rw is_limited refl,
      still_limited answer refl is_limited,
    )
    | inr no_limit ↦ elim (Bool-cases (is_accepted redirects answer.code)) [
      | inl is_ok ↦
          inr (ok answer, rw (no_limit, is_ok) refl, accepted answer no_limit is_ok (inl refl))
      | inr no_ok ↦ elim (Bool-cases (in_range 400 500 answer.code)) [
        | inl client ↦ inr (
          err (status answer.code),
          rw (no_limit, no_ok, client) refl,
          client_error answer no_limit no_ok client,
        )
        | inr other ↦ inl (
          status answer.code,
          rw (no_limit, no_ok, other) refl,
          still_refused answer refl no_limit no_ok other,
        )
      ]
    ]
  ]

  module _ {W : Type 0} (attempt_once : Action W (Option Answer)) (sleep : ℕ → W → W) where
    -- Attempts whose outcomes are retryable, each with the delay after it. Each takes one off the
    -- retries that are left.
    pub data Retries : ℕ → W → ℕ → W → Type 0 where
      no_more : (left : ℕ) (w : W) → Retries left w left w
      retry :
          (left : ℕ) (w w' : W) (outcome : Option Answer) (delay : Option ℕ) (left' : ℕ) (v : W)
          → attempt_once w ≡ (outcome, w')
          → Retryable outcome delay
          → Retries left (pause redirects max is_failure attempt_once sleep delay w') left' v
          → Retries (suc left) w left' v

    -- the call ends with its last attempt
    pub record Sent (retries : ℕ) (w : W) (result : Result Answer TransportError) (w' : W)
        : Type 0 where
      pub left : ℕ
      pub before : W
      pub outcome : Option Answer
      pub earlier : Retries retries w left before
      pub last : attempt_once before ≡ (outcome, w')
      pub ends : Ends left outcome result

    Sent-here :
        (left : ℕ) (w w' : W) (outcome : Option Answer) (result : Result Answer TransportError)
        → attempt_once w ≡ (outcome, w')
        → Ends left outcome result
        → Sent left w result w'
    Sent-here left w w' outcome result h ends = record {
      left = left;
      before = w;
      outcome = outcome;
      earlier = no_more left w;
      last = h;
      ends = ends;
    }

    Sent-after :
        (left : ℕ) (w w' : W) (outcome : Option Answer) (delay : Option ℕ)
        (result : Result Answer TransportError) (v : W)
        → attempt_once w ≡ (outcome, w')
        → Retryable outcome delay
        → Sent left (pause redirects max is_failure attempt_once sleep delay w') result v
        → Sent (suc left) w result v
    Sent-after left w w' outcome delay result v h retryable sent = record {
      left = sent.left;
      before = sent.before;
      outcome = sent.outcome;
      earlier = retry left w w' outcome delay sent.left sent.before h retryable sent.earlier;
      last = sent.last;
      ends = sent.ends;
    }

    abbrev pub IsSent : ℕ → W → Result Answer TransportError × W → Type 0
    IsSent retries w r = Sent retries w r.0 r.1

    last_round-IsSent :
        (last : TransportError) (w w' : W) (outcome : Option Answer)
        → attempt_once w ≡ (outcome, w')
        → IsSent zero w (
            elim (round redirects max is_failure false last outcome)
                as (λ r. Action W (Result Answer TransportError)) [
                  | stop result ↦ pure result
                  | again delay next ↦
                      λ v. (err next, pause redirects max is_failure attempt_once sleep delay v)
                ]
              w')
    unfolding pause
    last_round-IsSent last w w' outcome h = elim (round-false_cases last outcome) [
      | inl (next, is_again, ends) ↦ rw is_again (Sent-here zero w w' outcome (err next) h ends)
      | inr (result, is_stop, ends) ↦ rw is_stop (Sent-here zero w w' outcome result h ends)
    ]

    more_rounds-IsSent :
        (left : ℕ) (last : TransportError) (w w' : W) (outcome : Option Answer)
        → ((next : TransportError) (v : W)
            → IsSent left v (send_loop redirects max is_failure attempt_once sleep left next v))
        → attempt_once w ≡ (outcome, w')
        → IsSent (suc left) w (
            elim (round redirects max is_failure true last outcome)
                as (λ r. Action W (Result Answer TransportError)) [
                  | stop result ↦ pure result
                  | again delay next ↦ λ v.
                      send_loop redirects max is_failure attempt_once sleep left next
                        (pause redirects max is_failure attempt_once sleep delay v)
                ]
              w')
    more_rounds-IsSent left last w w' outcome rest h =
        elim (round-true_cases (suc left) last outcome) [
          | inl (delay, next, is_again, retryable) ↦
              rw is_again (Sent-after left w w' outcome delay _ _ h retryable (rest next _))
          | inr (result, is_stop, ends) ↦
              rw is_stop (Sent-here (suc left) w w' outcome result h ends)
        ]

    send_loop-IsSent :
        (left : ℕ) (last : TransportError) (w : W)
        → IsSent left w (send_loop redirects max is_failure attempt_once sleep left last w)
    unfolding send_loop
    send_loop-IsSent zero last w =
        last_round-IsSent last w (attempt_once w).1 (attempt_once w).0 refl
    send_loop-IsSent (suc left) last w =
        more_rounds-IsSent left last w (attempt_once w).1 (attempt_once w).0
          (λ next v. send_loop-IsSent left next v) refl

-- A call makes at most `retries` attempts before its last one, and its result and state are those
-- of the last one. Every earlier attempt had no answer, a 429, an accepted answer that is a failure, or
-- a status that is not accepted and not 4xx, and is followed by the delay of its 429. An accepted
-- answer that is the last one is returned, so it is no failure or no retry is left. A 4xx other than
-- 429 fails at once. No answer, a 429 and any other status fail only when no retry is left, each with its
-- own error.
pub send_retrying-IsSent :
    {W : Type 0} (attempts : Attempts) (redirects : Redirects) (is_failure : Answer → Bool)
    (attempt_within : ℕ → Action W (Option Answer)) (sleep : ℕ → W → W) (w : W)
    → IsSent redirects attempts.retry_after_max is_failure
        (attempt_within attempts.timeout)
        sleep
        attempts.retries
        w
        (send_retrying attempts redirects is_failure attempt_within sleep w)
unfolding send_retrying
send_retrying-IsSent attempts redirects is_failure attempt_within sleep w =
    send_loop-IsSent redirects attempts.retry_after_max is_failure (attempt_within attempts.timeout)
      sleep attempts.retries failed w
