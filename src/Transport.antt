-- ===== src/Transport.antt =====
-- crates/server/src/sources/transport.rs: an outbound call with a bounded retry. The HTTP client is
-- a parameter: an attempt answers or fails, and changes an unknown state. Delays are in nanoseconds.
pub mod Retry
pub mod Body
use psstore.Prelude.{
  ℕ, zero, suc, ◌+◌, ◌-◌, ◌*◌, ◌^◌, min, Bool, true, false, not, ◌&&◌, ◌||◌, Option, none, some,
  List, [], ◌∷◌, ◌++◌, ltb, leb, ◌==◌, length, is_empty, all, if◌then◌else◌, Result, ok, err,
}
use psstore.Prelude.Texts.{Text, bytes}
use psstore.Prelude.Actions.{Action, Attempt, ◌>>=◌, pure}
use psstore.Js.Trim.{is_whitespace, trim_start, trim_end}
use psstore.Ids.Bytes.{is_digit}

-- `MAX_BODY_BYTES`
abbrev pub max_body_bytes : ℕ
max_body_bytes = 16 * 1024 * 1024

pub data Redirects : Type 0 where
  follow manual : Redirects

pub record Attempts : Type 0 where
  pub timeout : ℕ
  pub retries : ℕ
  pub retry_after_max : ℕ

pub data TransportError : Type 0 where
  rate_limited : Option ℕ → TransportError
  status : ℕ → TransportError
  failed : TransportError

-- the headers by their one use here: the text of `Retry-After`, when it is one
pub record Answer : Type 0 where
  pub code : ℕ
  pub retry_after : Option Text
  pub body : List ℕ

-- the loop of `read` over the chunks; `none` is a chunk that fails
unfoldable pub read_chunks : List ℕ → List (Option (List ℕ)) → Option (List ℕ)
read_chunks body [] = some body
read_chunks body (none ∷ chunks) = none
read_chunks body (some chunk ∷ chunks) =
    let rest = read_chunks (body ++ chunk) chunks in
    if ltb max_body_bytes (length body + length chunk) then none else rest

-- the value of a run of digits
unfoldable pub number_of : ℕ → List ℕ → ℕ
number_of value [] = value
number_of value (b ∷ bs) = number_of (value * 10 + (b - 48)) bs

-- `parse::<u64>().unwrap_or(u64::MAX)` on digits
unfoldable pub parse_u64_or_max : List ℕ → ℕ
unfolding number_of
parse_u64_or_max digits =
    let value = number_of 0 digits in if ltb value (2 ^ 64) then value else 2 ^ 64 - 1

unfoldable pub parse_retry_after_value : Text → ℕ → Option ℕ
unfolding trim_start trim_end bytes parse_u64_or_max
parse_retry_after_value value max =
    let trimmed = bytes (trim_end is_whitespace (trim_start is_whitespace value)) in
    if is_empty trimmed || not (all is_digit trimmed)
    then none
    else some (min (parse_u64_or_max trimmed * 1000000000) max)

unfoldable pub parse_retry_after : Option Text → ℕ → Option ℕ
unfolding parse_retry_after_value
parse_retry_after none max = none
parse_retry_after (some value) max = parse_retry_after_value value max

abbrev pub in_range : ℕ → ℕ → ℕ → Bool
in_range low high code = leb low code && ltb code high

abbrev pub is_manual : Redirects → Bool
is_manual manual = true
is_manual follow = false

-- the test of a successful answer
unfoldable pub is_accepted : Redirects → ℕ → Bool
is_accepted redirects code = in_range 200 300 code || is_manual redirects && in_range 300 400 code

-- What one round of the loop ends with: another round, after a delay and with a new `last`, or the
-- result of the call.
pub data Round : Type 0 where
  again : Option ℕ → TransportError → Round
  stop : Result Answer TransportError → Round

module _ (redirects : Redirects) (retry_after_max : ℕ) (is_failure : Answer → Bool) where
  -- the body of the loop, on the outcome of its attempt; `more` is `attempt < attempts.retries`
  unfoldable pub round : Bool → TransportError → Option Answer → Round
  unfolding is_accepted parse_retry_after
  round more last none = again none failed
  round more last (some answer) =
      if answer.code == 429
      then (if more
          then again (parse_retry_after answer.retry_after retry_after_max) last
          else stop (err (rate_limited (parse_retry_after answer.retry_after retry_after_max))))
      else if is_accepted redirects answer.code
      then (if more && is_failure answer then again none last else stop (ok answer))
      else if in_range 400 500 answer.code
      then stop (err (status answer.code))
      else again none (status answer.code)

  module _ {W : Type 0} (attempt_once : Action W (Option Answer)) (sleep : ℕ → W → W) where
    -- `if let Some(delay) = retry_after.filter(|d| !d.is_zero())`
    unfoldable pub pause : Option ℕ → W → W
    pause none w = w
    pause (some delay) w = if delay == 0 then w else sleep delay w

    -- The loop; the first argument is `attempts.retries - attempt`. `last` is the error after the
    -- rounds.
    unfoldable pub send_loop : ℕ → TransportError → Attempt W Answer TransportError
    unfolding round pause
    send_loop zero last = attempt_once >>= λ outcome. elim (round false last outcome) [
      | stop result ↦ pure result
      | again delay next ↦ λ w. (err next, pause delay w)
    ]
    send_loop (suc left) last = attempt_once >>= λ outcome. elim (round true last outcome) [
      | stop result ↦ pure result
      | again delay next ↦ λ w. send_loop left next (pause delay w)
    ]

-- `send_retrying`; the timeout of an attempt is part of `attempt_once`
unfoldable pub send_retrying :
    {W : Type 0}
    → Attempts
    → Redirects
    → (Answer → Bool)
    → (ℕ → Action W (Option Answer))
    → (ℕ → W → W)
    → Attempt W Answer TransportError
unfolding send_loop
send_retrying attempts redirects is_failure attempt_within sleep =
    send_loop redirects attempts.retry_after_max is_failure (attempt_within attempts.timeout) sleep
      attempts.retries failed

-- `send`
unfoldable pub send :
    {W : Type 0}
    → Attempts
    → Redirects
    → (ℕ → Action W (Option Answer))
    → (ℕ → W → W)
    → Attempt W Answer TransportError
unfolding send_retrying
send attempts redirects attempt_within sleep =
    send_retrying attempts redirects (λ answer. false) attempt_within sleep
