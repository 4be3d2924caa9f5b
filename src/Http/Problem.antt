-- ===== src/Http/Problem.antt =====
-- crates/server/src/http/errors.rs: the public failures of the routes.
pub mod Status
use psstore.Prelude.{ℕ, ◌-◌, ◌^◌, min, Option, none, some, ltb, if◌then◌else◌}
use psstore.Prelude.Texts.{Text, text}
use psstore.Errors.{
  UpstreamError, unavailable, query_rotated, rate_limited, GameLookupError, not_found,
  lookup_upstream, AccountError, session_rejected, account_upstream,
}

pub data ProblemCode : Type 0 where
  invalid_request no_route game_not_found rejected_session unsupported_media_type : ProblemCode
  payload_too_large upstream_unavailable upstream_query_rotated : ProblemCode
  upstream_rate_limited internal_error : ProblemCode

unfoldable pub status : ProblemCode → ℕ
status invalid_request = 400
status no_route = 404
status game_not_found = 404
status rejected_session = 401
status unsupported_media_type = 415
status payload_too_large = 413
status upstream_unavailable = 502
status upstream_query_rotated = 502
status upstream_rate_limited = 503
status internal_error = 500

unfoldable pub title : ProblemCode → Text
title invalid_request = text "Bad Request"
title no_route = text "Not Found"
title game_not_found = text "Not Found"
title rejected_session = text "Unauthorized"
title unsupported_media_type = text "Unsupported Media Type"
title payload_too_large = text "Content Too Large"
title upstream_unavailable = text "Bad Gateway"
title upstream_query_rotated = text "Bad Gateway"
title upstream_rate_limited = text "Service Unavailable"
title internal_error = text "Internal Server Error"

unfoldable pub detail : ProblemCode → Text
detail invalid_request = text "The request has an invalid parameter, path, or body."
detail no_route = text "No API route has this path and method."
detail game_not_found = text "No PS5 game in the Finnish store has this id."
detail rejected_session = text "The Sony sign-in is missing or no longer valid."
detail unsupported_media_type = text "The request body must be application/json."
detail payload_too_large = text "The request body is too large."
detail upstream_unavailable = text "The PlayStation Store is unavailable. Try again later."
detail upstream_query_rotated =
    text "The PlayStation Store no longer accepts a stored query of this server."
detail upstream_rate_limited =
    text "The PlayStation Store limited the request rate. Try again later."
detail internal_error = text "The server failed to handle the request."

pub record Problem : Type 0 where
  pub type_uri : Text
  pub title_text : Text
  pub status_code : ℕ
  pub detail_text : Text
  pub code : ProblemCode
  pub retry_after_seconds : Option ℕ

-- `Problem::new`
unfoldable pub new_problem : ProblemCode → Problem
unfolding title status detail
new_problem code = record {
  type_uri = text "about:blank";
  title_text = title code;
  status_code = status code;
  detail_text = detail code;
  code = code;
  retry_after_seconds = none;
}

-- `MAX_RETRY_AFTER_SECONDS`
abbrev pub max_retry_after_seconds : ℕ
max_retry_after_seconds = 2 ^ 31 - 1

-- `u32::try_from(seconds).map_or(…)`
unfoldable pub clamp_seconds : ℕ → ℕ
clamp_seconds seconds =
    if ltb seconds (2 ^ 32) then min seconds max_retry_after_seconds else max_retry_after_seconds

abbrev pub clamp_delay : Option ℕ → Option ℕ
clamp_delay none = none
clamp_delay (some seconds) = some (clamp_seconds seconds)

unfoldable pub of_upstream : UpstreamError → Problem
unfolding new_problem clamp_seconds
of_upstream (unavailable message) = new_problem upstream_unavailable
of_upstream (query_rotated message operation_name) = new_problem upstream_query_rotated
of_upstream (rate_limited message delay) = record (new_problem upstream_rate_limited) {
  retry_after_seconds = clamp_delay delay;
}

unfoldable pub of_lookup : GameLookupError → Problem
unfolding new_problem of_upstream
of_lookup (not_found id) = new_problem game_not_found
of_lookup (lookup_upstream error) = of_upstream error

unfoldable pub of_account : AccountError → Problem
unfolding new_problem of_upstream
of_account (session_rejected message) = new_problem rejected_session
of_account (account_upstream error) = of_upstream error
