-- ===== src/Errors.antt =====
-- crates/domain/src/errors.rs: the failures of the lookups, and their tags for the logs.
use psstore.Prelude.{ℕ, Option}
use psstore.Prelude.Texts.{Text, text}
use psstore.Ids.{GameId}

pub data UpstreamError : Type 0 where
  unavailable : Text → UpstreamError
  query_rotated : Text → Text → UpstreamError
  rate_limited : Text → Option ℕ → UpstreamError

unfoldable pub upstream_tag : UpstreamError → Text
upstream_tag (unavailable message) = text "UpstreamUnavailable"
upstream_tag (query_rotated message operation_name) = text "UpstreamQueryRotated"
upstream_tag (rate_limited message retry_after_seconds) = text "UpstreamRateLimited"

pub data GameLookupError : Type 0 where
  not_found : GameId → GameLookupError
  lookup_upstream : UpstreamError → GameLookupError

pub data AccountError : Type 0 where
  session_rejected : Text → AccountError
  account_upstream : UpstreamError → AccountError

unfoldable pub account_tag : AccountError → Text
unfolding upstream_tag
account_tag (session_rejected message) = text "SessionRejected"
account_tag (account_upstream error) = upstream_tag error
