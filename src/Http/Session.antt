-- ===== src/Http/Session.antt =====
-- crates/server/src/http/session.rs: the sign-in cookie and the sign-in route. The JSON parser, the
-- check of a header value and Sony's check of the NPSSO are parameters.
pub mod Cookie
pub mod Npsso
pub mod SignIn
use psstore.Prelude.{
  ℕ, ◌+◌, Bool, true, false, not, ◌&&◌, ◌||◌, Option, none, some, List, [], ◌∷◌, ◌++◌, Result, ok,
  err, filter_map, find?, all, length, is_empty, leb, ◌==◌, if◌then◌else◌,
}
use psstore.Prelude.Texts.{Text, text, text_eq, bytes}
use psstore.Prelude.Actions.{Action, Attempt, ◌>>=◌, pure}
use psstore.Js.Trim.{is_whitespace, trim_start, trim_end}
use psstore.Js.Date.{◌>=>◌}
use psstore.Ids.{then_some}
use psstore.Ids.Bytes.{is_upper, is_digit}
use psstore.Errors.{AccountError}
use psstore.Sony.Json.{Value, as_object, as_str, get_field}
use psstore.Http.Problem.{
  Problem, new_problem, of_account, invalid_request, payload_too_large, unsupported_media_type,
  internal_error,
}

abbrev pub npsso_cookie_name : Text
npsso_cookie_name = text "npsso"

abbrev pub npsso_min_length : ℕ
npsso_min_length = 16

abbrev pub npsso_max_length : ℕ
npsso_max_length = 512

-- `str::trim`
unfoldable pub trim : Text → Text
unfolding trim_start trim_end
trim s = trim_end is_whitespace (trim_start is_whitespace s)

-- `str::split` on a character: at least one piece
abbrev pub add_to_first : ℕ → List Text → List Text
add_to_first c [] = (c ∷ []) ∷ []
add_to_first c (piece ∷ pieces) = (c ∷ piece) ∷ pieces

unfoldable pub split_on : ℕ → Text → List Text
split_on sep [] = [] ∷ []
split_on sep (c ∷ s) =
    let rest = split_on sep s in if c == sep then [] ∷ rest else add_to_first c rest

-- `str::split_once` on a character
abbrev pub add_before : ℕ → Option (Text × Text) → Option (Text × Text)
add_before c none = none
add_before c (some parts) = some (c ∷ parts.0, parts.1)

unfoldable pub split_once : ℕ → Text → Option (Text × Text)
split_once sep [] = none
split_once sep (c ∷ s) =
    let rest = split_once sep s in if c == sep then some ([], s) else add_before c rest

unfoldable pub flat_map : (Text → List Text) → List Text → List Text
flat_map f [] = []
flat_map f (s ∷ texts) = f s ++ flat_map f texts

-- a cookie pair, its name and value
unfoldable pub cookie_pair : Text → Option (Text × Text)
unfolding trim split_once
cookie_pair pair = split_once 61 (trim pair)

-- the cookie headers, each a text or none
unfoldable pub npsso_from_cookie : List (Option Text) → Option Text
unfolding cookie_pair trim split_on flat_map
npsso_from_cookie headers =
    find? (λ (pair : Text × Text). text_eq (trim pair.0) npsso_cookie_name)
      (filter_map cookie_pair (flat_map (split_on 59) (filter_map (λ header. header) headers)))
    >=> λ pair. then_some (not (is_empty (trim pair.1))) (trim pair.1)

abbrev pub is_npsso_byte : ℕ → Bool
is_npsso_byte b =
    is_upper b || leb 97 b && leb b 122 || is_digit b || (b == 46 || b == 95 || b == 126 || b == 45)

unfoldable pub is_valid_npsso : Text → Bool
unfolding bytes
is_valid_npsso value =
    leb npsso_min_length (length (bytes value))
    && leb (length (bytes value)) npsso_max_length
    && all is_npsso_byte (bytes value)

-- `to_ascii_lowercase`
unfoldable pub to_ascii_lowercase : Text → Text
to_ascii_lowercase [] = []
to_ascii_lowercase (c ∷ s) = (if leb 65 c && leb c 90 then c + 32 else c) ∷ to_ascii_lowercase s

abbrev pub first_text : List Text → Text
first_text [] = []
first_text (s ∷ texts) = s

-- the `Content-Type` header, which may be absent or no text
unfoldable pub media_type : Option (Option Text) → Option Text
unfolding trim split_on to_ascii_lowercase
media_type none = none
media_type (some header) =
    let media = trim (first_text (split_on 59 (elim header [ none ↦ [] | some value ↦ value ]))) in
    then_some (not (is_empty media)) (to_ascii_lowercase media)

unfoldable pub npsso_from_body : (List ℕ → Option Value) → List ℕ → Option Text
unfolding get_field is_valid_npsso
npsso_from_body parse_json body =
    parse_json body >=> as_object >=> get_field (text "npsso") >=> as_str >=> λ npsso.
    then_some (is_valid_npsso npsso) npsso

-- a body that was not read: over the limit, or another rejection
pub data BodyRejection : Type 0 where
  too_large unreadable : BodyRejection

abbrev pub of_rejection : BodyRejection → Problem
of_rejection too_large = new_problem payload_too_large
of_rejection unreadable = new_problem invalid_request

-- the response of the sign-in: a problem, or an empty answer with its `Set-Cookie`
pub data SignInResponse : Type 0 where
  problem : Problem → SignInResponse
  signed_in : Text → SignInResponse

unfoldable pub cookie_of : Text → Text
cookie_of npsso =
    npsso_cookie_name
    ++ text "="
    ++ npsso
    ++ text "; Max-Age=2592000; Path=/api; HttpOnly; Secure; SameSite=Strict"

-- the header that clears the cookie
abbrev pub expired_cookie : Text
expired_cookie =
    text
      "npsso=; Max-Age=0; Path=/api; Expires=Thu, 01 Jan 1970 00:00:00 GMT; HttpOnly; Secure; SameSite=Strict"

-- on the status of a response and its `Set-Cookie` headers
unfoldable pub expire_cookie_on_rejection : ℕ × List Text → ℕ × List Text
expire_cookie_on_rejection response =
    if response.0 == 401 then (response.0, response.1 ++ (expired_cookie ∷ [])) else response

abbrev pub sign_out : ℕ × List Text
sign_out = (204, expired_cookie ∷ [])

abbrev pub is_other_media : Option Text → Bool
is_other_media none = false
is_other_media (some media) = not (text_eq media (text "application/json"))

module _ {W : Type 0} (parse_json : List ℕ → Option Value) (is_header_value : Text → Bool)
    (verify_npsso : Text → Attempt W (Unit {0}) AccountError) where
  -- the match on the outcome of Sony's check
  unfoldable pub sign_in_response : Text → Result (Unit {0}) AccountError → SignInResponse
  unfolding cookie_of of_account new_problem
  sign_in_response npsso (ok done) =
      if is_header_value (cookie_of npsso)
      then signed_in (cookie_of npsso)
      else problem (new_problem internal_error)
  sign_in_response npsso (err error) = problem (of_account error)

  unfoldable pub sign_in_with : Option Text → Action W SignInResponse
  unfolding sign_in_response
  sign_in_with none = pure (problem (new_problem invalid_request))
  sign_in_with (some npsso) =
      verify_npsso npsso >>= λ outcome. pure (sign_in_response npsso outcome)

  unfoldable pub sign_in :
      Option (Option Text) → Result (List ℕ) BodyRejection → Action W SignInResponse
  unfolding media_type npsso_from_body sign_in_with new_problem
  sign_in content_type (err rejection) = pure (problem (of_rejection rejection))
  sign_in content_type (ok body) =
      if is_other_media (media_type content_type)
      then pure (problem (new_problem unsupported_media_type))
      else sign_in_with (npsso_from_body parse_json body)
