-- ===== src/Http/Session/SignIn.antt =====
-- A sign-in sets the cookie only for an NPSSO that Sony accepted.
use psstore.Prelude.{
  sym, ap, ◌∙◌, [], ◌∷◌, ◌++◌, arith, ℕ, ◌≡◌, refl, inl, inr, Bool, true, false, Option, none, some,
  List, Result, ok, err, Bool-cases,
}
use psstore.Prelude.Texts.{Text, text, text_eq_iff}
use psstore.Prelude.Actions.{Attempt}
use mathlib.Core.Path.{subst}
use psstore.Js.Date.{◌>=>◌}
use psstore.Ids.{then_some}
use psstore.Ids.Formats.{then_some_eq}
use psstore.Errors.{AccountError}
use psstore.Sony.Json.{Value, as_object, as_str, get_field}
use psstore.Http.Problem.{
  Problem, new_problem, of_account, invalid_request, unsupported_media_type, internal_error,
}
use psstore.Http.Session.Npsso.{IsNpsso, is_valid_npsso-IsNpsso}
use psstore.Http.Session.Cookie.{npsso_from_cookie-cookie_of}
use psstore.Http.Session.{
  npsso_from_cookie, first_text, split_on, of_rejection, is_valid_npsso, npsso_from_body,
  media_type, BodyRejection, SignInResponse, problem, signed_in, cookie_of, is_other_media,
  sign_in_response, sign_in_with, sign_in,
}

abbrev or_empty : Option Text → Text
or_empty none = []
or_empty (some s) = s

module _ {W : Type 0} (parse_json : List ℕ → Option Value) (is_header_value : Text → Bool)
    (verify_npsso : Text → Attempt W (Unit {0}) AccountError) where
  -- the text at `npsso` of a JSON body
  abbrev pub given_text : List ℕ → Option Text
  given_text body = parse_json body >=> as_object >=> get_field (text "npsso") >=> as_str

  npsso_of_given :
      (body : List ℕ)
      → npsso_from_body parse_json body
        ≡ (given_text body >=> λ found. then_some (is_valid_npsso found) found)
  unfolding npsso_from_body get_field
  npsso_of_given body = refl

  given_valid :
      (body : List ℕ) (npsso : Text)
      → npsso_from_body parse_json body ≡ some npsso
      → (given_text body ≡ some npsso) × (is_valid_npsso npsso ≡ true)
  given_valid body npsso h = go (given_text body) refl (sym (npsso_of_given body) ∙ h)
    where
      go :
          (o : Option Text)
          → given_text body ≡ o
          → (o >=> λ found. then_some (is_valid_npsso found) found) ≡ some npsso
          → (given_text body ≡ some npsso) × (is_valid_npsso npsso ≡ true)
      go none same k = absurd (cc k)
      go (some found) same k =
          let parts = then_some_eq (is_valid_npsso found) found npsso k in
          (same ∙ ap some parts.1, subst (λ s. is_valid_npsso s ≡ true) parts.1 parts.0)

  none_valid :
      (body : List ℕ) (npsso : Text)
      → npsso_from_body parse_json body ≡ none
      → given_text body ≡ some npsso
      → IsNpsso npsso
      → ⊥
  none_valid body npsso h given valid =
      let found = ap (λ o. o >=> λ found. then_some (is_valid_npsso found) found) given in
      let kept = ap (λ b. then_some b npsso) ((is_valid_npsso-IsNpsso npsso).1 valid) in
      cc (h, npsso_of_given body, found, kept)

  -- a media type that is given and is not JSON
  abbrev pub HasOtherMedia : Option (Option Text) → Type 0
  HasOtherMedia content_type =
      (media : Text) × (media_type content_type ≡ some media)
      × ((media ≡ text "application/json") → ⊥)

  other_media_of :
      (o : Option Text)
      → is_other_media o ≡ true
      → (media : Text) × (o ≡ some media) × ((media ≡ text "application/json") → ⊥)
  other_media_of none h = absurd (cc h)
  other_media_of (some media) h =
      (media, refl, λ same. ground (arith, h, (text_eq_iff media (text "application/json")).1 same))

  no_other_media :
      (o : Option Text)
      → is_other_media o ≡ false
      → ((media : Text) × (o ≡ some media) × ((media ≡ text "application/json") → ⊥))
      → ⊥
  no_other_media none h (media, same, other) = cc same
  no_other_media (some given) h (media, same, other) = other (
      subst (λ o. or_empty o ≡ text "application/json") same
        ((text_eq_iff given (text "application/json")).0 (ground (arith, h))))

  -- the `Set-Cookie` header of an NPSSO
  abbrev pub set_cookie : Text → Text
  set_cookie npsso =
      text "npsso="
      ++ npsso
      ++ text "; Max-Age=2592000; Path=/api; HttpOnly; Secure; SameSite=Strict"

  -- A valid NPSSO of a JSON body, which Sony accepted. The cookie carries it: the pair that the
  -- browser sends back gives it again.
  pub record IsSignedIn (content_type : Option (Option Text)) (body : List ℕ) (w w' : W)
      (cookie : Text) : Type 0 where
    pub npsso : Text
    pub valid : IsNpsso npsso
    pub given : given_text body ≡ some npsso
    pub json_media : HasOtherMedia content_type → ⊥
    pub accepted : verify_npsso npsso w ≡ (ok tt, w')
    pub cookie_text : cookie ≡ set_cookie npsso
    pub read_back : npsso_from_cookie (some (first_text (split_on 59 cookie)) ∷ []) ≡ some npsso

  -- the problem of a sign-in that sets no cookie, by its cause; Sony is asked only in the last two
  pub data IsRefused (content_type : Option (Option Text)) (body : List ℕ) (w : W)
      : Problem → W → Type 0 where
    other_media :
        HasOtherMedia content_type
        → IsRefused content_type body w (new_problem unsupported_media_type) w
    no_npsso :
        (HasOtherMedia content_type → ⊥)
        → ((npsso : Text) → given_text body ≡ some npsso → IsNpsso npsso → ⊥)
        → IsRefused content_type body w (new_problem invalid_request) w
    not_accepted :
        (npsso : Text) (error : AccountError) (w' : W)
        → (HasOtherMedia content_type → ⊥)
        → given_text body ≡ some npsso
        → IsNpsso npsso
        → verify_npsso npsso w ≡ (err error, w')
        → IsRefused content_type body w (of_account error) w'
    no_header :
        (npsso : Text) (w' : W)
        → (HasOtherMedia content_type → ⊥)
        → given_text body ≡ some npsso
        → IsNpsso npsso
        → verify_npsso npsso w ≡ (ok tt, w')
        → is_header_value (set_cookie npsso) ≡ false
        → IsRefused content_type body w (new_problem internal_error) w'

  abbrev pub IsAnswer :
      Option (Option Text) → Result (List ℕ) BodyRejection → W → SignInResponse × W → Type 0
  IsAnswer content_type (ok body) w (signed_in cookie, w') =
      IsSignedIn content_type body w w' cookie
  IsAnswer content_type (ok body) w (problem p, w') = IsRefused content_type body w p w'
  IsAnswer content_type (err rejection) w r = r ≡ (problem (of_rejection rejection), w)

  response_cases :
      (content_type : Option (Option Text)) (body : List ℕ) (w w' : W) (npsso : Text)
      (r : Result (Unit {0}) AccountError)
      → npsso_from_body parse_json body ≡ some npsso
      → is_other_media (media_type content_type) ≡ false
      → verify_npsso npsso w ≡ (r, w')
      → IsAnswer content_type
          (ok body)
          w
          (sign_in_response parse_json is_header_value verify_npsso npsso r, w')
  unfolding sign_in_response
  response_cases content_type body w w' npsso (err error) given media asked =
      let (same, valid) = given_valid body npsso given in
      not_accepted npsso error w' (no_other_media (media_type content_type) media) same
        ((is_valid_npsso-IsNpsso npsso).0 valid) asked
  response_cases content_type body w w' npsso (ok done) given media asked =
      let (same, valid) = given_valid body npsso given in
      let is_npsso = (is_valid_npsso-IsNpsso npsso).0 valid in
      let no_other = no_other_media (media_type content_type) media in
      elim (Bool-cases (is_header_value (cookie_of npsso))) [
        | inl fits ↦ rw fits (record {
          npsso = npsso;
          valid = is_npsso;
          given = same;
          json_media = no_other;
          accepted = asked;
          cookie_text = refl;
          read_back = npsso_from_cookie-cookie_of npsso valid;
        })
        | inr unfit ↦ rw unfit (no_header npsso w' no_other same is_npsso asked unfit)
      ]

  sign_in_with-IsAnswer :
      (content_type : Option (Option Text)) (body : List ℕ) (w : W) (o : Option Text)
      → npsso_from_body parse_json body ≡ o
      → is_other_media (media_type content_type) ≡ false
      → IsAnswer content_type (ok body) w (sign_in_with parse_json is_header_value verify_npsso o w)
  unfolding sign_in_with
  sign_in_with-IsAnswer content_type body w none given media =
      no_npsso (no_other_media (media_type content_type) media)
        (λ npsso. none_valid body npsso given)
  sign_in_with-IsAnswer content_type body w (some npsso) given media =
      response_cases content_type body w (verify_npsso npsso w).1 npsso (verify_npsso npsso w).0
        given media refl

  -- A sign-in sets the cookie exactly for a body that was read, with no media type other than JSON and
  -- an NPSSO of 16 to 512 cookie-safe bytes that Sony accepted; the cookie carries this NPSSO, and its
  -- pair gives it back. Else it answers the problem of the first check that fails: an unread body,
  -- another media type and a missing or invalid NPSSO without asking Sony, and then Sony's failure, or
  -- a text that is no header.
  pub sign_in-IsAnswer :
      (content_type : Option (Option Text)) (body : Result (List ℕ) BodyRejection) (w : W)
      → IsAnswer content_type body w
          (sign_in parse_json is_header_value verify_npsso content_type body w)
  unfolding sign_in
  sign_in-IsAnswer content_type (err rejection) w = refl
  sign_in-IsAnswer content_type (ok body) w =
      elim (Bool-cases (is_other_media (media_type content_type))) [
        | inl other ↦ rw other (other_media (other_media_of (media_type content_type) other))
        | inr json ↦
            rw json (
              sign_in_with-IsAnswer content_type body w (npsso_from_body parse_json body) refl json)
      ]
