-- ===== src/Http/Session/Cookie.antt =====
-- A valid NPSSO comes back from the cookie as it was set.
use psstore.Prelude.{
  ℕ, ◌≡◌, refl, ap, ◌∙◌, inl, inr, true, false, some, List, [], ◌∷◌, ◌++◌, arith, all, is_empty,
  ltb, ◌==◌, filter_map, Bool-cases,
}
use psstore.Prelude.Texts.{Text, text, text_eq, bytes, utf8}
use psstore.Js.Trim.{is_whitespace, trim_start, trim_end}
use psstore.Http.Session.{
  first_text, cookie_of, add_to_first, trim, split_on, split_once, flat_map, cookie_pair,
  npsso_from_cookie, is_npsso_byte, is_valid_npsso, npsso_cookie_name,
}

-- the first byte of a character is safe only for a safe ASCII character
safe_char :
    (c : ℕ) (s : Text)
    → all is_npsso_byte (utf8 c ++ bytes s) ≡ true
    → (is_npsso_byte c ≡ true) × (all is_npsso_byte (bytes s) ≡ true)
unfolding utf8
safe_char c s h = elim (Bool-cases (ltb c 0x80)) [
  | inl ascii ↦ ground (arith, h, ascii)
  | inr other ↦ absurd (ground (arith, h, other))
]

safe_chars : (s : Text) → all is_npsso_byte (bytes s) ≡ true → all is_npsso_byte s ≡ true
unfolding bytes
safe_chars [] h = refl
safe_chars (c ∷ s) h = let parts = safe_char c s h in ground (arith, parts.0, safe_chars s parts.1)

-- a safe character is no white space, no semicolon and no equals sign
safe_is_plain : (c : ℕ) → is_npsso_byte c ≡ true → (is_whitespace c ≡ false) × ((c == 59) ≡ false)
safe_is_plain c h = (ground (arith, h), ground (arith, h))

safe_split_on : (s : Text) → all is_npsso_byte s ≡ true → split_on 59 s ≡ s ∷ []
unfolding split_on
safe_split_on [] h = refl
safe_split_on (c ∷ s) h = ground (arith, h, safe_split_on s, safe_is_plain c)

safe_trim_start : (s : Text) → all is_npsso_byte s ≡ true → trim_start is_whitespace s ≡ s
unfolding trim_start
safe_trim_start [] h = refl
safe_trim_start (c ∷ s) h = ground (arith, h, safe_is_plain c)

safe_trim_end : (s : Text) → all is_npsso_byte s ≡ true → trim_end is_whitespace s ≡ s
unfolding trim_end
safe_trim_end [] h = refl
safe_trim_end (c ∷ s) h = ground (arith, h, safe_trim_end s, safe_is_plain c)

safe_trim : (s : Text) → all is_npsso_byte s ≡ true → trim s ≡ s
unfolding trim
safe_trim s h = rw (safe_trim_start s h, safe_trim_end s h) refl

-- the pair as the browser sends it back
abbrev pub sent_pair : Text → Text
sent_pair value = npsso_cookie_name ++ text "=" ++ value

split_on-sent_pair :
    (v : Text) → all is_npsso_byte v ≡ true → split_on 59 (sent_pair v) ≡ sent_pair v ∷ []
unfolding split_on
split_on-sent_pair v h = rw (safe_split_on v h) refl

trim-sent_pair :
    (v : Text) → all is_npsso_byte v ≡ true → is_empty v ≡ false → trim (sent_pair v) ≡ sent_pair v
unfolding trim trim_start trim_end
trim-sent_pair v h some_char = rw (safe_trim_end v h, some_char) refl

cookie_pair-sent_pair :
    (v : Text)
    → all is_npsso_byte v ≡ true
    → is_empty v ≡ false
    → cookie_pair (sent_pair v) ≡ some (npsso_cookie_name, v)
unfolding cookie_pair split_once
cookie_pair-sent_pair v h some_char = rw (trim-sent_pair v h some_char) refl

valid_some : (v : Text) → is_valid_npsso v ≡ true → is_empty v ≡ false
unfolding is_valid_npsso bytes
valid_some [] h = absurd (ground (arith, h))
valid_some (c ∷ s) h = refl

valid_safe : (v : Text) → is_valid_npsso v ≡ true → all is_npsso_byte v ≡ true
unfolding is_valid_npsso
valid_safe v h = safe_chars v (ground (arith, h))

-- An NPSSO that the sign-in accepts is read back unchanged from the cookie that carries it.
pub npsso_from_cookie-sent_pair :
    (v : Text) → is_valid_npsso v ≡ true → npsso_from_cookie (some (sent_pair v) ∷ []) ≡ some v
unfolding npsso_from_cookie flat_map text_eq trim trim_start trim_end
npsso_from_cookie-sent_pair v h =
    let safe = valid_safe v h in
    let some_char = valid_some v h in
    rw
      (
        split_on-sent_pair v safe,
        filter_map,
        cookie_pair-sent_pair v safe some_char,
        safe_trim_start v safe,
        safe_trim_end v safe,
        some_char,
      )
      refl

first_text-add_to_first :
    (c : ℕ) (pieces : List Text) → first_text (add_to_first c pieces) ≡ c ∷ first_text pieces
first_text-add_to_first c [] = refl
first_text-add_to_first c (piece ∷ pieces) = refl

abbrev add_all : Text → List Text → List Text
add_all [] pieces = pieces
add_all (c ∷ s) pieces = add_to_first c (add_all s pieces)

first_text-add_all :
    (s : Text) (pieces : List Text) → first_text (add_all s pieces) ≡ s ++ first_text pieces
first_text-add_all [] pieces = refl
first_text-add_all (c ∷ s) pieces =
    first_text-add_to_first c (add_all s pieces) ∙ ap (λ t. c ∷ t) (first_text-add_all s pieces)

-- the text before the first semicolon
first_piece :
    (s rest : Text) → all is_npsso_byte s ≡ true → first_text (split_on 59 (s ++ 59 ∷ rest)) ≡ s
unfolding split_on
first_piece [] rest h = refl
first_piece (c ∷ s) rest h = ground (
  arith,
  h,
  first_piece s rest,
  safe_is_plain c,
  first_text-add_to_first c (split_on 59 (s ++ 59 ∷ rest)),
)

cookie_pair-cookie_of :
    (v : Text) → all is_npsso_byte v ≡ true → first_text (split_on 59 (cookie_of v)) ≡ sent_pair v
unfolding split_on cookie_of
cookie_pair-cookie_of v h =
    first_text-add_all (text "npsso=") (split_on 59 (v ++ 59 ∷ flags))
    ∙ ap (λ s. text "npsso=" ++ s) (first_piece v flags h)
  where
    flags : Text
    flags = text " Max-Age=2592000; Path=/api; HttpOnly; Secure; SameSite=Strict"

-- The pair of a `Set-Cookie` header, which the browser sends back, gives the NPSSO.
pub npsso_from_cookie-cookie_of :
    (v : Text)
    → is_valid_npsso v ≡ true
    → npsso_from_cookie (some (first_text (split_on 59 (cookie_of v))) ∷ []) ≡ some v
npsso_from_cookie-cookie_of v h =
    rw (cookie_pair-cookie_of v (valid_safe v h)) (npsso_from_cookie-sent_pair v h)
