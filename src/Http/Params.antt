-- ===== src/Http/Params.antt =====
-- crates/server/src/http/params.rs: the parameters of a request. The decoder of form pairs and the
-- 64-bit floating point numbers are parameters.
pub mod Bounds
use psstore.Prelude.{
  ℕ, zero, suc, ◌+◌, ◌-◌, Bool, true, false, not, ◌&&◌, ◌||◌, Option, none, some, List, [], ◌∷◌,
  Result, ok, err, ◌>>=◌, filter, map, length, is_empty, ltb, leb, ◌==◌, if◌then◌else◌,
}
use psstore.Prelude.Texts.{Text, text, text_eq, bytes}
use psstore.Js.Trim.{js_trim}
use psstore.Js.Date.{◌>=>◌}
use psstore.Ids.{GameId, game_id_from_path, GenreKey, parse_genre_key, BrowseOrder, parse_order}
use psstore.Ids.Bytes.{is_digit}
use psstore.Sony.Json.{ok_or}

abbrev pub default_page_size : ℕ
default_page_size = 60

abbrev pub max_page_size : ℕ
max_page_size = 120

abbrev pub search_max_page_size : ℕ
search_max_page_size = 50

abbrev pub search_max_term_length : ℕ
search_max_term_length = 100

pub data InvalidRequest : Type 0 where
  invalid : InvalidRequest

-- `application::Page`
pub record Page : Type 0 where
  pub offset : ℕ
  pub size : ℕ

-- what is asked of `f64`; `exceeds_safe` is `abs() > MAX_SAFE_INTEGER`, `to_u64` is `as u64`
pub record Float : Type 1 where
  pub F : Type 0
  pub of_nat : ℕ → F
  pub minus_one : F
  pub infinity : F
  pub add : F → F → F
  pub mul : F → F → F
  pub parse : Text → Option F
  pub is_finite : F → Bool
  pub is_integral : F → Bool
  pub exceeds_safe : F → Bool
  pub is_negative : F → Bool
  pub to_u64 : F → ℕ

-- the digits at the start of the bytes: how many, and the rest
unfoldable pub skip_digits : List ℕ → ℕ × List ℕ
skip_digits [] = (0, [])
skip_digits (b ∷ bs) =
    let rest = skip_digits bs in if is_digit b then (rest.0 + 1, rest.1) else (0, b ∷ bs)

abbrev pub is_byte : ℕ → ℕ → Bool
is_byte a b = a == b

-- the rest after a point and its digits, with their number
unfoldable pub skip_fraction : List ℕ → ℕ × List ℕ
unfolding skip_digits
skip_fraction [] = (0, [])
skip_fraction (b ∷ bs) = if b == 46 then skip_digits bs else (0, b ∷ bs)

-- the rest after a sign
unfoldable pub skip_sign : List ℕ → List ℕ
skip_sign [] = []
skip_sign (b ∷ bs) = if b == 43 || b == 45 then bs else b ∷ bs

-- whether the rest is empty, or an exponent with at least one digit
unfoldable pub is_exponent : List ℕ → Bool
unfolding skip_sign skip_digits
is_exponent [] = true
is_exponent (b ∷ bs) =
    if b == 101 || b == 69
    then (let digits = skip_digits (skip_sign bs) in not (digits.0 == 0) && is_empty digits.1)
    else false

unfoldable pub is_decimal_literal : Text → Bool
unfolding bytes skip_digits skip_fraction is_exponent
is_decimal_literal s =
    let whole = skip_digits (bytes s) in
    let fraction = skip_fraction whole.1 in
    not (whole.0 + fraction.0 == 0) && is_exponent fraction.1

-- `char::to_digit`
unfoldable pub to_digit : ℕ → ℕ → Option ℕ
to_digit radix c =
    let value =
      if leb 48 c && leb c 57
      then c - 48
      else if leb 97 c && leb c 122
      then c - 87
      else if leb 65 c && leb c 90
      then c - 55
      else 36 in
    if ltb value radix then some value else none

-- `str::strip_prefix`
unfoldable pub strip_prefix : Text → Text → Option Text
strip_prefix [] s = some s
strip_prefix (c ∷ pat) [] = none
strip_prefix (c ∷ pat) (d ∷ s) = let rest = strip_prefix pat s in if c == d then rest else none

abbrev pub radix_prefixes : List (Text × ℕ)
radix_prefixes =
    (text "0x", 16)
    ∷ (text "0X", 16)
    ∷ (text "0o", 8)
    ∷ (text "0O", 8)
    ∷ (text "0b", 2)
    ∷ (text "0B", 2)
    ∷ []

-- the digits after the first prefix that the text has, with its radix
unfoldable pub radix_digits : List (Text × ℕ) → Text → Option (Text × ℕ)
unfolding strip_prefix
radix_digits [] s = none
radix_digits (prefix ∷ prefixes) s =
    let later = radix_digits prefixes s in
    elim (strip_prefix prefix.0 s) [ none ↦ later | some digits ↦ some (digits, prefix.1) ]

-- the sign of a text, and what follows it
unfoldable pub split_sign : Text → Bool × Text
split_sign [] = (false, [])
split_sign (c ∷ s) = if c == 43 then (false, s) else if c == 45 then (true, s) else (false, c ∷ s)

-- the value of the pairs of one key; a repeated key is invalid
unfoldable pub only_value : List (Text × Text) → Result (Option Text) InvalidRequest
only_value [] = ok none
only_value (pair ∷ []) = ok (some pair.1)
only_value (pair ∷ again ∷ more) = err invalid

unfoldable pub single : List (Text × Text) → Text → Result (Option Text) InvalidRequest
unfolding only_value
single pairs key = only_value (filter (λ (pair : Text × Text). text_eq pair.0 key) pairs)

-- `utf16_len`
unfoldable pub utf16_len : Text → ℕ
utf16_len [] = 0
utf16_len (c ∷ s) = (if ltb c 0x10000 then 1 else 2) + utf16_len s

abbrev pub is_above : Option ℕ → ℕ → Bool
is_above none value = false
is_above (some max) value = ltb max value

module _ (float : Float) where
  -- `try_fold` of `radix_number`
  unfoldable pub radix_fold : ℕ → float.F → Text → Option float.F
  unfolding to_digit
  radix_fold radix value [] = some value
  radix_fold radix value (c ∷ digits) = to_digit radix c >=> λ digit.
      radix_fold radix (float.add (float.mul value (float.of_nat radix)) (float.of_nat digit))
        digits

  unfoldable pub radix_number : Text → ℕ → Option float.F
  unfolding radix_fold
  radix_number digits radix =
      if is_empty digits then none else radix_fold radix (float.of_nat 0) digits

  abbrev pub signed : Bool → float.F → float.F
  signed is_minus value = float.mul (if is_minus then float.minus_one else float.of_nat 1) value

  -- the end of `js_number`
  unfoldable pub decimal_number : Bool × Text → Option float.F
  unfolding is_decimal_literal
  decimal_number parts =
      if text_eq parts.1 (text "Infinity")
      then some (signed parts.0 float.infinity)
      else if not (is_decimal_literal parts.1)
      then none
      else (float.parse parts.1 >=> λ value. some (signed parts.0 value))

  unfoldable pub js_number : Text → Option float.F
  unfolding js_trim radix_digits radix_number split_sign decimal_number
  js_number raw =
      let s = js_trim raw in
      if is_empty s then some (float.of_nat 0) else elim (radix_digits radix_prefixes s) [
        | some found ↦ radix_number found.0 found.1
        | none ↦ decimal_number (split_sign s)
      ]

  -- the checks of `integer_in` on the number
  unfoldable pub checked_integer : ℕ → Option ℕ → float.F → Result ℕ InvalidRequest
  checked_integer min max value =
      if not (float.is_finite value) || not (float.is_integral value) || float.exceeds_safe value
      then err invalid
      else if float.is_negative value
      then err invalid
      else if ltb (float.to_u64 value) min || is_above max (float.to_u64 value)
      then err invalid
      else ok (float.to_u64 value)

  unfoldable pub integer_in : Text → ℕ → Option ℕ → Result ℕ InvalidRequest
  unfolding js_number checked_integer
  integer_in s min max = ok_or invalid (js_number s) >>= checked_integer min max

  -- the match on the value of a number key
  abbrev pub integer_or : ℕ → ℕ → Option ℕ → Option Text → Result ℕ InvalidRequest
  integer_or default min max none = ok default
  integer_or default min max (some s) = integer_in s min max

  unfoldable pub offset_of : List (Text × Text) → Result ℕ InvalidRequest
  unfolding single integer_in
  offset_of pairs = single pairs (text "offset") >>= integer_or 0 0 none

  unfoldable pub size_of : List (Text × Text) → ℕ → ℕ → Result ℕ InvalidRequest
  unfolding single integer_in
  size_of pairs default max = single pairs (text "size") >>= integer_or default 1 (some max)

  unfoldable pub page_of : List (Text × Text) → ℕ → ℕ → Result Page InvalidRequest
  unfolding offset_of size_of
  page_of pairs default max = do
    offset ← offset_of pairs
    size ← size_of pairs default max
    ok (record { offset = offset; size = size })

  module _ (decode : Text → List (Text × Text)) where
    -- `Query::parse`
    unfoldable pub parse_query : Option Text → List (Text × Text)
    parse_query none = []
    parse_query (some raw) = decode raw

    unfoldable pub pagination : Option Text → Result Page InvalidRequest
    unfolding parse_query page_of
    pagination raw = page_of (parse_query raw) default_page_size max_page_size

    -- `search` after the term is found
    unfoldable pub search_term : List (Text × Text) → Text → Result (Text × Page) InvalidRequest
    unfolding utf16_len page_of
    search_term pairs term =
        if utf16_len term == 0 || ltb search_max_term_length (utf16_len term)
        then err invalid
        else (page_of pairs search_max_page_size search_max_page_size >>= λ page. ok (term, page))

    unfoldable pub search : Option Text → Result (Text × Page) InvalidRequest
    unfolding parse_query single js_trim search_term
    search raw = do
      found ← single (parse_query raw) (text "q")
      q ← ok_or invalid found
      search_term (parse_query raw) (js_trim q)

    unfoldable pub browse : Option Text → Result (GenreKey × BrowseOrder × Page) InvalidRequest
    unfolding parse_query single page_of
    browse raw = do
      genre_text ← single (parse_query raw) (text "genre")
      genre_value ← ok_or invalid genre_text
      genre ← ok_or invalid (parse_genre_key genre_value)
      order_text ← single (parse_query raw) (text "order")
      order_value ← ok_or invalid order_text
      order ← ok_or invalid (parse_order order_value)
      page ← page_of (parse_query raw) default_page_size max_page_size
      ok (genre, order, page)

  unfoldable pub game_id : Text → Result GameId InvalidRequest
  game_id raw = ok_or invalid (game_id_from_path raw)
