-- ===== src/CriticMatch.antt =====
-- crates/domain/src/critic_match.rs: which candidate of the score provider is a Sony game. The
-- Unicode data, of the `icu` crates and of the lower case, is a parameter.
pub mod Titles
pub mod Unique
use psstore.Prelude.{
  ℕ, zero, suc, ◌+◌, ◌-◌, Bool, true, false, not, ◌&&◌, ◌||◌, Option, none, some, List, [], ◌∷◌,
  ◌++◌, ◌==◌, ltb, leb, length, take, drop, filter, filter_map, any, is_empty, if◌then◌else◌,
}
use psstore.Prelude.Int.{ℤ, pos, ◌-ℤ◌, leb_ℤ}
use psstore.Prelude.Texts.{Text, text, text_eq}
use psstore.Js.Jiff.{Jiff}
use psstore.Js.Date.{◌>=>◌, parse_date_ms, utc_full_year}
use psstore.Game.{CriticScore}
use psstore.Mapper.{is_some}

-- NFKD, the full lower case, and the members of the categories L and N
pub record Unicode : Type 0 where
  pub nfkd : Text → Text
  pub to_lowercase : Text → Text
  pub is_letter_or_number : ℕ → Bool

abbrev pub min_critic_count : ℕ
min_critic_count = 3

pub record CriticCandidate : Type 0 where
  pub name : Text
  pub release_year : Option ℤ
  pub rating : Option CriticScore
  pub rating_count : ℕ

abbrev pub edition_suffixes : List Text
edition_suffixes =
    text "ps5 edition"
    ∷ text "playstation 5 edition"
    ∷ text "ps5 version"
    ∷ text "digital edition"
    ∷ text "standard edition"
    ∷ text "deluxe edition"
    ∷ text "digital deluxe edition"
    ∷ text "ultimate edition"
    ∷ text "premium edition"
    ∷ text "complete edition"
    ∷ text "definitive edition"
    ∷ text "special edition"
    ∷ text "gold edition"
    ∷ text "collectors edition"
    ∷ text "game of the year edition"
    ∷ text "goty edition"
    ∷ text "ps4 ps5"
    ∷ text "ps4 and ps5"
    ∷ text "ps5"
    ∷ text "playstation 5"
    ∷ []

-- `str::strip_suffix`
unfoldable pub strip_suffix : Text → Text → Option Text
strip_suffix suffix s =
    let n = length s - length suffix in
    if leb (length suffix) (length s) && text_eq (drop n s) suffix then some (take n s) else none

-- a suffix after a space: its length, and the rest before the space
unfoldable pub suffix_match : Text → Text → Option (ℕ × Text)
unfolding strip_suffix
suffix_match current suffix =
    strip_suffix suffix current >=> strip_suffix (b' ' ∷ []) >=> λ rest. some (length suffix, rest)

-- `Iterator::max_by_key` on the lengths: of equal ones the last
unfoldable pub longest : Option (ℕ × Text) → List (ℕ × Text) → Option (ℕ × Text)
longest best [] = best
longest none (m ∷ ms) = longest (some m) ms
longest (some best) (m ∷ ms) = longest (some (if leb best.0 m.0 then m else best)) ms

unfoldable pub longest_match : Text → Option (ℕ × Text)
unfolding suffix_match longest
longest_match current = longest none (filter_map (suffix_match current) edition_suffixes)

-- `trim_end_matches(' ')`
unfoldable pub trim_end_spaces : Text → Text
trim_end_spaces [] = []
trim_end_spaces (c ∷ s) =
    let rest = trim_end_spaces s in if is_empty rest && c == b' ' then [] else c ∷ rest

unfoldable pub strip_rounds : ℕ → Text → Text
unfolding trim_end_spaces
strip_rounds zero current = current
strip_rounds (suc fuel) current = elim (longest_match current) [
  | none ↦ current
  | some m ↦ strip_rounds fuel (trim_end_spaces m.1)
]

-- every round takes characters away, so the length of the title bounds the rounds
unfoldable pub strip_edition_suffixes : Text → Text
strip_edition_suffixes current = strip_rounds (length current) current

abbrev pub is_symbol : ℕ → Bool
is_symbol c = c == 0x2122 || (c == 0xae || (c == 0xa9 || (c == 0x27 || c == 0x2019)))

abbrev pub is_mark : ℕ → Bool
is_mark c = leb 0x300 c && leb c 0x36f

-- `replace('&', " and ")`
unfoldable pub replace_ampersand : Text → Text
replace_ampersand [] = []
replace_ampersand (c ∷ s) =
    let rest = replace_ampersand s in if c == b'&' then text " and " ++ rest else c ∷ rest

module _ (u : Unicode) where
  -- the body of the loop over the characters, on its `words` and `gap`
  unfoldable pub push_char : Text → Bool → ℕ → Text × Bool
  push_char words gap c =
      if u.is_letter_or_number c
      then (if gap && not (is_empty words)
          then (words ++ b' ' ∷ c ∷ [], false)
          else (words ++ c ∷ [], false))
      else (words, true)

  unfoldable pub join_words : Text → Bool → Text → Text
  unfolding push_char
  join_words words gap [] = words
  join_words words gap (c ∷ s) =
      let (words', gap') = push_char words gap c in join_words words' gap' s

  -- the title before its suffixes are stripped
  unfoldable pub title_words : Text → Text
  unfolding join_words replace_ampersand
  title_words name =
      let without_symbols = filter (λ c. not (is_symbol c)) name in
      let without_marks = filter (λ c. not (is_mark c)) (u.nfkd without_symbols) in
      join_words [] false (replace_ampersand (u.to_lowercase without_marks))

  unfoldable pub normalize_title : Text → Text
  unfolding title_words strip_edition_suffixes
  normalize_title name = strip_edition_suffixes (title_words name)

  -- the years are `i32`, their difference is an `i64`
  unfoldable pub is_near_year : Option ℤ → ℤ → Bool
  is_near_year none year = false
  is_near_year (some release) year =
      leb_ℤ (release -ℤ year) (pos 1) && leb_ℤ (year -ℤ release) (pos 1)

  unfoldable pub is_qualified : Text → ℤ → CriticCandidate → Bool
  unfolding is_near_year
  is_qualified name year candidate =
      is_near_year candidate.release_year year
      && is_some candidate.rating
      && leb min_critic_count candidate.rating_count
      && text_eq (normalize_title candidate.name) name

  -- `qualified.next()?`, then the `match` on the second `next`
  unfoldable pub only_rating : List CriticCandidate → Option CriticScore
  only_rating [] = none
  only_rating (only ∷ []) = only.rating
  only_rating (only ∷ other ∷ more) = none

  unfoldable pub match_critic_score : Text → ℤ → List CriticCandidate → Option CriticScore
  unfolding is_qualified only_rating
  match_critic_score title year candidates =
      let name = normalize_title title in
      if is_empty name then none else only_rating (filter (is_qualified name year) candidates)

unfoldable pub release_year_of : Jiff → Text → Option ℤ
release_year_of j date = parse_date_ms j date >=> utc_full_year j
