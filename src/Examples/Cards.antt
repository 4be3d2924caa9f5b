-- ===== src/Examples/Cards.antt =====
-- The cards of mapper.rs and library.rs, and the score match of critic_match.rs, at concrete data.
use psstore.Prelude.{
  ℕ, ◌≡◌, ◌↔◌, refl, Bool, true, false, ◌++◌, Option, none, some, List, [], ◌∷◌, ◌==◌, leb, ◌||◌,
  ◌&&◌, arith, map, filter, find?, All, is_empty,
}
use psstore.Prelude.Int.{ℤ, pos, ◌<ℤ◌}
use psstore.Prelude.Texts.{Text, text, Text-discrete}
use psstore.CriticMatch.{
  Unicode, CriticCandidate, longest_match, strip_edition_suffixes, normalize_title, is_qualified,
  match_critic_score,
}
use psstore.CriticMatch.Titles.{IsPrefix, strip_edition_suffixes_lem}
use psstore.CriticMatch.Unique.{IsOnlyScore, match_critic_score_iff}

strip_edition_suffixes_lem_example :
    (longest_match (strip_edition_suffixes (text "a ps5 edition")) ≡ none)
    × IsPrefix (strip_edition_suffixes (text "a ps5 edition")) (text "a ps5 edition")
strip_edition_suffixes_lem_example = strip_edition_suffixes_lem (text "a ps5 edition")

-- the ASCII part of the Unicode data
abbrev ascii : Unicode
ascii = record {
  nfkd = λ s. s;
  to_lowercase = λ s. s;
  is_letter_or_number = λ c. (leb b'a' c && leb c b'z') || (leb b'0' c && leb c b'9');
}

abbrev scored : Text → CriticCandidate
scored name = record {
  name = name;
  release_year = some (pos 2024);
  rating = some (record { value = 80 });
  rating_count = 9;
}

match_critic_score_iff_example :
    (match_critic_score ascii (text "a ps5") (pos 2024) (scored (text "a") ∷ [])
      ≡ some (record { value = 80 }))
    ↔ ((is_empty (normalize_title ascii (text "a ps5")) ≡ false)
        × IsOnlyScore ascii
            (text "a ps5")
            (pos 2024)
            (scored (text "a") ∷ [])
            (record { value = 80 }))
match_critic_score_iff_example =
    match_critic_score_iff ascii (text "a ps5") (pos 2024) (scored (text "a") ∷ [])
      (record { value = 80 })

-- two edition entries and a mark are no part of the title
strips_the_suffixes :
    normalize_title ascii (text "mega'man  ps5 edition deluxe edition") ≡ text "megaman"
unfolding normalize_title psstore.CriticMatch.strip_rounds longest_match
    psstore.Prelude.Texts.text_eq
strips_the_suffixes = refl

matches_the_only_candidate :
    match_critic_score ascii (text "a ps5") (pos 2024) (scored (text "a") ∷ scored (text "b") ∷ [])
    ≡ some (record { value = 80 })
unfolding match_critic_score normalize_title psstore.CriticMatch.strip_rounds longest_match
    psstore.Prelude.Texts.text_eq psstore.Prelude.Int.◌-ℤ◌
matches_the_only_candidate = refl
