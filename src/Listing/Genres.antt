-- ===== src/Listing/Genres.antt =====
-- `narrow_genres`: the genres that BROWSE offers.
use psstore.Prelude.{
  ◌≡◌, Bool, true, false, List, [], ◌∷◌, arith, filter, map, All, filter_holds, map-All,
}
use psstore.Prelude.Texts.{Text, Text-discrete}
use psstore.Prelude.Sort.{sort_by-All, InOrder, sort_by-InOrder}
use psstore.Prelude.Dedupe.{dedupe, Absent, DistinctKeys, dedupe-DistinctKeys, dedupe-All}
use psstore.Prelude.Distinct.{sort_by-DistinctKeys}
use psstore.Js.Collation.{
  is_greater, locale_compare_en, locale_compare_en-flip, locale_compare_en_trans, flip,
}
use psstore.Ids.{is_genre_key}
use psstore.Game.{Genre, RawGenre}
use psstore.Listing.{narrow_genres}

-- a stronger order on names than `sort_by` needs
abbrev pub name_after : Genre → Genre → Bool
name_after a b = is_greater (locale_compare_en a.name b.name)

greater-flip : (o : Prim.Native.Nat.Ordering) → is_greater o ≡ true → is_greater (flip o) ≡ false
greater-flip o h = ground arith

name_after-asym : (a b : Genre) → name_after a b ≡ true → name_after b a ≡ false
name_after-asym a b h =
    rw (locale_compare_en-flip a.name b.name) (greater-flip (locale_compare_en a.name b.name) h)

abbrev pub genre_key : Genre → Text
genre_key genre = genre.key

abbrev pub to_genre : RawGenre → Genre
to_genre genre = record { key = genre.key; name = genre.name }

map-Absent :
    (k : Text) (xs : List RawGenre)
    → Absent Text-discrete (λ (genre : RawGenre). genre.key) k xs
    → Absent Text-discrete genre_key k (map to_genre xs)
map-Absent k [] h = tt
map-Absent k (x ∷ xs) h = (h.0, map-Absent k xs h.1)

map-DistinctKeys :
    (xs : List RawGenre)
    → DistinctKeys Text-discrete (λ (genre : RawGenre). genre.key) xs
    → DistinctKeys Text-discrete genre_key (map to_genre xs)
map-DistinctKeys [] h = tt
map-DistinctKeys (x ∷ xs) h = (map-Absent x.key xs h.0, map-DistinctKeys xs h.1)

-- The genres for BROWSE have keys of the right format, no key twice, and stand in the order of their
-- names.
pub narrow_genres_lem :
    (genres : List RawGenre)
    → All (λ (genre : Genre). is_genre_key genre.key ≡ true) (narrow_genres genres)
      × DistinctKeys Text-discrete genre_key (narrow_genres genres)
      × InOrder name_after (narrow_genres genres)
unfolding narrow_genres
narrow_genres_lem genres =
    let right = filter (λ (genre : RawGenre). is_genre_key genre.key) genres in
    let unique = dedupe Text-discrete (λ (genre : RawGenre). genre.key) right in
    (
      sort_by-All name_after _ (map to_genre unique) (
          map-All (λ (genre : Genre). is_genre_key genre.key ≡ true) to_genre unique
            (dedupe-All Text-discrete (λ (genre : RawGenre). genre.key)
              (λ (genre : RawGenre). is_genre_key genre.key ≡ true) right
              (filter_holds (λ (genre : RawGenre). is_genre_key genre.key) genres))),
      sort_by-DistinctKeys Text-discrete genre_key name_after (map to_genre unique) (
          map-DistinctKeys unique
            (dedupe-DistinctKeys Text-discrete (λ (genre : RawGenre). genre.key) right)),
      sort_by-InOrder name_after name_after-asym
          (λ a b c. locale_compare_en_trans a.name b.name c.name) (map to_genre unique),
    )
