-- ===== src/Sony/Grid/Counts.antt =====
-- The elements of a grid decode one by one, and each is kept or counted.
use psstore.Prelude.{
  ℕ, ◌+◌, ◌≤◌, ◌≡◌, refl, ap, ◌∙◌, inl, inr, Bool, true, false, Option, none, some, List, [], ◌∷◌,
  ◌++◌, Result, arith, map, length, length-append, length-map, length-filter-le, is_empty, All,
  Bool-cases, Option-cases, filter,
}
use psstore.Prelude.Texts.{Text-discrete}
use psstore.Prelude.Sort.{InOrder, sort_by, sort_insert}
use psstore.Prelude.Dedupe.{DistinctKeys, dedupe, length-dedupe}
use psstore.Js.Date.{◌>=>◌}
use psstore.Ids.{is_genre_key}
use psstore.Game.{Genre, RawGenre}
use psstore.Listing.{narrow_genres}
use psstore.Listing.Genres.{name_after, genre_key, narrow_genres_lem}
use psstore.Sony.Json.{Value, Invalid}
use psstore.Sony.Grid.{
  decode_all, decode_each, grid_node, genre_value, genre_values, parse_genre_facet, GenresOutcome,
  genres_drift, genre_list, genres_outcome, extract_genres,
}

module _ {A : Type 0} where
  decode_all-append :
      (decode : Value → Option A) (xs ys : List Value)
      → decode_all decode (xs ++ ys) ≡ (
        (decode_all decode xs).0 ++ (decode_all decode ys).0,
        (decode_all decode xs).1 + (decode_all decode ys).1,
      )
  unfolding decode_all
  decode_all-append decode [] ys =
      let none_dropped : (decode_all decode ys).1 ≡ 0 + (decode_all decode ys).1 = omega arith in
      ap (λ n. ((decode_all decode ys).0, n)) none_dropped
  decode_all-append decode (x ∷ xs) ys = elim (Option-cases (decode x)) [
    | inl none_case ↦
        rw (none_case, decode_all-append decode xs ys)
          (ap (λ n. ((decode_all decode xs).0 ++ (decode_all decode ys).0, n)) (omega arith))
    | inr (a, some_case) ↦ rw (some_case, decode_all-append decode xs ys) refl
  ]

  pub length-decode_all :
      (decode : Value → Option A) (xs : List Value)
      → length (decode_all decode xs).0 + (decode_all decode xs).1 ≡ length xs
  unfolding decode_all
  length-decode_all decode [] = refl
  length-decode_all decode (x ∷ xs) = elim (Option-cases (decode x)) [
    | inl none_case ↦ rw none_case (omega (arith, length-decode_all decode xs))
    | inr (a, some_case) ↦ rw some_case (omega (arith, length-decode_all decode xs))
  ]

  -- A list of elements decodes as its parts do, one after the other, so an element that fails changes
  -- nothing of its neighbours; and every element is kept or counted as dropped.
  pub decode_each_lem :
      (decode : Value → Result A Invalid) (xs ys : List Value)
      → (decode_each decode (xs ++ ys) ≡ (
        (decode_each decode xs).0 ++ (decode_each decode ys).0,
        (decode_each decode xs).1 + (decode_each decode ys).1,
      ))
        × (length (decode_each decode (xs ++ ys)).0 + (decode_each decode (xs ++ ys)).1
            ≡ length xs + length ys)
  unfolding decode_each
  decode_each_lem decode xs ys =
      (decode_all-append _ xs ys, length-decode_all _ (xs ++ ys) ∙ length-append xs ys)

length-sort_insert :
    {A : Type 0} (after : A → A → Bool) (x : A) (xs : List A)
    → length (sort_insert after x xs) ≡ length xs + 1
unfolding sort_insert
length-sort_insert after x [] = refl
length-sort_insert after x (y ∷ ys) = ground (arith, length-sort_insert after x ys)

length-sort_by :
    {A : Type 0} (after : A → A → Bool) (xs : List A) → length (sort_by after xs) ≡ length xs
unfolding sort_by
length-sort_by after [] = refl
length-sort_by after (x ∷ xs) =
    omega (arith, length-sort_insert after x (sort_by after xs), length-sort_by after xs)

length-narrow_genres : (genres : List RawGenre) → length (narrow_genres genres) ≤ length genres
unfolding narrow_genres
length-narrow_genres genres =
    let right = filter (λ (genre : RawGenre). is_genre_key genre.key) genres in
    let unique = dedupe Text-discrete (λ (genre : RawGenre). genre.key) right in
    let to_genre : RawGenre → Genre = λ genre. record { key = genre.key; name = genre.name } in
    omega (
      arith,
      length-sort_by name_after (map to_genre unique),
      length-map to_genre unique,
      length-dedupe Text-discrete (λ (genre : RawGenre). genre.key) right,
      length-filter-le (λ (genre : RawGenre). is_genre_key genre.key) genres,
    )

-- a genre menu and what was dropped, against the values of the facet
pub record IsMenu (json : Value) (genres : List Genre) (dropped : ℕ) : Type 0 where
  pub values : List Value
  pub facet : (grid_node json >=> genre_values) ≡ some values
  pub count : length genres + dropped ≡ length values
  pub some_genre : is_empty genres ≡ false
  pub keys : All (λ (genre : Genre). is_genre_key genre.key ≡ true) genres
  pub distinct : DistinctKeys Text-discrete genre_key genres
  pub in_order : InOrder name_after genres

abbrev pub IsGenres : Value → GenresOutcome → Type 0
IsGenres json genres_drift = Unit
IsGenres json (genre_list genres dropped) = IsMenu json genres dropped

genres_outcome-IsGenres :
    (json : Value) (values : List Value)
    → (grid_node json >=> genre_values) ≡ some values
    → IsGenres json (genres_outcome (decode_all genre_value values))
unfolding genres_outcome
genres_outcome-IsGenres json values h =
    let raw = decode_all genre_value values in
    elim (Bool-cases (is_empty (narrow_genres raw.0))) [
      | inl none_left ↦ rw none_left tt
      | inr some_left ↦
          let laws = narrow_genres_lem raw.0 in
          rw some_left (record {
            values = values;
            facet = h;
            count = omega (arith, length-decode_all genre_value values, length-narrow_genres raw.0);
            some_genre = some_left;
            keys = laws.0;
            distinct = laws.1;
            in_order = laws.2;
          })
    ]

-- A genre menu that the decoder returns is not empty, has keys of the API format, none twice, in
-- the order of the names, and it counts every value of the genre facet: the genres and the dropped
-- values are as many.
pub extract_genres-IsGenres : (json : Value) → IsGenres json (extract_genres json)
unfolding extract_genres parse_genre_facet
extract_genres-IsGenres json = go (grid_node json) refl
  where
    values_of :
        (node : Value)
        → grid_node json ≡ some node
        → (o : Option (List Value)) → genre_values node ≡ o
        → IsGenres json (elim (o >=> λ values. some (decode_all genre_value values)) [
          | none ↦ genres_drift
          | some facet ↦ genres_outcome facet
        ])
    values_of node h none k = tt
    values_of node h (some values) k = genres_outcome-IsGenres json values (rw (h, k) refl)

    go :
        (o : Option Value)
        → grid_node json ≡ o
        → IsGenres json
            (elim (o >=> λ node.
              genre_values node >=> λ values. some (decode_all genre_value values)) [
                | none ↦ genres_drift
                | some facet ↦ genres_outcome facet
              ])
    go none h = tt
    go (some node) h = values_of node h (genre_values node) refl
