-- ===== src/Sony/Purchased/Page.antt =====
-- A page of the signed-in library.
use psstore.Prelude.{
  ℕ, ◌+◌, ◌≡◌, refl, sym, ◌∙◌, inl, inr, true, false, Option, none, some, List, [], ◌∷◌, Result, ok,
  err, arith, length, is_empty, All, Bool-cases,
}
use psstore.Prelude.Texts.{Text, text}
use psstore.Js.Date.{◌>=>◌}
use psstore.Ids.{ProductId, parse_product_id, is_valid_product_id}
use psstore.Ids.Formats.{parse_product_id-some}
use psstore.Library.{PurchasedEntry}
use psstore.Sony.Json.{Value}
use psstore.Sony.Grid.{is_text}
use psstore.Sony.Fields.{Field, kept, dropped, out_of_scope, WrongType}
use psstore.Sony.Purchased.{
  PurchasedPage, RawGame, scoped_game, named_game, checked_game, decode_entry, add_field, read_page,
  parse_page, page_games,
}

-- a valid product id and a name
pub record IsNamed (entry : PurchasedEntry) : Type 0 where
  pub valid : is_valid_product_id entry.product_id.as_str ≡ true
  pub name : is_empty entry.name ≡ false

abbrev KeptIsNamed : Field PurchasedEntry → Type 0
KeptIsNamed (kept entry) = IsNamed entry
KeptIsNamed _ = Unit

scoped_game-IsNamed :
    (raw : RawGame) (name id : Text)
    → is_empty name ≡ false
    → (o : Option ProductId) → parse_product_id id ≡ o
    → KeptIsNamed (scoped_game raw name o)
unfolding scoped_game
scoped_game-IsNamed raw name id h none e = tt
scoped_game-IsNamed raw name id h (some product_id) e =
    elim (Bool-cases (is_text (text "PS5") raw.platform)) [
      | inl on_ps5 ↦
          let parsed = parse_product_id-some id product_id e in
          rw on_ps5 (record { valid = rw parsed.1 parsed.0; name = h })
      | inr other ↦ rw other tt
    ]

named_game-IsNamed : (raw : RawGame) (id name : Option Text) → KeptIsNamed (named_game raw id name)
unfolding named_game
named_game-IsNamed raw (some id) (some name) = elim (Bool-cases (is_empty name)) [
  | inl bare ↦ rw bare tt
  | inr named ↦ rw named (scoped_game-IsNamed raw name id named (parse_product_id id) refl)
]
named_game-IsNamed raw none name = tt
named_game-IsNamed raw (some id) none = tt

checked_game-IsNamed : (r : Result RawGame WrongType) → KeptIsNamed (checked_game r)
unfolding checked_game
checked_game-IsNamed (err e) = tt
checked_game-IsNamed (ok raw) = named_game-IsNamed raw raw.product_id raw.name

-- each game is counted once, and the entries have ids and names
pub record Counts (page : PurchasedPage) (games : List Value) : Type 0 where
  pub total : length page.entries + page.dropped_count + page.out_of_scope_count ≡ length games
  pub named : All IsNamed page.entries

add_field-Counts :
    (c : Field PurchasedEntry) (page : PurchasedPage) (game : Value) (games : List Value)
    → KeptIsNamed c
    → Counts page games
    → Counts (add_field c page) (game ∷ games)
add_field-Counts (kept entry) page game games k h = record {
  total = omega (arith, h.total);
  named = (k, h.named);
}
add_field-Counts dropped page game games k h = record {
  total = omega (arith, h.total);
  named = h.named;
}
add_field-Counts out_of_scope page game games k h = record {
  total = omega (arith, h.total);
  named = h.named;
}

read_page-Counts : (raw_count : ℕ) (games : List Value) → Counts (read_page raw_count games) games
unfolding read_page decode_entry
read_page-Counts raw_count [] = record { total = refl; named = tt }
read_page-Counts raw_count (game ∷ games) =
    add_field-Counts _ (read_page raw_count games) game games (checked_game-IsNamed _)
      (read_page-Counts raw_count games)

raw_count-add_field :
    (c : Field PurchasedEntry) (page : PurchasedPage)
    → (add_field c page).raw_count ≡ page.raw_count
raw_count-add_field (kept entry) page = refl
raw_count-add_field dropped page = refl
raw_count-add_field out_of_scope page = refl

raw_count-read_page :
    (raw_count : ℕ) (games : List Value) → (read_page raw_count games).raw_count ≡ raw_count
unfolding read_page
raw_count-read_page raw_count [] = refl
raw_count-read_page raw_count (game ∷ games) =
    raw_count-add_field (decode_entry game) (read_page raw_count games)
    ∙ raw_count-read_page raw_count games

-- A page of the library has entries only with a valid product id and a name, and its raw count, which
-- the crawl compares with the page size, is the number of its entries, dropped elements and
-- elements out of scope together.
pub parse_page_lem :
    (body : Value) (page : PurchasedPage)
    → parse_page body ≡ some page
    → (page.raw_count ≡ length page.entries + page.dropped_count + page.out_of_scope_count)
      × All IsNamed page.entries
unfolding parse_page
parse_page_lem body page h = go (page_games body) h
  where
    go :
        (o : Option (List Value))
        → (o >=> λ games. some (read_page (length games) games)) ≡ some page
        → (page.raw_count ≡ length page.entries + page.dropped_count + page.out_of_scope_count)
          × All IsNamed page.entries
    go none k = absurd (cc k)
    go (some games) k =
        let counts = read_page-Counts (length games) games in
        let same : read_page (length games) games ≡ page = cc k in
        rw (← same) (raw_count-read_page (length games) games ∙ sym counts.total, counts.named)
