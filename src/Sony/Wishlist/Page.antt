-- ===== src/Sony/Wishlist/Page.antt =====
-- The signed-in wishlist: a list, a denial or a drift, never one for another.
use mathlib.Core.List.{Sublist}
use psstore.Prelude.{
  find?, ℕ, ◌+◌, ◌≡◌, refl, inl, inr, true, false, Option, none, some, List, [], ◌∷◌, arith, length,
  Bool-cases, if◌then◌else◌,
}
use psstore.Prelude.Texts.{Text}
use psstore.Prelude.Dedupe.{has_key, DistinctKeys, dedupe-DistinctKeys, dedupe-sublist, find-dedupe}
use psstore.Prelude.Selects.{Selects}
use psstore.Sony.Wishlist.Scope.{InScope, read_wishes-Selects}
use psstore.Library.{WishlistId, WishlistEntry}
use psstore.Sony.Json.{Value}
use psstore.Sony.Fields.{Field, kept, dropped, out_of_scope}
use psstore.Sony.Wishlist.{
  WishlistId-discrete, WishlistPage, WishlistOutcome, denied, drift, listed, decode_wish, add_wish,
  read_wishes, wishlist_page, wishlist_values, is_access_denied, parse,
}

abbrev total : WishlistPage → ℕ
total page = length page.entries + page.dropped_count + page.out_of_scope_count

total-add_wish :
    (c : Field WishlistEntry) (page : WishlistPage) → total (add_wish c page) ≡ total page + 1
total-add_wish (kept entry) page = omega arith
total-add_wish dropped page = omega arith
total-add_wish out_of_scope page = omega arith

total-read_wishes : (values : List Value) → total (read_wishes values) ≡ length values
unfolding read_wishes
total-read_wishes [] = refl
total-read_wishes (value ∷ values) =
    omega (arith, total-add_wish (decode_wish value) (read_wishes values), total-read_wishes values)

abbrev pub wish_key : WishlistEntry → WishlistId
wish_key entry = entry.id

-- the page of an array
pub record IsPage (body : Value) (page : WishlistPage) : Type 0 where
  pub values : List Value
  pub array : wishlist_values body ≡ some values
  pub distinct : DistinctKeys WishlistId-discrete wish_key page.entries
  pub in_scope : List WishlistEntry
  pub selected : Selects InScope values in_scope
  pub part : Sublist page.entries in_scope
  pub first_of_id :
      (id : WishlistId)
      → find? (has_key WishlistId-discrete wish_key id) page.entries
        ≡ find? (has_key WishlistId-discrete wish_key id) in_scope
  pub count : length in_scope + page.dropped_count + page.out_of_scope_count ≡ length values

abbrev pub IsParsed : (Text → Text) → Value → WishlistOutcome → Type 0
IsParsed lower body (listed page) = IsPage body page
IsParsed lower body denied = (wishlist_values body ≡ none) × (is_access_denied lower body ≡ true)
IsParsed lower body drift = (wishlist_values body ≡ none) × (is_access_denied lower body ≡ false)

-- A wishlist is listed only from an array at its place in the body, so a missing or null list is
-- never an empty wishlist: it is a denial when Sony says so, and a drift otherwise. A listed page has
-- no id twice, and holds in their order the first entries of their ids among the elements in scope:
-- those that decode to a known id and a name of a game on PS5. Every element is in scope, dropped or
-- out of scope: the counts add up.
pub parse-IsParsed : (lower : Text → Text) (body : Value) → IsParsed lower body (parse lower body)
unfolding parse wishlist_page
parse-IsParsed lower body = go (wishlist_values body) refl
  where
    go :
        (o : Option (List Value))
        → wishlist_values body ≡ o
        → IsParsed lower body (elim o as (λ x. WishlistOutcome) [
          | none ↦ if is_access_denied lower body then denied else drift
          | some values ↦ listed (wishlist_page values)
        ])
    go none h = elim (Bool-cases (is_access_denied lower body)) [
      | inl says_so ↦ rw says_so (h, says_so)
      | inr silent ↦ rw silent (h, silent)
    ]
    go (some values) h = record {
      values = values;
      array = h;
      distinct = dedupe-DistinctKeys WishlistId-discrete wish_key (read_wishes values).entries;
      in_scope = (read_wishes values).entries;
      selected = read_wishes-Selects values;
      part = dedupe-sublist WishlistId-discrete wish_key (read_wishes values).entries;
      first_of_id = λ id. find-dedupe WishlistId-discrete wish_key id (read_wishes values).entries;
      count = total-read_wishes values;
    }
