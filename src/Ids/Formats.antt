-- ===== src/Ids/Formats.antt =====
-- What the id and key formats accept, and how the ids convert.
use mathlib.Core.List.{append_assoc}
use psstore.Prelude.{
  ℕ, ◌≤◌, ◌≡◌, refl, sym, ap, ◌∙◌, ◌↔◌, Bool, true, false, not, ◌&&◌, none, some, List, [], ◌∷◌,
  ◌++◌, arith, length, all, is_empty, Bool-cases, inl, inr, length-append, find?-some,
}
use psstore.Prelude.Texts.{Text, bytes, utf8, text_eq, text_eq_iff}
use psstore.Js.Trim.{js_trim, js_trim-js_trim}
use psstore.Ids.Bytes.{is_digit}
use psstore.Ids.{
  ProductId, ConceptId, GameId, pattern_checks, matches_all, is_valid_product_id, then_some,
  parse_product_id, parse_concept_id, game_id_from_path, product_game_id, product_id_of,
  BrowseOrder, best_selling, most_downloaded, newest, oldest, name_asc, name_desc, all_orders,
  order_key, parse_order,
}

pub then_some_eq {ℓ} :
    {A : Type ℓ} (b : Bool) (a c : A) → then_some b a ≡ some c → (b ≡ true) × (a ≡ c)
then_some_eq true a c h = (refl, cc)
then_some_eq false a c h = cc

-- a parsed product id is its text
pub parse_product_id-some :
    (value : Text) (id : ProductId)
    → parse_product_id value ≡ some id
    → (is_valid_product_id value ≡ true) × (id.as_str ≡ value)
unfolding parse_product_id
parse_product_id-some value id h =
    let (valid, same) = then_some_eq (is_valid_product_id value) (record { as_str = value }) id h in
    (valid, ap (λ (p : ProductId). p.as_str) (sym same))

-- A product id that became the id of a card is found again in it.
pub product_id_of-product_game_id :
    (value : Text) (id : ProductId)
    → parse_product_id value ≡ some id
    → product_id_of (product_game_id id) ≡ some id
unfolding product_id_of product_game_id
product_id_of-product_game_id value id h = rw (← (parse_product_id-some value id h).1) at h

bytes-append : (a b : Text) → bytes (a ++ b) ≡ bytes a ++ bytes b
unfolding bytes
bytes-append [] b = refl
bytes-append (c ∷ a) b =
    ap (λ (r : List ℕ). utf8 c ++ r) (bytes-append a b)
    ∙ sym (append_assoc (utf8 c) (bytes a) (bytes b))

matches_all-append :
    (ps : List (ℕ → Bool)) (a b : List ℕ)
    → length ps ≤ length a
    → matches_all ps (a ++ b) ≡ matches_all ps a
unfolding matches_all
matches_all-append [] a b h = refl
matches_all-append (p ∷ ps) [] b h = absurd (omega arith)
matches_all-append (p ∷ ps) (x ∷ a) b h =
    ap (λ (t : Bool). p x && t) (matches_all-append ps a b (omega arith))

first_byte :
    (bs : List ℕ) → 20 ≤ length bs → matches_all pattern_checks bs ≡ true → all is_digit bs ≡ false
unfolding matches_all
first_byte [] h m = absurd (omega arith)
first_byte (b ∷ bs) h m = ground arith

valid_parts :
    (value : Text)
    → is_valid_product_id value ≡ true
    → (20 ≤ length (bytes value)) × (matches_all pattern_checks (bytes value) ≡ true)
unfolding is_valid_product_id
valid_parts value h = ground (arith, h)

digits_of_concept :
    (value : Text) (id : ConceptId)
    → parse_concept_id value ≡ some id
    → all is_digit (bytes value) ≡ true
unfolding parse_concept_id
digits_of_concept value id h =
    let (b, same) = then_some_eq _ (record { as_str = value }) id h in ground arith

-- A text that is a concept id is no product id.
pub concept_is_no_product :
    (value : Text) (id : ConceptId)
    → parse_concept_id value ≡ some id
    → parse_product_id value ≡ none
unfolding parse_product_id
concept_is_no_product value id h = elim (Bool-cases (is_valid_product_id value)) [
  | inr invalid ↦ rw invalid
  | inl valid ↦
      let (long, matched) = valid_parts value valid in
      absurd (cc (digits_of_concept value id h, first_byte (bytes value) long matched))
]

-- The product id check reads the first 20 bytes: any text may follow.
pub valid_product_id-append :
    (value tail : Text)
    → is_valid_product_id value ≡ true
    → is_valid_product_id (value ++ tail) ≡ true
unfolding is_valid_product_id
valid_product_id-append value tail h =
    let (long, matched) = valid_parts value h in
    rw bytes-append (
      ground (
        arith,
        matches_all-append pattern_checks (bytes value) (bytes tail) long,
        length-append (bytes value) (bytes tail),
      ))

again :
    (trimmed : Text)
    → js_trim trimmed ≡ trimmed
    → not (is_empty trimmed) ≡ true
    → game_id_from_path trimmed ≡ some (record { as_str = trimmed })
unfolding game_id_from_path
again trimmed same filled = rw (same, filled)

-- The id of a path is trimmed and not empty, and reading it again gives the same id.
pub game_id_from_path_lem :
    (raw : Text) (id : GameId)
    → game_id_from_path raw ≡ some id
    → (id.as_str ≡ js_trim raw)
      × (is_empty id.as_str ≡ false)
      × (game_id_from_path id.as_str ≡ some id)
unfolding game_id_from_path
game_id_from_path_lem raw id h =
    let (filled, same) =
      then_some_eq (not (is_empty (js_trim raw))) (record { as_str = js_trim raw }) id h in
    let text_is : id.as_str ≡ js_trim raw = ap (λ (g : GameId). g.as_str) (sym same) in
    (
      text_is,
      ground arith,
      ap game_id_from_path text_is
          ∙ again (js_trim raw) (js_trim-js_trim raw) (ground arith)
          ∙ ap some same,
    )

parse_key : (order : BrowseOrder) → parse_order (order_key order) ≡ some order
unfolding parse_order order_key text_eq
parse_key best_selling = refl
parse_key most_downloaded = refl
parse_key newest = refl
parse_key oldest = refl
parse_key name_asc = refl
parse_key name_desc = refl

order_of_parse :
    (order : BrowseOrder) (value : Text) → parse_order value ≡ some order → value ≡ order_key order
unfolding parse_order
order_of_parse order value h = sym (
    (text_eq_iff (order_key order) value).0
      (find?-some (λ o. text_eq (order_key o) value) all_orders order h))

-- An order key parses to its order, and a text that parses is the key of the order.
pub parse_order_iff :
    (order : BrowseOrder) (value : Text)
    → (parse_order value ≡ some order) ↔ (value ≡ order_key order)
parse_order_iff order value = (order_of_parse order value, λ h. rw h (parse_key order))
