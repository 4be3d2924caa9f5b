-- ===== src/Sony/Wishlist/Scope.antt =====
-- Which elements of a wishlist are in scope.
use mathlib.Core.Path.{subst}
use psstore.Prelude.{
  ◌≡◌, refl, sym, ap, inl, inr, true, false, ◌||◌, Option, none, some, List, [], ◌∷◌, Result, ok,
  err, ◌>>=◌, arith, any, is_empty, Bool-cases,
}
use psstore.Prelude.Texts.{Text, text}
use psstore.Prelude.Selects.{Selects, nothing, pick, skip}
use psstore.Library.{WishlistId, WishlistEntry}
use psstore.Sony.Json.{Value, as_object, as_str, ok_or}
use psstore.Sony.Grid.{is_text}
use psstore.Sony.Fields.{Field, kept, dropped, out_of_scope, WrongType, wrong_type}
use psstore.Sony.Wishlist.{
  RawWish, raw_wish, wishlist_id, scoped_wish, named_wish, checked_wish, decode_wish, WishlistPage,
  add_wish, read_wishes,
}

-- an element with a known id and a name, of a game on PS5, and its entry
pub record InScope (value : Value) (entry : WishlistEntry) : Type 0 where
  pub raw : RawWish
  pub decoded : (ok_or wrong_type (as_object value) >>= raw_wish) ≡ ok raw
  pub id_text : Text
  pub has_id : raw.id ≡ some id_text
  pub some_id : is_empty id_text ≡ false
  pub known : wishlist_id raw.typename id_text ≡ some entry.id
  pub has_name : raw.name ≡ some entry.name
  pub some_name : is_empty entry.name ≡ false
  pub on_ps5 : any (λ platform. is_text (text "PS5") (as_str platform)) raw.platforms ≡ true
  pub image : entry.image_url ≡ raw.image_url

module _ (value : Value) (raw : RawWish)
    (decoded : (ok_or wrong_type (as_object value) >>= raw_wish) ≡ ok raw) where
  scoped_wish-InScope :
      (id name : Text) (o : Option WishlistId) (entry : WishlistEntry)
      → raw.id ≡ some id
      → raw.name ≡ some name
      → is_empty id ≡ false
      → is_empty name ≡ false
      → wishlist_id raw.typename id ≡ o
      → scoped_wish raw name o ≡ kept entry
      → InScope value entry
  unfolding scoped_wish
  scoped_wish-InScope id name none entry has_id has_name some_id some_name known h = absurd (cc h)
  scoped_wish-InScope id name (some found) entry has_id has_name some_id some_name known h =
      elim (Bool-cases (any (λ platform. is_text (text "PS5") (as_str platform)) raw.platforms)) [
        | inr other ↦ absurd (ground (arith, h, other))
        | inl ps5 ↦
            subst (InScope value)
              {x = record { id = found; name = name; image_url = raw.image_url }} {y = entry}
              (ground (arith, h, ps5))
              (record {
                raw = raw;
                decoded = decoded;
                id_text = id;
                has_id = has_id;
                some_id = some_id;
                known = known;
                has_name = has_name;
                some_name = some_name;
                on_ps5 = ps5;
                image = refl;
              })
      ]

  named_wish-InScope :
      (i n : Option Text) (entry : WishlistEntry)
      → raw.id ≡ i
      → raw.name ≡ n
      → named_wish raw i n ≡ kept entry
      → InScope value entry
  unfolding named_wish
  named_wish-InScope none n entry has_id has_name h = absurd (cc h)
  named_wish-InScope (some id) none entry has_id has_name h = absurd (cc h)
  named_wish-InScope (some id) (some name) entry has_id has_name h =
      elim (Bool-cases (is_empty id || is_empty name)) [
        | inl bare ↦ absurd (ground (arith, h, bare))
        | inr named ↦
            scoped_wish-InScope id name (wishlist_id raw.typename id) entry has_id has_name
              (ground (arith, named)) (ground (arith, named)) refl (rw named at h)
      ]

decode_wish-InScope :
    (value : Value) (entry : WishlistEntry) → decode_wish value ≡ kept entry → InScope value entry
unfolding decode_wish checked_wish
decode_wish-InScope value entry h = go (ok_or wrong_type (as_object value) >>= raw_wish) refl h
  where
    go :
        (r : Result RawWish WrongType)
        → (ok_or wrong_type (as_object value) >>= raw_wish) ≡ r
        → checked_wish r ≡ kept entry
        → InScope value entry
    go (err e) decoded k = absurd (cc k)
    go (ok raw) decoded k = named_wish-InScope value raw decoded raw.id raw.name entry refl refl k

InScope-decode_wish :
    (value : Value) (entry : WishlistEntry) → InScope value entry → decode_wish value ≡ kept entry
unfolding decode_wish checked_wish named_wish scoped_wish
InScope-decode_wish value entry s =
    rw (s.decoded, checked_wish, s.has_id, s.has_name, s.some_id, s.some_name, s.known, s.on_ps5)
      (ap (λ url. kept (record { id = entry.id; name = entry.name; image_url = url }))
        (sym s.image))

add_wish-Selects :
    (value : Value) (values : List Value) (page : WishlistPage) (c : Field WishlistEntry)
    → decode_wish value ≡ c
    → Selects InScope values page.entries
    → Selects InScope (value ∷ values) (add_wish c page).entries
add_wish-Selects value values page (kept entry) h rest =
    pick value entry values page.entries (decode_wish-InScope value entry h) rest
add_wish-Selects value values page dropped h rest =
    skip value values page.entries (λ entry s. cc (h, InScope-decode_wish value entry s)) rest
add_wish-Selects value values page out_of_scope h rest =
    skip value values page.entries (λ entry s. cc (h, InScope-decode_wish value entry s)) rest

-- the entries of a wishlist are those in scope, in order
pub read_wishes-Selects :
    (values : List Value) → Selects InScope values (read_wishes values).entries
unfolding read_wishes
read_wishes-Selects [] = nothing
read_wishes-Selects (value ∷ values) =
    add_wish-Selects value values (read_wishes values) (decode_wish value) refl
      (read_wishes-Selects values)
