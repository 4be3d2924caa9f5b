-- ===== src/Sony/Monthly/Scope.antt =====
-- Which elements of the monthly feed are in scope.
use mathlib.Core.Path.{subst}
use psstore.Prelude.{
  ◌≡◌, ◌+◌, refl, ap, sym, inl, inr, true, false, ◌||◌, Option, none, some, List, [], ◌∷◌, ◌++◌,
  Result, ok, err, arith, any, is_empty, Bool-cases,
}
use psstore.Prelude.Texts.{Text, text_eq}
use psstore.Prelude.Selects.{Selects, nothing, pick, skip}
use psstore.Ids.{ProductId, parse_product_id}
use psstore.Game.{PlusMonthlyEntry}
use psstore.Mapper.{or_default}
use psstore.Listing.{ps5_platform}
use psstore.Sony.Json.{Value, Invalid}
use psstore.Sony.Product.{non_empty_texts, text_or_empty}
use psstore.Sony.Monthly.{
  RawEntry, raw_entry, Checked, kept, dropped, out_of_scope, scoped_entry, named_entry, check_entry,
  Feed, add_checked, read_games, bucket_games, add_bucket, read_buckets,
}

-- an element with a valid product id and a name, of a game on PS5, and its entry
pub record InScope (value : Value) (entry : PlusMonthlyEntry) : Type 0 where
  pub raw : RawEntry
  pub decoded : raw_entry value ≡ ok raw
  pub id_text : Text
  pub has_id : raw.product_id ≡ some id_text
  pub some_id : is_empty id_text ≡ false
  pub valid : parse_product_id id_text ≡ some entry.product_id
  pub has_name : raw.name ≡ some entry.name
  pub some_name : is_empty entry.name ≡ false
  pub on_ps5 : any (λ device. text_eq device ps5_platform) (non_empty_texts raw.device) ≡ true
  pub rest : entry ≡ record {
    product_id = entry.product_id;
    name = entry.name;
    image_url = text_or_empty raw.image_url;
    release_date = text_or_empty raw.release_date;
    genres = non_empty_texts raw.genre;
  }

module _ (value : Value) (raw : RawEntry) (decoded : raw_entry value ≡ ok raw) where
  scoped_entry-InScope :
      (id name : Text) (o : Option ProductId) (entry : PlusMonthlyEntry)
      → raw.product_id ≡ some id
      → raw.name ≡ some name
      → is_empty id ≡ false
      → is_empty name ≡ false
      → parse_product_id id ≡ o
      → scoped_entry raw name o ≡ kept entry
      → InScope value entry
  unfolding scoped_entry
  scoped_entry-InScope id name none entry has_id has_name some_id some_name valid h = absurd (cc h)
  scoped_entry-InScope id name (some found) entry has_id has_name some_id some_name valid h =
      elim (Bool-cases (any (λ device. text_eq device ps5_platform) (non_empty_texts raw.device))) [
        | inr other ↦ absurd (ground (arith, h, other))
        | inl ps5 ↦
            subst (InScope value)
              {x = record {
                product_id = found;
                name = name;
                image_url = text_or_empty raw.image_url;
                release_date = text_or_empty raw.release_date;
                genres = non_empty_texts raw.genre;
              }}
              {y = entry} (ground (arith, h, ps5))
              (record {
                raw = raw;
                decoded = decoded;
                id_text = id;
                has_id = has_id;
                some_id = some_id;
                valid = valid;
                has_name = has_name;
                some_name = some_name;
                on_ps5 = ps5;
                rest = refl;
              })
      ]

  named_entry-InScope :
      (i n : Option Text) (entry : PlusMonthlyEntry)
      → raw.product_id ≡ i
      → raw.name ≡ n
      → named_entry raw i n ≡ kept entry
      → InScope value entry
  unfolding named_entry
  named_entry-InScope none n entry has_id has_name h = absurd (cc h)
  named_entry-InScope (some id) none entry has_id has_name h = absurd (cc h)
  named_entry-InScope (some id) (some name) entry has_id has_name h =
      elim (Bool-cases (is_empty id || is_empty name)) [
        | inl bare ↦ absurd (ground (arith, h, bare))
        | inr named ↦
            scoped_entry-InScope id name (parse_product_id id) entry has_id has_name
              (ground (arith, named)) (ground (arith, named)) refl (rw named at h)
      ]

check_entry-InScope :
    (value : Value) (entry : PlusMonthlyEntry)
    → check_entry value ≡ kept entry
    → InScope value entry
unfolding check_entry
check_entry-InScope value entry h = go (raw_entry value) refl h
  where
    go :
        (r : Result RawEntry Invalid)
        → raw_entry value ≡ r
        → elim r as (λ x. Checked) [
          | err e ↦ dropped
          | ok raw ↦ named_entry raw raw.product_id raw.name
        ]
          ≡ kept entry
        → InScope value entry
    go (err e) decoded k = absurd (cc k)
    go (ok raw) decoded k =
        named_entry-InScope value raw decoded raw.product_id raw.name entry refl refl k

InScope-check_entry :
    (value : Value) (entry : PlusMonthlyEntry)
    → InScope value entry
    → check_entry value ≡ kept entry
unfolding check_entry named_entry scoped_entry
InScope-check_entry value entry s =
    rw (check_entry, s.decoded, s.has_id, s.has_name, s.some_id, s.some_name, s.valid, s.on_ps5)
      (ap kept (sym s.rest))

-- the elements of the buckets that decode, in order
abbrev pub bucket_values : Result (Option (List Value)) Invalid → List Value
bucket_values (ok games) = or_default games
bucket_values (err e) = []

abbrev pub feed_values : List Value → List Value
feed_values [] = []
feed_values (bucket ∷ buckets) = bucket_values (bucket_games bucket) ++ feed_values buckets

add_checked-Selects :
    (value : Value) (values : List Value) (feed : Feed) (c : Checked)
    → check_entry value ≡ c
    → Selects InScope values feed.entries
    → Selects InScope (value ∷ values) (add_checked c feed).entries
add_checked-Selects value values feed (kept entry) h rest =
    pick value entry values feed.entries (check_entry-InScope value entry h) rest
add_checked-Selects value values feed dropped h rest =
    skip value values feed.entries (λ entry s. cc (h, InScope-check_entry value entry s)) rest
add_checked-Selects value values feed out_of_scope h rest =
    skip value values feed.entries (λ entry s. cc (h, InScope-check_entry value entry s)) rest

read_games-Selects :
    (values later : List Value) (feed : Feed)
    → Selects InScope later feed.entries
    → Selects InScope (values ++ later) (read_games values feed).entries
unfolding read_games
read_games-Selects [] later feed h = h
read_games-Selects (value ∷ values) later feed h =
    add_checked-Selects value (values ++ later) (read_games values feed) (check_entry value) refl
      (read_games-Selects values later feed h)

add_bucket-Selects :
    (r : Result (Option (List Value)) Invalid) (later : List Value) (feed : Feed)
    → Selects InScope later feed.entries
    → Selects InScope (bucket_values r ++ later) (add_bucket r feed).entries
add_bucket-Selects (err e) later feed h = h
add_bucket-Selects (ok games) later feed h =
    read_games-Selects (or_default games) later
      (record feed { decoded_buckets = feed.decoded_buckets + 1 }) h

-- the entries of a feed are those in scope, in order
pub read_buckets-Selects :
    (buckets : List Value) → Selects InScope (feed_values buckets) (read_buckets buckets).entries
unfolding read_buckets
read_buckets-Selects [] = nothing
read_buckets-Selects (bucket ∷ buckets) =
    add_bucket-Selects (bucket_games bucket) (feed_values buckets) (read_buckets buckets)
      (read_buckets-Selects buckets)
