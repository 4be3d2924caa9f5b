-- ===== src/Sony/Monthly/Entries.antt =====
-- The entries that the monthly feed gives.
use mathlib.Core.List.{Sublist}
use psstore.Prelude.{
  find?, ◌⊎◌, ◌∙◌, ℕ, ◌+◌, ◌==◌, not, ◌&&◌, ◌≡◌, refl, inl, inr, true, false, ◌||◌, Option, none,
  some, List, [], ◌∷◌, Result, ok, err, arith, any, length, is_empty, All, Bool-cases,
}
use psstore.Prelude.Texts.{Text, Text-discrete, text_eq}
use psstore.Prelude.Dedupe.{
  has_key, DistinctKeys, dedupe-DistinctKeys, dedupe-All, dedupe-sublist, find-dedupe,
}
use psstore.Prelude.Selects.{Selects}
use psstore.Sony.Monthly.Scope.{InScope, feed_values, read_buckets-Selects}
use psstore.Ids.{ProductId, parse_product_id, is_valid_product_id}
use psstore.Ids.Formats.{parse_product_id-some}
use psstore.Game.{PlusMonthlyEntry}
use psstore.Mapper.{or_default}
use psstore.Listing.{ps5_platform}
use psstore.Sony.Json.{Value, Invalid, as_array}
use psstore.Sony.Product.{non_empty_texts}
use psstore.Sony.Monthly.{
  RawEntry, raw_entry, Checked, kept, dropped, out_of_scope, scoped_entry, named_entry, check_entry,
  Feed, add_checked, read_games, bucket_games, add_bucket, read_buckets, PlusMonthlyOutcome,
  monthly_drift, monthly, feed_outcome, parse_plus_monthly,
}

-- the elements that the feed counts: those of the buckets that decode, and the other buckets
abbrev pub bucket_size : Result (Option (List Value)) Invalid → ℕ
bucket_size (ok games) = length (or_default games)
bucket_size (err e) = 1

abbrev pub element_count : List Value → ℕ
element_count [] = 0
element_count (value ∷ values) = bucket_size (bucket_games value) + element_count values

abbrev feed_total : Feed → ℕ
feed_total feed = length feed.entries + feed.dropped_count + feed.out_of_scope_count

total-add_checked :
    (c : Checked) (feed : Feed) → feed_total (add_checked c feed) ≡ feed_total feed + 1
total-add_checked (kept entry) feed = omega arith
total-add_checked dropped feed = omega arith
total-add_checked out_of_scope feed = omega arith

total-read_games :
    (values : List Value) (feed : Feed)
    → feed_total (read_games values feed) ≡ feed_total feed + length values
unfolding read_games
total-read_games [] feed = omega arith
total-read_games (value ∷ values) feed = omega (
  arith,
  total-add_checked (check_entry value) (read_games values feed),
  total-read_games values feed,
)

total-add_bucket :
    (r : Result (Option (List Value)) Invalid) (feed : Feed)
    → feed_total (add_bucket r feed) ≡ feed_total feed + bucket_size r
total-add_bucket (err e) feed = omega arith
total-add_bucket (ok games) feed =
    total-read_games (or_default games) (record feed { decoded_buckets = feed.decoded_buckets + 1 })

total-read_buckets : (values : List Value) → feed_total (read_buckets values) ≡ element_count values
unfolding read_buckets
total-read_buckets [] = refl
total-read_buckets (value ∷ values) =
    omega (
      arith,
      total-add_bucket (bucket_games value) (read_buckets values),
      total-read_buckets values,
    )

-- a valid product id and a name
pub record IsNamed (entry : PlusMonthlyEntry) : Type 0 where
  pub valid : is_valid_product_id entry.product_id.as_str ≡ true
  pub name : is_empty entry.name ≡ false

abbrev KeptIsNamed : Checked → Type 0
KeptIsNamed (kept entry) = IsNamed entry
KeptIsNamed _ = Unit

scoped_entry-IsNamed :
    (raw : RawEntry) (name id : Text)
    → is_empty name ≡ false
    → (o : Option ProductId) → parse_product_id id ≡ o
    → KeptIsNamed (scoped_entry raw name o)
unfolding scoped_entry
scoped_entry-IsNamed raw name id h none e = tt
scoped_entry-IsNamed raw name id h (some product_id) e =
    elim (Bool-cases (any (λ device. text_eq device ps5_platform) (non_empty_texts raw.device))) [
      | inl on_ps5 ↦
          let parsed = parse_product_id-some id product_id e in
          rw on_ps5 (record { valid = rw parsed.1 parsed.0; name = h })
      | inr other ↦ rw other tt
    ]

named_entry-IsNamed :
    (raw : RawEntry) (id name : Option Text) → KeptIsNamed (named_entry raw id name)
unfolding named_entry
named_entry-IsNamed raw (some id) (some name) = elim (Bool-cases (is_empty id || is_empty name)) [
  | inl bare ↦ rw bare tt
  | inr named ↦
      rw named (scoped_entry-IsNamed raw name id (ground (arith, named)) (parse_product_id id) refl)
]
named_entry-IsNamed raw none name = tt
named_entry-IsNamed raw (some id) none = tt

check_entry-IsNamed : (value : Value) → KeptIsNamed (check_entry value)
unfolding check_entry
check_entry-IsNamed value = go (raw_entry value)
  where
    go :
        (r : Result RawEntry Invalid)
        → KeptIsNamed (elim r as (λ x. Checked) [
          | err e ↦ dropped
          | ok raw ↦ named_entry raw raw.product_id raw.name
        ])
    go (err e) = tt
    go (ok raw) = named_entry-IsNamed raw raw.product_id raw.name

AllNamed-add_checked :
    (c : Checked) (feed : Feed)
    → KeptIsNamed c
    → All IsNamed feed.entries
    → All IsNamed (add_checked c feed).entries
AllNamed-add_checked (kept entry) feed k h = (k, h)
AllNamed-add_checked dropped feed k h = h
AllNamed-add_checked out_of_scope feed k h = h

AllNamed-read_games :
    (values : List Value) (feed : Feed)
    → All IsNamed feed.entries
    → All IsNamed (read_games values feed).entries
unfolding read_games
AllNamed-read_games [] feed h = h
AllNamed-read_games (value ∷ values) feed h =
    AllNamed-add_checked (check_entry value) (read_games values feed) (check_entry-IsNamed value)
      (AllNamed-read_games values feed h)

AllNamed-add_bucket :
    (r : Result (Option (List Value)) Invalid) (feed : Feed)
    → All IsNamed feed.entries
    → All IsNamed (add_bucket r feed).entries
AllNamed-add_bucket (err e) feed h = h
AllNamed-add_bucket (ok games) feed h =
    AllNamed-read_games (or_default games)
      (record feed { decoded_buckets = feed.decoded_buckets + 1 }) h

AllNamed-read_buckets : (values : List Value) → All IsNamed (read_buckets values).entries
unfolding read_buckets
AllNamed-read_buckets [] = tt
AllNamed-read_buckets (value ∷ values) =
    AllNamed-add_bucket (bucket_games value) (read_buckets values) (AllNamed-read_buckets values)

-- a feed that is a list, with its entries and counts
pub record IsFeed (json : Value) (entries : List PlusMonthlyEntry) (dropped_count outside : ℕ)
    : Type 0 where
  pub buckets : List Value
  pub is_list : as_array json ≡ some buckets
  pub named : All IsNamed entries
  pub distinct :
      DistinctKeys Text-discrete (λ (entry : PlusMonthlyEntry). entry.product_id.as_str) entries
  pub in_scope : List PlusMonthlyEntry
  pub selected : Selects InScope (feed_values buckets) in_scope
  pub part : Sublist entries in_scope
  pub first_of_id :
      (id : Text)
      → find?
          (has_key Text-discrete (λ (entry : PlusMonthlyEntry). entry.product_id.as_str) id)
          entries
        ≡ find?
            (has_key Text-discrete (λ (entry : PlusMonthlyEntry). entry.product_id.as_str) id)
            in_scope
  pub count : length in_scope + dropped_count + outside ≡ element_count buckets

-- a bucket that fails to decode
abbrev pub IsBroken : Result (Option (List Value)) Invalid → Type 0
IsBroken (ok games) = ⊥
IsBroken (err e) = Unit

-- no list, or a list of some buckets of which none decodes
abbrev pub IsDrift : Value → Type 0
IsDrift json =
    (as_array json ≡ none)
    ⊎ ((buckets : List Value) × (as_array json ≡ some buckets)
        × (is_empty buckets ≡ false)
        × All (λ bucket. IsBroken (bucket_games bucket)) buckets)

abbrev pub IsOutcome : Value → PlusMonthlyOutcome → Type 0
IsOutcome json monthly_drift = IsDrift json
IsOutcome json (monthly entries dropped_count outside) = IsFeed json entries dropped_count outside

decoded-add_checked :
    (c : Checked) (feed : Feed) → (add_checked c feed).decoded_buckets ≡ feed.decoded_buckets
decoded-add_checked (kept entry) feed = refl
decoded-add_checked dropped feed = refl
decoded-add_checked out_of_scope feed = refl

decoded-read_games :
    (values : List Value) (feed : Feed)
    → (read_games values feed).decoded_buckets ≡ feed.decoded_buckets
unfolding read_games
decoded-read_games [] feed = refl
decoded-read_games (value ∷ values) feed =
    decoded-add_checked (check_entry value) (read_games values feed)
    ∙ decoded-read_games values feed

IsBroken-bucket :
    (r : Result (Option (List Value)) Invalid) (feed : Feed)
    → (add_bucket r feed).decoded_buckets ≡ 0
    → IsBroken r × (feed.decoded_buckets ≡ 0)
IsBroken-bucket (err e) feed h = (tt, h)
IsBroken-bucket (ok games) feed h =
    let same =
      decoded-read_games (or_default games)
        (record feed { decoded_buckets = feed.decoded_buckets + 1 }) in
    absurd (omega (arith, h, same))

IsBroken-buckets :
    (buckets : List Value)
    → (read_buckets buckets).decoded_buckets ≡ 0
    → All (λ bucket. IsBroken (bucket_games bucket)) buckets
unfolding read_buckets
IsBroken-buckets [] h = tt
IsBroken-buckets (bucket ∷ buckets) h =
    let (broken, rest) = IsBroken-bucket (bucket_games bucket) (read_buckets buckets) h in
    (broken, IsBroken-buckets buckets rest)

feed_outcome-IsOutcome :
    (json : Value) (buckets : List Value)
    → as_array json ≡ some buckets
    → IsOutcome json (feed_outcome buckets (read_buckets buckets))
unfolding feed_outcome
feed_outcome-IsOutcome json buckets h =
    let feed = read_buckets buckets in
    let key : PlusMonthlyEntry → Text = λ entry. entry.product_id.as_str in
    elim (Bool-cases (not (is_empty buckets) && feed.decoded_buckets == 0)) [
      | inl no_bucket ↦ rw no_bucket (
          inr (
            buckets,
            h,
            ground (arith, no_bucket),
            IsBroken-buckets buckets (ground (arith, no_bucket)),
          ))
      | inr some_bucket ↦ rw some_bucket (record {
        buckets = buckets;
        is_list = h;
        named = dedupe-All Text-discrete key IsNamed feed.entries (AllNamed-read_buckets buckets);
        distinct = dedupe-DistinctKeys Text-discrete key feed.entries;
        in_scope = feed.entries;
        selected = read_buckets-Selects buckets;
        part = dedupe-sublist Text-discrete key feed.entries;
        first_of_id = λ id. find-dedupe Text-discrete key id feed.entries;
        count = total-read_buckets buckets;
      })
    ]

-- The monthly feed gives entries only with a valid product id and a name, no id twice: in their order the
-- first entries of their ids among the elements of the buckets that are in scope, which decode to a
-- valid product id and a name of a game on PS5. Every element of a bucket, and every bucket that fails
-- to decode, is in scope, dropped or out of scope: the counts add up. The feed is a drift only when it
-- is no list, or when it has buckets and none of them decodes.
pub parse_plus_monthly-IsOutcome : (json : Value) → IsOutcome json (parse_plus_monthly json)
unfolding parse_plus_monthly
parse_plus_monthly-IsOutcome json = go (as_array json) refl
  where
    go :
        (o : Option (List Value))
        → as_array json ≡ o
        → IsOutcome json (elim o as (λ x. PlusMonthlyOutcome) [
          | none ↦ monthly_drift
          | some buckets ↦ feed_outcome buckets (read_buckets buckets)
        ])
    go none h = inl h
    go (some buckets) h = feed_outcome-IsOutcome json buckets h
