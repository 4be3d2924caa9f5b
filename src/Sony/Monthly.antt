-- ===== src/Sony/Monthly.antt =====
-- crates/server/src/sources/sony/catalog/monthly.rs: the feed of the PS Plus monthly games.
pub mod Entries
pub mod Scope
use psstore.Prelude.{
  ℕ, ◌+◌, Bool, true, false, not, ◌&&◌, ◌||◌, Option, none, some, List, [], ◌∷◌, ◌++◌, Result, ok,
  err, ◌>>=◌, any, is_empty, length, ◌==◌, if◌then◌else◌,
}
use psstore.Prelude.Texts.{Text, text, text_eq, Text-discrete}
use psstore.Prelude.Dedupe.{dedupe}
use psstore.Ids.{ProductId, parse_product_id}
use psstore.Game.{PlusMonthlyEntry}
use psstore.Mapper.{or_default}
use psstore.Listing.{ps5_platform}
use psstore.Sony.Json.{
  Value, Invalid, object_of, as_array, opt_list, opt_string, opt_nullable_strings,
}
use psstore.Sony.Product.{non_empty_texts, text_or_empty}

pub data PlusMonthlyOutcome : Type 0 where
  monthly_drift : PlusMonthlyOutcome
  monthly : List PlusMonthlyEntry → ℕ → ℕ → PlusMonthlyOutcome

pub record RawEntry : Type 0 where
  pub product_id : Option Text
  pub name : Option Text
  pub image_url : Option Text
  pub release_date : Option Text
  pub genre : Option (List (Option Text))
  pub device : Option (List (Option Text))

unfoldable pub raw_entry : Value → Result RawEntry Invalid
unfolding object_of opt_string opt_nullable_strings
raw_entry value = do
  obj ← object_of value
  product_id ← opt_string obj (text "productId")
  name ← opt_string obj (text "name")
  image_url ← opt_string obj (text "imageUrl")
  release_date ← opt_string obj (text "releaseDate")
  genre ← opt_nullable_strings obj (text "genre")
  device ← opt_nullable_strings obj (text "device")
  ok (record {
    product_id = product_id;
    name = name;
    image_url = image_url;
    release_date = release_date;
    genre = genre;
    device = device;
  })

-- what one element of a bucket is
pub data Checked : Type 0 where
  kept : PlusMonthlyEntry → Checked
  dropped out_of_scope : Checked

-- the entry of a product on PS5, or an element out of scope
unfoldable pub scoped_entry : RawEntry → Text → Option ProductId → Checked
unfolding non_empty_texts
scoped_entry raw name none = out_of_scope
scoped_entry raw name (some product_id) =
    if any (λ device. text_eq device ps5_platform) (non_empty_texts raw.device)
    then kept (record {
      product_id = product_id;
      name = name;
      image_url = text_or_empty raw.image_url;
      release_date = text_or_empty raw.release_date;
      genres = non_empty_texts raw.genre;
    })
    else out_of_scope

-- the checks on a decoded element
unfoldable pub named_entry : RawEntry → Option Text → Option Text → Checked
unfolding scoped_entry
named_entry raw (some product_id) (some name) =
    if is_empty product_id || is_empty name
    then dropped
    else scoped_entry raw name (parse_product_id product_id)
named_entry raw _ _ = dropped

unfoldable pub check_entry : Value → Checked
unfolding raw_entry named_entry
check_entry value = elim (raw_entry value) [
  | err e ↦ dropped
  | ok raw ↦ named_entry raw raw.product_id raw.name
]

-- the counters of the loops; `entries` before the check of repeated ids
pub record Feed : Type 0 where
  pub entries : List PlusMonthlyEntry
  pub dropped_count : ℕ
  pub out_of_scope_count : ℕ
  pub decoded_buckets : ℕ

abbrev pub add_checked : Checked → Feed → Feed
add_checked (kept entry) feed = record feed { entries = entry ∷ feed.entries }
add_checked dropped feed = record feed { dropped_count = feed.dropped_count + 1 }
add_checked out_of_scope feed = record feed { out_of_scope_count = feed.out_of_scope_count + 1 }

-- the elements of a bucket, before the rest of the feed
unfoldable pub read_games : List Value → Feed → Feed
unfolding check_entry
read_games [] feed = feed
read_games (value ∷ values) feed = add_checked (check_entry value) (read_games values feed)

-- the games of a bucket, or a bucket that fails to decode
unfoldable pub bucket_games : Value → Result (Option (List Value)) Invalid
unfolding object_of opt_list
bucket_games value = object_of value >>= λ bucket. opt_list bucket (text "games")

abbrev pub add_bucket : Result (Option (List Value)) Invalid → Feed → Feed
add_bucket (err e) feed = record feed { dropped_count = feed.dropped_count + 1 }
add_bucket (ok games) feed =
    read_games (or_default games) (record feed { decoded_buckets = feed.decoded_buckets + 1 })

unfoldable pub read_buckets : List Value → Feed
unfolding bucket_games read_games
read_buckets [] = record {
  entries = [];
  dropped_count = 0;
  out_of_scope_count = 0;
  decoded_buckets = 0;
}
read_buckets (value ∷ values) = add_bucket (bucket_games value) (read_buckets values)

unfoldable pub feed_outcome : List Value → Feed → PlusMonthlyOutcome
feed_outcome buckets feed =
    if not (is_empty buckets) && feed.decoded_buckets == 0
    then monthly_drift
    else monthly
        (dedupe Text-discrete (λ (entry : PlusMonthlyEntry). entry.product_id.as_str) feed.entries)
        feed.dropped_count feed.out_of_scope_count

unfoldable pub parse_plus_monthly : Value → PlusMonthlyOutcome
unfolding as_array read_buckets feed_outcome
parse_plus_monthly json = elim (as_array json) [
  | none ↦ monthly_drift
  | some buckets ↦ feed_outcome buckets (read_buckets buckets)
]
