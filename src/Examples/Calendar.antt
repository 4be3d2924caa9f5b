-- ===== src/Examples/Calendar.antt =====
-- A calendar with months of 31 days, at the place of the `jiff` crate, and cards with its dates.
use psstore.Prelude.{
  ℕ, ◌+◌, ◌*◌, ◌-◌, ◌/◌, ◌%◌, false, none, some, List, [], ◌∷◌, leb, if◌then◌else◌,
}
use psstore.Prelude.Int.{ℤ, pos, ◌-ℤ◌, pos_part}
use psstore.Prelude.Texts.{Text, text}
use psstore.Js.Jiff.{Civil, Jiff}
use psstore.Game.{Game, IdKind}

abbrev pub second_of : Civil → ℕ
second_of c =
    (((pos_part c.year * 12 + (c.month - 1)) * 31 + (c.day - 1)) * 24 + c.hour) * 3600
    + c.minute * 60
    + c.second

abbrev pub instant_of : ℤ → Civil → ℤ
instant_of offset c = pos (second_of c * 1000 + c.millisecond) -ℤ offset

abbrev pub civil_at : ℕ → Civil
civil_at ms =
    let days = ms / 86400000 in
    record {
      year = pos (days / 372);
      month = days / 31 % 12 + 1;
      day = days % 31 + 1;
      hour = ms / 3600000 % 24;
      minute = ms / 60000 % 60;
      second = ms / 1000 % 60;
      millisecond = ms % 1000;
    }

abbrev pub calendar : Jiff
calendar = record {
  Date = ℕ;
  DateTime = Civil;
  Offset = ℤ;
  Timestamp = ℤ;
  date_new = λ year month day. some ((pos_part year * 12 + (month - 1)) * 31 + (day - 1));
  add_days = λ date days. some (date + days);
  date_year = λ date. pos (date / 372);
  date_month = λ date. date / 31 % 12 + 1;
  date_day = λ date. date % 31 + 1;
  datetime_new = λ c. some c;
  civil = λ c. c;
  from_seconds = λ seconds.
      some (if leb (pos_part seconds) 93599 then pos (pos_part seconds * 1000) else pos 0);
  utc = pos 0;
  to_timestamp = λ offset c. some (instant_of offset c);
  to_datetime = λ offset ms. civil_at (pos_part (ms -ℤ (pos 0 -ℤ offset)));
  from_millisecond = λ ms. some ms;
  as_millisecond = λ ms. ms;
}

abbrev pub card_of : Text → Text → Text → Game
card_of id name date = record {
  id = record { as_str = id };
  name = name;
  date = date;
  url = text "u";
  price = [];
  original_price = [];
  discount_text = [];
  discount_date = [];
  screenshots = [];
  videos = [];
  genres = [];
  description = [];
  studio = [];
  pre_order = false;
  plus_upsell_text = none;
  plus_offer = none;
  id_kind = IdKind.product;
}

abbrev pub june : Game
june = card_of (text "1") (text "June") (text "2024-06-15T00:00:00.500Z")

abbrev pub may : Game
may = card_of (text "2") (text "May") (text "2024-05-01")

abbrev pub undated : Game
undated = card_of (text "3") (text "Undated") []

abbrev pub three_games : List Game
three_games = undated ∷ may ∷ june ∷ []
