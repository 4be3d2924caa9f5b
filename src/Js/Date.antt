-- ===== src/Js/Date.antt =====
-- crates/domain/src/js.rs: `parse_date_ms`, `to_iso_string` and `utc_full_year`.
use psstore.Prelude.{
  ℕ, zero, suc, ◌+◌, ◌-◌, ◌/◌, ◌%◌, Bool, true, false, not, ◌&&◌, ◌||◌, Option, none, some, [], ◌∷◌,
  ◌++◌, ◌==◌, ltb, leb, if◌then◌else◌,
}
use psstore.Prelude.Int.{ℤ, pos, negsuc, pos_part, neg_part}
use psstore.Prelude.Texts.{Text, bytes}
use psstore.Js.Jiff.{Civil, Jiff}
use psstore.Js.Cursor.{
  M, ◌>>=◌, pure, fail, eat, eat_any, expect, done, digits, year, fraction_ms, offset,
}

-- what the cursor reads, before any check of a range but the offset's
pub record Parts : Type 0 where
  pub year : ℤ
  pub month : ℕ
  pub day : ℕ
  pub hour : ℕ
  pub minute : ℕ
  pub second : ℕ
  pub millisecond : ℕ
  pub offset_seconds : ℤ

-- `YYYY`, `YYYY-MM` or `YYYY-MM-DD`
unfoldable pub read_date : M (ℤ × ℕ × ℕ)
unfolding year eat digits pure
read_date = do
  y ← year
  month_follows ← eat b'-'
  if month_follows
      then (do
        month ← digits 2
        day_follows ← eat b'-'
        if day_follows then (do day ← digits 2; pure (y, month, day)) else pure (y, month, 1))
      else pure (y, 1, 1)

-- the seconds, and the fraction after them
unfoldable pub read_seconds : M (ℕ × ℕ)
unfolding eat digits fraction_ms pure
read_seconds = do
  second_follows ← eat b':'
  if second_follows
      then (do
        second ← digits 2
        fraction_follows ← eat b'.'
        if fraction_follows
            then (do millisecond ← fraction_ms; pure (second, millisecond))
            else pure (second, 0))
      else pure (0, 0)

-- the time after `T`, `t` or a space; without one it is midnight
unfoldable pub read_time : M (ℕ × ℕ × ℕ × ℕ)
unfolding eat_any digits expect read_seconds pure
read_time = do
  time_follows ← eat_any (b'T' ∷ b't' ∷ b' ' ∷ [])
  if time_follows
      then (do
        hour ← digits 2
        colon ← expect b':'
        minute ← digits 2
        rest ← read_seconds
        pure (hour, minute, rest.0, rest.1))
      else pure (0, 0, 0, 0)

abbrev pub date_in_range : ℕ → ℕ → Bool
date_in_range month day = leb 1 month && leb month 12 && (leb 1 day && leb day 31)

unfoldable pub read_parts : M Parts
unfolding read_date read_time offset pure fail
read_parts = do
  date ← read_date
  if date_in_range date.1 date.2
      then (do
        time ← read_time
        offset_seconds ← offset
        pure (record {
          year = date.0;
          month = date.1;
          day = date.2;
          hour = time.0;
          minute = time.1;
          second = time.2;
          millisecond = time.3;
          offset_seconds = offset_seconds;
        }))
      else fail

abbrev pub is_end_of_day : Parts → Bool
is_end_of_day p = p.hour == 24 && (p.minute == 0 && (p.second == 0 && p.millisecond == 0))

abbrev pub time_in_range : Parts → Bool
time_in_range p =
    not (ltb 23 p.hour && not (is_end_of_day p) || (ltb 59 p.minute || ltb 59 p.second))

-- `i16::try_from`. The other conversions are of one or two digits, which fit.
unfoldable pub in_i16 : ℤ → Bool
in_i16 y = leb (pos_part y) 32767 && leb (neg_part y) 32768

infixl 5 ◌>=>◌
abbrev pub ◌>=>◌ {ℓ κ} : {A : Type ℓ} {B : Type κ} → Option A → (A → Option B) → Option B
none >=> f = none
some a >=> f = f a

-- the whole text, read to its end
unfoldable pub parse_parts : Text → Option Parts
unfolding read_parts done
parse_parts s = read_parts (record { bytes = bytes s; at = 0 }) >=> λ r.
    if done r.1 && time_in_range r.0 then some r.0 else none

module _ (j : Jiff) where
  open j use {
    Date, date_new, add_days, date_year, date_month, date_day, datetime_new, civil, from_seconds,
    utc, to_timestamp, to_datetime, from_millisecond, as_millisecond,
  }

  -- a day past the end of its month rolls over, and 24:00 is the start of the next day
  unfoldable pub civil_of : Parts → Option Civil
  unfolding in_i16
  civil_of p = (if in_i16 p.year then date_new p.year p.month 1 else none) >=> λ first.
      add_days first (p.day - 1) >=> λ date.
      (if is_end_of_day p then add_days date 1 else some date) >=> λ date'. some (record {
        year = date_year date';
        month = date_month date';
        day = date_day date';
        hour = if is_end_of_day p then 0 else p.hour;
        minute = p.minute;
        second = p.second;
        millisecond = p.millisecond;
      })

  unfoldable pub parse_date_ms : Text → Option ℤ
  unfolding parse_parts civil_of
  parse_date_ms s = parse_parts s >=> λ p. civil_of p >=> λ c. datetime_new c >=> λ datetime.
      from_seconds p.offset_seconds >=> λ off.
      to_timestamp off datetime >=> λ timestamp. some (as_millisecond timestamp)

-- the decimal digits of a number, none for zero
unfoldable pub decimal : ℕ → ℕ → Text
decimal zero n = []
decimal (suc fuel) n = elim (n == 0) [
  | true ↦ []
  | false ↦ decimal fuel (n / 10) ++ (b'0' + n % 10) ∷ []
]

-- `{n:0w}`
unfoldable pub padded : ℕ → ℕ → Text
unfolding decimal
padded zero n = decimal n n
padded (suc w) n = padded w (n / 10) ++ (b'0' + n % 10) ∷ []

unfoldable pub year_text : ℤ → Text
unfolding padded
year_text (pos n) = if leb n 9999 then padded 4 n else b'+' ∷ padded 6 n
year_text (negsuc n) = b'-' ∷ padded 6 (suc n)

unfoldable pub iso_text : Civil → Text
unfolding year_text padded
iso_text c =
    year_text c.year
    ++ (b'-' ∷ padded 2 c.month)
    ++ (b'-' ∷ padded 2 c.day)
    ++ (b'T' ∷ padded 2 c.hour)
    ++ (b':' ∷ padded 2 c.minute)
    ++ (b':' ∷ padded 2 c.second)
    ++ (b'.' ∷ padded 3 c.millisecond)
    ++ b'Z' ∷ []

module _ (j : Jiff) where
  open j use {civil, utc, to_datetime, from_millisecond}

  unfoldable pub to_iso_string : ℤ → Option Text
  unfolding iso_text
  to_iso_string ms =
      from_millisecond ms >=> λ timestamp. some (iso_text (civil (to_datetime utc timestamp)))

  unfoldable pub utc_full_year : ℤ → Option ℤ
  utc_full_year ms =
      from_millisecond ms >=> λ timestamp. some (civil (to_datetime utc timestamp)).year
