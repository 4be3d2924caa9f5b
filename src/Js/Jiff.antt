-- ===== src/Js/Jiff.antt =====
-- What js.rs calls of the `jiff` crate: civil dates and times, offsets and timestamps. A failed
-- conversion is `none`.
use psstore.Prelude.{ℕ, Option}
use psstore.Prelude.Int.{ℤ}

-- the calendar fields of a `civil::DateTime` in milliseconds, as its accessors give them
pub record Civil : Type 0 where
  pub year : ℤ
  pub month : ℕ
  pub day : ℕ
  pub hour : ℕ
  pub minute : ℕ
  pub second : ℕ
  pub millisecond : ℕ

pub record Jiff : Type 1 where
  pub Date : Type 0
  pub DateTime : Type 0
  pub Offset : Type 0
  pub Timestamp : Type 0
  -- `Date::new`, `Date::checked_add` of a span of days, and the accessors of a date
  pub date_new : ℤ → ℕ → ℕ → Option Date
  pub add_days : Date → ℕ → Option Date
  pub date_year : Date → ℤ
  pub date_month : Date → ℕ
  pub date_day : Date → ℕ
  -- `DateTime::new`, and the accessors of a datetime
  pub datetime_new : Civil → Option DateTime
  pub civil : DateTime → Civil
  -- `Offset::from_seconds`, `Offset::UTC`, `Offset::to_timestamp` and `Offset::to_datetime`
  pub from_seconds : ℤ → Option Offset
  pub utc : Offset
  pub to_timestamp : Offset → DateTime → Option Timestamp
  pub to_datetime : Offset → Timestamp → DateTime
  -- `Timestamp::from_millisecond` and `Timestamp::as_millisecond`
  pub from_millisecond : ℤ → Option Timestamp
  pub as_millisecond : Timestamp → ℤ
