-- ===== src/Util/Calendar.antt =====
-- The calendar of src/util/time.rs. A year is an `i32`, a day number an `i64`: both are integers; the
-- numbers below a division are not negative, and stand as natural numbers.
use slotd.Prelude.{
  ℕ, ◌+◌, ◌-◌, ◌*◌, ◌/◌, ◌%◌, ◌^◌, Bool, ◌&&◌, ◌||◌, not, Option, none, some, ltb, leb, ◌==◌,
  if◌then◌else◌, ℤ, pos, negsuc, pos_part, neg_part, ◌+ℤ◌, ◌-ℤ◌, ◌*ℤ◌, leb_ℤ, Result, ok, err,
  message, ok_or, lit, ◌>>=◌,
}

-- Year, month and day.
pub record Day : Type 0 where
  pub year : ℤ
  pub month : ℕ
  pub day : ℕ

-- A day, and hour, minute and second.
pub record Moment : Type 0 where
  pub date : Day
  pub hour : ℕ
  pub minute : ℕ
  pub second : ℕ

-- `a / k` of a signed type rounds towards zero.
unfoldable pub div_ℤ : ℤ → ℕ → ℤ
div_ℤ (pos a) k = pos (a / k)
div_ℤ (negsuc a) k = pos 0 -ℤ pos ((a + 1) / k)

-- `a % k == 0`, which does not depend on the sign.
unfoldable pub divides : ℕ → ℤ → Bool
divides k a = (pos_part a + neg_part a) % k == 0

unfoldable pub is_leap_year : ℤ → Bool
unfolding divides
is_leap_year year = (divides 4 year && not (divides 100 year)) || divides 400 year

unfoldable pub days_in_month : ℤ → ℕ → Option ℕ
unfolding is_leap_year
days_in_month year month =
    if (month == 1)
      || (month == 3)
      || (month == 5)
      || (month == 7)
      || (month == 8)
      || (month == 10)
      || (month == 12)
    then some 31
    else if (month == 4) || (month == 6) || (month == 9) || (month == 11)
    then some 30
    else if month == 2
    then (if is_leap_year year then some 29 else some 28)
    else none

-- The year that begins in March.
unfoldable pub march_year : ℤ → ℕ → ℤ
march_year year month = year -ℤ pos (if leb month 2 then 1 else 0)

-- `if year >= 0 { year } else { year - 399 } / 400`.
unfoldable pub era_of_year : ℤ → ℤ
unfolding div_ℤ
era_of_year year = div_ℤ (if leb_ℤ (pos 0) year then year else year -ℤ pos 399) 400

-- The day of the year that begins in March, from 0. The caller has checked that 1 ≤ day.
unfoldable pub day_of_march_year : ℕ → ℕ → ℕ
day_of_march_year month day =
    (153 * (if ltb 2 month then month - 3 else month + 9) + 2) / 5 + (day - 1)

-- The day of the era of 400 years, from 0.
unfoldable pub day_of_era : ℕ → ℕ → ℕ
day_of_era yoe doy = yoe * 365 + yoe / 4 - yoe / 100 + doy

unfoldable pub days_of : ℤ → ℕ → ℕ → ℤ
unfolding era_of_year march_year day_of_march_year day_of_era
days_of year month day =
    let y = march_year year month in
    let era = era_of_year y in
    let yoe = pos_part (y -ℤ era *ℤ pos 400) in
    era *ℤ pos 146097 +ℤ pos (day_of_era yoe (day_of_march_year month day)) -ℤ pos 719468

unfoldable pub checked_days : Option ℕ → ℤ → ℕ → ℕ → Option ℤ
unfolding days_of
checked_days none year month day = none
checked_days (some days) year month day =
    if ltb days day then none else some (days_of year month day)

unfoldable pub days_from_civil : ℤ → ℕ → ℕ → Option ℤ
unfolding checked_days
days_from_civil year month day = checked_days (days_in_month year month) year month day

unfoldable pub datetime_to_epoch : ℤ → ℕ → ℕ → ℕ → ℕ → ℕ → Result ℤ
unfolding days_from_civil
datetime_to_epoch year month day hour minute second =
    if not (leb 1 month && leb month 12)
      || not (leb 1 day && leb day 31)
      || ltb 23 hour
      || ltb 59 minute
      || ltb 59 second
    then err (message (lit "invalid date or time"))
    else (ok_or (days_from_civil year month day) (message (lit "invalid date")) >>= λ days.
        ok (days *ℤ pos 86400 +ℤ pos (hour * 3600) +ℤ pos (minute * 60) +ℤ pos second))

-- `year as i32`.
unfoldable pub as_i32 : ℤ → ℤ
as_i32 (pos a) = let r = a % 2 ^ 32 in if ltb r (2 ^ 31) then pos r else pos r -ℤ pos (2 ^ 32)
as_i32 (negsuc a) = let r = a % 2 ^ 32 in if ltb r (2 ^ 31) then negsuc r else pos (2 ^ 32 - 1 - r)

-- `if z >= 0 { z } else { z - 146_096 } / 146_097`.
unfoldable pub era_of_day : ℤ → ℤ
unfolding div_ℤ
era_of_day z = div_ℤ (if leb_ℤ (pos 0) z then z else z -ℤ pos 146096) 146097

unfoldable pub year_of_era : ℕ → ℕ
year_of_era doe = (doe - doe / 1460 + doe / 36524 - doe / 146096) / 365

-- The month counted from March, from a day of the year that begins in March.
unfoldable pub month_of_day : ℕ → ℕ
month_of_day doy = (5 * doy + 2) / 153

-- The month of the calendar, from the month counted from March.
unfoldable pub civil_month : ℕ → ℕ
civil_month mp = if ltb mp 10 then mp + 3 else mp - 9

-- The day of an era, from the year of the era and the day of that year.
unfoldable pub civil_of_year : ℤ → ℕ → ℕ → Day
unfolding month_of_day civil_month as_i32
civil_of_year era yoe doy =
    let mp = month_of_day doy in
    let month = civil_month mp in
    record {
      year = as_i32 (pos yoe +ℤ era *ℤ pos 400 +ℤ pos (if leb month 2 then 1 else 0));
      month = month;
      day = doy - (153 * mp + 2) / 5 + 1;
    }

unfoldable pub civil_of : ℤ → ℕ → Day
unfolding year_of_era civil_of_year
civil_of era doe =
    let yoe = year_of_era doe in civil_of_year era yoe (doe - (365 * yoe + yoe / 4 - yoe / 100))

unfoldable pub civil_from_days : ℤ → Day
unfolding era_of_day civil_of
civil_from_days days =
    let z = days +ℤ pos 719468 in
    let era = era_of_day z in civil_of era (pos_part (z -ℤ era *ℤ pos 146097))

-- `div_euclid` and `rem_euclid` by a positive number.
unfoldable pub div_euclid : ℤ → ℕ → ℤ
div_euclid (pos a) k = pos (a / k)
div_euclid (negsuc a) k = negsuc (a / k)

unfoldable pub rem_euclid : ℤ → ℕ → ℕ
rem_euclid (pos a) k = a % k
rem_euclid (negsuc a) k = k - 1 - a % k

unfoldable pub civil_from_epoch : ℤ → Moment
unfolding civil_from_days div_euclid rem_euclid
civil_from_epoch timestamp =
    let secs = rem_euclid timestamp 86400 in
    record {
      date = civil_from_days (div_euclid timestamp 86400);
      hour = secs / 3600;
      minute = secs % 3600 / 60;
      second = secs % 60;
    }
