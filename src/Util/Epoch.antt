-- ===== src/Util/Epoch.antt =====
-- Dates and times of src/util/time.rs turned into seconds since the epoch and back.
use slotd.Prelude.{
  ℕ, ◌+◌, ◌*◌, ◌/◌, ◌%◌, ◌≤◌, ◌<◌, ◌≡◌, refl, ℤ, pos, negsuc, ◌+ℤ◌, ◌*ℤ◌, ok, some, arith,
  Option-cases, inl, inr,
}
use slotd.Util.Calendar.{
  days_from_civil, datetime_to_epoch, div_euclid, rem_euclid, civil_from_epoch,
}
use slotd.Util.CalendarLaws.{IsI32, civil_from_days-days_from_civil}

-- The seconds since the epoch, cut into days and the rest.
euclid-day :
    (days : ℤ) (s a b c : ℕ)
    → a + b + c ≡ s
    → s < 86400
    → (div_euclid (days *ℤ pos 86400 +ℤ pos a +ℤ pos b +ℤ pos c) 86400 ≡ days)
      × (rem_euclid (days *ℤ pos 86400 +ℤ pos a +ℤ pos b +ℤ pos c) 86400 ≡ s)
unfolding div_euclid rem_euclid ◌*ℤ◌ ◌+ℤ◌
euclid-day (pos n) s a b c e l = (ground arith, ground arith)
euclid-day (negsuc n) s a b c e l = (ground arith, ground arith)

-- What a date and time that has a number of seconds is.
datetime_to_epoch-ok :
    (year : ℤ) (month day hour minute second : ℕ) (t : ℤ)
    → datetime_to_epoch year month day hour minute second ≡ ok t
    → (days : ℤ) × (days_from_civil year month day ≡ some days)
      × (1 ≤ day)
      × (hour < 24)
      × (minute < 60)
      × (second < 60)
      × (t ≡ days *ℤ pos 86400 +ℤ pos (hour * 3600) +ℤ pos (minute * 60) +ℤ pos second)
unfolding datetime_to_epoch
datetime_to_epoch-ok year month day hour minute second t e =
    elim (Option-cases (days_from_civil year month day)) [
      | inl n ↦ ground arith
      | inr (days, s) ↦
          (days, s, ground arith, ground arith, ground arith, ground arith, ground arith)
    ]

hour_of_secs : (h m s : ℕ) → m < 60 → s < 60 → (h * 3600 + m * 60 + s) / 3600 ≡ h
hour_of_secs h m s a b = omega arith

minute_of_secs : (h m s : ℕ) → m < 60 → s < 60 → (h * 3600 + m * 60 + s) % 3600 / 60 ≡ m
minute_of_secs h m s a b = omega arith

second_of_secs : (h m s : ℕ) → m < 60 → s < 60 → (h * 3600 + m * 60 + s) % 60 ≡ s
second_of_secs h m s a b = omega arith

-- A date and time that `datetime_to_epoch` takes, with a year that fits an `i32`, comes back from its
-- seconds since the epoch: the year, the month, the day, the hour, the minute and the second.
pub civil_from_epoch-datetime_to_epoch :
    (year : ℤ) (month day hour minute second : ℕ) (t : ℤ)
    → IsI32 year
    → datetime_to_epoch year month day hour minute second ≡ ok t
    → civil_from_epoch t ≡ record {
      date = record { year = year; month = month; day = day };
      hour = hour;
      minute = minute;
      second = second;
    }
unfolding civil_from_epoch
civil_from_epoch-datetime_to_epoch year month day hour minute second t i e =
    let (days, s, d, h, m, sec, v) = datetime_to_epoch-ok year month day hour minute second t e in
    let (q, r) =
      euclid-day days (hour * 3600 + minute * 60 + second) (hour * 3600) (minute * 60) second refl
        (omega arith) in
    rw
      (
        v,
        q,
        r,
        civil_from_days-days_from_civil year month day days i d s,
        hour_of_secs hour minute second m sec,
        minute_of_secs hour minute second m sec,
        second_of_secs hour minute second m sec,
      )
      refl
