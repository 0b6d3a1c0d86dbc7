-- ===== src/Util/CalendarLaws.antt =====
-- Dates of src/util/time.rs turned into day numbers and back.
use slotd.Prelude.{
  Bool, ℕ, suc, ◌+◌, ◌-◌, ◌*◌, ◌/◌, ◌%◌, ◌^◌, ◌≤◌, ◌<◌, ◌≡◌, refl, ap, ◌∙◌, sym, true, ltb, leb,
  if◌then◌else◌, ℤ, pos, negsuc, pos_part, ◌+ℤ◌, ◌-ℤ◌, ◌*ℤ◌, some, none, Option, arith, dec_le,
  Bool-cases, inl, inr,
}
use slotd.Util.Calendar.{
  div_ℤ, divides, is_leap_year, days_in_month, march_year, era_of_year, day_of_march_year,
  day_of_era, days_of, checked_days, days_from_civil, as_i32, era_of_day, year_of_era, month_of_day,
  civil_month, civil_of_year, civil_of, civil_from_days,
}

-- A day number within an era determines the year of the era. The last year has one day more.
year_of_era-day_of_era :
    (yoe doy : ℕ)
    → yoe < 400
    → doy ≤ 365
    → day_of_era yoe doy < day_of_era (suc yoe) 0 + suc yoe / 400
    → year_of_era (day_of_era yoe doy) ≡ yoe
unfolding year_of_era day_of_era
year_of_era-day_of_era yoe doy h k l = omega arith

-- A day of the year determines its month, counted from March.
month_of_day-at :
    (mp d : ℕ)
    → mp < 12
    → (153 * mp + 2) / 5 + d < (153 * suc mp + 2) / 5
    → month_of_day ((153 * mp + 2) / 5 + d) ≡ mp
unfolding month_of_day
month_of_day-at mp d h l = omega arith

-- The years, and the days, of the eras.
era_of_year-split :
    (y : ℤ)
    → (r : ℕ) × (y ≡ era_of_year y *ℤ pos 400 +ℤ pos r)
      × (r ≡ pos_part (y -ℤ era_of_year y *ℤ pos 400))
      × (r < 400)
unfolding era_of_year div_ℤ ◌*ℤ◌ ◌+ℤ◌ ◌-ℤ◌
era_of_year-split (pos n) = (n % 400, ground arith, ground arith, omega arith)
era_of_year-split (negsuc n) = (399 - n % 400, ground arith, ground arith, omega arith)

era_of_day-at :
    (e : ℤ) (r : ℕ)
    → r < 146097
    → (era_of_day (e *ℤ pos 146097 +ℤ pos r) ≡ e)
      × (pos_part (e *ℤ pos 146097 +ℤ pos r -ℤ e *ℤ pos 146097) ≡ r)
unfolding era_of_day div_ℤ ◌*ℤ◌ ◌+ℤ◌ ◌-ℤ◌
era_of_day-at (pos n) r h = (ground arith, ground arith)
era_of_day-at (negsuc n) r h = (ground arith, ground arith)

-- A leap year of an era is one of the numbers that the rule names.
leap-in_era :
    (e : ℤ) (r : ℕ)
    → r < 400
    → is_leap_year (e *ℤ pos 400 +ℤ pos r +ℤ pos 1) ≡ true
    → day_of_era r 365 < day_of_era (suc r) 0 + suc r / 400
unfolding is_leap_year divides day_of_era ◌*ℤ◌ ◌+ℤ◌
leap-in_era (pos n) r h l = ground arith
leap-in_era (negsuc n) r h l = ground arith

sub_add : (a : ℤ) (n : ℕ) → a -ℤ pos n +ℤ pos n ≡ a
unfolding ◌+ℤ◌ ◌-ℤ◌
sub_add (pos m) n = ground arith
sub_add (negsuc m) n = ground arith

add_comm_ℤ : (a b : ℤ) → a +ℤ b ≡ b +ℤ a
unfolding ◌+ℤ◌
add_comm_ℤ a b = ground arith

-- A year that an `i32` holds.
abbrev pub IsI32 : ℤ → Type 0
IsI32 (pos n) = n < 2 ^ 31
IsI32 (negsuc n) = n < 2 ^ 31

as_i32-same : (a : ℤ) → IsI32 a → as_i32 a ≡ a
unfolding as_i32
as_i32-same (pos n) h = ground arith
as_i32-same (negsuc n) h = ground arith

-- The month counted from March.
abbrev march_month : ℕ → ℕ
march_month month = if ltb 2 month then month - 3 else month + 9

-- What a day of a month is in the year that begins in March.
record InMarchYear (leap : Bool) (month day : ℕ) : Type 0 where
  month_in : march_month month < 12
  day_in : (153 * march_month month + 2) / 5 + (day - 1) < (153 * suc (march_month month) + 2) / 5
  month_back : civil_month (march_month month) ≡ month
  in_year : day_of_march_year month day ≤ 365
  last_day : day_of_march_year month day ≡ 365 → (leap ≡ true) × (month ≡ 2)

month-InMarchYear :
    (year : ℤ) (month day n : ℕ)
    → days_in_month year month ≡ some n
    → 1 ≤ day
    → day ≤ n
    → InMarchYear (is_leap_year year) month day
unfolding days_in_month day_of_march_year civil_month
month-InMarchYear year month day n e l h = record {
  month_in = ground arith;
  day_in = ground arith;
  month_back = ground arith;
  in_year = ground arith;
  last_day = λ z. ground arith;
}

short_of_year : (r doy : ℕ) → doy ≤ 364 → day_of_era r doy < day_of_era (suc r) 0 + suc r / 400
unfolding day_of_era
short_of_year r doy h = omega arith

march_year-february : (year : ℤ) (month : ℕ) → month ≡ 2 → march_year year month ≡ year -ℤ pos 1
unfolding march_year
march_year-february year month m = rw m refl

-- A day that is in its march year is within the days of that year of its era.
within_year :
    (e : ℤ) (r : ℕ) (year : ℤ) (month day : ℕ)
    → r < 400
    → march_year year month ≡ e *ℤ pos 400 +ℤ pos r
    → InMarchYear (is_leap_year year) month day
    → day_of_era r (day_of_march_year month day) < day_of_era (suc r) 0 + suc r / 400
within_year e r year month day h y v = elim (dec_le (day_of_march_year month day) 364) [
  | yes l ↦ short_of_year r _ l
  | no l ↦ last (omega (arith, v.in_year))
]
  where
    february : month ≡ 2 → year ≡ e *ℤ pos 400 +ℤ pos r +ℤ pos 1
    february m =
        sym (sub_add year 1)
        ∙ ap (λ (a : ℤ). a +ℤ pos 1) (sym (march_year-february year month m) ∙ y)

    last :
        day_of_march_year month day ≡ 365
        → day_of_era r (day_of_march_year month day) < day_of_era (suc r) 0 + suc r / 400
    last l =
        let (leap, m) = v.last_day l in
        rw l (leap-in_era e r h (ap is_leap_year (sym (february m)) ∙ leap))

below_era :
    (r doy : ℕ)
    → r < 400
    → day_of_era r doy < day_of_era (suc r) 0 + suc r / 400
    → day_of_era r doy < 146097
unfolding day_of_era
below_era r doy h l = omega arith

month_of_day-march :
    (leap : Bool) (month day : ℕ)
    → InMarchYear leap month day
    → month_of_day (day_of_march_year month day) ≡ march_month month
unfolding day_of_march_year
month_of_day-march leap month day v =
    month_of_day-at (march_month month) (day - 1) v.month_in v.day_in

day-march :
    (month day : ℕ)
    → 1 ≤ day
    → day_of_march_year month day - (153 * march_month month + 2) / 5 + 1 ≡ day
unfolding day_of_march_year
day-march month day d = omega arith

day_of_era-back : (r doy : ℕ) → day_of_era r doy - (365 * r + r / 4 - r / 100) ≡ doy
unfolding day_of_era
day_of_era-back r doy = omega arith

year-march :
    (e : ℤ) (r month : ℕ) (year : ℤ)
    → IsI32 year
    → march_year year month ≡ e *ℤ pos 400 +ℤ pos r
    → as_i32 (pos r +ℤ e *ℤ pos 400 +ℤ pos (if leb month 2 then 1 else 0)) ≡ year
unfolding march_year
year-march e r month year i y =
    rw (add_comm_ℤ (pos r) (e *ℤ pos 400), sym y, sub_add year (if leb month 2 then 1 else 0))
      (as_i32-same year i)

-- The parts of a day of an era are found again.
civil_of-day :
    (e : ℤ) (r : ℕ) (year : ℤ) (month day : ℕ)
    → r < 400
    → 1 ≤ day
    → IsI32 year
    → march_year year month ≡ e *ℤ pos 400 +ℤ pos r
    → InMarchYear (is_leap_year year) month day
    → civil_of e (day_of_era r (day_of_march_year month day))
      ≡ record { year = year; month = month; day = day }
unfolding civil_of
civil_of-day e r year month day h d i y v =
    rw
      (
        year_of_era-day_of_era r (day_of_march_year month day) h v.in_year
            (within_year e r year month day h y v),
        day_of_era-back r (day_of_march_year month day),
      )
      (unfold civil_of_year in
        rw (month_of_day-march (is_leap_year year) month day v, v.month_back)
          (λ k. record {
            year = year-march e r month year i y k;
            month = month;
            day = day-march month day d k;
          }))

-- What a date that has a day number is.
checked_days-some :
    (o : Option ℕ) (year : ℤ) (month day : ℕ) (days : ℤ)
    → checked_days o year month day ≡ some days
    → (n : ℕ) × (o ≡ some n) × (day ≤ n) × (days ≡ days_of year month day)
unfolding checked_days
checked_days-some none year month day days e = ground arith
checked_days-some (some n) year month day days e = elim (Bool-cases (ltb n day)) [
  | inl b ↦ ground arith
  | inr b ↦ (n, refl, ground arith, ground arith)
]

days_of-back :
    (year : ℤ) (month day : ℕ)
    → IsI32 year
    → 1 ≤ day
    → InMarchYear (is_leap_year year) month day
    → civil_from_days (days_of year month day) ≡ record { year = year; month = month; day = day }
unfolding civil_from_days days_of
days_of-back year month day i d v =
    let y = march_year year month in
    let (r, split, back, r_400) = era_of_year-split y in
    let e = era_of_year y in
    let doy = day_of_march_year month day in
    let within = below_era r doy r_400 (within_year e r year month day r_400 split v) in
    let (era, within_era) = era_of_day-at e (day_of_era r doy) within in
    rw
      (
        sub_add (e *ℤ pos 146097 +ℤ pos (day_of_era (pos_part (y -ℤ e *ℤ pos 400)) doy)) 719468,
        sym back,
        era,
        within_era,
      )
      (civil_of-day e r year month day r_400 d i split v)

-- A date that exists, turned into its day number and back, is the same date.
pub civil_from_days-days_from_civil :
    (year : ℤ) (month day : ℕ) (days : ℤ)
    → IsI32 year
    → 1 ≤ day
    → days_from_civil year month day ≡ some days
    → civil_from_days days ≡ record { year = year; month = month; day = day }
unfolding days_from_civil
civil_from_days-days_from_civil year month day days i d e =
    let (n, o, l, s) = checked_days-some (days_in_month year month) year month day days e in
    rw s (days_of-back year month day i d (month-InMarchYear year month day n o d l))
