-- ===== src/Util/Time.antt =====
-- The texts of times and durations: the rest of src/util/time.rs. The clock is an argument.
use slotd.Prelude.{
  ℕ, ◌/◌, ◌%◌, List, [], ◌∷◌, ◌++◌, Option, none, some, Text, lit, ltb, if◌then◌else◌, ℤ, pos_part,
  ◌+ℤ◌, Result, ok, err, message, ◌>>=◌, as_i64, clamp_i64,
}
use slotd.Strings.{
  trim, strip_prefix, parse_i64, parse_i32, parse_u32, split, split_once, eq_ignore_ascii_case,
  show_nat, show_padded, show_padded_int,
}
use slotd.Submit.Limits.{parse_time_limit_secs}
use slotd.Util.Calendar.{datetime_to_epoch, civil_from_epoch}

-- Three numbers between separators, and nothing more.
pub record Date : Type 0 where
  pub year : ℤ
  pub month : ℕ
  pub day : ℕ

pub record Clock : Type 0 where
  pub hour : ℕ
  pub minute : ℕ
  pub second : ℕ

date_of : Option ℤ → Option ℕ → Option ℕ → Option Date
date_of (some y) (some m) (some d) = some (record { year = y; month = m; day = d })
date_of (some y) (some m) none = none
date_of (some y) none _ = none
date_of none _ _ = none

date_parts : List Text → Option Date
unfolding parse_i32 parse_u32 date_of
date_parts (y ∷ m ∷ d ∷ []) = date_of (parse_i32 y) (parse_u32 m) (parse_u32 d)
date_parts _ = none

unfoldable pub parse_date : Text → Option Date
unfolding split date_parts
parse_date value = date_parts (split b'-' value)

clock_of : Option ℕ → Option ℕ → Option ℕ → Option Clock
clock_of (some h) (some m) (some s) = some (record { hour = h; minute = m; second = s })
clock_of (some h) (some m) none = none
clock_of (some h) none _ = none
clock_of none _ _ = none

clock_parts : List Text → Option Clock
unfolding parse_u32 clock_of
clock_parts (h ∷ m ∷ s ∷ []) = clock_of (parse_u32 h) (parse_u32 m) (parse_u32 s)
clock_parts _ = none

unfoldable pub parse_time : Text → Option Clock
unfolding split clock_parts
parse_time value = clock_parts (split b':' value)

both_parts : Option Date → Option Clock → Option (Date × Clock)
both_parts (some d) (some c) = some (d, c)
both_parts (some d) none = none
both_parts none _ = none

-- Date and time around a `T`, else around a space, else a date alone.
cut_datetime : Text → Option (Text × Text)
unfolding split_once
cut_datetime value = elim (split_once b'T' value) [
  | some cut ↦ some cut
  | none ↦ split_once b' ' value
]

unfoldable pub parse_datetime_parts : Text → Option (Date × Clock)
unfolding parse_date parse_time both_parts cut_datetime
parse_datetime_parts value = elim (cut_datetime value) [
  | some (date, time) ↦ both_parts (parse_date date) (parse_time time)
  | none ↦ both_parts (parse_date value) (some (record { hour = 0; minute = 0; second = 0 }))
]

epoch_of : Text → Option (Date × Clock) → Result ℤ
unfolding datetime_to_epoch lit
epoch_of value none = err (message (lit "unsupported time format: " ++ value))
epoch_of value (some (d, c)) = datetime_to_epoch d.year d.month d.day c.hour c.minute c.second

unfoldable pub parse_time_filter : (now : ℤ) → Text → Result ℤ
unfolding parse_i64 eq_ignore_ascii_case parse_datetime_parts epoch_of lit
parse_time_filter now value = elim (parse_i64 value) [
  | some ts ↦ ok ts
  | none ↦
      if eq_ignore_ascii_case value (lit "now")
      then ok now
      else epoch_of value (parse_datetime_parts value)
]

-- `now.saturating_add(offset as i64)`.
unfoldable pub parse_begin_time : (now : ℤ) → Text → Result ℤ
unfolding trim strip_prefix parse_time_limit_secs parse_time_filter lit
parse_begin_time now value =
    let trimmed = trim value in
    elim (strip_prefix (lit "now+") trimmed) [
      | some offset ↦ parse_time_limit_secs offset >>= λ secs. ok (clamp_i64 (now +ℤ as_i64 secs))
      | none ↦ parse_time_filter now trimmed
    ]

unfoldable pub format_timestamp : ℤ → Text
unfolding civil_from_epoch show_padded show_padded_int lit
format_timestamp value =
    let m = civil_from_epoch value in
    show_padded_int 4 m.date.year
    ++ lit "-"
    ++ show_padded 2 m.date.month
    ++ lit "-"
    ++ show_padded 2 m.date.day
    ++ lit "T"
    ++ show_padded 2 m.hour
    ++ lit ":"
    ++ show_padded 2 m.minute
    ++ lit ":"
    ++ show_padded 2 m.second

-- Hours, minutes and seconds of a day.
unfoldable pub clock_text : ℕ → Text
unfolding show_padded lit
clock_text rem =
    show_padded 2 (rem / 3600)
    ++ lit ":"
    ++ show_padded 2 (rem % 3600 / 60)
    ++ lit ":"
    ++ show_padded 2 (rem % 60)

unfoldable pub format_duration_secs : ℤ → Text
unfolding show_nat clock_text lit
format_duration_secs seconds =
    let total = pos_part seconds in
    if ltb 0 (total / 86400)
    then show_nat (total / 86400) ++ lit "-" ++ clock_text (total % 86400)
    else clock_text (total % 86400)
