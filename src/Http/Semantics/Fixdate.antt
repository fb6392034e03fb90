-- ===== src/Http/Semantics/Fixdate.antt =====
-- `parse_http_date`: the texts that it takes, and the time that each of them has.
use oklib.Common.{
  ◌==◌, length, take, drop, Bytes, codes, ℕ, ◌+◌, ◌-◌, ◌*◌, ◌≤◌, ◌≡◌, Bool, not, ◌||◌, Option, some,
}
use oklib.Http.Text.{equal, trim_ows}
use oklib.Http.Numbers.Decimal.{IsDecimal}
use oklib.Http.Semantics.Dates.{
  minus, month_index, make_time_utc, substr, field_number, date_of_fields, ℤ,
}
use oklib.Http.Semantics.Calendar.{is_leap, days_before_year, days_before_month}

-- The name of a month that is counted from 1.
abbrev pub month_name : ℕ → Bytes
month_name m = take 3 (drop (3 * (m - 1)) (codes "JanFebMarAprMayJunJulAugSepOctNovDec"))

-- A day and a time of day, up to the leap second. Every month may have 31 days.
pub record IsInRange (month day hour minute second : ℕ) : Type 0 where
  pub month_first : 1 ≤ month
  pub month_last : month ≤ 12
  pub day_first : 1 ≤ day
  pub day_last : day ≤ 31
  pub hour_last : hour ≤ 23
  pub minute_last : minute ≤ 59
  pub second_last : second ≤ 60

-- The seconds from 1970 to a time in the calendar with its leap years.
abbrev pub seconds_at : ℕ → ℕ → ℕ → ℕ → ℕ → ℕ → ℤ
seconds_at year month day hour minute second =
    let days = days_before_year year + days_before_month (is_leap year) month + (day - 1) in
    minus (days * 86400 + (hour * 3600 + minute * 60 + second)) (719528 * 86400)

-- The number of a part of the text, without the blanks round it.
abbrev pub HasNumber : ℕ → ℕ → Bytes → ℕ → Type 0
HasNumber from count value n = IsDecimal (trim_ows (take count (drop from value))) n

-- A text that is a date, with what its parts say.
pub record IsDate (value : Bytes) (t : ℤ) : Type 0 where
  pub year : ℕ
  pub month : ℕ
  pub day : ℕ
  pub hour : ℕ
  pub minute : ℕ
  pub second : ℕ
  pub size : length value ≡ 29
  pub behind_weekday : take 2 (drop 3 value) ≡ codes ", "
  pub zone : take 3 (drop 26 value) ≡ codes "GMT"
  pub has_day : HasNumber 5 2 value day
  pub has_month : take 3 (drop 8 value) ≡ month_name month
  pub has_year : HasNumber 12 4 value year
  pub has_hour : HasNumber 17 2 value hour
  pub has_minute : HasNumber 20 2 value minute
  pub has_second : HasNumber 23 2 value second
  pub in_range : IsInRange month day hour minute second
  pub time : t ≡ seconds_at year month day hour minute second

-- The numbers of a date that is taken.
record Fields (d y h m s : Option ℕ) (month : ℕ) (t : ℤ) : Type 0 where
  day : ℕ
  year : ℕ
  hour : ℕ
  minute : ℕ
  second : ℕ
  is_day : d ≡ some day
  is_year : y ≡ some year
  is_hour : h ≡ some hour
  is_minute : m ≡ some minute
  is_second : s ≡ some second
  made : make_time_utc year month day hour minute second ≡ some t

abbrev is_malformed : Bytes → Bool
is_malformed value =
    not (length value == 29)
    || not (equal (substr 3 2 value) (codes ", "))
    || not (equal (substr 26 3 value) (codes "GMT"))

abbrev fields_of : Bytes → Option ℤ
fields_of value =
    date_of_fields (field_number 5 2 value) (field_number 12 4 value) (field_number 17 2 value)
      (field_number 20 2 value) (field_number 23 2 value) (month_index (substr 8 3 value))
