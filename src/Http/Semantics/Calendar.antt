-- ===== src/Http/Semantics/Calendar.antt =====
-- `days_from_civil` against a count of the days of the years and months before.
use oklib.Common.{
  ◌==◌, if◌then◌else◌, ℕ, zero, suc, ◌+◌, ◌-◌, ◌*◌, ◌/◌, ◌%◌, ◌≤◌, ◌<◌, ◌≡◌, refl, sym, ap, ap₂,
  ◌∙◌, Bool, not, ◌&&◌, ◌||◌, arith,
}
use oklib.Http.Semantics.Dates.{minus, day_of_era, days_in_eras, days_from_civil, pos}

abbrev pub is_leap : ℕ → Bool
is_leap y = y % 4 == 0 && (not (y % 100 == 0) || y % 400 == 0)

-- The days of the years before `y`, from the year 0.
abbrev pub days_before_year : ℕ → ℕ
days_before_year zero = 0
days_before_year (suc y) = days_before_year y + (if is_leap y then 366 else 365)

abbrev pub days_in_month : Bool → ℕ → ℕ
days_in_month leap month =
    if month == 2
    then if leap then 29 else 28
    else if month == 4 || month == 6 || month == 9 || month == 11
    then 30
    else 31

-- The days of the months before, from January.
abbrev pub days_before_month : Bool → ℕ → ℕ
days_before_month leap zero = 0
days_before_month leap (suc zero) = 0
days_before_month leap (suc (suc m)) = days_before_month leap (suc m) + days_in_month leap (suc m)

years_closed :
    (y : ℕ) → days_before_year y + (y + 99) / 100 ≡ 365 * y + (y + 3) / 4 + (y + 399) / 400
years_closed zero = refl
years_closed (suc y) = ground (arith, years_closed y)

-- The days up to the first of March.
march_closed :
    (y : ℕ)
    → days_before_year y + (if is_leap y then 60 else 59) + y / 100 ≡ 365 * y + 60 + y / 4 + y / 400
march_closed y = ground (arith, years_closed y)

minus_add : (a b k : ℕ) → minus a b ≡ minus (a + k) (b + k)
minus_add a b k = ground arith

months_from_march :
    (leap : Bool) (m : ℕ)
    → m < 10
    → days_before_month leap (suc (suc (suc m))) ≡ (if leap then 60 else 59) + (153 * m + 2) / 5
months_from_march leap zero h = ground arith
months_from_march leap (suc zero) h = ground arith
months_from_march leap (suc (suc zero)) h = ground arith
months_from_march leap (suc (suc (suc zero))) h = ground arith
months_from_march leap (suc (suc (suc (suc zero)))) h = ground arith
months_from_march leap (suc (suc (suc (suc (suc zero))))) h = ground arith
months_from_march leap (suc (suc (suc (suc (suc (suc zero)))))) h = ground arith
months_from_march leap (suc (suc (suc (suc (suc (suc (suc zero))))))) h = ground arith
months_from_march leap (suc (suc (suc (suc (suc (suc (suc (suc zero)))))))) h = ground arith
months_from_march leap (suc (suc (suc (suc (suc (suc (suc (suc (suc zero))))))))) h = ground arith
months_from_march leap (suc (suc (suc (suc (suc (suc (suc (suc (suc (suc m)))))))))) h =
    absurd (omega arith)

-- The days of whole eras and of the years of the last.
eras_closed :
    (y doy : ℕ)
    → y / 400 * 146097 + day_of_era (y - y / 400 * 400) doy + y / 100
      ≡ 365 * y + y / 4 + y / 400 + doy
eras_closed y doy = omega arith

-- From March on.
late_year :
    (y m d : ℕ)
    → days_from_civil y (suc (suc (suc m))) d ≡ days_in_eras (pos y) ((153 * m + 2) / 5 + d - 1)
unfolding days_from_civil
late_year y m d = ap₂ days_in_eras (ground arith) (ground arith)

late_days :
    (y m d : ℕ)
    → m < 10
    → 1 ≤ d
    → days_from_civil y (suc (suc (suc m))) d
      ≡ minus
          (days_before_year y + days_before_month (is_leap y) (suc (suc (suc m))) + (d - 1))
          719528
unfolding days_from_civil days_in_eras
late_days y m d h k =
    let doy = (153 * m + 2) / 5 + d - 1 in
    let from_march : days_from_civil y (suc (suc (suc m))) d ≡ days_in_eras (pos y) doy =
      late_year y m d in
    from_march
    ∙ minus_add (y / 400 * 146097 + day_of_era (y - y / 400 * 400) doy) 719468 60
    ∙ ap (λ n. minus n 719528)
        (omega (arith, eras_closed y doy, march_closed y, months_from_march (is_leap y) m h))

-- January and February belong to the year before.
early_year :
    (y m d : ℕ)
    → m < 2
    → days_from_civil (suc y) (suc m) d ≡ days_in_eras (pos y) ((153 * (m + 10) + 2) / 5 + d - 1)
unfolding days_from_civil
early_year y m d h = ap₂ days_in_eras (ground arith) (ground arith)

year_zero :
    (m d : ℕ)
    → m < 2
    → 1 ≤ d
    → days_from_civil 0 (suc m) d ≡ minus (31 * m + (d - 1) + 146037) (719528 + 146037)
unfolding days_from_civil days_in_eras
year_zero zero d h k =
    ap (λ n. minus n 865565) {x = day_of_era 399 ((153 * 10 + 2) / 5 + d - 1)} (omega arith)
year_zero (suc zero) d h k =
    ap (λ n. minus n 865565) {x = day_of_era 399 ((153 * 11 + 2) / 5 + d - 1)} (omega arith)
year_zero (suc (suc m)) d h k = absurd (omega arith)

early_month : (leap : Bool) (m : ℕ) → m < 2 → days_before_month leap (suc m) ≡ 31 * m
early_month leap zero h = refl
early_month leap (suc zero) h = refl
early_month leap (suc (suc m)) h = absurd (omega arith)

early_doy : (m : ℕ) → m < 2 → (153 * (m + 10) + 2) / 5 ≡ 306 + 31 * m
early_doy m h = omega arith

long_year : (leap : Bool) → (if leap then 366 else 365) ≡ 306 + (if leap then 60 else 59)
long_year leap = ground arith

early_days :
    (y m d : ℕ)
    → m < 2
    → 1 ≤ d
    → days_from_civil y (suc m) d
      ≡ minus (days_before_year y + days_before_month (is_leap y) (suc m) + (d - 1)) 719528
unfolding days_from_civil days_in_eras
early_days zero m d h k =
    year_zero m d h k
    ∙ sym (minus_add (31 * m + (d - 1)) 719528 146037)
    ∙ ap (λ n. minus n 719528) (omega (arith, early_month (is_leap 0) m h))
early_days (suc y) m d h k =
    let doy = (153 * (m + 10) + 2) / 5 + d - 1 in
    early_year y m d h
    ∙ minus_add (y / 400 * 146097 + day_of_era (y - y / 400 * 400) doy) 719468 60
    ∙ ap (λ n. minus n 719528)
        (omega (
          arith,
          eras_closed y doy,
          march_closed y,
          early_month (is_leap (suc y)) m h,
          long_year (is_leap y),
          early_doy m h,
        ))

-- `days_from_civil` counts the days of the years before and of the months before in the calendar
-- with its leap years, and the days of the month before, from 1970 on: for every year that is not
-- negative and every month, with days counted from 1.
pub days_from_civil_lem :
    (year month day : ℕ)
    → 1 ≤ month
    → month ≤ 12
    → 1 ≤ day
    → days_from_civil year month day
      ≡ minus (days_before_year year + days_before_month (is_leap year) month + (day - 1)) 719528
days_from_civil_lem y zero d p h k = absurd (omega arith)
days_from_civil_lem y (suc zero) d p h k = early_days y 0 d (omega arith) k
days_from_civil_lem y (suc (suc zero)) d p h k = early_days y 1 d (omega arith) k
days_from_civil_lem y (suc (suc (suc m))) d p h k = late_days y m d (omega arith) k
