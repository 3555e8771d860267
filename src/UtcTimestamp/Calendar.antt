-- ===== src/UtcTimestamp/Calendar.antt =====
-- The days and seconds that a date stands for in the Gregorian calendar, and the conversion of
-- logger_default_utc_timestamp.c against them.
use lex_leo.Prelude.{
  ℕ, suc, ◌+◌, ◌-◌, ◌*◌, ◌/◌, ◌%◌, ◌≤◌, ◌<◌, ◌≡◌, refl, some, arith, ltb, leb, if◌then◌else◌,
  Bool-cases, inl, inr,
}
use lex_leo.UtcTimestamp.{
  ℤ, pos, negsuc, UtcTimestamp, logger_default_is_leap_year, logger_default_days_in_month,
  int32_max, year_of_days, days_and_seconds, date_at, date_in_year,
  logger_default_epoch_time_to_date,
}
use lex_leo.UtcTimestamp.Years.{first_day, InYear, years_forward-InYear, years_back-InYear}
use lex_leo.UtcTimestamp.Months.{before_month, InMonth, months_forward-InMonth}

-- The seconds from 0001-01-01 00:00:00 to a date of the year `y`.
abbrev pub seconds_of : (y : ℕ) → UtcTimestamp → ℕ
seconds_of y t =
    let leap = logger_default_is_leap_year (pos y) in
    (((first_day y + (before_month leap t.month + (t.day - 1))) * 24 + t.hour) * 60 + t.minute) * 60
    + t.second

-- A date of the proleptic Gregorian calendar, every field in its range, that stands for `total`
-- seconds after 0001-01-01 00:00:00.
pub record IsDate (total : ℕ) (t : UtcTimestamp) : Type 0 where
  pub y : ℕ
  pub is_year : t.year ≡ pos y
  pub year : (1 ≤ y) × (y ≤ int32_max)
  pub month : (1 ≤ t.month) × (t.month ≤ 12)
  pub day :
      (1 ≤ t.day)
      × ((len : ℕ) × (logger_default_days_in_month (pos y) t.month ≡ some len) × (t.day ≤ len))
  pub clock : (t.hour < 24) × (t.minute < 60) × (t.second < 60)
  pub exact : seconds_of y t ≡ total

-- 1970-01-01 00:00:00
abbrev pub epoch : ℕ
epoch = 62135596800

-- The Unix time of a second counted from 0001-01-01.
abbrev pub unix_time : ℕ → ℤ
unix_time n = if leb epoch n then pos (n - epoch) else negsuc (epoch - n - 1)

year_of_days-InYear :
    (n : ℕ)
    → n / 86400 < first_day int32_max
    → (y : ℕ) × (d : ℕ) × (rem : ℕ) × ((days_and_seconds (unix_time n)).1 ≡ rem)
      × (year_of_days (days_and_seconds (unix_time n)).0 ≡ some (pos y, d))
      × InYear (n / 86400) y d
      × (rem ≡ n % 86400)
unfolding year_of_days days_and_seconds
year_of_days-InYear n bound = elim (Bool-cases (leb epoch n)) [
  | inl h ↦
      let k = n - epoch in
      let (y, d, run, i) =
        years_forward-InYear (suc (k / 86400)) 1970 (k / 86400) (n / 86400) (omega arith)
          (omega arith) (omega arith) (ground arith) bound in
      (y, d, k % 86400, rw h, rw h run, i, ground arith)
  | inr h ↦
      let k = epoch - n - 1 in
      let q = suc k / 86400 in
      elim (Bool-cases (ltb 0 (suc k % 86400))) [
        | inl late ↦
            let (y, d, run, i) =
              years_back-InYear (suc q) 1970 (suc q) (n / 86400) (omega arith) (omega arith)
                (omega arith) (ground arith) in
            (y, d, 86400 - suc k % 86400, rw (h, late), rw (h, late) run, i, ground arith)
        | inr early ↦
            let (y, d, run, i) =
              years_back-InYear (suc (q - 1)) 1970 (suc (q - 1)) (n / 86400) (omega arith)
                (omega arith) (omega arith) (ground arith) in
            (y, d, 0, rw (h, early), rw (h, early) run, i, ground arith)
      ]
]

date_at-IsDate :
    (n y d rem m k : ℕ)
    → InYear (n / 86400) y d
    → rem ≡ n % 86400
    → InMonth y d m k
    → (t : UtcTimestamp) × (date_at rem (pos y) (some (m, k)) ≡ some t) × IsDate n t
unfolding date_at
date_at-IsDate n y d rem m k i e j =
    let (len, is_len, inside) = j.inside in
    (
      record {
        year = pos y;
        month = m;
        day = k + 1;
        hour = rem / 3600;
        minute = (rem % 3600) / 60;
        second = (rem % 3600) % 60;
      },
      refl,
      record {
        y = y;
        is_year = refl;
        year = (i.positive, i.small);
        month = (j.low, j.high);
        day = (omega arith, (len, is_len, omega arith));
        clock = (omega arith, omega arith, omega arith);
        exact = omega (arith, i.exact, j.exact);
      },
    )

date_in_year-IsDate :
    (n y d rem : ℕ)
    → InYear (n / 86400) y d
    → rem ≡ n % 86400
    → (t : UtcTimestamp) × (date_in_year rem (some (pos y, d)) ≡ some t) × IsDate n t
unfolding date_in_year
date_in_year-IsDate n y d rem i e =
    let (m, k, run, j) =
      months_forward-InMonth 12 y 1 d d refl (omega arith) (ground arith) i.inside in
    let (t, made, date) = date_at-IsDate n y d rem m k i e j in (t, rw run made, date)

-- Every second from 0001-01-01 00:00:00 up to the last year of `int32_t`, before 1970 or after,
-- converts without undefined behaviour, within the fuel, to a date whose month, day, hour, minute
-- and second are in range and which, counted by the leap-year rule of the Gregorian calendar,
-- stands for exactly that second.
pub logger_default_epoch_time_to_date-IsDate :
    (n : ℕ)
    → n / 86400 < first_day int32_max
    → (t : UtcTimestamp) × (logger_default_epoch_time_to_date (unix_time n) ≡ some t) × IsDate n t
unfolding logger_default_epoch_time_to_date
logger_default_epoch_time_to_date-IsDate n bound =
    let (y, d, rem, is_rem, run, i, e) = year_of_days-InYear n bound in
    let (t, conversion, date) = date_in_year-IsDate n y d rem i e in
    (t, rw (is_rem, run) conversion, date)
