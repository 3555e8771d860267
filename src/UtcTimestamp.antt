-- ===== src/UtcTimestamp.antt =====
-- The UTC timestamp of the default logger: logger_default_utc_timestamp.c
-- (src/foundation/logger_new/adapters/logger_default/src/internal). Divisions of `int64_t` are
-- written out as C truncates them, and a step of an `int32_t` year past its range is undefined. The
-- null checks, the only cases that return false, are left out.
pub mod Years
pub mod Months
pub mod Calendar
use lex_leo.Prelude.{
  ℕ, zero, suc, ◌+◌, ◌-◌, ◌*◌, ◌/◌, ◌%◌, Bool, true, false, not, ◌&&◌, ◌||◌, Option, none, some,
  List, [], ◌∷◌, ltb, leb, ◌==◌, if◌then◌else◌,
}

pub data ℤ : Type 0 where
  pos : ℕ → ℤ
  negsuc : ℕ → ℤ

pub record UtcTimestamp : Type 0 where
  pub year : ℤ
  pub month : ℕ
  pub day : ℕ
  pub hour : ℕ
  pub minute : ℕ
  pub second : ℕ

abbrev pub magnitude : ℤ → ℕ
magnitude (pos n) = n
magnitude (negsuc n) = suc n

-- `year % k == 0` is that of the magnitude, since C truncates.
unfoldable pub logger_default_is_leap_year : ℤ → Bool
logger_default_is_leap_year year =
    let y = magnitude year in ((y % 4 == 0) && not (y % 100 == 0)) || (y % 400 == 0)

unfoldable pub logger_default_days_in_year : ℤ → ℕ
logger_default_days_in_year year = if logger_default_is_leap_year year then 366 else 365

abbrev pub get_elem? : List ℕ → ℕ → Option ℕ
get_elem? [] n = none
get_elem? (x ∷ xs) zero = some x
get_elem? (x ∷ xs) (suc n) = get_elem? xs n

-- `DAYS_PER_MONTH[month - 1]`: `none` outside the array.
unfoldable pub days_per_month : ℕ → Option ℕ
days_per_month zero = none
days_per_month (suc m) =
    get_elem? (31 ∷ 28 ∷ 31 ∷ 30 ∷ 31 ∷ 30 ∷ 31 ∷ 31 ∷ 30 ∷ 31 ∷ 30 ∷ 31 ∷ []) m

unfoldable pub logger_default_days_in_month : ℤ → (month : ℕ) → Option ℕ
logger_default_days_in_month year month = elim (days_per_month month) [
  | none ↦ none
  | some days ↦ some (if (month == 2) && logger_default_is_leap_year year then 29 else days)
]

abbrev pub int32_max : ℕ
int32_max = 2147483647

-- `year++` and `year--`
unfoldable pub next_year : ℤ → Option ℤ
next_year (pos y) = if y == int32_max then none else some (pos (suc y))
next_year (negsuc zero) = some (pos 0)
next_year (negsuc (suc y)) = some (negsuc y)

unfoldable pub previous_year : ℤ → Option ℤ
previous_year (pos zero) = some (negsuc 0)
previous_year (pos (suc y)) = some (pos y)
previous_year (negsuc y) = if y == int32_max then none else some (negsuc (suc y))

-- The loop for `days >= 0`, on fuel.
unfoldable pub years_forward : ℕ → ℤ → (days : ℕ) → Option (ℤ × ℕ)
years_forward zero year days = none
years_forward (suc f) year days =
    let len = logger_default_days_in_year year in
    let rest = elim (next_year year) as (λ _. Option (ℤ × ℕ)) [
      | none ↦ none
      | some y ↦ years_forward f y (days - len)
    ] in
    if leb len days then rest else some (year, days)

-- The loop for `days < 0`, with `days` as `-missing`, on fuel.
unfoldable pub years_back : ℕ → ℤ → (missing : ℕ) → Option (ℤ × ℕ)
years_back zero year missing = none
years_back (suc f) year missing = elim (previous_year year) as (λ _. Option (ℤ × ℕ)) [
  | none ↦ none
  | some y ↦
      let len = logger_default_days_in_year y in
      let rest = years_back f y (missing - len) in
      if leb missing len then some (y, len - missing) else rest
]

unfoldable pub year_of_days : ℤ → Option (ℤ × ℕ)
year_of_days (pos days) = years_forward (suc days) (pos 1970) days
year_of_days (negsuc n) = years_back (suc n) (pos 1970) (suc n)

-- The loop over the months, on fuel.
unfoldable pub months_forward : ℕ → ℤ → (month days : ℕ) → Option (ℕ × ℕ)
months_forward zero year month days = none
months_forward (suc f) year month days =
    elim (logger_default_days_in_month year month) as (λ _. Option (ℕ × ℕ)) [
      | none ↦ none
      | some len ↦
          let rest = months_forward f year (suc month) (days - len) in
          if leb len days then rest else some (month, days)
    ]

-- `days` and `rem` after the correction of a negative remainder.
unfoldable pub days_and_seconds : ℤ → ℤ × ℕ
days_and_seconds (pos n) = (pos (n / 86400), n % 86400)
days_and_seconds (negsuc n) =
    let q = suc n / 86400 in
    let r = suc n % 86400 in if ltb 0 r then (negsuc q, 86400 - r) else (negsuc (q - 1), 0)

date_at : (rem : ℕ) → ℤ → Option (ℕ × ℕ) → Option UtcTimestamp
date_at rem year none = none
date_at rem year (some (month, days)) = some (record {
  year = year;
  month = month;
  day = days + 1;
  hour = rem / 3600;
  minute = (rem % 3600) / 60;
  second = (rem % 3600) % 60;
})

date_in_year : (rem : ℕ) → Option (ℤ × ℕ) → Option UtcTimestamp
unfolding date_at
date_in_year rem none = none
date_in_year rem (some (year, days)) = date_at rem year (months_forward 12 year 1 days)

-- `*out` after a conversion that returns true; `none` where the run is undefined.
unfoldable pub logger_default_epoch_time_to_date : (epoch_seconds : ℤ) → Option UtcTimestamp
unfolding date_in_year
logger_default_epoch_time_to_date epoch_seconds =
    let (days, rem) = days_and_seconds epoch_seconds in date_in_year rem (year_of_days days)
