-- ===== src/UtcTimestamp/Years.antt =====
-- The year loops of logger_default_utc_timestamp.c, and the days before a year of the Gregorian
-- calendar.
use lex_leo.Prelude.{
  ℕ, zero, suc, ◌+◌, ◌-◌, ◌*◌, ◌/◌, ◌≤◌, ◌<◌, ◌≡◌, false, some, arith, leb, ◌==◌, Bool-cases, inl,
  inr,
}
use lex_leo.UtcTimestamp.{
  ℤ, pos, logger_default_is_leap_year, logger_default_days_in_year, int32_max, next_year,
  previous_year, years_forward, years_back,
}

-- The days from 0001-01-01 to the first day of a year.
abbrev pub first_day : ℕ → ℕ
first_day y = let p = y - 1 in (365 * p + p / 4 + p / 400) - p / 100

first_day-suc :
    (y : ℕ) → 1 ≤ y → first_day (suc y) ≡ first_day y + logger_default_days_in_year (pos y)
unfolding logger_default_days_in_year logger_default_is_leap_year
first_day-suc y h = ground arith

pub days_in_year-ge : (y : ℤ) → 365 ≤ logger_default_days_in_year y
unfolding logger_default_days_in_year
days_in_year-ge y = ground arith

first_day_mono : (y : ℕ) → int32_max ≤ y → first_day int32_max ≤ first_day y
first_day_mono y h = omega arith

-- Day `d` of the year `y` is day `total` since 0001-01-01.
pub record InYear (total y d : ℕ) : Type 0 where
  pub positive : 1 ≤ y
  pub small : y ≤ int32_max
  pub inside : d < logger_default_days_in_year (pos y)
  pub exact : first_day y + d ≡ total

pub years_forward-InYear :
    (f y d total : ℕ)
    → d < f
    → 1 ≤ y
    → y ≤ int32_max
    → first_day y + d ≡ total
    → total < first_day int32_max
    → (y' : ℕ) × (d' : ℕ) × (years_forward f (pos y) d ≡ some (pos y', d')) × InYear total y' d'
unfolding years_forward next_year
years_forward-InYear zero y d total fuel low high e bound = absurd (omega arith)
years_forward-InYear (suc f) y d total fuel low high e bound =
    let len = logger_default_days_in_year (pos y) in
    elim (Bool-cases (leb len d)) [
      | inr h ↦
          (y, d, rw h, record { positive = low; small = high; inside = ground arith; exact = e })
      | inl h ↦
          let more : len ≤ d = ground arith in
          let below : (y == int32_max) ≡ false = ground (arith, first_day_mono y) in
          let step = first_day-suc y low in
          let (y', d', run, i) =
            years_forward-InYear f (suc y) (d - len) total (omega (arith, days_in_year-ge (pos y)))
              (omega arith) (ground (arith, first_day_mono y)) (omega (arith, step)) bound in
          (y', d', rw (h, below) run, i)
    ]

pub years_back-InYear :
    (f y k total : ℕ)
    → k ≤ f
    → 0 < k
    → y ≤ int32_max
    → first_day y ≡ total + k
    → (y' : ℕ) × (d' : ℕ) × (years_back f (pos y) k ≡ some (pos y', d')) × InYear total y' d'
unfolding years_back previous_year
years_back-InYear zero y k total fuel some_left high e = absurd (omega arith)
years_back-InYear (suc f) zero k total fuel some_left high e = absurd (omega arith)
years_back-InYear (suc f) (suc zero) k total fuel some_left high e = absurd (omega arith)
years_back-InYear (suc f) (suc (suc p)) k total fuel some_left high e =
    let y = suc p in
    let len = logger_default_days_in_year (pos y) in
    let step : first_day (suc y) ≡ first_day y + len = first_day-suc y (omega arith) in
    elim (Bool-cases (leb k len)) [
      | inl h ↦ (
        y,
        len - k,
        rw h,
        record {
          positive = omega arith;
          small = omega arith;
          inside = ground (arith, days_in_year-ge (pos y));
          exact = ground (arith, step);
        },
      )
      | inr h ↦
          let (y', d', run, i) =
            years_back-InYear f y (k - len) total (ground (arith, days_in_year-ge (pos y)))
              (ground arith) (omega arith) (ground (arith, step)) in
          (y', d', rw h run, i)
    ]
