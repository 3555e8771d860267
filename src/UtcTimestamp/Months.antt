-- ===== src/UtcTimestamp/Months.antt =====
-- The month loop of logger_default_utc_timestamp.c, and the days before a month of a year.
use lex_leo.Prelude.{
  ℕ, zero, suc, ◌+◌, ◌-◌, ◌≤◌, ◌<◌, ◌≡◌, refl, ◌∙◌, Bool, true, ◌&&◌, none, some, [], ◌∷◌, arith,
  ltb, leb, if◌then◌else◌, Bool-cases, inl, inr,
}
use lex_leo.UtcTimestamp.{
  ℤ, pos, logger_default_is_leap_year, logger_default_days_in_year, get_elem?, days_per_month,
  logger_default_days_in_month, months_forward,
}

-- The days of a year before a month.
abbrev pub before_month : Bool → ℕ → ℕ
before_month leap m =
    let table = 0 ∷ 31 ∷ 59 ∷ 90 ∷ 120 ∷ 151 ∷ 181 ∷ 212 ∷ 243 ∷ 273 ∷ 304 ∷ 334 ∷ 365 ∷ [] in
    let common = elim (get_elem? table (m - 1)) as (λ _. ℕ) [ none ↦ 0 | some n ↦ n ] in
    if ltb 2 m && leap then common + 1 else common

month_step :
    (y m : ℕ)
    → 1 ≤ m
    → m ≤ 12
    → (len : ℕ) × (logger_default_days_in_month (pos y) m ≡ some len)
      × (before_month (logger_default_is_leap_year (pos y)) (suc m)
          ≡ before_month (logger_default_is_leap_year (pos y)) m + len)
unfolding logger_default_days_in_month days_per_month
month_step y zero low high = absurd (omega arith)
month_step y (suc zero) low high = (31, refl, ground arith)
month_step y (suc (suc zero)) low high =
    (if logger_default_is_leap_year (pos y) then 29 else 28, refl, ground arith)
month_step y (suc (suc (suc zero))) low high = (31, refl, ground arith)
month_step y (suc (suc (suc (suc zero)))) low high = (30, refl, ground arith)
month_step y (suc (suc (suc (suc (suc zero))))) low high = (31, refl, ground arith)
month_step y (suc (suc (suc (suc (suc (suc zero)))))) low high = (30, refl, ground arith)
month_step y (suc (suc (suc (suc (suc (suc (suc zero))))))) low high = (31, refl, ground arith)
month_step y (suc (suc (suc (suc (suc (suc (suc (suc zero)))))))) low high =
    (31, refl, ground arith)
month_step y (suc (suc (suc (suc (suc (suc (suc (suc (suc zero))))))))) low high =
    (30, refl, ground arith)
month_step y (suc (suc (suc (suc (suc (suc (suc (suc (suc (suc zero)))))))))) low high =
    (31, refl, ground arith)
month_step y (suc (suc (suc (suc (suc (suc (suc (suc (suc (suc (suc zero))))))))))) low high =
    (30, refl, ground arith)
month_step y (suc (suc (suc (suc (suc (suc (suc (suc (suc (suc (suc (suc zero)))))))))))) low high =
    (31, refl, ground arith)
month_step y (suc (suc (suc (suc (suc (suc (suc (suc (suc (suc (suc (suc (suc m))))))))))))) low
      high =
    absurd (omega arith)

-- Day `d` of month `m` is day `total` of the year `y`.
pub record InMonth (y total m d : ℕ) : Type 0 where
  pub low : 1 ≤ m
  pub high : m ≤ 12
  pub inside : (len : ℕ) × (logger_default_days_in_month (pos y) m ≡ some len) × (d < len)
  pub exact : before_month (logger_default_is_leap_year (pos y)) m + d ≡ total

-- No day of a year lies past its twelve months.
past_december :
    (y m d total : ℕ)
    → m ≡ 13
    → before_month (logger_default_is_leap_year (pos y)) m + d ≡ total
    → total < logger_default_days_in_year (pos y)
    → ⊥
unfolding logger_default_days_in_year
past_december y m d total at e bound = let k = rw at at e in ground arith

next_month :
    (f : ℕ) (year : ℤ) (m d len : ℕ)
    → logger_default_days_in_month year m ≡ some len
    → leb len d ≡ true
    → months_forward (suc f) year m d ≡ months_forward f year (suc m) (d - len)
unfolding months_forward
next_month f year m d len is_len h = rw (is_len, months_forward, h)

pub months_forward-InMonth :
    (f y m d total : ℕ)
    → f + m ≡ 13
    → 1 ≤ m
    → before_month (logger_default_is_leap_year (pos y)) m + d ≡ total
    → total < logger_default_days_in_year (pos y)
    → (m' : ℕ) × (d' : ℕ) × (months_forward f (pos y) m d ≡ some (m', d')) × InMonth y total m' d'
unfolding months_forward
months_forward-InMonth zero y m d total fuel low e bound =
    absurd (past_december y m d total (omega arith) e bound)
months_forward-InMonth (suc f) y m d total fuel low e bound =
    let (len, is_len, step) = month_step y m low (omega arith) in
    elim (Bool-cases (leb len d)) [
      | inr h ↦ (
        m,
        d,
        rw (is_len, months_forward, h),
        record { low = low; high = omega arith; inside = (len, is_len, ground arith); exact = e },
      )
      | inl h ↦
          let more : len ≤ d = ground arith in
          let (m', d', run, i) =
            months_forward-InMonth f y (suc m) (d - len) total (omega arith) (omega arith)
              (omega (arith, step)) bound in
          (m', d', next_month f (pos y) m d len is_len h ∙ run, i)
    ]
