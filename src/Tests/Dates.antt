-- ===== src/Tests/Dates.antt =====
-- The UTC timestamp on concrete inputs.
use lex_leo.Prelude.{◌≡◌, refl, some, arith}
use lex_leo.UtcTimestamp.{
  pos, negsuc, UtcTimestamp, logger_default_is_leap_year, logger_default_days_in_year,
  days_per_month, logger_default_days_in_month, next_year, previous_year, years_forward, years_back,
  year_of_days, months_forward, days_and_seconds, logger_default_epoch_time_to_date,
}
use lex_leo.UtcTimestamp.Calendar.{IsDate, unix_time, logger_default_epoch_time_to_date-IsDate}

leap_day :
    logger_default_epoch_time_to_date (pos 68255999)
    ≡ some (record { year = pos 1972; month = 2; day = 29; hour = 23; minute = 59; second = 59 })
unfolding logger_default_epoch_time_to_date days_and_seconds year_of_days years_forward next_year
    months_forward logger_default_days_in_month days_per_month logger_default_days_in_year
    logger_default_is_leap_year
leap_day = refl

before_the_epoch :
    logger_default_epoch_time_to_date (negsuc 0)
    ≡ some (record { year = pos 1969; month = 12; day = 31; hour = 23; minute = 59; second = 59 })
unfolding logger_default_epoch_time_to_date days_and_seconds year_of_days years_back previous_year
    months_forward logger_default_days_in_month days_per_month logger_default_days_in_year
    logger_default_is_leap_year
before_the_epoch = refl

logger_default_epoch_time_to_date-IsDate_example :
    (t : UtcTimestamp) × (logger_default_epoch_time_to_date (unix_time 62135596799) ≡ some t)
    × IsDate 62135596799 t
logger_default_epoch_time_to_date-IsDate_example =
    logger_default_epoch_time_to_date-IsDate 62135596799 (omega arith)
