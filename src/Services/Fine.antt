-- ===== src/Services/Fine.antt =====
-- FlatDailyFineStrategy of app/services/borrow_service.py. Money is in whole cents: the default
-- rate 0.50 and ceiling 50.00 are 50 and 5000, on which the floats and the rounding are exact.
pub mod Bounds
use production_library_manag.Prelude.{ℕ, ◌+◌, ◌-◌, ◌*◌, ◌/◌, ◌%◌, min, ltb, leb, if◌then◌else◌}
use production_library_manag.Enums.{day, second}

pub record FlatDailyFineStrategy : Type 0 where
  pub daily_rate : ℕ
  pub max_limit : ℕ

abbrev pub default_strategy : FlatDailyFineStrategy
default_strategy = record { daily_rate = 50; max_limit = 5000 }

-- `timedelta.days` and `timedelta.seconds`; the microseconds are a third part.
unfoldable pub days_of : ℕ → ℕ
days_of delta = delta / day

unfoldable pub seconds_of : ℕ → ℕ
seconds_of delta = delta % day / second

unfoldable pub days_overdue : ℕ → ℕ
unfolding days_of seconds_of
days_overdue delta = if ltb 0 (seconds_of delta) then days_of delta + 1 else days_of delta

unfoldable pub calculate_fine : FlatDailyFineStrategy → ℕ → ℕ → ℕ
unfolding days_overdue
calculate_fine strategy due_date return_date =
    if leb return_date due_date
    then 0
    else min (days_overdue (return_date - due_date) * strategy.daily_rate) strategy.max_limit
