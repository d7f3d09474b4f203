-- ===== src/Dates/Limits.antt =====
-- Limits in days (src/utils/date/index.ts) as limits in milliseconds.
use be.Prelude.{ℕ, ◌+◌, ◌*◌, ◌≡◌, arith, ltb}
use be.Store.{Time}
use be.Dates.{TimeUnit, day, floor_days, calc_date_diff, is_below}

-- The difference in days is below a number exactly if the start lies before the end and that many
-- times 24 hours.
pub calc_date_diff-is_below :
    (start end : Time) (n : ℕ)
    → is_below (calc_date_diff start end TimeUnit.d) n ≡ ltb start (end + n * day)
unfolding calc_date_diff floor_days
calc_date_diff-is_below start end n = ground arith
