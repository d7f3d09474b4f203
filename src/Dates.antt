-- ===== src/Dates.antt =====
-- src/utils/date/index.ts
pub mod Limits
use be.Prelude.{
  ℕ, ◌+◌, ◌-◌, ◌*◌, ◌/◌, ◌≤◌, ◌≡◌, ◌↔◌, Bool, true, false, arith, leb, ltb, if◌then◌else◌,
}
use be.Store.{Time}

-- `negsuc n` is -(n + 1).
pub data ℤ : Type 0 where
  pos : ℕ → ℤ
  negsuc : ℕ → ℤ

pub data TimeUnit : Type 0 where
  y m d : TimeUnit

-- 1000 * 60 * 60 * 24
abbrev pub day : ℕ
day = 86400000

-- `Math.floor((start - end) / day)`. The quotient in double precision has the same floor where the
-- times are less than 2800 years apart.
unfoldable pub floor_days : Time → Time → ℤ
floor_days start_date end_date =
    if leb end_date start_date
    then pos ((start_date - end_date) / day)
    else negsuc ((end_date - start_date - 1) / day)

-- All three units give the number of days.
unfoldable pub calc_date_diff : Time → Time → TimeUnit → ℤ
unfolding floor_days
calc_date_diff start_date end_date TimeUnit.d = floor_days start_date end_date
calc_date_diff start_date end_date TimeUnit.m = floor_days start_date end_date
calc_date_diff start_date end_date TimeUnit.y = floor_days start_date end_date

-- `diff < n`
abbrev pub is_below : ℤ → ℕ → Bool
is_below (pos k) n = ltb k n
is_below (negsuc k) n = true
