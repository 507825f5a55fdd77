-- ===== src/SpotBtc/Replay/Times/Days.antt =====
-- No date has the number 0, which stands for the empty text.
use cryptotips.SpotBtc.Strategy.{day_ns}
use cryptotips.SpotBtc.Replay.Times.{day_key, month_day, year_day, month_lengths}
use cryptotips.Base.{[], ◌-◌, ◌+◌, ◌/◌, ◌∷◌, arith, List, ◌<◌, ℕ}

day_of_month : (m yday : ℕ) (ns : List ℕ) → 0 < (month_day m yday ns).1
unfolding month_day
day_of_month m yday [] = omega arith
day_of_month m yday (n ∷ ns) = ground (arith, day_of_month (m + 1) (yday - n) ns)

pub day_key-positive : (t : ℕ) → 0 < day_key t
unfolding day_key
day_key-positive t = omega (
  arith,
  day_of_month 1 (year_day (t / day_ns)).yday (month_lengths (year_day (t / day_ns)).leap),
)
