-- ===== src/SpotBtc/Strategy/Calendar.antt =====
-- The day and the week of the loss limits.
-- The ranges of the loss limits have now in them: the day begins at a midnight, the week at the midnight
-- of a Monday, and each is the last such time that is not after now.
use cryptotips.SpotBtc.Strategy.{week_start, day_ns, day_start}
use cryptotips.Base.{arith, ◌*◌, ◌+◌, ◌<◌, ◌≤◌, ◌≡◌, ◌%◌, ℕ}

pub week_start-Contains :
    (now : ℕ)
    → (day_start now % day_ns ≡ 0)
      × (day_start now ≤ now)
      × (now < day_start now + day_ns)
      × (week_start now % (7 * day_ns) ≡ 0)
      × (week_start now ≤ day_start now)
      × (now < week_start now + 7 * day_ns)
week_start-Contains now =
    (omega arith, omega arith, omega arith, omega arith, omega arith, omega arith)
