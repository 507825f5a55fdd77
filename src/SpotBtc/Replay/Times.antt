-- ===== src/SpotBtc/Replay/Times.antt =====
-- The keys that a replay forms of a time, by the calendar of package time, as numbers.
pub mod Weeks
pub mod Days
use cryptotips.SpotBtc.Strategy.{day_ns}
use cryptotips.Base.{
  ◌||◌, not, ◌&&◌, [], ltb, ◌==◌, if◌then◌else◌, min, ◌%◌, ◌+◌, ◌∷◌, List, ◌*◌, ◌-◌, ◌/◌, Bool, ℕ,
}

-- A year of the calendar, with the day in it, from 0.
pub record YearDay : Type 0 where
  pub year : ℕ
  pub yday : ℕ
  pub leap : Bool

-- The days of 400, 100, 4 years and one year; day 0 is 1 January of year 1.
unfoldable pub year_day : ℕ → YearDay
year_day d =
    let n400 = d / 146097 in
    let r400 = d % 146097 in
    let n100 = min 3 (r400 / 36524) in
    let r100 = r400 - n100 * 36524 in
    let n4 = r100 / 1461 in
    let r4 = r100 % 1461 in
    let n1 = min 3 (r4 / 365) in
    record {
      year = n400 * 400 + n100 * 100 + n4 * 4 + n1 + 1;
      yday = r4 - n1 * 365;
      leap = n1 == 3 && (not (n4 == 24) || n100 == 3);
    }

abbrev month_lengths : Bool → List ℕ
month_lengths leap =
    31 ∷ (if leap then 29 else 28) ∷ 31 ∷ 30 ∷ 31 ∷ 30 ∷ 31 ∷ 31 ∷ 30 ∷ 31 ∷ 30 ∷ 31 ∷ []

-- The month and the day of the month, from 1.
unfoldable pub month_day : ℕ → ℕ → List ℕ → ℕ × ℕ
month_day m yday [] = (m, yday + 1)
month_day m yday (n ∷ ns) =
    let rest = month_day (m + 1) (yday - n) ns in if ltb yday n then (m, yday + 1) else rest

-- `t.Format("2006-01-02")`: the text "2006-01-02" is the number 20060102.
unfoldable pub day_key : ℕ → ℕ
unfolding month_day year_day
day_key t =
    let y = year_day (t / day_ns) in
    let (m, d) = month_day 1 y.yday (month_lengths y.leap) in y.year * 10000 + m * 100 + d

-- `t.Format("2006-01")`: 200601
unfoldable pub month_key : ℕ → ℕ
unfolding month_day year_day
month_key t =
    let y = year_day (t / day_ns) in
    let (m, d) = month_day 1 y.yday (month_lengths y.leap) in y.year * 100 + m

-- The Thursday of the week.
abbrev pub thursday : ℕ → ℕ
thursday d = d - d % 7 + 3

-- `t.ISOWeek()`: a week belongs to the year of its Thursday.
unfoldable pub iso_year : ℕ → ℕ
unfolding year_day
iso_year t = (year_day (thursday (t / day_ns))).year

unfoldable pub iso_week : ℕ → ℕ
unfolding year_day
iso_week t = (year_day (thursday (t / day_ns))).yday / 7 + 1

-- The week keys of the replays: v8 and v9 print the year of ISOWeek, the others the year of the day.
unfoldable pub iso_week_key : ℕ → ℕ
unfolding iso_year iso_week
iso_week_key t = iso_year t * 100 + iso_week t

unfoldable pub year_week_key : ℕ → ℕ
unfolding iso_week year_day
year_week_key t = (year_day (t / day_ns)).year * 100 + iso_week t
