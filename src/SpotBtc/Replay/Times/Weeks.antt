-- ===== src/SpotBtc/Replay/Times/Weeks.antt =====
-- The week keys tell weeks apart.
use cryptotips.SpotBtc.Strategy.{day_ns}
use cryptotips.SpotBtc.Replay.Times.{thursday, iso_week, iso_year, iso_week_key, year_day}
use cryptotips.Base.{ap, ◌<◌, refl, ◌-◌, arith, ◌/◌, ◌↔◌, min, ◌*◌, ◌+◌, ◌%◌, ◌≡◌, ◌≤◌, ℕ}

-- How a day lies in its year, and the year in the cycle of 400.
record Parts (d : ℕ) : Type 0 where
  cycle : ℕ
  century : ℕ
  olympiad : ℕ
  one : ℕ
  century_bound : century ≤ 3
  olympiad_bound : olympiad ≤ 24
  one_bound : one ≤ 3
  year_is : (year_day d).year ≡ cycle * 400 + century * 100 + olympiad * 4 + one + 1
  day_is : d ≡ cycle * 146097 + century * 36524 + olympiad * 1461 + one * 365 + (year_day d).yday
  yday_bound : (year_day d).yday ≤ 365

year_day-Parts : (d : ℕ) → Parts d
unfolding year_day
year_day-Parts d =
    let r400 = d % 146097 in
    let n100 = min 3 (r400 / 36524) in
    let r100 = r400 - n100 * 36524 in
    let r4 = r100 % 1461 in
    record {
      cycle = d / 146097;
      century = n100;
      olympiad = r100 / 1461;
      one = min 3 (r4 / 365);
      century_bound = omega arith;
      olympiad_bound = omega arith;
      one_bound = omega arith;
      year_is = refl;
      day_is = omega arith;
      yday_bound = omega arith;
    }

-- A day is known by its year and its place there.
year_day-eq :
    (d e : ℕ)
    → (year_day d).year ≡ (year_day e).year
    → d + (year_day e).yday ≡ e + (year_day d).yday
year_day-eq d e same =
    let p = year_day-Parts d in
    let q = year_day-Parts e in
    let a : p.cycle ≡ q.cycle = omega arith in
    let b : p.century ≡ q.century = omega arith in
    let c : p.olympiad ≡ q.olympiad = omega arith in omega arith

-- The Monday that a day's week begins at, counted in weeks.
abbrev pub week_number : ℕ → ℕ
week_number t = t / day_ns / 7

iso_days-eq :
    (d e : ℕ)
    → (year_day (thursday d)).year ≡ (year_day (thursday e)).year
    → (year_day (thursday d)).yday / 7 ≡ (year_day (thursday e)).yday / 7
    → d / 7 ≡ e / 7
iso_days-eq d e years weeks = omega (arith, year_day-eq (thursday d) (thursday e) years)

thursday-eq : (d e : ℕ) → d / 7 ≡ e / 7 → thursday d ≡ thursday e
thursday-eq d e h = omega arith

-- ISOWeek gives two times the same year and week exactly if they are in the same week.
pub iso_week-eq :
    (t u : ℕ)
    → ((iso_year t ≡ iso_year u) × (iso_week t ≡ iso_week u)) ↔ (week_number t ≡ week_number u)
unfolding iso_year iso_week
iso_week-eq t u = (
  λ (y, w). iso_days-eq (t / day_ns) (u / day_ns) y (omega arith),
  λ h.
      let same = thursday-eq (t / day_ns) (u / day_ns) h in
      (ap (λ d. (year_day d).year) same, ap (λ d. (year_day d).yday / 7 + 1) same),
)

iso_week-bound : (t : ℕ) → iso_week t < 100
unfolding iso_week
iso_week-bound t = let p = year_day-Parts (thursday (t / day_ns)) in omega (arith, p.yday_bound)

-- The week keys of v8 and v9 are equal exactly for two times of the same week, from Monday to Sunday:
-- weeks of different years are not mixed up, and the week at the turn of a year has one key.
pub iso_week_key-eq :
    (t u : ℕ) → (iso_week_key t ≡ iso_week_key u) ↔ (week_number t ≡ week_number u)
unfolding iso_week_key
iso_week_key-eq t u = (
  λ h. (iso_week-eq t u).0 (
    omega (arith, iso_week-bound t, iso_week-bound u),
    omega (arith, iso_week-bound t, iso_week-bound u),
  ),
  λ h. let (y, w) = (iso_week-eq t u).1 h in omega arith,
)
