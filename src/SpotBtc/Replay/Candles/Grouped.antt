-- ===== src/SpotBtc/Replay/Candles/Grouped.antt =====
-- aggregate1dTo1w: its candles are the runs of days of one week.
use mathlib.Core.List.{append_assoc}
use cryptotips.SpotBtc.Replay.Steps.Fills.{foldl-snoc}
use cryptotips.SpotBtc.Replay.Times.Weeks.{iso_week-eq, week_number}
use cryptotips.SpotBtc.Replay.Candles.{week_so_far, aggregate_1d_to_1w, same_week, weeks_from}
use cryptotips.Models.{KlineRecord}
use cryptotips.Float.{Float}
use cryptotips.Base.{
  sym, inr, ◌∙◌, arith, inl, Bool-cases, ap, refl, ◌↔◌, [], map, true, ◌++◌, ◌≢◌, foldl, ◌∷◌, ◌≡◌,
  List, ℕ,
}

-- The days of a week, the first one apart.
pub record DayRun (F : Type 0) : Type 0 where
  pub first : KlineRecord F
  pub others : List (KlineRecord F)

module _ {F : Type 0} where
  abbrev pub week_of : KlineRecord F → ℕ
  week_of k = week_number k.open_time

  abbrev pub InWeek : ℕ → List (KlineRecord F) → Type 0
  InWeek w [] = Unit
  InWeek w (k ∷ ks) = (week_of k ≡ w) × InWeek w ks

  -- Every run is of one week, another one than that of the run before it.
  abbrev pub WeekByWeek : ℕ → List (DayRun F) → Type 0
  WeekByWeek w [] = Unit
  WeekByWeek w (r ∷ rs) =
      (w ≢ week_of r.first) × InWeek (week_of r.first) r.others × WeekByWeek (week_of r.first) rs

  abbrev pub days_of : List (DayRun F) → List (KlineRecord F)
  days_of [] = []
  days_of (r ∷ rs) = (r.first ∷ r.others) ++ days_of rs

  InWeek-snoc :
      (w : ℕ) (ks : List (KlineRecord F)) (k : KlineRecord F)
      → InWeek w ks
      → week_of k ≡ w
      → InWeek w (ks ++ k ∷ [])
  InWeek-snoc w [] k h e = (e, tt)
  InWeek-snoc w (j ∷ ks) k (f, h) e = (f, InWeek-snoc w ks k h e)

module _ {F : Type 0} ⦃fl : Float F⦄ where
  same_week_iff : (c d : KlineRecord F) → (same_week c d ≡ true) ↔ (week_of d ≡ week_of c)
  same_week_iff c d = (
    λ h. (iso_week-eq d.open_time c.open_time).0 (ground arith, ground arith),
    λ h. let (y, w) = (iso_week-eq d.open_time c.open_time).1 h in ground arith,
  )

  -- The candle of a run.
  abbrev pub candle_of : DayRun F → KlineRecord F
  candle_of r = foldl week_so_far r.first r.others

  open_time-foldl :
      (c : KlineRecord F) (ks : List (KlineRecord F))
      → (foldl week_so_far c ks).open_time ≡ c.open_time
  open_time-foldl c [] = refl
  open_time-foldl c (k ∷ ks) = open_time-foldl (week_so_far c k) ks

  -- How the rest of the days is grouped, behind those of the first week that were already seen.
  record Grouping (first : KlineRecord F) (seen days : List (KlineRecord F)) : Type 0 where
    more : List (KlineRecord F)
    runs : List (DayRun F)
    candles :
        weeks_from (foldl week_so_far first seen) days
        ≡ candle_of (record { first = first; others = more }) ∷ map candle_of runs
    all_days : (first ∷ more) ++ days_of runs ≡ (first ∷ seen) ++ days
    in_week : InWeek (week_of first) more
    week_by_week : WeekByWeek (week_of first) runs

  grouping :
      (first : KlineRecord F) (seen days : List (KlineRecord F))
      → InWeek (week_of first) seen
      → Grouping first seen days
  unfolding weeks_from
  grouping first seen [] h = record {
    more = seen;
    runs = [];
    candles = refl;
    all_days = refl;
    in_week = h;
    week_by_week = tt;
  }
  grouping first seen (d ∷ ds) h =
      let c = foldl week_so_far first seen in
      let began : week_of c ≡ week_of first = ap week_number (open_time-foldl first seen) in
      elim (Bool-cases (same_week c d)) [
        | inl same ↦
            let g =
              grouping first (seen ++ d ∷ []) ds
                (InWeek-snoc (week_of first) seen d h ((same_week_iff c d).0 same ∙ began)) in
            record {
              more = g.more;
              runs = g.runs;
              candles = rw same (rw (foldl-snoc week_so_far first seen d) at g.candles);
              all_days = g.all_days ∙ append_assoc (first ∷ seen) (d ∷ []) ds;
              in_week = g.in_week;
              week_by_week = g.week_by_week;
            }
        | inr other ↦
            let g = grouping d [] ds tt in
            record {
              more = seen;
              runs = record { first = d; others = g.more } ∷ g.runs;
              candles = rw other (ap (◌∷◌ c) g.candles);
              all_days = ap (λ r. (first ∷ seen) ++ r) g.all_days;
              in_week = h;
              week_by_week = (
                λ e. cc (other, (same_week_iff c d).1 (sym e ∙ sym began)),
                g.in_week,
                g.week_by_week,
              );
            }
      ]

  -- The weekly candles are the days, cut into runs of one week each (Monday to Sunday): no day is lost or
  -- moved, neighbouring runs are of different weeks, and each candle is made of its run, from the
  -- first day on.
  pub aggregate_1d_to_1w-WeekByWeek :
      (d : KlineRecord F) (days : List (KlineRecord F))
      → (first : DayRun F) × (runs : List (DayRun F)) × (aggregate_1d_to_1w (d ∷ days)
          ≡ map candle_of (first ∷ runs))
        × (days_of (first ∷ runs) ≡ d ∷ days)
        × InWeek (week_of first.first) first.others
        × WeekByWeek (week_of first.first) runs
  unfolding aggregate_1d_to_1w
  aggregate_1d_to_1w-WeekByWeek d days =
      let g = grouping d [] days tt in
      (
        record { first = d; others = g.more },
        g.runs,
        g.candles,
        g.all_days,
        g.in_week,
        g.week_by_week,
      )
