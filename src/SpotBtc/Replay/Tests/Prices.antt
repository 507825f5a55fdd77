-- ===== src/SpotBtc/Replay/Tests/Prices.antt =====
-- Examples of the benchmark, the candles, the bands, the regimes and the week keys.
use cryptotips.SpotBtc.Replay.Points.Classified.{classify_series-length}
use cryptotips.SpotBtc.Config.Periods.{v9, config_of-HasPeriods}
use cryptotips.SpotBtc.Replay.Points.{classify_series}
use cryptotips.SpotBtc.Replay.Rules.{detect_range_band}
use cryptotips.SpotBtc.Replay.Times.Weeks.{iso_week_key-eq, week_number}
use cryptotips.SpotBtc.Replay.V10.Follows.{FollowsRegime, after_bar, started, bar_v10-FollowsRegime}
use cryptotips.SpotBtc.Strategy.{day_ns}
use cryptotips.Float.{of_ℕ}
use cryptotips.SpotBtc.Replay.Tests.{params, candles, day_at, v9_cfg, in_turn}
use cryptotips.Float.Fixed.{fixed_float, Fixed-IsOrdered, Fixed}
use cryptotips.SpotBtc.Replay.Rules.Band.{detect_range_band-IsBand, BarsNum, IsBand}
use cryptotips.SpotBtc.Signal.{Ohlc}
use cryptotips.SpotBtc.Replay.Candles.Grouped.{
  aggregate_1d_to_1w-WeekByWeek, WeekByWeek, week_of, InWeek, days_of, candle_of, DayRun,
}
use cryptotips.SpotBtc.Replay.Candles.{aggregate_1h_to_4h, aggregate_1d_to_1w}
use cryptotips.Base.{
  zero, inr, ltb, if◌then◌else◌, ◌⊎◌, [], drop, refl, suc, ◌-◌, ◌↔◌, ◌≤◌, replicate, ◌/◌, ◌∷◌, ◌≡◌,
  arith, length, map, ◌*◌, ◌<◌, List, ℕ,
}
use cryptotips.Models.{KlineRecord}
use cryptotips.SpotBtc.Replay.Benchmark.{hold_qty, calc_buy_hold_benchmark}
use cryptotips.SpotBtc.Replay.Candles.Hours.{aggregate_1h_to_4h-FourByFour, FourByFour}
use cryptotips.SpotBtc.Config.Profiles.{v9_config}
use cryptotips.Base.Outcome.{Returns}
use cryptotips.SpotBtc.Replay.Benchmark.Drawdown.{
  calc_buy_hold_benchmark-IsDeepest, IsFall, FallsBounded, equities, IsFinite, IsMonotone,
}
use cryptotips.SpotBtc.Replay.Times.{
  year_day, iso_week, iso_year, month_day, day_key, iso_week_key, year_week_key,
}
use cryptotips.SpotBtc.Replay.V10.{state_v10, bar_v10}

Fixed-IsMonotone : IsMonotone Fixed
unfolding cryptotips.Base.Int.◌-ℤ◌
Fixed-IsMonotone = ground arith

abbrev second_day : KlineRecord Fixed
second_day = day_at 739249 104 2

abbrev first_day : KlineRecord Fixed
first_day = day_at 739248 100 1

abbrev later_days : List (KlineRecord Fixed)
later_days = day_at 739250 90 3 ∷ day_at 739251 95 2 ∷ []

abbrev held_equities : List Fixed
held_equities = of_ℕ 1000 ∷ equities (hold_qty (of_ℕ 1000) first_day.close) candles

held_equities-IsFinite : IsFinite held_equities
held_equities-IsFinite = record {
  values_num = λ x h. ground arith;
  differences_num = λ x y h k. ground arith;
}

calc_buy_hold_benchmark-IsDeepest_example :
    let dd = (calc_buy_hold_benchmark in_turn (of_ℕ 1000) candles 0 0).bench_max_drawdown in
    FallsBounded held_equities dd × ((dd ≡ of_ℕ 0) ⊎ IsFall held_equities dd)
calc_buy_hold_benchmark-IsDeepest_example =
    calc_buy_hold_benchmark-IsDeepest Fixed-IsOrdered Fixed-IsMonotone in_turn (of_ℕ 1000) candles 0
      0 first_day second_day later_days refl held_equities-IsFinite

-- The fall from 104 to 90, on ten coins.
deepest_fall :
    (calc_buy_hold_benchmark in_turn (of_ℕ 1000) candles 0 0).bench_max_drawdown ≡ of_ℕ 140
unfolding calc_buy_hold_benchmark cryptotips.Base.Int.◌+ℤ◌ cryptotips.Base.Int.◌-ℤ◌
deepest_fall = refl

aggregate_1d_to_1w-WeekByWeek_example :
    (first : DayRun Fixed) × (runs : List (DayRun Fixed)) × (aggregate_1d_to_1w candles
      ≡ map candle_of (first ∷ runs))
    × (days_of (first ∷ runs) ≡ candles)
    × InWeek (week_of first.first) first.others
    × WeekByWeek (week_of first.first) runs
aggregate_1d_to_1w-WeekByWeek_example =
    aggregate_1d_to_1w-WeekByWeek first_day (second_day ∷ later_days)

-- One week ends with the Sunday, the next has the three days that follow.
two_weeks :
    map {B = ℕ × Fixed} (λ k. (k.open_time / day_ns, k.close)) (aggregate_1d_to_1w candles)
    ≡ (739248, of_ℕ 100) ∷ (739249, of_ℕ 95) ∷ []
unfolding aggregate_1d_to_1w iso_week_key
two_weeks = refl

aggregate_1h_to_4h-FourByFour_example : FourByFour (aggregate_1h_to_4h candles) candles
aggregate_1h_to_4h-FourByFour_example =
    aggregate_1h_to_4h-FourByFour Fixed-IsOrdered candles
      (refl, refl, (refl, refl, (refl, refl, (refl, refl, tt))))

iso_week_key-eq_example :
    (iso_week_key (739249 * day_ns) ≡ iso_week_key (739254 * day_ns))
    ↔ (week_number (739249 * day_ns) ≡ week_number (739254 * day_ns))
iso_week_key-eq_example = iso_week_key-eq (739249 * day_ns) (739254 * day_ns)

-- 30 December 2024 is in the first week of 2025, and 3 January 2021 in the last one of 2020.
turn_of_year : (iso_week_key (739249 * day_ns) ≡ 202501) × (iso_week_key (737792 * day_ns) ≡ 202053)
unfolding iso_week_key iso_year iso_week year_day
turn_of_year = (refl, refl)

-- With the year of the day, 30 December 2024 shares its key with the first week of January 2024.
year_apart : year_week_key (739249 * day_ns) ≡ year_week_key (738885 * day_ns)
unfolding year_week_key iso_week year_day
year_apart = refl

leap_day : day_key (738944 * day_ns) ≡ 20240229
unfolding day_key month_day year_day
leap_day = refl

abbrev flat_day : Ohlc Fixed
flat_day = record { close = of_ℕ 100; high = of_ℕ 110; low = of_ℕ 90; volume = of_ℕ 5 }

abbrev flat_days : List (Ohlc Fixed)
flat_days = replicate 60 flat_day

flat_days-BarsNum : (n : ℕ) → BarsNum (replicate n flat_day)
flat_days-BarsNum zero = tt
flat_days-BarsNum (suc n) = (refl, refl, flat_days-BarsNum n)

v9_back : 0 < v9_cfg.range_lookback_days
unfolding v9_config
v9_back = omega arith

detect_range_band-IsBand_example :
    Returns
      (IsBand v9_cfg (drop (60 - v9_cfg.range_lookback_days) flat_days))
      (detect_range_band v9_cfg flat_days flat_days)
unfolding v9_config
detect_range_band-IsBand_example =
    detect_range_band-IsBand Fixed-IsOrdered v9_cfg flat_days flat_days (config_of-HasPeriods v9)
      v9_back (flat_days-BarsNum 20)

-- After a first bar, a second one.
bar_v10-FollowsRegime_example :
    FollowsRegime
      (of_ℕ 1000)
      candles
      first_day
      (bar_v10 (of_ℕ 1000) candles later_days first_day state_v10)
      (bar_v10
        (of_ℕ 1000)
        candles
        later_days
        first_day
        (bar_v10 (of_ℕ 1000) candles later_days first_day state_v10))
bar_v10-FollowsRegime_example =
    bar_v10-FollowsRegime (of_ℕ 1000) candles later_days first_day
      (bar_v10 (of_ℕ 1000) candles later_days first_day state_v10)
      (after_bar later_days first_day
        (record { positive = refl; buys_long = refl; sells_short = refl }) started)
      (record { positive = refl; buys_long = refl; sells_short = refl })

classify_series-length_example :
    Returns
      (λ points. length points ≡ length candles - (if ltb (length candles) 210 then 60 else 208))
      (classify_series candles params)
classify_series-length_example = classify_series-length candles params
