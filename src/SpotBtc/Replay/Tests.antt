-- ===== src/SpotBtc/Replay/Tests.antt =====
-- Runs and examples of the replays, on fixed-point numbers and a short series of candles.
mod Prices
use cryptotips.SpotBtc.Replay.Labels.{default_labels}
use cryptotips.SpotBtc.Replay.Search.Best.{calibrate_on_bars-IsUnbeaten, IsUnbeaten}
use cryptotips.SpotBtc.Replay.Search.{calibrate_on_bars, CalibCandidate}
use cryptotips.SpotBtc.Replay.Track.{track_start, catch_up}
use cryptotips.SpotBtc.Replay.Track.Adopts.{catch_up-Adopts, AllVotes}
use cryptotips.SpotBtc.Replay.Steps.Ranges.{step_range_position}
use cryptotips.SpotBtc.Replay.V7.Sound.{bars_v7-IsSound}
use cryptotips.SpotBtc.Replay.V9.Sound.{bars_v9-IsSound}
use cryptotips.SpotBtc.Replay.V11.Bars.{bars_v11-IsSound}
use cryptotips.SpotBtc.Replay.V8.{state_v8, bar_v8, run_v8_replay}
use cryptotips.SpotBtc.Replay.V9.{bar_v9}
use cryptotips.SpotBtc.Replay.V11.Loop.{state_v11, bar_v11}
use cryptotips.SpotBtc.Replay.V7.{state_v7, bar_v7}
use cryptotips.SpotBtc.Strategy.{day_ns}
use cryptotips.SpotBtc.Replay.Candles.{aggregate_1d_to_1w, out_of_window}
use cryptotips.SpotBtc.Replay.Book.{each_bar}
use cryptotips.Float.{dec, of_ℕ}
use cryptotips.SpotBtc.Config.Periods.{config_of-HasPeriods, v11, v8, v9, config_of}
use cryptotips.SpotBtc.Signal.{Ohlc}
use cryptotips.SpotBtc.Replay.V8.Sound.{bars_v8-IsSound, IsSoundV8}
use cryptotips.Float.Fixed.{Fixed-IsOrdered, fixed_float, Fixed}
use cryptotips.Models.{KlineRecord}
use cryptotips.SpotBtc.Replay.Sound.{IsBook}
use cryptotips.SpotBtc.Replay.V11.Sound.{IsSoundV11}
use cryptotips.SpotBtc.Replay.V8.Answer.{run_v8_replay-Answers, Answers}
use cryptotips.SpotBtc.Replay.Steps.Trail.{step_position_v8-KeepsStop, first_stop, KeepsStop}
use cryptotips.SpotBtc.Replay.Steps.Fills.{steps-Settles, fill, Fill, Settles, IsAccounted}
use cryptotips.SpotBtc.Replay.Steps.{step_position_v8, step_position, RangeBand}
use cryptotips.SpotBtc.Replay.Points.{ClassPoint, RegimeCalibParams}
use cryptotips.Base.{
  zero, ◌%◌, suc, ◌++◌, false, ◌≡◌, ◌-◌, refl, ◌+◌, [], ltb, true, ◌≤◌, arith, length, ◌*◌, ◌∷◌,
  ◌<◌, List, ℕ,
}
use cryptotips.Base.Outcome.{Returns}
use cryptotips.SpotBtc.Replay.{
  regime_range, regime_bear, no_position, regime_bull, long, ReplayPosition,
}
use cryptotips.SpotBtc.Config.{Config}
use cryptotips.SpotBtc.Config.Profiles.{
  v6_regime_config, v10_config, v7_regime_config, v11_config, v8_config, v9_config,
}

abbrev pub day_at : ℕ → ℕ → ℕ → KlineRecord Fixed
day_at d price spread = record {
  symbol = "BTCUSDT";
  interval = "1d";
  open_time = d * day_ns;
  close_time = d * day_ns + 1;
  open_price = of_ℕ price;
  high = of_ℕ (price + spread);
  low = of_ℕ (price - spread);
  close = of_ℕ price;
  volume = of_ℕ 5;
  quote_volume = of_ℕ 450;
}

-- Candles from Sunday 2024-12-29 on.
abbrev pub candles : List (KlineRecord Fixed)
candles = day_at 739248 100 1 ∷ day_at 739249 104 2 ∷ day_at 739250 90 3 ∷ day_at 739251 95 2 ∷ []

-- As many days as wanted, from 1 January 2022 on, in waves.
daily_series : ℕ → List (KlineRecord Fixed)
daily_series zero = []
daily_series (suc n) = daily_series n ++ day_at (738155 + n) (100 + n % 40) 2 ∷ []

abbrev many : List (KlineRecord Fixed)
many = daily_series 1200

abbrev pub in_turn : List Fixed → List Fixed
in_turn xs = xs

abbrev by_turn : List (CalibCandidate Fixed) → List (CalibCandidate Fixed)
by_turn cs = cs

abbrev v8_cfg : Config Fixed
v8_cfg = config_of v8

abbrev pub v9_cfg : Config Fixed
v9_cfg = config_of v9

abbrev v11_cfg : Config Fixed
v11_cfg = config_of v11

abbrev pub params : RegimeCalibParams Fixed
params = record {
  slope_bull_min = dec 1 2;
  slope_bear_max = fixed_float.neg (dec 1 2);
  return_bull_min = dec 3 2;
  return_bear_max = fixed_float.neg (dec 3 2);
  drawdown_bear_min = dec 2 1;
  vol_range_max = dec 5 2;
  min_confirm_bar = 2;
}

abbrev points : List (ClassPoint Fixed)
points =
    record { time = 0; regime = regime_bull; confidence = of_ℕ 1; score = of_ℕ 1 }
    ∷ record { time = 739250 * day_ns; regime = regime_bear; confidence = of_ℕ 1; score = of_ℕ 0 }
    ∷ []

v8_days : 3 ≤ v8_cfg.ema_filter_period + v8_cfg.ema200_slope_lookback
unfolding v8_config v7_regime_config v6_regime_config
v8_days = omega arith

v9_days : 3 ≤ v9_cfg.ema_filter_period + v9_cfg.ema200_slope_lookback
unfolding v9_config v8_config v7_regime_config v6_regime_config
v9_days = omega arith

v9_back : 0 < v9_cfg.range_lookback_days
unfolding v9_config
v9_back = omega arith

v11_days : 3 ≤ v11_cfg.ema_filter_period + v11_cfg.ema200_slope_lookback
unfolding v11_config cryptotips.SpotBtc.Config.Profiles.v11a_config v10_config v9_config v8_config
    v7_regime_config v6_regime_config
v11_days = omega arith

bars_v8-IsSound_example :
    Returns
      (IsSoundV8 v8_cfg (length many))
      (each_bar (out_of_window 0 0) (bar_v8 v8_cfg many) (state_v8 points) [] many)
bars_v8-IsSound_example =
    bars_v8-IsSound v8_cfg 0 0 many many points (config_of-HasPeriods v8) v8_days

bars_v9-IsSound_example :
    Returns
      (IsSoundV8 v9_cfg (length many))
      (each_bar (out_of_window 0 0) (bar_v9 v9_cfg many) (state_v8 points) [] many)
bars_v9-IsSound_example =
    bars_v9-IsSound v9_cfg 0 0 many many points (config_of-HasPeriods v9) v9_days v9_back

bars_v11-IsSound_example :
    Returns
      (IsSoundV11 v11_cfg)
      (each_bar (out_of_window 0 0) (bar_v11 true v11_cfg many) state_v11 [] many)
bars_v11-IsSound_example =
    bars_v11-IsSound true v11_cfg 0 0 many many (config_of-HasPeriods v11) v11_days

bars_v7-IsSound_example :
    Returns
      (λ s. IsBook s.book_v7)
      (each_bar (λ t. ltb t 0) (bar_v7 v8_cfg many) (state_v7 points) [] many)
bars_v7-IsSound_example = bars_v7-IsSound v8_cfg 0 many many points (config_of-HasPeriods v8)

run_v8_replay-Answers_example :
    Returns
      (Answers (length (aggregate_1d_to_1w many)))
      (run_v8_replay in_turn v8_cfg many many 0 0 params)
run_v8_replay-Answers_example =
    run_v8_replay-Answers in_turn v8_cfg many many 0 0 params (config_of-HasPeriods v8) v8_days

-- A long of 2 from 100 with its stop at 95, of which a quarter was sold at 110.
abbrev half_way : ReplayPosition Fixed
half_way = record no_position {
  active = true;
  entry_price = of_ℕ 100;
  stop_loss = of_ℕ 95;
  risk_per_unit = of_ℕ 5;
  qty_total = of_ℕ 2;
  qty_remain = dec 15 1;
  tp1_done = true;
  trail_stop = of_ℕ 101;
  realized_part = of_ℕ 5;
}

abbrev bars : List (Ohlc Fixed)
bars =
    record { close = of_ℕ 100; high = of_ℕ 102; low = of_ℕ 99; volume = of_ℕ 5 }
    ∷ record { close = of_ℕ 108; high = of_ℕ 109; low = of_ℕ 99; volume = of_ℕ 5 }
    ∷ []

abbrev sold_before : List (Fill Fixed)
sold_before = fill (of_ℕ 110) (dec 5 1) ∷ []

abbrev band : RangeBand Fixed
band = record { upper = of_ℕ 120; lower = of_ℕ 90; mid = of_ℕ 105; range_atr = of_ℕ 2 }

half_way-IsAccounted : IsAccounted long (of_ℕ 100) (of_ℕ 2) sold_before half_way
unfolding cryptotips.Base.Int.◌+ℤ◌ cryptotips.Base.Int.◌-ℤ◌
half_way-IsAccounted = record {
  same_entry = refl;
  same_total = refl;
  qty_left = refl;
  part_earned = refl;
}

steps-Settles_example :
    Returns
      (Settles long (of_ℕ 100) (of_ℕ 2) (of_ℕ 99) sold_before)
      (step_position long v8_cfg half_way (of_ℕ 99) bars)
    × Returns
        (Settles long (of_ℕ 100) (of_ℕ 2) (of_ℕ 99) sold_before)
        (step_position_v8 long v8_cfg half_way (of_ℕ 99) bars)
    × Settles long
        (of_ℕ 100)
        (of_ℕ 2)
        (of_ℕ 99)
        sold_before
        (step_range_position long v8_cfg half_way (of_ℕ 99) regime_range band true)
steps-Settles_example =
    steps-Settles long (of_ℕ 100) (of_ℕ 2) (of_ℕ 99) sold_before v8_cfg half_way bars regime_range
      band true (config_of-HasPeriods v8) refl half_way-IsAccounted

step_position_v8-KeepsStop_example :
    Returns
      (KeepsStop Fixed-IsOrdered (first_stop Fixed-IsOrdered half_way (of_ℕ 108)) (of_ℕ 108))
      (step_position_v8 long v8_cfg half_way (of_ℕ 108) bars)
step_position_v8-KeepsStop_example =
    step_position_v8-KeepsStop Fixed-IsOrdered v8_cfg half_way (of_ℕ 108) bars
      (config_of-HasPeriods v8) refl refl refl refl

-- The bar sells at the first target, and the stop at 101 falls to the entry price.
abbrev trailing : ReplayPosition Fixed
trailing = record half_way { tp1_done = false; realized_part = of_ℕ 0; qty_remain = of_ℕ 2 }

stop_falls : first_stop Fixed-IsOrdered trailing (of_ℕ 108) ≡ of_ℕ 100
unfolding cryptotips.Base.Int.◌+ℤ◌
stop_falls = refl

-- Two weekly points for a bear market, and one that is not due.
abbrev vote_at : ℕ → ClassPoint Fixed
vote_at d = record { time = d * day_ns; regime = regime_bear; confidence = of_ℕ 1; score = of_ℕ 1 }

abbrev votes : List (ClassPoint Fixed)
votes = vote_at 739235 ∷ vote_at 739242 ∷ []

abbrev not_due : List (ClassPoint Fixed)
not_due = vote_at 739256 ∷ []

abbrev now : ℕ
now = 739249 * day_ns

votes-AllVotes : AllVotes v8_cfg now regime_bear votes
unfolding v8_config
votes-AllVotes = ((refl, refl, omega arith), ((refl, refl, omega arith), tt))

v8_confirms : v8_cfg.regime_min_confirm_bars ≤ 2
unfolding v8_config v7_regime_config v6_regime_config
v8_confirms = omega arith

v8_stays : v8_cfg.regime_min_stay_bars ≤ 999
unfolding v8_config v7_regime_config v6_regime_config
v8_stays = omega arith

catch_up-Adopts_example :
    (catch_up v8_cfg now (track_start (votes ++ not_due))).confirm.current ≡ regime_bear
catch_up-Adopts_example =
    catch_up-Adopts v8_cfg now regime_bear (vote_at 739235) (vote_at 739242 ∷ []) not_due
      (track_start (votes ++ not_due)) refl votes-AllVotes (omega arith) v8_confirms v8_stays

calibrate_on_bars-IsUnbeaten_example :
    Returns IsUnbeaten
      (calibrate_on_bars in_turn "1d" many many many 0 v8_cfg (default_labels now) true by_turn)
calibrate_on_bars-IsUnbeaten_example =
    calibrate_on_bars-IsUnbeaten Fixed-IsOrdered in_turn "1d" many many many 0 v8_cfg
      (default_labels now) true by_turn (config_of-HasPeriods v8) λ c cs h. h
