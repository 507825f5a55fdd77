-- ===== src/SpotBtc/Replay/Answers/Others.antt =====
-- runV7Replay, runV9Replay and runV10Replay do not panic.
use cryptotips.SpotBtc.Replay.{regime_range, regime_eq}
use cryptotips.SpotBtc.Replay.V7.Sound.{bars_v7-IsSound}
use cryptotips.SpotBtc.Replay.V9.Sound.{bars_v9-IsSound}
use cryptotips.SpotBtc.Replay.Points.Classified.{classify_series-length}
use cryptotips.SpotBtc.Replay.Answers.Loops.{last_kline-Total, same_periods, each_bar-Total}
use cryptotips.SpotBtc.Replay.Candles.{out_of_window, aggregate_1d_to_1w}
use cryptotips.Base.Outcome.{ok, Returns-bind, value, Returns-if}
use Prim.Native.String.{String}
use cryptotips.SpotBtc.Signal.Safe.{HasPeriods, Total}
use cryptotips.SpotBtc.Replay.Points.{RegimeCalibParams}
use cryptotips.Models.{KlineRecord}
use cryptotips.SpotBtc.Config.{Config}
use cryptotips.Base.{[], refl, arith, ◌==◌, ◌∷◌, length, ltb, ◌+◌, ◌≤◌, ℕ, List}
use cryptotips.SpotBtc.Replay.V9.{defaults_v9, run_v9_replay}
use cryptotips.SpotBtc.Replay.V7.{regime_bars_v7, run_v7_replay}
use cryptotips.SpotBtc.Replay.V10.{state_v10, bar_v10, run_v10_replay}
use cryptotips.Float.{of_ℕ, ◌≤?◌, Float}

module _ {F : Type 0} ⦃fl : Float F⦄ where
  pub run_v10_replay-Total :
      (in_order : List F → List F) (cfg : Config F) (day_data h4_data : List (KlineRecord F))
      (start end : ℕ)
      → Total (run_v10_replay in_order cfg day_data h4_data start end)
  unfolding run_v10_replay
  run_v10_replay-Total in_order cfg day_data [] start end =
      Returns-if (cfg.risk_capital_usdt ≤? of_ℕ 0) (λ _. value tt) λ _. value tt
  run_v10_replay-Total in_order cfg day_data (k ∷ ks) start end =
      let capital = cfg.risk_capital_usdt in
      Returns-if (capital ≤? of_ℕ 0) (λ _. value tt)
        λ _.
          Returns-bind
            (each_bar-Total (out_of_window start end)
              (λ seen k s. ok (bar_v10 capital day_data seen k s)) (λ seen k s. value tt) state_v10
              (k ∷ ks))
            λ s _.
              Returns-bind
                (Returns-if {Good = λ _. Unit {0}} (regime_eq s.side regime_range) (λ _. value tt)
                  λ _. Returns-bind (last_kline-Total k ks) λ _ _. value tt)
                λ _ _. value tt

  pub run_v7_replay-Total :
      (in_order : List F → List F) (cfg : Config F) (day_data h4_data : List (KlineRecord F))
      (start : ℕ) (tf : String) (r : RegimeCalibParams F)
      → HasPeriods cfg
      → Total (run_v7_replay in_order cfg day_data h4_data start tf r)
  unfolding run_v7_replay
  run_v7_replay-Total in_order cfg day_data h4_data start tf r p =
      let bars = regime_bars_v7 tf day_data in
      Returns-if (ltb (length bars) 220) (λ _. value tt)
        λ _. Returns-bind (classify_series-length bars r) λ points _.
          Returns-if (length points == 0) (λ _. value tt)
            λ _. Returns-bind (bars_v7-IsSound cfg start day_data h4_data points p) λ _ _. value tt

  pub run_v9_replay-Total :
      (in_order : List F → List F) (cfg : Config F) (day_data h4_data : List (KlineRecord F))
      (start end : ℕ) (r : RegimeCalibParams F)
      → HasPeriods cfg
      → 3 ≤ cfg.ema_filter_period + cfg.ema200_slope_lookback
      → Total (run_v9_replay in_order cfg day_data h4_data start end r)
  unfolding run_v9_replay
  run_v9_replay-Total in_order cfg day_data h4_data start end r p three =
      let weekly = aggregate_1d_to_1w day_data in
      Returns-if (ltb (length weekly) 120) (λ _. value tt)
        λ _. Returns-bind (classify_series-length weekly r) λ points _.
          Returns-if (length points == 0) (λ _. value tt)
            λ _.
              Returns-bind
                (bars_v9-IsSound (defaults_v9 cfg) start end day_data h4_data points
                  (same_periods cfg (defaults_v9 cfg) p refl refl refl refl) three (ground arith))
                λ _ _. value tt
