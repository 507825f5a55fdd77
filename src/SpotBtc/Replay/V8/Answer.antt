-- ===== src/SpotBtc/Replay/V8/Answer.antt =====
-- What RunV8Replay and RunV9Replay answer.
use cryptotips.SpotBtc.Replay.V8.Sound.{bars_v8-IsSound}
use cryptotips.SpotBtc.Replay.Points.Classified.{classify_series-length}
use cryptotips.SpotBtc.Replay.Candles.{aggregate_1d_to_1w}
use cryptotips.Base.Outcome.{Returns-bind, value, Returns-if, Returns}
use cryptotips.SpotBtc.Signal.Safe.{HasPeriods}
use cryptotips.SpotBtc.Replay.Points.{RegimeCalibParams}
use cryptotips.Models.{KlineRecord}
use cryptotips.SpotBtc.Config.{Config}
use cryptotips.SpotBtc.Replay.Ledger.{summary, ReplaySummary, insufficient_bars, ReplayResult}
use cryptotips.SpotBtc.Replay.V8.{defaults_v8, run_v8_replay}
use cryptotips.Base.{refl, inr, ◌==◌, arith, inl, ltb, length, ◌+◌, ◌≤◌, ◌⊎◌, ◌≡◌, ◌<◌, List, ℕ}
use cryptotips.Float.{Float}

module _ {F : Type 0} ⦃fl : Float F⦄ where
  abbrev pub Answers : ℕ → ReplayResult F → Type 0
  Answers weeks r =
      ((weeks < 120) × (r ≡ insufficient_bars weeks))
      ⊎ ((120 ≤ weeks) × ((s : ReplaySummary F) × (r ≡ summary s)))

  -- With periods of at least 1, and enough days for the bear filter, RunV8Replay does not panic. It
  -- reports too few weekly bars exactly if the days make fewer than 120 weeks, and else has a summary:
  -- that there are no points does not occur.
  pub run_v8_replay-Answers :
      (in_order : List F → List F) (cfg : Config F) (day_data h4_data : List (KlineRecord F))
      (start end : ℕ) (p : RegimeCalibParams F)
      → HasPeriods cfg
      → 3 ≤ cfg.ema_filter_period + cfg.ema200_slope_lookback
      → Returns
          (Answers (length (aggregate_1d_to_1w day_data)))
          (run_v8_replay in_order cfg day_data h4_data start end p)
  unfolding run_v8_replay
  run_v8_replay-Answers in_order cfg day_data h4_data start end p periods three =
      let weekly = aggregate_1d_to_1w day_data in
      Returns-if (ltb (length weekly) 120) (λ e. value (inl (ground arith, refl)))
        λ e. Returns-bind (classify_series-length weekly p) λ points h.
          Returns-if (length points == 0) (λ none_left. absurd (ground arith))
            λ _.
              Returns-bind
                (bars_v8-IsSound (defaults_v8 cfg) start end day_data h4_data points
                  (record {
                    filter_period = periods.filter_period;
                    pullback_period = periods.pullback_period;
                    volume_period = periods.volume_period;
                    range_period = periods.range_period;
                  })
                  three)
                λ s _. value (inr (ground arith, (_, refl)))
