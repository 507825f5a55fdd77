-- ===== src/SpotBtc/Replay/Total/Scores.antt =====
-- The scores and filters of the replays do not panic.
use cryptotips.SpotBtc.Replay.Total.{ema-HasLength, from_end-Total}
use cryptotips.Base.Outcome.{value, Returns-bind, Returns-if}
use cryptotips.SpotBtc.Replay.{Direction}
use cryptotips.SpotBtc.Signal.Safe.{
  last_sma-Total, last_atr-Total, index-Total, ema-Total, last_ema-Total, Total, HasPeriods,
}
use cryptotips.SpotBtc.Signal.{volumes_of, lows_of, highs_of, closes_of, Ohlc}
use cryptotips.SpotBtc.Config.{Config}
use cryptotips.Base.{◌==◌, arith, ◌||◌, ltb, length-map, ◌+◌, ◌≤◌, length, ℕ, List}
use cryptotips.SpotBtc.Replay.Strength.{
  evaluate_trend_only, is_range_trend_support, range_switch_strength, recent_momentum,
  strength_on_h4, bear_quality_filter, signal_strength,
}
use cryptotips.Float.{of_ℕ, ◌≤?◌, Float}

module _ {F : Type 0} ⦃fl : Float F⦄ where
  pub signal_strength-Total :
      (d : Direction) (cfg : Config F) (day h4 : List (Ohlc F))
      → HasPeriods cfg
      → Total (signal_strength d cfg day h4)
  unfolding signal_strength strength_on_h4
  signal_strength-Total d cfg day h4 p =
      let days = length-map day (λ k. k.close) in
      Returns-if
        (ltb (length day) (cfg.ema_filter_period + cfg.ema200_slope_lookback + 1)
          || ltb (length h4) (cfg.volume_sma_period + 2))
        (λ _. value tt)
        λ e.
          Returns-bind (ema-HasLength (closes_of day) cfg.ema_filter_period p.filter_period)
            λ day_ema full.
              Returns-bind (from_end-Total day_ema cfg.ema200_slope_lookback (ground (arith, days)))
                λ base _.
                  Returns-if (base ≤? of_ℕ 0) (λ _. value tt)
                    λ _. Returns-bind (from_end-Total day_ema 0 (ground (arith, days))) λ now _.
                      Returns-bind
                        (last_atr-Total (highs_of h4) (lows_of h4) (closes_of h4) cfg.atr_period
                          p.range_period)
                        λ a _.
                          Returns-bind
                            (from_end-Total (volumes_of h4) 0
                              (ground (arith, length-map h4 (λ k. k.volume))))
                            λ vol _.
                              Returns-bind
                                (last_sma-Total (volumes_of h4) cfg.volume_sma_period
                                  p.volume_period)
                                λ avg _.
                                  Returns-bind (index-Total h4 _ (ground arith)) λ last _. value tt

  pub bear_quality_filter-Total :
      (cfg : Config F) (day h4 : List (Ohlc F))
      → HasPeriods cfg
      → 3 ≤ cfg.ema_filter_period + cfg.ema200_slope_lookback
      → Total (bear_quality_filter cfg day h4)
  unfolding bear_quality_filter
  bear_quality_filter-Total cfg day h4 p six =
      let days = length-map day (λ k. k.close) in
      Returns-if
        (ltb (length day) (cfg.ema_filter_period + cfg.ema200_slope_lookback + 3)
          || ltb (length h4) 30)
        (λ _. value tt)
        λ e.
          Returns-bind (ema-HasLength (closes_of day) cfg.ema_filter_period p.filter_period)
            λ series full.
              Returns-bind (from_end-Total (closes_of day) 0 (ground (arith, days))) λ last _.
                Returns-bind (from_end-Total (closes_of day) 5 (ground (arith, days))) λ prev _.
                  Returns-bind
                    (from_end-Total series cfg.ema200_slope_lookback (ground (arith, days)))
                    λ base _.
                      Returns-if (base ≤? of_ℕ 0) (λ _. value tt)
                        λ _.
                          Returns-bind (from_end-Total series 0 (ground (arith, days)))
                            λ now _. value tt

  pub evaluate_trend_only-Total :
      (cfg : Config F) (day h4 : List (Ohlc F))
      → HasPeriods cfg
      → Total (evaluate_trend_only cfg day h4)
  unfolding evaluate_trend_only
  evaluate_trend_only-Total cfg day h4 p =
      Returns-if
        (ltb (length day) (cfg.ema_filter_period + cfg.ema200_slope_lookback)
          || ltb (length h4) (cfg.ema_filter_period + 2))
        (λ _. value tt)
        λ e.
          Returns-bind (ema-Total (closes_of day) cfg.ema_filter_period p.filter_period) λ series _.
            Returns-if (ltb (length series) (cfg.ema200_slope_lookback + 1)) (λ _. value tt)
              λ few. Returns-bind (from_end-Total series 0 (ground arith)) λ now _.
                Returns-bind (from_end-Total series cfg.ema200_slope_lookback (ground arith))
                  λ base _.
                    Returns-if (base ≤? of_ℕ 0) (λ _. value tt)
                      λ _.
                        Returns-bind
                          (last_ema-Total (closes_of h4) cfg.ema_filter_period p.filter_period)
                          λ _ _. Returns-bind (index-Total h4 _ (ground arith)) λ _ _. value tt

  pub recent_momentum-Total : (day : List (Ohlc F)) (back : ℕ) → Total (recent_momentum day back)
  unfolding recent_momentum
  recent_momentum-Total day back =
      let days = length-map day (λ k. k.close) in
      Returns-if (ltb (length day) (back + 1) || (back == 0)) (λ _. value tt)
        λ e. Returns-bind (from_end-Total (closes_of day) 0 (ground (arith, days))) λ _ _.
          Returns-bind (from_end-Total (closes_of day) back (ground (arith, days))) λ _ _. value tt

  pub range_switch_strength-Total :
      (cfg : Config F) (day : List (Ohlc F))
      → HasPeriods cfg
      → Total (range_switch_strength cfg day)
  unfolding range_switch_strength
  range_switch_strength-Total cfg day p =
      let days = length-map day (λ k. k.close) in
      Returns-if (ltb (length day) (cfg.ema_filter_period + 1)) (λ _. value tt)
        λ e.
          Returns-bind (last_ema-Total (closes_of day) cfg.ema_filter_period p.filter_period)
            λ now _.
              Returns-if (now ≤? of_ℕ 0) (λ _. value tt)
                λ _.
                  Returns-bind (from_end-Total (closes_of day) 0 (ground (arith, days)))
                    λ _ _. Returns-bind (recent_momentum-Total day 5) λ _ _. value tt

  pub is_range_trend_support-Total :
      (cfg : Config F) (day h4 : List (Ohlc F))
      → HasPeriods cfg
      → Total (is_range_trend_support cfg day h4)
  unfolding is_range_trend_support
  is_range_trend_support-Total cfg day h4 p =
      Returns-if
        (ltb (length day) (cfg.ema_filter_period + 1) || ltb (length h4) (cfg.ema_pullback + 2))
        (λ _. value tt)
        λ e.
          Returns-bind (last_ema-Total (closes_of day) cfg.ema_filter_period p.filter_period) λ _ _.
            Returns-bind (last_ema-Total (closes_of h4) cfg.ema_pullback p.pullback_period)
              λ _ _. Returns-bind (index-Total h4 _ (ground arith)) λ _ _. value tt
