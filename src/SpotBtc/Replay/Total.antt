-- ===== src/SpotBtc/Replay/Total.antt =====
-- The rules, scores and filters of the replays do not panic.
pub mod Steps
pub mod Scores
use cryptotips.Indicator.Averages.Recurrence.{ema-Follows}
use cryptotips.Indicator.Averages.{ema}
use cryptotips.Base.Outcome.{value, Returns-map, Returns-bind, Returns-if, Returns}
use cryptotips.SpotBtc.Replay.{ReplayPosition, Direction}
use cryptotips.SpotBtc.Signal.Safe.{
  last_sma-Total, last_atr-Total, index-Total, ema-Total, last_ema-Total, Total, HasPeriods,
}
use cryptotips.SpotBtc.Signal.{volumes_of, lows_of, highs_of, closes_of, Ohlc}
use cryptotips.SpotBtc.Config.{Config}
use cryptotips.SpotBtc.Replay.Switch.{switch_take_profit, last_range}
use cryptotips.Base.{
  not, ◌==◌, inr, arith, inl, ◌||◌, leb, ltb, lt→ltb, length-map, ◌+◌, ◌≡◌, ◌≤◌, ◌⊎◌, length, ◌<◌,
  ℕ, List,
}
use cryptotips.SpotBtc.Replay.Steps.{
  held_on, take_tp1, with_targets, follows_price, atr_trail, ema_trail, step_position,
  step_position_v8,
}
use cryptotips.SpotBtc.Replay.Strength.{
  evaluate_trend_only, is_range_trend_support, range_switch_strength, recent_momentum,
  strength_on_h4, bear_quality_filter, signal_strength,
}
use cryptotips.SpotBtc.Replay.Rules.{
  from_end, regime_of_price, detect_range_band, detect_regime, eval_trend_short, short_on_h4,
}
use cryptotips.Float.{dec, of_ℕ, ◌≤?◌, Float}

module _ {F : Type 0} ⦃fl : Float F⦄ where
  pub from_end-Total : (xs : List F) (back : ℕ) → back < length xs → Total (from_end xs back)
  from_end-Total xs back h = rw (lt→ltb _ _ h) (index-Total xs _ (omega arith))

  -- The average of enough values is as long as they are.
  abbrev HasLength : List F → ℕ → List F → Type 0
  HasLength xs n out = (length xs < n) ⊎ (length out ≡ length xs)

  pub ema-HasLength : (xs : List F) (n : ℕ) → 0 < n → Returns (HasLength xs n) (ema xs n)
  ema-HasLength xs n h =
      Returns-map (ema-Follows xs n h)
        λ out r. elim r [ inl few ↦ inl few.0 | inr full ↦ inr full.1.same_length ]

  pub last_range-Total : (h4 : List (Ohlc F)) (n : ℕ) → 0 < n → Total (last_range h4 n)
  unfolding last_range
  last_range-Total h4 n h =
      Returns-if (ltb (length h4) (n + 1)) (λ _. value tt)
        λ _. last_atr-Total (highs_of h4) (lows_of h4) (closes_of h4) n h

  pub detect_regime-Total :
      (cfg : Config F) (day : List (Ohlc F))
      → HasPeriods cfg
      → 0 < cfg.regime_vol_period
      → 0 < length day
      → Total (detect_regime cfg day)
  unfolding detect_regime regime_of_price
  detect_regime-Total cfg day p v h =
      Returns-bind (ema-Total (closes_of day) cfg.ema_filter_period p.filter_period) λ series _.
        Returns-if (ltb (length series) (cfg.ema200_slope_lookback + 1)) (λ _. value tt)
          λ e. Returns-bind (from_end-Total series 0 (ground arith)) λ now _.
            Returns-bind (from_end-Total series cfg.ema200_slope_lookback (ground arith)) λ base _.
              Returns-if (base ≤? of_ℕ 0) (λ _. value tt)
                λ _.
                  Returns-bind
                    (last_atr-Total (highs_of day) (lows_of day) (closes_of day)
                      cfg.regime_vol_period v)
                    λ a _.
                      Returns-if (a ≤? of_ℕ 0) (λ _. value tt)
                        λ _.
                          Returns-bind
                            (from_end-Total (closes_of day) 0
                              (omega (arith, length-map day (λ k. k.close))))
                            λ price _. value tt

  short_on_h4-Total :
      (cfg : Config F) (d s : F) (h4 : List (Ohlc F))
      → HasPeriods cfg
      → 1 < length h4
      → Total (short_on_h4 cfg d s h4)
  unfolding short_on_h4
  short_on_h4-Total cfg d s h4 p h =
      Returns-bind (last_ema-Total (closes_of h4) cfg.ema_filter_period p.filter_period) λ e _.
        Returns-bind (ema-Total (closes_of h4) cfg.ema_pullback p.pullback_period) λ fast _.
          Returns-bind
            (last_atr-Total (highs_of h4) (lows_of h4) (closes_of h4) cfg.atr_period p.range_period)
            λ a _.
              Returns-bind (last_sma-Total (volumes_of h4) cfg.volume_sma_period p.volume_period)
                λ vol _.
                  Returns-if (ltb (length fast) 2 || (a ≤? of_ℕ 0) || (vol ≤? of_ℕ 0))
                    (λ _. value tt)
                    λ few. Returns-bind (index-Total h4 _ (omega arith)) λ last _.
                      Returns-bind (index-Total h4 _ (omega arith)) λ prev _.
                        Returns-bind (index-Total fast _ (ground arith)) λ now _.
                          Returns-bind (index-Total fast _ (ground arith)) λ before _. value tt

  pub eval_trend_short-Total :
      (cfg : Config F) (day h4 : List (Ohlc F))
      → HasPeriods cfg
      → Total (eval_trend_short cfg day h4)
  unfolding eval_trend_short
  eval_trend_short-Total cfg day h4 p =
      let days = length-map day (λ k. k.close) in
      Returns-if
        (ltb (length day) (cfg.ema_filter_period + cfg.ema200_slope_lookback)
          || ltb (length h4) (cfg.atr_period + 5))
        (λ _. value tt)
        λ e.
          Returns-bind (ema-HasLength (closes_of day) cfg.ema_filter_period p.filter_period)
            λ day_ema full.
              Returns-bind (from_end-Total day_ema 0 (ground (arith, days, p.filter_period)))
                λ now _.
                  Returns-bind
                    (from_end-Total day_ema cfg.ema200_slope_lookback
                      (ground (arith, days, p.filter_period)))
                    λ base _.
                      Returns-if (base ≤? of_ℕ 0) (λ _. value tt)
                        λ _. short_on_h4-Total cfg now _ h4 p (ground arith)

  pub detect_range_band-Total :
      (cfg : Config F) (day h4 : List (Ohlc F))
      → HasPeriods cfg
      → 0 < cfg.range_lookback_days
      → Total (detect_range_band cfg day h4)
  unfolding detect_range_band
  detect_range_band-Total cfg day h4 p back =
      Returns-if (ltb (length day) cfg.range_lookback_days || ltb (length h4) (cfg.atr_period + 2))
        (λ _. value tt)
        λ e. Returns-bind (index-Total day _ (ground arith)) λ first _.
          Returns-bind (last_range-Total h4 cfg.atr_period p.range_period) λ a _. value tt
