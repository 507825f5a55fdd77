-- ===== src/SpotBtc/Signal/Safe.antt =====
-- EvaluateSignal does not panic, and its entries have a stop between zero and the entry price.
-- No panic, whatever the value.
use cryptotips.Indicator.Atr.Recurrence.{atr-Follows}
use cryptotips.Indicator.Averages.Recurrence.{ema-Follows, sma-Slides}
use cryptotips.Indicator.Atr.{atr, last_atr}
use cryptotips.Indicator.Bands.{bollinger, last_bollinger}
use cryptotips.SpotBtc.Config.{momentum_factor, mean_reversion, Style, Config}
use cryptotips.SpotBtc.Signal.{
  trend_passes, volumes_of, lows_of, highs_of, style_reason, closes_of, TrendView, Ohlc, enter_at,
  Reason, SignalResult, calc_stop, secondary_breakout, trend_decision,
}
use cryptotips.Indicator.Averages.{ema, sma, last_value, last_ema, last_sma}
use cryptotips.Indicator.Rsi.{rsi, last_rsi}
use cryptotips.SpotBtc.Signal.Rules.{
  momentum_result, reversion_invalid, reversion_result, min_bars, by_style, eval_mean_reversion,
  eval_momentum_factor, eval_trend, evaluate_signal, reversion_decision, trend_on_day, trend_on_h4,
}
use cryptotips.Base.Outcome.{Returns-map, value, Returns-bind, Returns-if, Returns, Run}
use cryptotips.Base.{
  [], refl, index-ok, ◌-◌, ◌&&◌, ◌+◌, ◌||◌, ◌∷◌, index, inl, ltb, ◌⊎◌, arith, false, length,
  length-map, ◌<◌, ◌≡◌, ℕ, List,
}
use cryptotips.Float.{of_ℕ, ◌≤?◌, Float}

abbrev pub Total : {A : Type 0} → Run A → Type 0
Total m = Returns {0, 0} (λ _. Unit) m

pub index-Total : {A : Type 0} (xs : List A) (i : ℕ) → i < length xs → Total (index xs i)
index-Total [] i h = absurd (omega arith)
index-Total (x ∷ xs) i h = rw (index-ok (x ∷ xs) i x h) (value tt)

module _ {F : Type 0} ⦃fl : Float F⦄ where
  -- The periods that the indicators are called with are not zero.
  pub record HasPeriods (cfg : Config F) : Type 0 where
    pub filter_period : 0 < cfg.ema_filter_period
    pub pullback_period : 0 < cfg.ema_pullback
    pub volume_period : 0 < cfg.volume_sma_period
    pub range_period : 0 < cfg.atr_period

  -- An entry has its stop between zero and the price.
  abbrev pub IsGuarded : SignalResult F → Type 0
  IsGuarded r =
      (r.should_enter ≡ false)
      ⊎ (((r.stop_loss ≤? of_ℕ 0) ≡ false) × ((r.entry_price ≤? r.stop_loss) ≡ false))

  last_value-Total : {Q : List F → Type 0} (m : Run (List F)) → Returns Q m → Total (last_value m)
  last_value-Total m h = Returns-bind h λ v _. value tt

  pub ema-Total : (xs : List F) (n : ℕ) → 0 < n → Total (ema xs n)
  ema-Total xs n h = Returns-map (ema-Follows xs n h) λ _ _. tt

  pub last_ema-Total : (xs : List F) (n : ℕ) → 0 < n → Total (last_ema xs n)
  unfolding last_ema
  last_ema-Total xs n h = last_value-Total (ema xs n) (ema-Follows xs n h)

  pub last_sma-Total : (xs : List F) (n : ℕ) → 0 < n → Total (last_sma xs n)
  unfolding last_sma
  last_sma-Total xs n h = last_value-Total (sma xs n) (sma-Slides xs n h)

  pub last_atr-Total : (hs ls cs : List F) (n : ℕ) → 0 < n → Total (last_atr hs ls cs n)
  unfolding last_atr
  last_atr-Total hs ls cs n h = last_value-Total (atr hs ls cs n) (atr-Follows hs ls cs n h)

  last_rsi-Total : (xs : List F) (n : ℕ) → Total (last_rsi xs n)
  unfolding last_rsi rsi
  last_rsi-Total xs n =
      Returns-bind
        (Returns-if {Good = λ _. Unit {0}} (ltb (length xs) (n + 1)) (λ _. value tt) λ _. value tt)
        λ _ _. value tt

  last_bollinger-Total : (xs : List F) (n : ℕ) (k : F) → 0 < n → Total (last_bollinger xs n k)
  unfolding last_bollinger bollinger
  last_bollinger-Total xs n k h =
      Returns-bind
        (Returns-if {Good = λ _. Unit {0}} (ltb (length xs) n) (λ _. value tt)
          λ _. Returns-bind (sma-Slides xs n h) λ _ _. value tt)
        λ _ _. value tt

  enter_at-IsGuarded : (close stop : F) (r : Reason F) → IsGuarded (enter_at close stop r)
  enter_at-IsGuarded close stop r = ground arith

  reversion_result-IsGuarded :
      (cfg : Config F) (bands : F × F × F) (r a v : F) (last prev : Ohlc F)
      → IsGuarded (reversion_result cfg bands r a v last prev)
  unfolding reversion_result
  reversion_result-IsGuarded cfg (upper, mid, lower) r a v last prev = ground arith

  momentum_result-IsGuarded :
      (cfg : Config F) (m30 m90 e21 e100 r a v : F) (last : Ohlc F)
      → IsGuarded (momentum_result cfg m30 m90 e21 e100 r a v last)
  unfolding momentum_result
  momentum_result-IsGuarded cfg m30 m90 e21 e100 r a v last = ground arith

  calc_stop-Total :
      (cfg : Config F) (h4 : List (Ohlc F)) (e a : F) → 0 < length h4 → Total (calc_stop cfg h4 e a)
  unfolding calc_stop
  calc_stop-Total cfg h4 e a h = Returns-bind (index-Total h4 _ (omega arith)) λ _ _. value tt

  secondary_breakout-Total :
      (cfg : Config F) (h4 : List (Ohlc F)) (e : F) (last prev : Ohlc F)
      → Total (secondary_breakout cfg h4 e last prev)
  unfolding secondary_breakout
  secondary_breakout-Total cfg h4 e last prev =
      Returns-if
        (ltb 1 cfg.secondary_breakout_lookback && ltb cfg.secondary_breakout_lookback (length h4))
        (λ t.
          Returns-bind
            (index-Total (highs_of h4) (length h4 - 1 - cfg.secondary_breakout_lookback)
              (ground (arith, length-map h4 (λ k. k.high))))
            λ _ _. value tt)
        λ _. value tt

  trend_decision-IsGuarded :
      (cfg : Config F) (h4 : List (Ohlc F)) (v : TrendView F)
      → 0 < length h4
      → Returns IsGuarded (trend_decision cfg h4 v)
  unfolding trend_decision
  trend_decision-IsGuarded cfg h4 v h =
      Returns-if (trend_passes cfg v)
        (λ _.
          Returns-bind (calc_stop-Total cfg h4 v.ema_now v.atr h) λ stop _.
            value (enter_at-IsGuarded v.last.close stop (style_reason cfg.strategy_style)))
        λ _. value (inl refl)

  trend_on_h4-IsGuarded :
      (cfg : Config F) (d s : F) (h4 : List (Ohlc F))
      → HasPeriods cfg
      → 1 < length h4
      → Returns IsGuarded (trend_on_h4 cfg d s h4)
  unfolding trend_on_h4
  trend_on_h4-IsGuarded cfg d s h4 p h =
      Returns-bind (last_ema-Total (closes_of h4) cfg.ema_filter_period p.filter_period) λ h4_ema _.
        Returns-bind (ema-Total (closes_of h4) cfg.ema_pullback p.pullback_period) λ fast _.
          Returns-bind
            (last_atr-Total (highs_of h4) (lows_of h4) (closes_of h4) cfg.atr_period p.range_period)
            λ a _.
              Returns-bind (last_sma-Total (volumes_of h4) cfg.volume_sma_period p.volume_period)
                λ vol _.
                  Returns-if (ltb (length fast) 2 || (a ≤? of_ℕ 0) || (vol ≤? of_ℕ 0))
                    (λ _. value (inl refl))
                    λ e. Returns-bind (index-Total h4 _ (omega arith)) λ last _.
                      Returns-bind (index-Total h4 _ (omega arith)) λ prev _.
                        Returns-bind (index-Total fast _ (ground arith)) λ now _.
                          Returns-bind (index-Total fast _ (ground arith)) λ before _.
                            Returns-bind (secondary_breakout-Total cfg h4 before last prev) λ b _.
                              trend_decision-IsGuarded cfg h4
                                (record {
                                  last = last;
                                  prev = prev;
                                  d_ema = d;
                                  ema_slope = s;
                                  h4_ema = h4_ema;
                                  ema_now = now;
                                  ema_prev = before;
                                  atr = a;
                                  vol_sma = vol;
                                  breakout = b;
                                })
                                (omega arith)

  trend_on_day-IsGuarded :
      (cfg : Config F) (day_ema : List F) (h4 : List (Ohlc F))
      → HasPeriods cfg
      → 1 < length h4
      → Returns IsGuarded (trend_on_day cfg day_ema h4)
  unfolding trend_on_day
  trend_on_day-IsGuarded cfg day_ema h4 p h =
      Returns-if (ltb (length day_ema) (cfg.ema200_slope_lookback + 1)) (λ _. value (inl refl))
        λ e. Returns-bind (index-Total day_ema _ (ground arith)) λ d _.
          Returns-bind (index-Total day_ema _ (ground arith)) λ base _.
            Returns-if (base ≤? of_ℕ 0) (λ _. value (inl refl))
              λ _. trend_on_h4-IsGuarded cfg d _ h4 p h

  pub eval_trend-IsGuarded :
      (cfg : Config F) (day h4 : List (Ohlc F))
      → HasPeriods cfg
      → Returns IsGuarded (eval_trend cfg day h4)
  unfolding eval_trend
  eval_trend-IsGuarded cfg day h4 p =
      Returns-if
        (ltb (length day) (cfg.ema_filter_period + cfg.ema200_slope_lookback)
          || ltb (length h4) (min_bars cfg))
        (λ _. value (inl refl))
        λ e.
          Returns-bind (ema-Total (closes_of day) cfg.ema_filter_period p.filter_period)
            λ day_ema _. trend_on_day-IsGuarded cfg day_ema h4 p (ground arith)

  reversion_decision-IsGuarded :
      (cfg : Config F) (bands : F × F × F) (r a v : F) (h4 : List (Ohlc F))
      → 1 < length h4
      → Returns IsGuarded (reversion_decision cfg bands r a v h4)
  unfolding reversion_decision
  reversion_decision-IsGuarded cfg bands r a v h4 h =
      Returns-if (reversion_invalid bands a v) (λ _. value (inl refl))
        λ _. Returns-bind (index-Total h4 _ (omega arith)) λ last _.
          Returns-bind (index-Total h4 _ (omega arith))
            λ prev _. value (reversion_result-IsGuarded cfg bands r a v last prev)

  eval_mean_reversion-IsGuarded :
      (cfg : Config F) (day h4 : List (Ohlc F))
      → HasPeriods cfg
      → Returns IsGuarded (eval_mean_reversion cfg day h4)
  unfolding eval_mean_reversion
  eval_mean_reversion-IsGuarded cfg day h4 p =
      Returns-if (ltb (length h4) 60 || ltb (length day) 50) (λ _. value (inl refl))
        λ e. Returns-bind (last_bollinger-Total (closes_of h4) 20 (of_ℕ 2) (omega arith)) λ bands _.
          Returns-bind (last_rsi-Total (closes_of h4) 14) λ r _.
            Returns-bind
              (last_atr-Total (highs_of h4) (lows_of h4) (closes_of h4) cfg.atr_period
                p.range_period)
              λ a _.
                Returns-bind (last_sma-Total (volumes_of h4) cfg.volume_sma_period p.volume_period)
                  λ v _. reversion_decision-IsGuarded cfg bands r a v h4 (ground arith)

  eval_momentum_factor-IsGuarded :
      (cfg : Config F) (day h4 : List (Ohlc F))
      → HasPeriods cfg
      → Returns IsGuarded (eval_momentum_factor cfg day h4)
  unfolding eval_momentum_factor
  eval_momentum_factor-IsGuarded cfg day h4 p =
      let days = length-map day (λ k. k.close) in
      Returns-if (ltb (length day) 130 || ltb (length h4) 120) (λ _. value (inl refl))
        λ e. Returns-bind (index-Total (closes_of day) _ (ground (arith, days))) λ now _.
          Returns-bind (index-Total (closes_of day) _ (ground (arith, days))) λ m30 _.
            Returns-bind (index-Total (closes_of day) _ (ground (arith, days))) λ m90 _.
              Returns-bind (last_ema-Total (closes_of h4) 21 (omega arith)) λ e21 _.
                Returns-bind (last_ema-Total (closes_of h4) cfg.ema_filter_period p.filter_period)
                  λ e100 _. Returns-bind (last_rsi-Total (closes_of h4) 14) λ r _.
                    Returns-bind
                      (last_atr-Total (highs_of h4) (lows_of h4) (closes_of h4) cfg.atr_period
                        p.range_period)
                      λ a _.
                        Returns-bind
                          (index-Total (volumes_of h4) _
                            (ground (arith, length-map h4 (λ k. k.volume))))
                          λ vol _.
                            Returns-bind
                              (last_sma-Total (volumes_of h4) cfg.volume_sma_period p.volume_period)
                              λ v _. Returns-bind (index-Total h4 _ (ground arith)) λ last _.
                                value (momentum_result-IsGuarded cfg _ _ e21 e100 r a _ last)

  pub evaluate_signal-IsGuarded :
      (cfg : Config F) (day h4 : List (Ohlc F))
      → HasPeriods cfg
      → Returns IsGuarded (evaluate_signal cfg day h4)
  unfolding evaluate_signal
  evaluate_signal-IsGuarded cfg day h4 p = by_cases cfg.strategy_style
    where
      by_cases :
          (s : Style)
          → Returns IsGuarded (
              by_style s
                (eval_trend cfg day h4)
                (eval_mean_reversion cfg day h4)
                (eval_momentum_factor cfg day h4))
      by_cases mean_reversion = eval_mean_reversion-IsGuarded cfg day h4 p
      by_cases momentum_factor = eval_momentum_factor-IsGuarded cfg day h4 p
      by_cases _ = eval_trend-IsGuarded cfg day h4 p
