-- ===== src/SpotBtc/Signal/Rules.antt =====
-- strategies/spot_btc_conservative_v1/signal.go: the three rules and EvaluateSignal.
use cryptotips.Indicator.Atr.{last_atr}
use cryptotips.Indicator.Rsi.{last_rsi}
use cryptotips.Indicator.Bands.{last_bollinger}
use cryptotips.Indicator.Averages.{last_sma, last_ema, ema}
use cryptotips.Base.Outcome.{◌>>=◌, ok, Run}
use cryptotips.SpotBtc.Signal.{
  factor_score, mr_fail, bb_rsi_mean_reversion, multi_factor_momentum, enter_at, atr_ok, volumes_of,
  lows_of, highs_of, invalid_slope_base, last_bar, closes_of, day_ema_insufficient, ind_invalid,
  insufficient_kline, no_entry, Ohlc, SignalResult, secondary_breakout, trend_decision,
}
use cryptotips.Base.{
  leb, ◌&&◌, ◌-◌, index, ◌||◌, length, ltb, ◌+◌, if◌then◌else◌, max, List, ℕ, Bool,
}
use cryptotips.SpotBtc.Config.{momentum_factor, mean_reversion, Config, Style}
use cryptotips.Float.{◌⊗◌, dec, ◌<?◌, ◌⊖◌, ◌⊘◌, of_ℕ, ◌≤?◌, Float}

abbrev pub one_if : Bool → ℕ
one_if b = if b then 1 else 0

module _ {F : Type 0} ⦃fl : Float F⦄ where
  abbrev pub min_bars : Config F → ℕ
  min_bars cfg =
      max (max (cfg.ema_filter_period + 2) (cfg.volume_sma_period + 2)) (cfg.atr_period + 2)

  -- evalTrend behind the slope of the daily average.
  unfoldable pub trend_on_h4 : Config F → F → F → List (Ohlc F) → Run (SignalResult F)
  unfolding trend_decision secondary_breakout
  trend_on_h4 cfg d_ema ema_slope h4 = do
    h4_ema ← last_ema (closes_of h4) cfg.ema_filter_period
    ema_fast ← ema (closes_of h4) cfg.ema_pullback
    atr ← last_atr (highs_of h4) (lows_of h4) (closes_of h4) cfg.atr_period
    vol_sma ← last_sma (volumes_of h4) cfg.volume_sma_period
    if ltb (length ema_fast) 2 || (atr ≤? of_ℕ 0) || (vol_sma ≤? of_ℕ 0)
        then ok (no_entry ind_invalid)
        else (do
          last ← last_bar h4
          prev ← index h4 (length h4 - 2)
          ema_now ← index ema_fast (length ema_fast - 1)
          ema_prev ← index ema_fast (length ema_fast - 2)
          breakout ← secondary_breakout cfg h4 ema_prev last prev
          trend_decision cfg h4 (record {
            last = last;
            prev = prev;
            d_ema = d_ema;
            ema_slope = ema_slope;
            h4_ema = h4_ema;
            ema_now = ema_now;
            ema_prev = ema_prev;
            atr = atr;
            vol_sma = vol_sma;
            breakout = breakout;
          }))

  -- evalTrend from the daily average on.
  unfoldable pub trend_on_day : Config F → List F → List (Ohlc F) → Run (SignalResult F)
  unfolding trend_on_h4
  trend_on_day cfg day_ema h4 =
      let lookback = cfg.ema200_slope_lookback in
      if ltb (length day_ema) (lookback + 1) then ok (no_entry day_ema_insufficient) else (do
        d_ema ← index day_ema (length day_ema - 1)
        slope_base ← index day_ema (length day_ema - 1 - lookback)
        if slope_base ≤? of_ℕ 0
            then ok (no_entry invalid_slope_base)
            else trend_on_h4 cfg d_ema ((d_ema ⊖ slope_base) ⊘ slope_base) h4)

  unfoldable pub eval_trend : Config F → List (Ohlc F) → List (Ohlc F) → Run (SignalResult F)
  unfolding trend_on_day
  eval_trend cfg day h4 =
      if ltb (length day) (cfg.ema_filter_period + cfg.ema200_slope_lookback)
        || ltb (length h4) (min_bars cfg)
      then ok (no_entry insufficient_kline)
      else ema (closes_of day) cfg.ema_filter_period >>= λ day_ema. trend_on_day cfg day_ema h4

  abbrev pub reversion_invalid : F × F × F → F → F → Bool
  reversion_invalid (upper, mid, lower) atr vol_sma =
      (lower ≤? of_ℕ 0)
      || (mid ≤? of_ℕ 0)
      || (upper ≤? of_ℕ 0)
      || (atr ≤? of_ℕ 0)
      || (vol_sma ≤? of_ℕ 0)

  -- The end of evalMeanReversion, on the last two bars.
  unfoldable pub reversion_result :
      Config F → F × F × F → F → F → F → Ohlc F → Ohlc F → SignalResult F
  reversion_result cfg (upper, mid, lower) rsi atr vol_sma last prev =
      let atr_pct = atr ⊘ last.close in
      let vol_ratio = last.volume ⊘ vol_sma in
      let entry =
        (prev.close <? lower)
        && (lower <? last.close)
        && (of_ℕ 30 <? rsi)
        && (rsi <? of_ℕ 48)
        && (last.close <? mid) in
      if entry && atr_ok cfg atr_pct && (cfg.volume_min_ratio ≤? vol_ratio)
      then enter_at last.close (last.close ⊖ dec 12 1 ⊗ atr) bb_rsi_mean_reversion
      else no_entry (mr_fail rsi atr_pct vol_ratio)

  -- evalMeanReversion behind its indicators.
  unfoldable pub reversion_decision :
      Config F → F × F × F → F → F → F → List (Ohlc F) → Run (SignalResult F)
  unfolding reversion_result
  reversion_decision cfg bands rsi atr vol_sma h4 =
      if reversion_invalid bands atr vol_sma then ok (no_entry ind_invalid) else (do
        last ← last_bar h4
        prev ← index h4 (length h4 - 2)
        ok (reversion_result cfg bands rsi atr vol_sma last prev))

  unfoldable pub eval_mean_reversion :
      Config F → List (Ohlc F) → List (Ohlc F) → Run (SignalResult F)
  unfolding reversion_decision
  eval_mean_reversion cfg day h4 =
      if ltb (length h4) 60 || ltb (length day) 50 then ok (no_entry insufficient_kline) else (do
        bands ← last_bollinger (closes_of h4) 20 (of_ℕ 2)
        rsi ← last_rsi (closes_of h4) 14
        atr ← last_atr (highs_of h4) (lows_of h4) (closes_of h4) cfg.atr_period
        vol_sma ← last_sma (volumes_of h4) cfg.volume_sma_period
        reversion_decision cfg bands rsi atr vol_sma h4)

  -- The end of evalMomentumFactor.
  unfoldable pub momentum_result : Config F → F → F → F → F → F → F → F → Ohlc F → SignalResult F
  momentum_result cfg mom30 mom90 ema21 ema100 rsi atr vol_ratio last =
      let atr_pct = atr ⊘ last.close in
      let score =
        one_if (dec 3 2 <? mom30)
        + one_if (dec 8 2 <? mom90)
        + one_if ((ema21 <? last.close) && (ema100 <? ema21))
        + one_if ((of_ℕ 50 ≤? rsi) && (rsi ≤? of_ℕ 72))
        + one_if (cfg.volume_min_ratio ≤? vol_ratio) in
      if leb 4 score && atr_ok cfg atr_pct
      then enter_at last.close (last.close ⊖ dec 15 1 ⊗ atr) multi_factor_momentum
      else no_entry (factor_score score mom30 mom90 rsi)

  unfoldable pub eval_momentum_factor :
      Config F → List (Ohlc F) → List (Ohlc F) → Run (SignalResult F)
  unfolding momentum_result
  eval_momentum_factor cfg day h4 =
      if ltb (length day) 130 || ltb (length h4) 120 then ok (no_entry insufficient_kline) else (do
        now ← index (closes_of day) (length (closes_of day) - 1)
        ago30 ← index (closes_of day) (length (closes_of day) - 31)
        ago90 ← index (closes_of day) (length (closes_of day) - 91)
        let mom30 = now ⊘ ago30 ⊖ of_ℕ 1
        let mom90 = now ⊘ ago90 ⊖ of_ℕ 1
        ema21 ← last_ema (closes_of h4) 21
        ema100 ← last_ema (closes_of h4) cfg.ema_filter_period
        rsi ← last_rsi (closes_of h4) 14
        atr ← last_atr (highs_of h4) (lows_of h4) (closes_of h4) cfg.atr_period
        volume ← index (volumes_of h4) (length (volumes_of h4) - 1)
        vol_sma ← last_sma (volumes_of h4) cfg.volume_sma_period
        last ← last_bar h4
        ok (momentum_result cfg mom30 mom90 ema21 ema100 rsi atr (volume ⊘ vol_sma) last))

  abbrev pub by_style :
      Style → (trend reversion momentum : Run (SignalResult F)) → Run (SignalResult F)
  by_style mean_reversion trend reversion momentum = reversion
  by_style momentum_factor trend reversion momentum = momentum
  by_style _ trend reversion momentum = trend

  -- Its error result is nil in every case.
  unfoldable pub evaluate_signal : Config F → List (Ohlc F) → List (Ohlc F) → Run (SignalResult F)
  unfolding eval_trend eval_mean_reversion eval_momentum_factor
  evaluate_signal cfg day h4 =
      by_style cfg.strategy_style (eval_trend cfg day h4) (eval_mean_reversion cfg day h4)
        (eval_momentum_factor cfg day h4)
