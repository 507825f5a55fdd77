-- ===== src/SpotBtc/Replay/Rules.antt =====
-- strategies/spot_btc_conservative_v1/replay.go: the regime of the day bars, the short rule and the range.
pub mod Band
use cryptotips.Indicator.Atr.{last_atr}
use cryptotips.Indicator.Averages.{last_sma, ema, last_ema}
use cryptotips.Base.Outcome.{◌>>=◌, panic, ◌>>=◌}
use cryptotips.Base.Outcome.{ok, Run}
use cryptotips.SpotBtc.Position.{round_qty, no_plan, PositionPlan}
use cryptotips.SpotBtc.Config.{Config}
use cryptotips.SpotBtc.Replay.Steps.{RangeBand}
use cryptotips.SpotBtc.Replay.Switch.{last_range}
use cryptotips.Base.{
  drop, foldl, true, false, ◌+◌, ◌-◌, length, ◌&&◌, ◌||◌, index, ltb, Bool, if◌then◌else◌, ℕ, List,
}
use cryptotips.SpotBtc.Signal.{
  bear_filter_fail, ind_invalid, volumes_of, invalid_slope_base, lows_of, closes_of, highs_of,
  last_bar, bear_pullback_short, insufficient_kline, atr_ok, invalid_stop, no_entry, Ohlc,
  SignalResult,
}
use cryptotips.SpotBtc.Replay.{
  regime_bear, regime_bull, short, long, regime_range, MarketRegime, Direction,
}
use cryptotips.Float.{◌⊕◌, dec, ◌<?◌, ◌≤?◌, ◌⊘◌, of_ℕ, ◌⊖◌, ◌⊗◌, Float}

module _ {F : Type 0} ⦃fl : Float F⦄ where
  -- `xs[len(xs)-1-back]`
  abbrev pub from_end : List F → ℕ → Run F
  from_end xs back = if ltb back (length xs) then index xs (length xs - 1 - back) else panic

  -- What is left of detectRegime, when its numbers are there.
  abbrev pub regime_by : Config F → (ema slope atr price : F) → MarketRegime
  regime_by cfg ema slope atr price =
      if atr ⊘ price ≤? cfg.regime_vol_converge_pct
      then regime_range
      else if (ema <? price) && (cfg.ema200_min_slope ≤? slope)
      then regime_bull
      else if (price <? ema) && (slope ≤? fl.neg cfg.ema200_min_slope)
      then regime_bear
      else regime_range

  unfoldable pub regime_of_price : Config F → F → F → List (Ohlc F) → Run MarketRegime
  regime_of_price cfg ema slope day = do
    atr ← last_atr (highs_of day) (lows_of day) (closes_of day) cfg.regime_vol_period
    if atr ≤? of_ℕ 0 then ok regime_range else (do
      price ← from_end (closes_of day) 0
      ok (if price ≤? of_ℕ 0 then regime_range else regime_by cfg ema slope atr price))

  unfoldable pub detect_regime : Config F → List (Ohlc F) → Run MarketRegime
  unfolding regime_of_price
  detect_regime cfg day = do
    series ← ema (closes_of day) cfg.ema_filter_period
    if ltb (length series) (cfg.ema200_slope_lookback + 1) then ok regime_range else (do
      now ← from_end series 0
      base ← from_end series cfg.ema200_slope_lookback
      if base ≤? of_ℕ 0 then ok regime_range else regime_of_price cfg now ((now ⊖ base) ⊘ base) day)

  abbrev pub short_passes :
      Config F → (d_ema slope h4_ema ema_now ema_prev atr vol_sma : F) → Ohlc F → Ohlc F → Bool
  short_passes cfg d_ema slope h4_ema ema_now ema_prev atr vol_sma last prev =
      (last.close <? d_ema)
      && (last.close <? h4_ema)
      && (slope ≤? fl.neg cfg.ema200_min_slope)
      && (ema_prev ≤? prev.close)
      && (ema_prev ⊗ (of_ℕ 1 ⊖ cfg.pullback_tol) ≤? prev.high)
      && (last.close <? ema_now)
      && atr_ok cfg (atr ⊘ last.close)
      && (cfg.volume_min_ratio ≤? last.volume ⊘ vol_sma)

  abbrev pub short_entry : F → F → SignalResult F
  short_entry close stop = if stop ≤? close then no_entry invalid_stop else record {
    should_enter = true;
    entry_price = close;
    stop_loss = stop;
    reason = bear_pullback_short;
  }

  -- evalTrendShort behind the slope of the daily average.
  unfoldable pub short_on_h4 : Config F → F → F → List (Ohlc F) → Run (SignalResult F)
  short_on_h4 cfg d_ema slope h4 = do
    h4_ema ← last_ema (closes_of h4) cfg.ema_filter_period
    ema_fast ← ema (closes_of h4) cfg.ema_pullback
    atr ← last_atr (highs_of h4) (lows_of h4) (closes_of h4) cfg.atr_period
    vol_sma ← last_sma (volumes_of h4) cfg.volume_sma_period
    if ltb (length ema_fast) 2 || (atr ≤? of_ℕ 0) || (vol_sma ≤? of_ℕ 0)
        then ok (no_entry ind_invalid)
        else (do
          last ← last_bar h4
          prev ← index h4 (length h4 - 2)
          ema_now ← index ema_fast (length ema_fast - 1)
          ema_prev ← index ema_fast (length ema_fast - 2)
          ok (
              if short_passes cfg d_ema slope h4_ema ema_now ema_prev atr vol_sma last prev
              then short_entry last.close (last.close ⊕ atr ⊗ cfg.trail_atr_multiplier)
              else no_entry bear_filter_fail))

  unfoldable pub eval_trend_short : Config F → List (Ohlc F) → List (Ohlc F) → Run (SignalResult F)
  unfolding short_on_h4
  eval_trend_short cfg day h4 =
      if ltb (length day) (cfg.ema_filter_period + cfg.ema200_slope_lookback)
        || ltb (length h4) (cfg.atr_period + 5)
      then ok (no_entry insufficient_kline)
      else (do
        day_ema ← ema (closes_of day) cfg.ema_filter_period
        d_ema ← from_end day_ema 0
        slope_base ← from_end day_ema cfg.ema200_slope_lookback
        if slope_base ≤? of_ℕ 0
            then ok (no_entry invalid_slope_base)
            else short_on_h4 cfg d_ema ((d_ema ⊖ slope_base) ⊘ slope_base) h4)

  -- The quantity of a short before rounding.
  abbrev pub short_qty : Config F → F → F → F
  short_qty cfg entry risk_per_unit =
      let qty = cfg.risk_capital_usdt ⊗ cfg.risk_per_trade ⊘ risk_per_unit ⊗ cfg.bear_leverage in
      let limit = cfg.risk_capital_usdt ⊗ cfg.bear_leverage in
      if limit <? qty ⊗ entry then limit ⊘ entry else qty

  unfoldable pub build_short_position : Config F → F → F → PositionPlan F
  build_short_position cfg entry stop =
      let risk_per_unit = stop ⊖ entry in
      if risk_per_unit ≤? of_ℕ 0
      then no_plan
      else (let qty = short_qty cfg entry risk_per_unit in
          record {
            risk_amount = cfg.risk_capital_usdt ⊗ cfg.risk_per_trade;
            risk_per_unit = risk_per_unit;
            qty = round_qty qty;
            notional = qty ⊗ entry;
          })

  abbrev pub no_band : RangeBand F
  no_band = record { upper = of_ℕ 0; lower = of_ℕ 0; mid = of_ℕ 0; range_atr = of_ℕ 0 }

  -- The extremes of the last days.
  abbrev pub widened : F × F → Ohlc F → F × F
  widened (upper, lower) d =
      (if upper <? d.high then d.high else upper, if d.low <? lower then d.low else lower)

  abbrev pub band_of : Config F → F × F → F → RangeBand F × Bool
  band_of cfg (upper, lower) atr =
      if (atr ≤? of_ℕ 0) || (upper ≤? lower)
      then (no_band, false)
      else if (upper ⊖ lower) ⊘ atr <? cfg.range_min_width_atr
      then (no_band, false)
      else (
        record { upper = upper; lower = lower; mid = (upper ⊕ lower) ⊘ of_ℕ 2; range_atr = atr },
        true,
      )

  unfoldable pub detect_range_band :
      Config F → List (Ohlc F) → List (Ohlc F) → Run (RangeBand F × Bool)
  unfolding last_range
  detect_range_band cfg day h4 =
      if ltb (length day) cfg.range_lookback_days || ltb (length h4) (cfg.atr_period + 2)
      then ok (no_band, false)
      else (do
        let start = length day - cfg.range_lookback_days
        first ← index day start
        atr ← last_range h4 cfg.atr_period
        ok (band_of cfg (foldl widened (first.high, first.low) (drop start day)) atr))

  -- The distance to the edge that a range trade begins at.
  abbrev pub edge_distance : Direction → RangeBand F → F → F
  edge_distance long b price = (price ⊖ b.lower) ⊘ b.range_atr
  edge_distance short b price = (b.upper ⊖ price) ⊘ b.range_atr

  -- rangeLongSignalStrength and rangeShortSignalStrength
  unfoldable pub range_signal_strength : Direction → Config F → F → RangeBand F → F
  range_signal_strength d cfg price b =
      let dist = edge_distance d b price in
      if b.range_atr ≤? of_ℕ 0
      then of_ℕ 0
      else if cfg.range_entry_atr_buffer <? dist
      then of_ℕ 0
      else dec 7 1 ⊗ (of_ℕ 1 ⊖ fl.math_min (of_ℕ 1) (dist ⊘ (cfg.range_entry_atr_buffer ⊕ dec 1 9)))
        ⊕ dec 3 1 ⊗ fl.math_min (of_ℕ 1) ((b.upper ⊖ b.lower) ⊘ (b.range_atr ⊗ of_ℕ 4))
