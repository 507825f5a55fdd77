-- ===== src/SpotBtc/Signal.antt =====
-- strategies/spot_btc_conservative_v1/signal.go: the data, calcStop and the trend rule.
pub mod Rules
pub mod Safe
pub mod Stops
use cryptotips.Base.Outcome.{ok, ◌>>=◌, Run}
use cryptotips.SpotBtc.Config.{trend_breakout, Style, Config}
use cryptotips.Float.{◌⊖◌, dec, ◌⊕◌, ◌⊘◌, ◌⊗◌, of_ℕ, ◌≤?◌, ◌<?◌, Float}
use cryptotips.Base.{
  take, ◌-◌, length, true, drop, index, ltb, ◌||◌, foldl, map, ◌&&◌, List, false, if◌then◌else◌, ℕ,
  Bool,
}

pub record Ohlc (F : Type 0) : Type 0 where
  pub close : F
  pub high : F
  pub low : F
  pub volume : F

-- The texts of the reasons, with the values that they print.
pub data Reason (F : Type 0) : Type 0 where
  insufficient_kline day_ema_insufficient invalid_slope_base ind_invalid invalid_stop : Reason F
  trend_values : (trend : Bool) (slope : F) (trigger : Bool) (atr vol : F) → Reason F
  mr_fail : (rsi atr vol : F) → Reason F
  factor_score : (score : ℕ) (mom30 mom90 rsi : F) → Reason F
  by_trend_pullback by_trend_breakout bb_rsi_mean_reversion multi_factor_momentum : Reason F
  bear_filter_fail bear_pullback_short : Reason F
  tp1_1r tp2_2r trailing_stop max_hold_timeout : Reason F

pub record SignalResult (F : Type 0) : Type 0 where
  pub should_enter : Bool
  pub entry_price : F
  pub stop_loss : F
  pub reason : Reason F

-- What evalTrend has read before it decides.
pub record TrendView (F : Type 0) : Type 0 where
  pub last : Ohlc F
  pub prev : Ohlc F
  pub d_ema : F
  pub ema_slope : F
  pub h4_ema : F
  pub ema_now : F
  pub ema_prev : F
  pub atr : F
  pub vol_sma : F
  pub breakout : Bool

module _ {F : Type 0} ⦃fl : Float F⦄ where
  abbrev pub no_entry : Reason F → SignalResult F
  no_entry r = record { should_enter = false; entry_price = of_ℕ 0; stop_loss = of_ℕ 0; reason = r }

  -- The end of each rule: `stop <= 0 || last.Close <= stop` is refused.
  abbrev pub enter_at : F → F → Reason F → SignalResult F
  enter_at close stop r =
      if (stop ≤? of_ℕ 0) || (close ≤? stop)
      then no_entry invalid_stop
      else record { should_enter = true; entry_price = close; stop_loss = stop; reason = r }

  -- The slices of splitOHLC.
  abbrev pub closes_of : List (Ohlc F) → List F
  closes_of = map λ k. k.close

  abbrev pub highs_of : List (Ohlc F) → List F
  highs_of = map λ k. k.high

  abbrev pub lows_of : List (Ohlc F) → List F
  lows_of = map λ k. k.low

  abbrev pub volumes_of : List (Ohlc F) → List F
  volumes_of = map λ k. k.volume

  abbrev pub last_bar : List (Ohlc F) → Run (Ohlc F)
  last_bar h4 = index h4 (length h4 - 1)

  abbrev pub lower_low : F → Ohlc F → F
  lower_low stop k = if k.low <? stop then k.low else stop

  -- The least low of the last five bars, from the low of the last one.
  abbrev pub lowest : List (Ohlc F) → F → F
  lowest h4 stop = foldl lower_low stop (drop (length h4 - 5) h4)

  abbrev pub at_most : F → F → F
  at_most stop limit = if limit <? stop then limit else stop

  unfoldable pub calc_stop : Config F → List (Ohlc F) → F → F → Run F
  calc_stop cfg h4 ema_now atr = do
    last ← last_bar h4
    ok (
        at_most (at_most (lowest h4 last.low) (ema_now ⊗ dec 98 2))
          (last.close ⊖ atr ⊗ cfg.trail_atr_multiplier))

  abbrev pub higher_high : F → F → F
  higher_high highest h = if highest <? h then h else highest

  -- A close above the highs of the bars before the last one.
  unfoldable pub secondary_breakout : Config F → List (Ohlc F) → F → Ohlc F → Ohlc F → Run Bool
  secondary_breakout cfg h4 ema_prev last prev =
      let lookback = cfg.secondary_breakout_lookback in
      if ltb 1 lookback && ltb lookback (length h4)
      then (do
        let start = length h4 - 1 - lookback
        first ← index (highs_of h4) start
        let highest = foldl higher_high first (take lookback (drop start (highs_of h4)))
        ok (
            (ema_prev <? prev.close)
            && (highest ⊗ (of_ℕ 1 ⊕ cfg.secondary_breakout_buffer_pct) ≤? last.close)))
      else ok false

  abbrev pub trend_ok : TrendView F → Bool
  trend_ok v = (v.d_ema <? v.last.close) && (v.h4_ema <? v.last.close)

  abbrev pub entry_trigger : Config F → TrendView F → Bool
  entry_trigger cfg v =
      ((v.prev.close ≤? v.ema_prev)
        && (v.prev.low ≤? v.ema_prev ⊗ (of_ℕ 1 ⊕ cfg.pullback_tol))
        && (v.ema_now <? v.last.close))
      || v.breakout

  -- `atrPct` and `volRatio` within the limits of the profile.
  abbrev pub atr_ok : Config F → F → Bool
  atr_ok cfg atr_pct = (cfg.atr_min_pct ≤? atr_pct) && (atr_pct ≤? cfg.atr_max_pct)

  abbrev pub style_reason : Style → Reason F
  style_reason trend_breakout = by_trend_breakout
  style_reason _ = by_trend_pullback

  abbrev pub trend_passes : Config F → TrendView F → Bool
  trend_passes cfg v =
      trend_ok v
      && (cfg.ema200_min_slope ≤? v.ema_slope)
      && entry_trigger cfg v
      && atr_ok cfg (v.atr ⊘ v.last.close)
      && (cfg.volume_min_ratio ≤? v.last.volume ⊘ v.vol_sma)

  unfoldable pub trend_decision : Config F → List (Ohlc F) → TrendView F → Run (SignalResult F)
  unfolding calc_stop
  trend_decision cfg h4 v =
      let atr_pct = v.atr ⊘ v.last.close in
      let vol_ratio = v.last.volume ⊘ v.vol_sma in
      if trend_passes cfg v
      then calc_stop cfg h4 v.ema_now v.atr
        >>= (λ stop. ok (enter_at v.last.close stop (style_reason cfg.strategy_style)))
      else ok
          (no_entry (trend_values (trend_ok v) v.ema_slope (entry_trigger cfg v) atr_pct vol_ratio))
