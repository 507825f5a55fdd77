-- ===== src/SpotBtc/Replay/Strength.antt =====
-- strategies/spot_btc_conservative_v1/replay.go: the scores and filters of v8 and later.
use cryptotips.SpotBtc.Replay.Rules.{from_end}
use cryptotips.Indicator.Atr.{last_atr}
use cryptotips.Indicator.Averages.{last_sma, last_ema, ema}
use cryptotips.Base.Outcome.{◌>>=◌, ok, Run}
use cryptotips.SpotBtc.Signal.{volumes_of, lows_of, closes_of, highs_of, last_bar, Ohlc, atr_ok}
use cryptotips.SpotBtc.Config.{Config}
use cryptotips.SpotBtc.Replay.{
  regime_range, regime_bear, regime_bull, MarketRegime, short, long, Direction,
}
use cryptotips.Base.{false, ◌==◌, ◌||◌, ◌+◌, length, ltb, ℕ, ◌&&◌, Bool, List, if◌then◌else◌}
use cryptotips.Float.{◌⊖◌, ◌⊗◌, dec, ◌⊘◌, of_ℕ, ◌<?◌, ◌≤?◌, ◌⊕◌, Float}

module _ {F : Type 0} ⦃fl : Float F⦄ where
  abbrev pub points_if : Bool → F → F → F
  points_if test points score = if test then score ⊕ points else score

  abbrev pub slope_test : Direction → Config F → F → Bool
  slope_test long cfg slope = cfg.ema200_min_slope ≤? slope
  slope_test short cfg slope = slope ≤? fl.neg cfg.ema200_min_slope

  -- The score, of the slope, the volume and the range.
  abbrev pub strength_of : Direction → Config F → (slope vol_ratio atr_pct : F) → F
  strength_of d cfg slope vol_ratio atr_pct = points_if (atr_ok cfg atr_pct) (dec 3 1) (
      points_if (cfg.volume_min_ratio ≤? vol_ratio) (dec 3 1)
        (points_if (slope_test d cfg slope) (dec 4 1) (of_ℕ 0)))

  abbrev pub share_of : F → F → F
  share_of atr price = if of_ℕ 0 <? price then atr ⊘ price else of_ℕ 0

  unfoldable pub strength_on_h4 : Direction → Config F → F → List (Ohlc F) → Run F
  strength_on_h4 d cfg slope h4 = do
    atr ← last_atr (highs_of h4) (lows_of h4) (closes_of h4) cfg.atr_period
    volume ← from_end (volumes_of h4) 0
    vol_sma ← last_sma (volumes_of h4) cfg.volume_sma_period
    last ← last_bar h4
    ok (strength_of d cfg slope (volume ⊘ vol_sma) (share_of atr last.close))

  unfoldable pub signal_strength : Direction → Config F → List (Ohlc F) → List (Ohlc F) → Run F
  unfolding strength_on_h4
  signal_strength d cfg day h4 =
      if ltb (length day) (cfg.ema_filter_period + cfg.ema200_slope_lookback + 1)
        || ltb (length h4) (cfg.volume_sma_period + 2)
      then ok (of_ℕ 0)
      else (do
        day_ema ← ema (closes_of day) cfg.ema_filter_period
        slope_base ← from_end day_ema cfg.ema200_slope_lookback
        if slope_base ≤? of_ℕ 0 then ok (of_ℕ 0) else (do
          now ← from_end day_ema 0
          strength_on_h4 d cfg ((now ⊖ slope_base) ⊘ slope_base) h4))

  -- longSignalStrength and shortSignalStrength
  abbrev pub long_signal_strength : Config F → List (Ohlc F) → List (Ohlc F) → Run F
  long_signal_strength cfg day h4 = signal_strength long cfg day h4

  abbrev pub short_signal_strength : Config F → List (Ohlc F) → List (Ohlc F) → Run F
  short_signal_strength cfg day h4 = signal_strength short cfg day h4

  abbrev pub bear_quality : Config F → (last now slope mom : F) → Bool
  bear_quality cfg last now slope mom =
      (last <? now) && (slope ≤? fl.neg cfg.ema200_min_slope ⊗ dec 8 1) && (mom <? fl.neg (dec 3 2))

  unfoldable pub bear_quality_filter : Config F → List (Ohlc F) → List (Ohlc F) → Run Bool
  bear_quality_filter cfg day h4 =
      if ltb (length day) (cfg.ema_filter_period + cfg.ema200_slope_lookback + 3)
        || ltb (length h4) 30
      then ok false
      else (do
        series ← ema (closes_of day) cfg.ema_filter_period
        last ← from_end (closes_of day) 0
        prev ← from_end (closes_of day) 5
        slope_base ← from_end series cfg.ema200_slope_lookback
        if slope_base ≤? of_ℕ 0 then ok false else (do
          now ← from_end series 0
          ok (bear_quality cfg last now ((now ⊖ slope_base) ⊘ slope_base) (last ⊘ prev ⊖ of_ℕ 1))))

  unfoldable pub recent_momentum : List (Ohlc F) → ℕ → Run F
  recent_momentum day lookback =
      if ltb (length day) (lookback + 1) || (lookback == 0) then ok (of_ℕ 0) else (do
        last ← from_end (closes_of day) 0
        base ← from_end (closes_of day) lookback
        ok (if base ≤? of_ℕ 0 then of_ℕ 0 else last ⊘ base ⊖ of_ℕ 1))

  unfoldable pub evaluate_trend_only : Config F → List (Ohlc F) → List (Ohlc F) → Run Bool
  evaluate_trend_only cfg day h4 =
      if ltb (length day) (cfg.ema_filter_period + cfg.ema200_slope_lookback)
        || ltb (length h4) (cfg.ema_filter_period + 2)
      then ok false
      else (do
        day_ema ← ema (closes_of day) cfg.ema_filter_period
        if ltb (length day_ema) (cfg.ema200_slope_lookback + 1) then ok false else (do
          d_ema ← from_end day_ema 0
          slope_base ← from_end day_ema cfg.ema200_slope_lookback
          if slope_base ≤? of_ℕ 0 then ok false else (do
            h4_ema ← last_ema (closes_of h4) cfg.ema_filter_period
            last ← last_bar h4
            ok (
                (d_ema <? last.close)
                && (h4_ema <? last.close)
                && (cfg.ema200_min_slope ≤? (d_ema ⊖ slope_base) ⊘ slope_base)))))

  -- The strength of a range: how little the price moves, and how near it is to its average.
  abbrev pub calmness : F → F → F → F
  calmness last now mom =
      let raw =
        of_ℕ 1 ⊖ fl.math_min (of_ℕ 1) (fl.abs mom ⊗ of_ℕ 8 ⊕ fl.abs (last ⊖ now) ⊘ now ⊗ of_ℕ 6) in
      if raw <? of_ℕ 0 then of_ℕ 0 else raw

  unfoldable pub range_switch_strength : Config F → List (Ohlc F) → Run F
  unfolding recent_momentum
  range_switch_strength cfg day =
      if ltb (length day) (cfg.ema_filter_period + 1) then ok (of_ℕ 0) else (do
        now ← last_ema (closes_of day) cfg.ema_filter_period
        if now ≤? of_ℕ 0 then ok (of_ℕ 0) else (do
          last ← from_end (closes_of day) 0
          mom ← recent_momentum day 5
          ok (calmness last now mom)))

  abbrev pub regime_switch_strength :
      Config F → MarketRegime → List (Ohlc F) → List (Ohlc F) → Run F
  regime_switch_strength cfg regime_bull day h4 = long_signal_strength cfg day h4
  regime_switch_strength cfg regime_bear day h4 = short_signal_strength cfg day h4
  regime_switch_strength cfg regime_range day h4 = range_switch_strength cfg day

  unfoldable pub is_range_trend_support : Config F → List (Ohlc F) → List (Ohlc F) → Run Bool
  is_range_trend_support cfg day h4 =
      if ltb (length day) (cfg.ema_filter_period + 1) || ltb (length h4) (cfg.ema_pullback + 2)
      then ok false
      else (do
        ema_day ← last_ema (closes_of day) cfg.ema_filter_period
        ema_fast ← last_ema (closes_of h4) cfg.ema_pullback
        last ← last_bar h4
        ok ((ema_day <? last.close) && (ema_fast <? last.close)))
