-- ===== src/SpotBtc/Replay/Points.antt =====
-- strategies/spot_btc_conservative_v1/regime_calibration.go: the regimes of calibrated parameters.
pub mod Classified
use cryptotips.Indicator.Atr.{last_atr}
use cryptotips.Indicator.Averages.{ema, last_ema}
use cryptotips.SpotBtc.Replay.Rules.{from_end}
use cryptotips.Models.{KlineRecord}
use cryptotips.SpotBtc.Replay.Strength.{share_of, points_if}
use cryptotips.SpotBtc.Replay.{regime_bear, regime_bull, regime_eq, MarketRegime, regime_range}
use cryptotips.Float.{◌⊘◌, ◌⊖◌, of_ℕ, ◌<?◌, ◌≤?◌, ◌⊕◌, ◌⊗◌, dec, Float}
use cryptotips.Base.{
  ◌++◌, [], ◌-◌, ◌∷◌, drop, length, ◌&&◌, ◌+◌, foldl, leb, ltb, map, List, if◌then◌else◌, ℕ,
}
use cryptotips.Base.Outcome.{ok, Run, ◌>>=◌}

pub record RegimeCalibParams (F : Type 0) : Type 0 where
  pub slope_bull_min : F
  pub slope_bear_max : F
  pub return_bull_min : F
  pub return_bear_max : F
  pub drawdown_bear_min : F
  pub vol_range_max : F
  pub min_confirm_bar : ℕ

pub record ClassPoint (F : Type 0) : Type 0 where
  pub time : ℕ
  pub regime : MarketRegime
  pub confidence : F
  pub score : F

-- The candidate that waits for its confirmation.
pub record Confirm : Type 0 where
  pub current : MarketRegime
  pub pending : MarketRegime
  pub pending_count : ℕ

-- The branch `cand != current` of the loops that confirm a regime.
abbrev pub awaited : MarketRegime → Confirm → Confirm
awaited cand c =
    if regime_eq cand c.pending
    then record c { pending_count = c.pending_count + 1 }
    else record c { pending = cand; pending_count = 1 }

abbrev pub switched : ℕ → MarketRegime → Confirm → Confirm
switched min_count cand c =
    if leb min_count c.pending_count then record c { current = cand; pending_count = 0 } else c

abbrev pub confirm_step : ℕ → MarketRegime → Confirm → Confirm
confirm_step min_count cand c =
    if regime_eq cand c.current
    then record c { pending = cand; pending_count = 0 }
    else switched min_count cand (awaited cand c)

abbrev pub confirm_start : Confirm
confirm_start = record { current = regime_range; pending = regime_range; pending_count = 0 }

abbrev pub ema_period_of : ℕ → ℕ
ema_period_of n = if ltb n 210 then 52 else 200

module _ {F : Type 0} ⦃fl : Float F⦄ where
  abbrev pub kline_closes : List (KlineRecord F) → List F
  kline_closes = map λ k. k.close

  abbrev pub kline_highs : List (KlineRecord F) → List F
  kline_highs = map λ k. k.high

  abbrev pub kline_lows : List (KlineRecord F) → List F
  kline_lows = map λ k. k.low

  -- The scores of the three regimes.
  abbrev pub bull_score : RegimeCalibParams F → (price ema slope ret dd : F) → F
  bull_score p price ema slope ret dd = points_if (dd <? p.drawdown_bear_min ⊗ dec 5 1) (dec 10 2) (
      points_if (p.return_bull_min ≤? ret) (dec 25 2) (
        points_if (p.slope_bull_min ≤? slope) (dec 30 2)
          (points_if (ema <? price) (dec 35 2) (of_ℕ 0))))

  abbrev pub bear_score : RegimeCalibParams F → (price ema slope ret dd : F) → F
  bear_score p price ema slope ret dd = points_if (p.drawdown_bear_min ≤? dd) (dec 10 2) (
      points_if (ret ≤? p.return_bear_max) (dec 25 2) (
        points_if (slope ≤? p.slope_bear_max) (dec 30 2)
          (points_if (price <? ema) (dec 35 2) (of_ℕ 0))))

  abbrev pub range_score : RegimeCalibParams F → (slope dd atr_pct : F) → F
  range_score p slope dd atr_pct =
      points_if ((p.drawdown_bear_min ⊗ dec 4 1 <? dd) && (dd <? p.drawdown_bear_min)) (dec 30 2) (
        points_if (atr_pct ≤? p.vol_range_max) (dec 30 2) (
          points_if
            (fl.abs slope
              ≤? fl.math_max (fl.abs p.slope_bull_min) (fl.abs p.slope_bear_max) ⊗ dec 7 1)
            (dec 40 2) (of_ℕ 0)))

  -- The regime, the best score and the one behind it.
  abbrev pub bull_choice : (bull bear rng : F) → MarketRegime × F × F
  bull_choice bull bear rng =
      if (bear ≤? bull) && (rng <? bull)
      then (regime_bull, bull, fl.math_max bear rng)
      else (regime_range, rng, fl.math_max bull bear)

  abbrev pub bear_choice : (bull bear rng : F) → MarketRegime × F × F → MarketRegime × F × F
  bear_choice bull bear rng (reg, best, second) =
      if (bull <? bear) && (best <? bear)
      then (regime_bear, bear, fl.math_max bull rng)
      else (reg, best, second)

  abbrev pub clamped : F → F
  clamped conf =
      let capped = if dec 99 2 <? conf then dec 99 2 else conf in
      if capped <? dec 1 1 then dec 1 1 else capped

  abbrev pub with_confidence : MarketRegime × F × F → MarketRegime × F × F
  with_confidence (reg, best, second) = (reg, clamped (dec 5 1 ⊕ (best ⊖ second) ⊗ dec 5 1), best)

  unfoldable pub choose_regime : (bull bear rng : F) → MarketRegime × F × F
  choose_regime bull bear rng =
      with_confidence (bear_choice bull bear rng (bull_choice bull bear rng))

  -- The return of 180 candles.
  unfoldable pub ret_180 : List F → F → Run F
  ret_180 closes price =
      if ltb 180 (length closes)
      then (do
        base ← from_end closes 180
        ok (if of_ℕ 0 <? base then price ⊘ base ⊖ of_ℕ 1 else of_ℕ 0))
      else ok (of_ℕ 0)

  -- The highest of the last 365 closes, from the last one.
  abbrev pub highest_close : F → List F → F
  highest_close price closes =
      foldl (λ hh c. if hh <? c then c else hh) price (drop (length closes - 365) closes)

  abbrev pub fall_from : F → F → F
  fall_from hh price = if of_ℕ 0 <? hh then (hh ⊖ price) ⊘ hh else of_ℕ 0

  abbrev pub slope_from : F → F → F
  slope_from base now = if of_ℕ 0 <? base then (now ⊖ base) ⊘ base else of_ℕ 0

  abbrev pub unclassified : MarketRegime × F × F
  unclassified = (regime_range, dec 2 1, of_ℕ 0)

  -- detectRegimeCalibrated behind the series of the average.
  unfoldable pub regime_of_series :
      RegimeCalibParams F → List (KlineRecord F) → F → F → List F → Run (MarketRegime × F × F)
  unfolding ret_180 choose_regime
  regime_of_series p bars price ema series =
      let closes = kline_closes bars in
      if ltb (length series) 8 then ok unclassified else (do
        base ← from_end series 7
        now ← from_end series 0
        ret ← ret_180 closes price
        atr ← last_atr (kline_highs bars) (kline_lows bars) closes 14
        let slope = slope_from base now
        let dd = fall_from (highest_close price closes) price
        ok (
            choose_regime (bull_score p price ema slope ret dd)
              (bear_score p price ema slope ret dd) (range_score p slope dd (share_of atr price))))

  unfoldable pub detect_regime_calibrated :
      List (KlineRecord F) → RegimeCalibParams F → Run (MarketRegime × F × F)
  unfolding regime_of_series
  detect_regime_calibrated bars p =
      let closes = kline_closes bars in
      let period = ema_period_of (length closes) in
      if ltb (length closes) (period + 8) then ok unclassified else (do
        price ← from_end closes 0
        now ← last_ema closes period
        series ← ema closes period
        regime_of_series p bars price now series)

  abbrev pub point_at : KlineRecord F → Confirm → MarketRegime × F × F → ClassPoint F
  point_at k c (reg, conf, score) = record {
    time = k.open_time;
    regime = c.current;
    confidence = conf;
    score = score;
  }

  abbrev pub regime_part : MarketRegime × F × F → MarketRegime
  regime_part (reg, conf, score) = reg

  -- The loop of classifySeries; `detect` is detectRegimeCalibrated on the bars up to this one, `seen`
  -- those before it.
  unfoldable pub classify_loop :
      (List (KlineRecord F) → Run (MarketRegime × F × F))
      → (warmup min_count : ℕ) → Confirm
      → List (KlineRecord F)
      → List (KlineRecord F)
      → Run (List (ClassPoint F))
  classify_loop detect warmup min_count c seen [] = ok []
  classify_loop detect warmup min_count c seen (k ∷ ks) =
      let now = seen ++ k ∷ [] in
      let skipped = classify_loop detect warmup min_count c now ks in
      if ltb (length seen) warmup
      then skipped
      else detect now >>= (λ found.
        let c' = confirm_step min_count (regime_part found) c in
        classify_loop detect warmup min_count c' now ks >>= λ points.
        ok (point_at k c' found ∷ points))

  unfoldable pub classify_series :
      List (KlineRecord F) → RegimeCalibParams F → Run (List (ClassPoint F))
  unfolding classify_loop detect_regime_calibrated
  classify_series bars p =
      classify_loop (λ b. detect_regime_calibrated b p) (ema_period_of (length bars) + 8)
        p.min_confirm_bar confirm_start [] bars
