-- ===== src/SpotBtc/Replay/Points/Classified.antt =====
-- classifySeries does not panic, and classifies every bar behind its warm-up.
use cryptotips.SpotBtc.Replay.Total.{from_end-Total}
use cryptotips.SpotBtc.Replay.{MarketRegime}
use cryptotips.Base.Outcome.{Returns-map, Returns-bind, value, Returns, Returns-if, Run}
use cryptotips.SpotBtc.Signal.Safe.{ema-Total, last_ema-Total, last_atr-Total, Total}
use cryptotips.Models.{KlineRecord}
use cryptotips.Base.{
  length-append, [], ◌++◌, if◌then◌else◌, ◌+◌, ◌∷◌, arith, ◌-◌, ℕ, ◌<◌, ◌≡◌, length, ltb, List,
}
use cryptotips.SpotBtc.Replay.Points.{
  regime_part, confirm_step, confirm_start, kline_lows, kline_highs, Confirm, ema_period_of,
  kline_closes, RegimeCalibParams, classify_loop, classify_series, detect_regime_calibrated,
  regime_of_series, ret_180,
}
use cryptotips.Float.{Float}

module _ {F : Type 0} ⦃fl : Float F⦄ where
  ret_180-Total : (closes : List F) (price : F) → Total (ret_180 closes price)
  unfolding ret_180
  ret_180-Total closes price =
      Returns-if (ltb 180 (length closes))
        (λ e. Returns-bind (from_end-Total closes 180 (ground arith)) λ base _. value tt)
        λ _. value tt

  regime_of_series-Total :
      (p : RegimeCalibParams F) (bars : List (KlineRecord F)) (price now : F) (series : List F)
      → Total (regime_of_series p bars price now series)
  unfolding regime_of_series
  regime_of_series-Total p bars price now series =
      let closes = kline_closes bars in
      Returns-if (ltb (length series) 8) (λ _. value tt)
        λ e. Returns-bind (from_end-Total series 7 (ground arith)) λ base _.
          Returns-bind (from_end-Total series 0 (ground arith)) λ last _.
            Returns-bind (ret_180-Total closes price) λ ret _.
              Returns-bind
                (last_atr-Total (kline_highs bars) (kline_lows bars) closes 14 (omega arith))
                λ a _. value tt

  detect_regime_calibrated-Total :
      (bars : List (KlineRecord F)) (p : RegimeCalibParams F)
      → Total (detect_regime_calibrated bars p)
  unfolding detect_regime_calibrated
  detect_regime_calibrated-Total bars p =
      let closes = kline_closes bars in
      let period = ema_period_of (length closes) in
      let positive : 0 < period = ground arith in
      Returns-if (ltb (length closes) (period + 8)) (λ _. value tt)
        λ e. Returns-bind (from_end-Total closes 0 (ground arith)) λ price _.
          Returns-bind (last_ema-Total closes period positive) λ now _.
            Returns-bind (ema-Total closes period positive)
              λ series _. regime_of_series-Total p bars price now series

  classify_loop-length :
      (detect : List (KlineRecord F) → Run (MarketRegime × F × F)) (warmup m : ℕ) (c : Confirm)
      (seen ks : List (KlineRecord F))
      → ((bars : List (KlineRecord F)) → Total (detect bars))
      → Returns
          (λ points. length points ≡ length ks - (warmup - length seen))
          (classify_loop detect warmup m c seen ks)
  unfolding classify_loop
  classify_loop-length detect warmup m c seen [] total = value (omega arith)
  classify_loop-length detect warmup m c seen (k ∷ ks) total =
      let now = seen ++ k ∷ [] in
      let longer = length-append {0} seen (k ∷ []) in
      Returns-if (ltb (length seen) warmup)
        (λ e.
          Returns-map (classify_loop-length detect warmup m c now ks total)
            λ points h. ground (arith, longer))
        λ e. Returns-bind (total now) λ found _.
          Returns-bind
            (classify_loop-length detect warmup m (confirm_step m (regime_part found) c) now ks
              total)
            λ points h. value (ground (arith, longer))

  -- classifySeries panics on no bars and no parameters, and has a point for every bar behind the first
  -- 60 of a series shorter than 210, and behind the first 208 of a longer one.
  pub classify_series-length :
      (bars : List (KlineRecord F)) (p : RegimeCalibParams F)
      → Returns
          (λ points. length points ≡ length bars - (if ltb (length bars) 210 then 60 else 208))
          (classify_series bars p)
  unfolding classify_series
  classify_series-length bars p =
      Returns-map
        (classify_loop-length (λ b. detect_regime_calibrated b p) (ema_period_of (length bars) + 8)
          p.min_confirm_bar confirm_start [] bars λ b. detect_regime_calibrated-Total b p)
        λ points h. ground arith
