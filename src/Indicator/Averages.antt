-- ===== src/Indicator/Averages.antt =====
-- indicator/sma.go and indicator/ema.go.
pub mod Recurrence
use cryptotips.Base.{
  map, ℕ, zero, suc, ◌+◌, ◌-◌, ◌<◌, ◌≤◌, ◌≡◌, refl, ap, ◌∙◌, Bool, List, [], ◌∷◌, ◌++◌, arith, ltb,
  ◌==◌, not, if◌then◌else◌, length, get_or, take, drop, replicate,
}
use cryptotips.Base.Outcome.{Run, ok, panic, ◌>>=◌}
use cryptotips.Float.{Float, ◌⊕◌, ◌⊖◌, ◌⊗◌, ◌⊘◌, ◌=?◌, of_ℕ}
use cryptotips.Indicator.Series.{scan, warm_scan, zip_with, last_or, sum}

module _ {F : Type 0} ⦃fl : Float F⦄ where
  -- `sum += closes[i] - closes[i-period]`, at the pair of the two closes.
  abbrev pub slide : F → F × F → F
  slide total (new, old) = total ⊕ (new ⊖ old)

  abbrev pub pair : F → F → F × F
  pair new old = (new, old)

  -- The sums of SMA from index `period - 1` on.
  unfoldable pub window_sums : List F → ℕ → List F
  window_sums closes period =
      let total = sum (take period closes) in
      total ∷ scan slide total (zip_with pair (drop period closes) closes)

  unfoldable pub sma : List F → ℕ → Run (List F)
  unfolding window_sums
  sma closes period =
      if ltb (length closes) period
      then ok []
      else if period == 0
      then panic
      else ok (
          replicate (period - 1) (of_ℕ 0)
          ++ map (λ total. total ⊘ of_ℕ period) (window_sums closes period))

  -- LastSMA, LastEMA, LastATR and LastRSI: the last value, or 0.
  abbrev pub last_value : Run (List F) → Run F
  last_value m = m >>= λ v. ok (last_or (of_ℕ 0) v)

  unfoldable pub last_sma : List F → ℕ → Run F
  unfolding sma
  last_sma closes period = last_value (sma closes period)

  -- The loop of SMASlope over neighbours of the average.
  abbrev pub slope_of : F → F → F
  slope_of before now = if before =? of_ℕ 0 then of_ℕ 0 else (now ⊖ before) ⊘ before

  unfoldable pub sma_slope : List F → ℕ → Run (List F)
  unfolding sma
  sma_slope closes period = do
    averages ← sma closes period
    ok (
        if length averages == 0
        then []
        else replicate period (of_ℕ 0)
          ++ zip_with slope_of (drop (period - 1) averages) (drop period averages))

  unfoldable pub last_sma_slope : List F → ℕ → Run F
  unfolding sma_slope
  last_sma_slope closes period = last_value (sma_slope closes period)

  abbrev pub alpha_of : ℕ → F
  alpha_of period = of_ℕ 2 ⊘ of_ℕ (period + 1)

  abbrev pub ema_step : F → F → F → F
  ema_step alpha prev x = x ⊗ alpha ⊕ prev ⊗ (of_ℕ 1 ⊖ alpha)

  -- The plain mean of the first values, where EMA and ATR begin.
  abbrev pub mean_of_first : ℕ → List F → F
  mean_of_first period xs = sum (take period xs) ⊘ of_ℕ period

  unfoldable pub ema : List F → ℕ → Run (List F)
  ema closes period =
      if ltb (length closes) period
      then ok []
      else if period == 0
      then panic
      else ok (
          warm_scan (of_ℕ 0) (ema_step (alpha_of period)) period (mean_of_first period closes)
            closes)

  unfoldable pub last_ema : List F → ℕ → Run F
  unfolding ema
  last_ema closes period = last_value (ema closes period)
