-- ===== src/Indicator/Atr.antt =====
-- indicator/atr.go.
pub mod Recurrence
use cryptotips.Base.Outcome.{panic, ok, Run}
use cryptotips.Base.{
  drop, ◌-◌, ◌++◌, replicate, take, ◌==◌, not, ◌||◌, ◌+◌, length, ltb, [], if◌then◌else◌, ◌∷◌, List,
  ℕ,
}
use cryptotips.Float.{of_ℕ, ◌⊘◌, ◌⊕◌, ◌⊗◌, ◌⊖◌, Float}
use cryptotips.Indicator.Series.{warm_scan, sum, of_pred}
use cryptotips.Indicator.Averages.{last_value, mean_of_first}

module _ {F : Type 0} ⦃fl : Float F⦄ where
  -- `tr[i]` for i > 0.
  abbrev true_range : F → F → F → F
  true_range prev high low =
      fl.math_max (high ⊖ low) (fl.math_max (fl.abs (high ⊖ prev)) (fl.abs (low ⊖ prev)))

  -- The first loop of ATR, over slices that begin at the same index; `prev` is the close before it.
  pub tr_loop : F → List F → List F → List F → List F
  tr_loop prev (h ∷ hs) (l ∷ ls) (c ∷ cs) = true_range prev h l ∷ tr_loop c hs ls cs
  tr_loop prev hs ls cs = []

  pub true_ranges : List F → List F → List F → List F
  true_ranges (h ∷ hs) (l ∷ ls) (c ∷ cs) = (h ⊖ l) ∷ tr_loop c hs ls cs
  true_ranges hs ls cs = []

  -- Wilder's smoothing, the body of ATR's last loop.
  abbrev pub wilder : ℕ → F → F → F
  wilder period prev x = (prev ⊗ of_pred period ⊕ x) ⊘ of_ℕ period

  unfoldable pub atr : List F → List F → List F → ℕ → Run (List F)
  unfolding tr_loop true_ranges
  atr highs lows closes period =
      if ltb (length closes) (period + 1)
        || not (length highs == length closes)
        || not (length lows == length closes)
      then ok []
      else if period == 0
      then panic
      else (let tr = true_ranges highs lows closes in
          ok (warm_scan (of_ℕ 0) (wilder period) period (mean_of_first period tr) tr))

  unfoldable pub last_atr : List F → List F → List F → ℕ → Run F
  unfolding atr
  last_atr highs lows closes period = last_value (atr highs lows closes period)
