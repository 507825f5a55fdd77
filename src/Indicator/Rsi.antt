-- ===== src/Indicator/Rsi.antt =====
-- indicator/rsi.go.
use cryptotips.Base.Outcome.{ok, Run}
use cryptotips.Base.{◌++◌, ◌+◌, [], length, replicate, ltb, suc, ◌∷◌, List, if◌then◌else◌, ℕ}
use cryptotips.Float.{◌<?◌, ◌⊕◌, of_ℕ, ◌⊖◌, ◌=?◌, ◌⊘◌, Float}
use cryptotips.Indicator.Averages.{last_value}
use cryptotips.Indicator.Atr.{wilder}

module _ {F : Type 0} ⦃fl : Float F⦄ where
  -- The first loop of RSI: `prev` is the close before the slice, `left` rounds are to go. The result
  -- has the sums of the gains and of the losses, the last close and the closes that are left.
  pub gains_loop : ℕ → F → List F → F → F → F × F × F × List F
  gains_loop (suc left) prev (x ∷ xs) gains losses =
      let diff = x ⊖ prev in
      let gains' = if of_ℕ 0 <? diff then gains ⊕ diff else gains in
      let losses' = if of_ℕ 0 <? diff then losses else losses ⊖ diff in
      gains_loop left x xs gains' losses'
  gains_loop left prev xs gains losses = (gains, losses, prev, xs)

  abbrev pub rsi_value : F → F → F
  rsi_value avg_gain avg_loss =
      if avg_loss =? of_ℕ 0 then of_ℕ 100 else of_ℕ 100 ⊖ of_ℕ 100 ⊘ (of_ℕ 1 ⊕ avg_gain ⊘ avg_loss)

  pub rsi_loop : ℕ → F → F → F → List F → List F
  rsi_loop period prev avg_gain avg_loss [] = []
  rsi_loop period prev avg_gain avg_loss (x ∷ xs) =
      let diff = x ⊖ prev in
      let gain = if of_ℕ 0 <? diff then diff else of_ℕ 0 in
      let loss = if of_ℕ 0 <? diff then of_ℕ 0 else fl.neg diff in
      let avg_gain' = wilder period avg_gain gain in
      let avg_loss' = wilder period avg_loss loss in
      rsi_value avg_gain' avg_loss' ∷ rsi_loop period x avg_gain' avg_loss' xs

  pub rsi_from : ℕ → F × F × F × List F → List F
  rsi_from period (gains, losses, prev, rest) =
      let avg_gain = gains ⊘ of_ℕ period in
      let avg_loss = losses ⊘ of_ℕ period in
      replicate period (of_ℕ 0)
      ++ rsi_value avg_gain avg_loss ∷ rsi_loop period prev avg_gain avg_loss rest

  abbrev rsi_start : ℕ → List F → List F
  rsi_start period [] = []
  rsi_start period (x ∷ xs) = rsi_from period (gains_loop period x xs (of_ℕ 0) (of_ℕ 0))

  unfoldable pub rsi : List F → ℕ → Run (List F)
  unfolding gains_loop rsi_loop rsi_from
  rsi closes period =
      if ltb (length closes) (period + 1) then ok [] else ok (rsi_start period closes)

  unfoldable pub last_rsi : List F → ℕ → Run F
  unfolding rsi
  last_rsi closes period = last_value (rsi closes period)
