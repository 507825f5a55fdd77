-- ===== src/Indicator/Volume.antt =====
-- indicator/volume_signal.go.
use cryptotips.Base.Outcome.{◌>>=◌, ok, Run}
use cryptotips.Base.{
  ◌+◌, ◌++◌, ◌-◌, min, replicate, leb, [], take, ◌||◌, ◌==◌, ◌∷◌, length, map, suc, List,
  if◌then◌else◌, ℕ,
}
use cryptotips.Float.{◌<?◌, of_ℕ, ◌⊖◌, ◌⊘◌, Float}
use cryptotips.Indicator.Series.{sum, zip_with}
use cryptotips.Indicator.Averages.{ema}
use cryptotips.Indicator.Bands.{squares}

module _ {F : Type 0} ⦃fl : Float F⦄ where
  pub quote_volume_log : List F → List F
  quote_volume_log = map λ v. fl.log (if v <? of_ℕ 1 then of_ℕ 1 else v)

  -- The deviation of one window.
  abbrev window_std : ℕ → List F → F
  window_std period window =
      let mean = sum window ⊘ of_ℕ period in fl.sqrt (squares mean window ⊘ of_ℕ period)

  -- The windows from index `period - 1` on: `count` of them, the first one at the head of `values`.
  unfoldable pub std_loop : ℕ → ℕ → List F → List F
  std_loop period (suc count) (x ∷ values) =
      window_std period (take period (x ∷ values)) ∷ std_loop period count values
  std_loop period count values = []

  unfoldable pub rolling_std : List F → ℕ → List F
  unfolding std_loop
  rolling_std values period =
      if length values == 0 || leb period 1
      then []
      else replicate (min (period - 1) (length values)) (of_ℕ 0)
        ++ std_loop period (length values + 1 - period) values

  abbrev z_value : F → F → F
  z_value dev std = if of_ℕ 0 <? std then dev ⊘ std else of_ℕ 0

  abbrev z_scores : ℕ → List F → List F → List F × List F × List F
  z_scores period log_q ema_log_q =
      let dev = zip_with ◌⊖◌ log_q ema_log_q in
      if length ema_log_q == 0
      then (log_q, [], [])
      else (log_q, ema_log_q, zip_with z_value dev (rolling_std dev period))

  -- The logarithms, their average and the scores.
  unfoldable pub quote_volume_z_score : List F → ℕ → Run (List F × List F × List F)
  unfolding quote_volume_log
  quote_volume_z_score quote_volume period =
      if length quote_volume == 0 || leb period 1
      then ok ([], [], [])
      else (let log_q = quote_volume_log quote_volume in
          ema log_q period >>= λ ema_log_q. ok (z_scores period log_q ema_log_q))
