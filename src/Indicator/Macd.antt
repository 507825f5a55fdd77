-- ===== src/Indicator/Macd.antt =====
-- indicator/macd.go.
use cryptotips.Base.Outcome.{ok, ◌>>=◌, Run}
use cryptotips.Base.{
  drop, ◌||◌, ◌==◌, length, ltb, none, ◌+◌, if◌then◌else◌, some, ◌++◌, replicate, ◌-◌, Option, ℕ,
  List,
}
use cryptotips.Float.{◌⊗◌, ◌⊖◌, of_ℕ, Float}
use cryptotips.Indicator.Series.{last_or, zip_with}
use cryptotips.Indicator.Averages.{ema}

pub record MacdResult (F : Type 0) : Type 0 where
  pub macd : List F
  pub signal : List F
  pub histogram : List F

module _ {F : Type 0} ⦃fl : Float F⦄ where
  abbrev zeros : ℕ → List F
  zeros n = replicate n (of_ℕ 0)

  -- The result from the differences and the signal line, both from index `slow - 1` on.
  abbrev macd_of : ℕ → ℕ → List F → List F → MacdResult F
  macd_of slow signal dif dea = record {
    macd = zeros (slow - 1) ++ dif;
    signal = zeros (slow - 1) ++ dea;
    histogram =
        zeros (slow - 1 + signal - 1)
        ++ zip_with (λ d s. (d ⊖ s) ⊗ of_ℕ 2) (drop (signal - 1) dif) (drop (signal - 1) dea);
  }

  -- The part of MACD behind the two averages; `none` is the nil result.
  abbrev macd_from : ℕ → ℕ → List F → List F → Run (Option (MacdResult F))
  macd_from slow signal fast_line slow_line =
      if length fast_line == 0 || length slow_line == 0 then ok none else (do
        let dif = zip_with ◌⊖◌ (drop (slow - 1) fast_line) (drop (slow - 1) slow_line)
        dea ← ema dif signal
        ok (if length dea == 0 then none else some (macd_of slow signal dif dea)))

  unfoldable pub macd : List F → ℕ → ℕ → ℕ → Run (Option (MacdResult F))
  macd closes fast slow signal = if ltb (length closes) (slow + signal) then ok none else (do
    fast_line ← ema closes fast
    slow_line ← ema closes slow
    macd_from slow signal fast_line slow_line)

  abbrev last_lines : Option (MacdResult F) → F × F × F
  last_lines none = (of_ℕ 0, of_ℕ 0, of_ℕ 0)
  last_lines (some r) =
      (last_or (of_ℕ 0) r.macd, last_or (of_ℕ 0) r.signal, last_or (of_ℕ 0) r.histogram)

  unfoldable pub last_macd : List F → ℕ → ℕ → ℕ → Run (F × F × F)
  unfolding macd
  last_macd closes fast slow signal = macd closes fast slow signal >>= λ r. ok (last_lines r)
