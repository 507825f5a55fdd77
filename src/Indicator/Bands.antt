-- ===== src/Indicator/Bands.antt =====
-- indicator/bollinger.go.
use cryptotips.Base.Outcome.{ok, ◌>>=◌, Run}
use cryptotips.Base.{
  take, ◌∷◌, [], length, ◌++◌, ltb, none, replicate, if◌then◌else◌, some, ◌-◌, drop, Option, foldl,
  ℕ, List,
}
use cryptotips.Float.{◌⊗◌, ◌⊖◌, of_ℕ, ◌⊕◌, ◌⊘◌, Float}
use cryptotips.Indicator.Series.{zip_with, last_or}
use cryptotips.Indicator.Averages.{sma}

pub record BollingerResult (F : Type 0) : Type 0 where
  pub middle : List F
  pub upper : List F
  pub lower : List F

module _ {F : Type 0} ⦃fl : Float F⦄ where
  -- The sum of the squares of the distances to `mean`, from the left.
  abbrev pub squares : F → List F → F
  squares mean = foldl (λ total x. total ⊕ (x ⊖ mean) ⊗ (x ⊖ mean)) (of_ℕ 0)

  abbrev pub std_dev : ℕ → F → List F → F
  std_dev period mean window = fl.sqrt (squares mean window ⊘ of_ℕ period)

  -- The deviations along the means: the window of the first mean begins `closes`.
  pub deviations : ℕ → List F → List F → List F
  deviations period (mean ∷ means) (x ∷ closes) =
      std_dev period mean (take period (x ∷ closes)) ∷ deviations period means closes
  deviations period means closes = []

  abbrev bands_of : List F → ℕ → F → List F → BollingerResult F
  bands_of closes period k middle =
      let means = drop (period - 1) middle in
      let devs = deviations period means closes in
      record {
        middle = middle;
        upper = replicate (period - 1) (of_ℕ 0) ++ zip_with (λ mean dev. mean ⊕ k ⊗ dev) means devs;
        lower = replicate (period - 1) (of_ℕ 0) ++ zip_with (λ mean dev. mean ⊖ k ⊗ dev) means devs;
      }

  -- `none` is the nil result.
  unfoldable pub bollinger : List F → ℕ → F → Run (Option (BollingerResult F))
  unfolding sma deviations
  bollinger closes period k =
      if ltb (length closes) period
      then ok none
      else sma closes period >>= λ middle. ok (some (bands_of closes period k middle))

  abbrev last_bands : Option (BollingerResult F) → F × F × F
  last_bands none = (of_ℕ 0, of_ℕ 0, of_ℕ 0)
  last_bands (some r) =
      (last_or (of_ℕ 0) r.upper, last_or (of_ℕ 0) r.middle, last_or (of_ℕ 0) r.lower)

  -- Upper, middle and lower.
  unfoldable pub last_bollinger : List F → ℕ → F → Run (F × F × F)
  unfolding bollinger
  last_bollinger closes period k = bollinger closes period k >>= λ r. ok (last_bands r)
