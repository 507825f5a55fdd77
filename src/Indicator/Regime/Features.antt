-- ===== src/Indicator/Regime/Features.antt =====
-- The data of indicator/regime_startpoints.go and the series that its classifiers read. A time is a
-- number of nanoseconds; `After` is `<` of the two times the other way round.
use cryptotips.Indicator.Series.{scan, zip_with}
use cryptotips.Indicator.Volume.{std_loop}
use cryptotips.Float.{◌⊕◌, ◌⊖◌, ◌⊗◌, ◌<?◌, ◌⊘◌, of_ℕ, Float}
use cryptotips.Base.{
  take, ◌++◌, [], length, ◌-◌, false, foldl, min, ◌+◌, ◌^◌, drop, if◌then◌else◌, replicate, true,
  ◌∷◌, Bool, List, ℕ,
}

-- `unset` is the empty string, which stands where there are no weekly bars.
pub data State : Type 0 where
  bull bear range unset : State

abbrev pub state_eq : State → State → Bool
state_eq bull bull = true
state_eq bear bear = true
state_eq range range = true
state_eq unset unset = true
state_eq _ _ = false

pub record RegimeBar (F : Type 0) : Type 0 where
  pub time : ℕ
  pub close : F

pub record RegimeStartpoint (F : Type 0) : Type 0 where
  pub time : ℕ
  pub state : State
  pub confidence : F

-- dayFeatures and weekFeatures, in the fields that the later stages read.
pub record StateSeries (F : Type 0) : Type 0 where
  pub dates : List ℕ
  pub score : List F
  pub state : List State

module _ {F : Type 0} ⦃fl : Float F⦄ where
  -- The function `ema` of this file, which is not EMA: it begins with the first value.
  unfoldable pub plain_ema : List F → ℕ → List F
  plain_ema [] period = []
  plain_ema (x ∷ xs) period =
      let alpha = of_ℕ 2 ⊘ (of_ℕ period ⊕ of_ℕ 1) in
      x ∷ scan (λ prev v. alpha ⊗ v ⊕ (of_ℕ 1 ⊖ alpha) ⊗ prev) x xs

  -- `values[i]/values[i-lookback] - 1`, or 0 without a positive value there. The lists begin at index
  -- `lookback` and at index 0.
  abbrev pub change_of : F → F → F
  change_of now before = if of_ℕ 0 <? before then now ⊘ before ⊖ of_ℕ 1 else of_ℕ 0

  -- pctReturn, and the slopes of the averages.
  unfoldable pub pct_return : List F → ℕ → List F
  pct_return values lookback =
      replicate (min lookback (length values)) (of_ℕ 0)
      ++ zip_with change_of (drop lookback values) values

  abbrev pub higher : F → F → F
  higher hh v = if hh <? v then v else hh

  -- The highest value of a window; the window is not empty.
  abbrev pub highest : List F → F
  highest [] = of_ℕ 0
  highest (x ∷ xs) = foldl higher x xs

  abbrev pub fall_of : F → F → F
  fall_of hh v = if of_ℕ 0 <? hh then (hh ⊖ v) ⊘ hh else of_ℕ 0

  -- The window of index `i` has the last `lookback` values of the first `i + 1`.
  abbrev pub window_at : List F → ℕ → ℕ → List F
  window_at values lookback i = drop (i + 1 - lookback) (take (i + 1) values)

  unfoldable pub drawdown_loop : List F → ℕ → ℕ → List F → List F
  drawdown_loop values lookback i [] = []
  drawdown_loop values lookback i (v ∷ vs) =
      fall_of (highest (window_at values lookback i)) v ∷ drawdown_loop values lookback (i + 1) vs

  unfoldable pub drawdown : List F → ℕ → List F
  unfolding drawdown_loop
  drawdown values lookback = drawdown_loop values lookback 0 values

  -- rollingStd of this file: the windows from index `window - 1` on are those of RollingStd, at any
  -- width of at least 1.
  unfoldable pub rolling_std : List F → ℕ → List F
  unfolding std_loop
  rolling_std values window =
      replicate (min (window - 1) (length values)) (of_ℕ 0)
      ++ std_loop window (length values + 1 - window) values

  abbrev pub log_return : F → F → F
  log_return now before = if of_ℕ 0 <? before then fl.log (now ⊘ before) else of_ℕ 0

  -- The returns of the weeks; the first one is 0.
  abbrev pub log_returns : List F → List F
  log_returns [] = []
  log_returns (x ∷ xs) = of_ℕ 0 ∷ zip_with log_return xs (x ∷ xs)

  unfoldable pub state_to_num : State → F
  state_to_num bull = of_ℕ 1
  state_to_num bear = fl.neg (of_ℕ 1)
  state_to_num _ = of_ℕ 0

  unfoldable pub clamp : F → F → F → F
  clamp v lo hi = if v <? lo then lo else if hi <? v then hi else v

  -- roundTo, with the power of ten that `math.Pow` gives.
  unfoldable pub round_to : F → ℕ → F
  round_to v digits = let mul = of_ℕ (10 ^ digits) in fl.round (v ⊗ mul) ⊘ mul
