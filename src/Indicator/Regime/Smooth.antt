-- ===== src/Indicator/Regime/Smooth.antt =====
-- The smoothing loops of classifyTrend1D and classifyCP1W, and the two classifiers.
pub mod Daily
pub mod Weekly
use cryptotips.Indicator.Regime.Classify.{
  zip_votes, day_score, week_score, day_votes, week_votes, verdict, Votes,
}
use cryptotips.Float.{Float}
use cryptotips.Base.{suc, take, ◌||◌, leb, [], false, if◌then◌else◌, map, Bool, ℕ, ◌∷◌, List}
use cryptotips.Indicator.Regime.Features.{
  log_returns, rolling_std, StateSeries, drawdown, state_eq, pct_return, RegimeBar, plain_ema,
  State,
}

-- How many of the states equal `s`.
abbrev pub count_state : State → List State → ℕ
count_state s [] = 0
count_state s (x ∷ xs) = if state_eq x s then suc (count_state s xs) else count_state s xs

-- The daily loop from index 4 on. `before` has the four raw states before the slice, the latest
-- first, and `prev` is the smoothed state before it.
pub smooth_days_loop : List State → State → List State → List State
smooth_days_loop before prev [] = []
smooth_days_loop before prev (s ∷ states) =
    let next = if leb 4 (count_state s (s ∷ before)) then s else prev in
    next ∷ smooth_days_loop (s ∷ take 3 before) next states

unfoldable pub smooth_days : List State → List State
unfolding smooth_days_loop
smooth_days (a ∷ b ∷ c ∷ d ∷ states) =
    a ∷ b ∷ c ∷ d ∷ smooth_days_loop (d ∷ c ∷ b ∷ a ∷ []) d states
smooth_days states = states

-- The next raw state confirms `s`.
abbrev pub confirms : State → List State → Bool
confirms s [] = false
confirms s (next ∷ states) = state_eq next s

-- The weekly loop: `prev` is the smoothed state before the slice.
pub smooth_weeks_loop : State → List State → List State
smooth_weeks_loop prev [] = []
smooth_weeks_loop prev (s ∷ states) =
    let next = if state_eq s prev || confirms s states then s else prev in
    next ∷ smooth_weeks_loop next states

unfoldable pub smooth_weeks : List State → List State
unfolding smooth_weeks_loop
smooth_weeks [] = []
smooth_weeks (s ∷ states) = s ∷ smooth_weeks_loop s states

module _ {F : Type 0} ⦃fl : Float F⦄ where
  abbrev pub closes_of : List (RegimeBar F) → List F
  closes_of = map λ b. b.close

  abbrev pub times_of : List (RegimeBar F) → List ℕ
  times_of = map λ b. b.time

  abbrev pub series_of :
      List (RegimeBar F)
      → (Votes F → F)
      → (List State → List State)
      → List (Votes F)
      → StateSeries F
  series_of bars score smooth votes = record {
    dates = times_of bars;
    score = map score votes;
    state = smooth (map verdict votes);
  }

  unfoldable pub classify_trend_1d : List (RegimeBar F) → StateSeries F
  unfolding plain_ema pct_return drawdown verdict day_votes day_score smooth_days
  classify_trend_1d bars =
      let closes = closes_of bars in
      let ema200 = plain_ema closes 200 in
      series_of bars day_score smooth_days (
        zip_votes day_votes closes ema200 (pct_return ema200 20) (pct_return closes 90)
          (pct_return closes 180) (drawdown closes 365))

  unfoldable pub classify_cp_1w : List (RegimeBar F) → StateSeries F
  unfolding plain_ema pct_return drawdown rolling_std verdict week_votes week_score smooth_weeks
  classify_cp_1w bars =
      let closes = closes_of bars in
      let ema52 = plain_ema closes 52 in
      series_of bars week_score smooth_weeks (
        zip_votes week_votes closes ema52 (pct_return ema52 8) (pct_return closes 26)
          (drawdown closes 52) (rolling_std (log_returns closes) 8))
