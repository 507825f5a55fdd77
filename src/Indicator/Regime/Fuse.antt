-- ===== src/Indicator/Regime/Fuse.antt =====
-- expandWeeklyToDaily and fuseStates.
pub mod Blips
pub mod Weeks
use cryptotips.Indicator.Series.{zip_with}
use cryptotips.Indicator.Regime.Features.{
  range, bear, bull, state_eq, clamp, State, StateSeries, state_to_num, unset,
}
use cryptotips.Float.{◌≤?◌, ◌⊘◌, ◌⊖◌, of_ℕ, ◌⊕◌, ◌⊗◌, dec, Float}
use cryptotips.Base.{◌&&◌, [], leb, length, if◌then◌else◌, not, replicate, ◌∷◌, Bool, List, ℕ}

-- One week, or one day, of a classified series.
pub record Point (F : Type 0) : Type 0 where
  pub date : ℕ
  pub state : State
  pub score : F

module _ {F : Type 0} ⦃fl : Float F⦄ where
  abbrev pub point : ℕ → State → F → Point F
  point d s x = record { date = d; state = s; score = x }

  -- The dates, states and scores of a series, side by side.
  abbrev pub points : StateSeries F → List (Point F)
  points f = zip_with (λ h x. h x) (zip_with point f.dates f.state) f.score

  -- The inner loop: the week at the index, and those behind it. A week is passed on to unless it is
  -- after the day.
  pub advance : ℕ → Point F → List (Point F) → Point F × List (Point F)
  advance day week [] = (week, [])
  advance day week (next ∷ weeks) =
      if leb next.date day then advance day next weeks else (week, next ∷ weeks)

  pub expand_loop : Point F × List (Point F) → List ℕ → List (Point F)
  expand_loop at_index [] = []
  expand_loop (week, weeks) (day ∷ days) =
      let moved = advance day week weeks in moved.0 ∷ expand_loop moved days

  abbrev pub no_week : Point F
  no_week = record { date = 0; state = unset; score = of_ℕ 0 }

  -- The week that serves each day; its state and score are the results.
  unfoldable pub expand_weekly_to_daily : List (Point F) → List ℕ → List (Point F)
  unfolding expand_loop advance
  expand_weekly_to_daily [] days = replicate (length days) no_week
  expand_weekly_to_daily (week ∷ weeks) days = expand_loop (week, weeks) days

  abbrev pub weight_of : F → F
  weight_of score = dec 6 1 ⊕ dec 4 1 ⊗ fl.math_min (of_ℕ 1) (fl.abs score)

  abbrev pub combined_of : F → F → F
  combined_of v1 v2 = dec 55 2 ⊗ v1 ⊕ dec 45 2 ⊗ v2

  abbrev pub confidence_of : Bool → F → F → F → F
  confidence_of agree combined v1 v2 =
      let agreement = if agree then of_ℕ 1 else of_ℕ 0 in
      clamp
        (dec 40 2
          ⊕ dec 30 2 ⊗ agreement
          ⊕ dec 20 2 ⊗ fl.math_min (of_ℕ 1) (fl.abs combined)
          ⊕ dec 10 2 ⊗ (of_ℕ 1 ⊖ fl.abs (v1 ⊖ v2) ⊘ of_ℕ 2))
        (dec 5 2) (dec 99 2)

  -- The body of the first loop; the score of the result is the confidence.
  unfoldable pub fuse_point : Point F → Point F → Point F
  unfolding state_to_num clamp
  fuse_point day week =
      let v1 = state_to_num day.state ⊗ weight_of day.score in
      let v2 = state_to_num week.state ⊗ weight_of week.score in
      let combined = combined_of v1 v2 in
      let agree = state_eq day.state week.state in
      point day.date
        (if dec 22 2 ≤? combined
          then bull
          else if combined ≤? fl.neg (dec 22 2)
          then bear
          else range)
        (confidence_of agree combined v1 v2)

  -- A day between two days of another state.
  abbrev pub is_blip : State → Point F → Point F → Bool
  is_blip prev x y = not (state_eq x.state prev) && state_eq y.state prev

  abbrev pub settle_point : State → Point F → Point F → Point F
  settle_point prev x y =
      if is_blip prev x y then point x.date prev (fl.math_min x.score (dec 62 2)) else x

  -- The second loop from index 1 on, up to the last two days; `prev` is the state before the slice.
  pub settle_loop : State → List (Point F) → List (Point F)
  settle_loop prev (x ∷ y ∷ z ∷ rest) =
      let x' = settle_point prev x y in x' ∷ settle_loop x'.state (y ∷ z ∷ rest)
  settle_loop prev rest = rest

  unfoldable pub settle : List (Point F) → List (Point F)
  unfolding settle_loop
  settle [] = []
  settle (x ∷ rest) = x ∷ settle_loop x.state rest

  unfoldable pub fuse_states : StateSeries F → StateSeries F → List (Point F)
  unfolding expand_weekly_to_daily fuse_point settle
  fuse_states dayf weekf =
      settle (zip_with fuse_point (points dayf) (expand_weekly_to_daily (points weekf) dayf.dates))
