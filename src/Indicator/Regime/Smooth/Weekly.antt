-- ===== src/Indicator/Regime/Smooth/Weekly.antt =====
-- A change of the smoothed weekly state is confirmed by the week behind it.
use cryptotips.Indicator.Regime.Segments.Cover.{state_eq_iff}
use cryptotips.Base.{◌||◌, [], if◌then◌else◌, refl, ◌≢◌, arith, ◌≡◌, ◌∷◌, List}
use cryptotips.Indicator.Regime.Features.{state_eq, State}
use cryptotips.Indicator.Regime.Smooth.{smooth_weeks, smooth_weeks_loop}

-- Behind a week of state `prev`: a week of another state is not the last one, and the next has its
-- state too.
abbrev pub Confirmed : State → List State → Type 0
Confirmed prev [] = Unit
Confirmed prev (a ∷ []) = a ≡ prev
Confirmed prev (a ∷ b ∷ rest) = (a ≢ prev → b ≡ a) × Confirmed a (b ∷ rest)

smooth_weeks_loop-Confirmed :
    (prev : State) (states : List State) → Confirmed prev (smooth_weeks_loop prev states)
unfolding smooth_weeks_loop
smooth_weeks_loop-Confirmed prev [] = tt
smooth_weeks_loop-Confirmed prev (s ∷ []) = ground (arith, state_eq_iff s prev)
smooth_weeks_loop-Confirmed prev (s ∷ t ∷ states) =
    let s' = if state_eq s prev || state_eq t s then s else prev in
    (
      ground (arith, state_eq_iff s prev, state_eq_iff t s, state_eq_iff t s'),
      smooth_weeks_loop-Confirmed s' (t ∷ states),
    )

-- In the smoothed weekly series a state that differs from the week before is never the last one, and
-- the next week has it too.
pub smooth_weeks-Confirmed :
    (s : State) (states : List State)
    → (smooth_weeks (s ∷ states) ≡ s ∷ smooth_weeks_loop s states)
      × Confirmed s (smooth_weeks_loop s states)
unfolding smooth_weeks
smooth_weeks-Confirmed s states = (refl, smooth_weeks_loop-Confirmed s states)
