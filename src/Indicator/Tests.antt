-- ===== src/Indicator/Tests.antt =====
-- Runs and examples, on fixed-point numbers.
use cryptotips.Base.Outcome.{ok, panic, Returns}
use cryptotips.Float.{of_ℕ, dec}
use cryptotips.Base.{ℕ, ◌≤◌, arith, refl, ◌++◌, ◌<◌, ◌⊎◌, [], length, map, List, ◌∷◌, ◌≡◌}
use cryptotips.Float.Fixed.{Fixed, fixed_float}
use cryptotips.Indicator.Averages.{ema, sma, window_sums}
use cryptotips.Indicator.Averages.Recurrence.{ema-IsEma, IsEma, sma-Slides, Slides}
use cryptotips.Indicator.Atr.{atr}
use cryptotips.Indicator.Atr.Recurrence.{atr-IsAtr, IsAtr, AtrInput}
use cryptotips.Indicator.Regime.Features.{State, bull, bear, range}
use cryptotips.Indicator.Regime.Fuse.{Point, point, settle, settle_loop, expand_weekly_to_daily}
use cryptotips.Indicator.Regime.Fuse.Blips.{settle-Settled, Settled}
use cryptotips.Indicator.Regime.Fuse.Weeks.{expand-eq-latest, latest}
use cryptotips.Indicator.Regime.Smooth.{smooth_days, smooth_weeks, smooth_weeks_loop}
use cryptotips.Indicator.Regime.Smooth.Daily.{smooth_days-Persists, Persists}
use cryptotips.Indicator.Regime.Smooth.Weekly.{smooth_weeks-Confirmed, Confirmed}
use cryptotips.Indicator.Regime.Segments.{
  build_segments, merge_when, split_runs, split_loop, merge_loop,
}
use cryptotips.Indicator.Regime.Segments.Cover.{Covers, dates_of}
use cryptotips.Indicator.Regime.Segments.Runs.{build_segments-Sound, Alternates, RestLong}

abbrev closes : List Fixed
closes = of_ℕ 1 ∷ of_ℕ 3 ∷ of_ℕ 5 ∷ of_ℕ 4 ∷ []

abbrev highs : List Fixed
highs = of_ℕ 2 ∷ of_ℕ 4 ∷ of_ℕ 6 ∷ of_ℕ 5 ∷ []

abbrev lows : List Fixed
lows = of_ℕ 1 ∷ of_ℕ 2 ∷ of_ℕ 4 ∷ of_ℕ 3 ∷ []

sma-closes : sma closes 2 ≡ ok (of_ℕ 0 ∷ of_ℕ 2 ∷ of_ℕ 4 ∷ dec 45 1 ∷ [])
unfolding sma window_sums cryptotips.Base.Int.◌+ℤ◌ cryptotips.Base.Int.◌-ℤ◌
sma-closes = refl

sma_panics : sma closes 0 ≡ panic
unfolding sma
sma_panics = refl

ema-IsEma_example :
    Returns
      (λ out. ((length closes < 2) × (out ≡ [])) ⊎ ((2 ≤ length closes) × IsEma closes 2 out))
      (ema closes 2)
ema-IsEma_example = ema-IsEma closes 2 (omega arith)

sma-Slides_example :
    Returns
      (λ out.
        ((length closes < 2) × (out ≡ []))
        ⊎ ((2 ≤ length closes) × Slides closes 2 (window_sums closes 2) out))
      (sma closes 2)
sma-Slides_example = sma-Slides closes 2 (omega arith)

atr-IsAtr_example :
    Returns
      (λ out.
        ((¬ AtrInput highs lows closes 2) × (out ≡ []))
        ⊎ (AtrInput highs lows closes 2 × IsAtr highs lows closes 2 out))
      (atr highs lows closes 2)
atr-IsAtr_example = atr-IsAtr highs lows closes 2 (omega arith)

-- Five bull days, a short bear run and bulls again.
abbrev fused : List (Point Fixed)
fused =
    map (λ d. point d bull (dec 8 1)) (1 ∷ 2 ∷ 3 ∷ 4 ∷ 5 ∷ [])
    ++ map (λ d. point d bear (dec 6 1)) (6 ∷ 7 ∷ [])
    ++ map (λ d. point d bull (dec 8 1)) (8 ∷ 9 ∷ [])

segments_run :
    map {B = ℕ × ℕ × State × ℕ} (λ s. (s.start, s.finish, s.state, s.days)) (build_segments fused)
    ≡ (1, 9, bull, 9) ∷ []
unfolding build_segments merge_when split_runs split_loop merge_loop
segments_run = refl

build_segments-Sound_example :
    Covers (dates_of fused) (build_segments fused)
    × Alternates (build_segments fused)
    × RestLong (build_segments fused)
build_segments-Sound_example = build_segments-Sound fused

abbrev raw : List State
raw = bear ∷ bear ∷ bear ∷ bear ∷ range ∷ bear ∷ []

smooth_days_run :
    smooth_days (bull ∷ bull ∷ bull ∷ bear ∷ raw)
    ≡ bull ∷ bull ∷ bull ∷ bear ∷ bear ∷ bear ∷ bear ∷ bear ∷ bear ∷ bear ∷ []
unfolding smooth_days
smooth_days_run = refl

smooth_days-Persists_example :
    (rest : List State) × (smooth_days (bull ∷ bull ∷ bull ∷ bull ∷ raw)
      ≡ bull ∷ bull ∷ bull ∷ bull ∷ rest)
    × (length rest ≡ length raw)
    × Persists bull rest
smooth_days-Persists_example = smooth_days-Persists bull bull bull bull raw

smooth_weeks-Confirmed_example :
    (smooth_weeks (bull ∷ raw) ≡ bull ∷ smooth_weeks_loop bull raw)
    × Confirmed bull (smooth_weeks_loop bull raw)
smooth_weeks-Confirmed_example = smooth_weeks-Confirmed bull raw

abbrev monday : Point Fixed
monday = point 10 bull (dec 5 1)

abbrev later_weeks : List (Point Fixed)
later_weeks = point 17 bear (dec 5 1) ∷ point 24 range (dec 5 1) ∷ []

expand-eq-latest_example :
    expand_weekly_to_daily (monday ∷ later_weeks) (8 ∷ 12 ∷ 17 ∷ 30 ∷ [])
    ≡ map (λ d. latest d monday later_weeks) (8 ∷ 12 ∷ 17 ∷ 30 ∷ [])
expand-eq-latest_example =
    expand-eq-latest monday later_weeks (8 ∷ 12 ∷ 17 ∷ 30 ∷ []) (omega arith) (omega arith)

settle-Settled_example :
    (settle (monday ∷ later_weeks) ≡ monday ∷ settle_loop bull later_weeks)
    × Settled bull (settle_loop bull later_weeks)
settle-Settled_example = settle-Settled monday later_weeks
