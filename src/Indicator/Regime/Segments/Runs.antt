-- ===== src/Indicator/Regime/Segments/Runs.antt =====
-- Neighbouring segments differ in state, and all but the first are two weeks long.
use cryptotips.Indicator.Regime.Segments.Cover.{
  build_segments-Covers, dates_of, Covers, state_eq_iff,
}
use cryptotips.Indicator.Regime.Fuse.{Point}
use cryptotips.Indicator.Regime.Segments.{
  split_runs, build_segments, is_short, merge_when, absorb, is_same, Segment, merge_loop,
}
use cryptotips.Indicator.Regime.Features.{state_eq, State}
use cryptotips.Base.{arith, refl, [], if_rule, ◌∙◌, ◌≡◌, ◌≤◌, ◌∷◌, ◌≢◌, List}
use cryptotips.Float.{Float}

module _ {F : Type 0} ⦃fl : Float F⦄ where
  -- Neighbours differ in state.
  abbrev pub Alternates : List (Segment F) → Type 0
  Alternates (s ∷ t ∷ segs) = (s.state ≢ t.state) × Alternates (t ∷ segs)
  Alternates segs = Unit

  abbrev pub AllLong : List (Segment F) → Type 0
  AllLong [] = Unit
  AllLong (s ∷ segs) = (14 ≤ s.days) × AllLong segs

  -- All but the first.
  abbrev pub RestLong : List (Segment F) → Type 0
  RestLong [] = Unit
  RestLong (s ∷ segs) = AllLong segs

  -- The head of the loop's result has the state that it began with, and that differs from the next.
  abbrev Begins : State → List (Segment F) → Type 0
  Begins st [] = ⊥
  Begins st (s ∷ segs) = (s.state ≡ st) × Alternates (s ∷ segs)

  Alternates-cons :
      (s : Segment F) (st : State) (segs : List (Segment F))
      → s.state ≢ st
      → Begins st segs
      → Alternates (s ∷ segs)
  Alternates-cons s st (t ∷ segs) ne (e, alt) = ((λ q. ne (q ∙ e)), alt)
  Alternates-cons s st [] ne b = elim b [ ]

  merge_same-Begins :
      (last : Segment F) (segs : List (Segment F))
      → Begins last.state (merge_loop is_same last segs)
  unfolding merge_loop
  merge_same-Begins last [] = (refl, tt)
  merge_same-Begins last (s ∷ segs) =
      if_rule (Begins last.state) (state_eq last.state s.state)
        (λ _. merge_same-Begins (absorb last s) segs)
        λ differ. (
          refl,
          Alternates-cons last s.state _ (λ e. cc ((state_eq_iff last.state s.state).1 e))
              (merge_same-Begins s segs),
        )

  Begins-Alternates : (st : State) (segs : List (Segment F)) → Begins st segs → Alternates segs
  Begins-Alternates st (s ∷ segs) b = b.1
  Begins-Alternates st [] b = tt

  -- A short segment is taken in by the one before it.
  merge_short-AllLong :
      (last : Segment F) (segs : List (Segment F))
      → 14 ≤ last.days
      → AllLong (merge_loop is_short last segs)
  unfolding merge_loop
  merge_short-AllLong last [] h = (h, tt)
  merge_short-AllLong last (s ∷ segs) h =
      if_rule AllLong (is_short last s)
        (λ _. merge_short-AllLong (absorb last s) segs (omega arith))
        λ long. (h, merge_short-AllLong s segs (ground arith))

  merge_short-RestLong :
      (last : Segment F) (segs : List (Segment F)) → RestLong (merge_loop is_short last segs)
  unfolding merge_loop
  merge_short-RestLong last [] = tt
  merge_short-RestLong last (s ∷ segs) =
      if_rule RestLong (is_short last s) (λ _. merge_short-RestLong (absorb last s) segs)
        λ long. merge_short-AllLong s segs (ground arith)

  merge_same-AllLong :
      (last : Segment F) (segs : List (Segment F))
      → 14 ≤ last.days
      → AllLong segs
      → AllLong (merge_loop is_same last segs)
  unfolding merge_loop
  merge_same-AllLong last [] h all = (h, tt)
  merge_same-AllLong last (s ∷ segs) h (hs, all) =
      if_rule AllLong (is_same last s)
        (λ _. merge_same-AllLong (absorb last s) segs (omega arith) all)
        λ _. (h, merge_same-AllLong s segs hs all)

  merge_same-RestLong :
      (last : Segment F) (segs : List (Segment F))
      → AllLong segs
      → RestLong (merge_loop is_same last segs)
  unfolding merge_loop
  merge_same-RestLong last [] all = tt
  merge_same-RestLong last (s ∷ segs) (hs, all) =
      if_rule RestLong (is_same last s) (λ _. merge_same-RestLong (absorb last s) segs all)
        λ _. merge_same-AllLong s segs hs all

  merged_twice :
      (segs : List (Segment F))
      → let out = merge_when is_same (merge_when is_short segs) in Alternates out × RestLong out
  unfolding merge_when
  merged_twice [] = (tt, tt)
  merged_twice (s ∷ segs) = from (merge_loop is_short s segs) (merge_short-RestLong s segs)
    where
      from :
          (mid : List (Segment F))
          → RestLong mid
          → Alternates (merge_when is_same mid) × RestLong (merge_when is_same mid)
      from [] r = (tt, tt)
      from (t ∷ mid) r =
          (Begins-Alternates t.state _ (merge_same-Begins t mid), merge_same-RestLong t mid r)

  -- buildSegments cuts the days into consecutive blocks: no day is lost or counted twice, and each
  -- segment has the first and last date of its block and the number of its days. Neighbouring segments
  -- differ in state, and every segment but the first is at least 14 days long.
  pub build_segments-Sound :
      (ps : List (Point F))
      → Covers (dates_of ps) (build_segments ps)
        × Alternates (build_segments ps)
        × RestLong (build_segments ps)
  unfolding build_segments
  build_segments-Sound ps =
      let (alternates, long) = merged_twice (split_runs ps) in
      (build_segments-Covers ps, alternates, long)
