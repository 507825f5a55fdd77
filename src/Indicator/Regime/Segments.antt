-- ===== src/Indicator/Regime/Segments.antt =====
-- buildSegments and ComputeRegimeStartpoints.
pub mod Cover
pub mod Runs
use cryptotips.Indicator.Regime.Smooth.{classify_cp_1w, classify_trend_1d}
use cryptotips.Indicator.Regime.Fuse.{fuse_states, Point}
use cryptotips.Indicator.Regime.Features.{RegimeBar, state_eq, RegimeStartpoint, State, round_to}
use cryptotips.Float.{dec, ◌<?◌, of_ℕ, ◌⊕◌, ◌⊘◌, Float}
use cryptotips.Base.{
  false, true, map, ◌==◌, length, if◌then◌else◌, ◌&&◌, [], ◌||◌, ltb, ◌∷◌, Bool, List, ◌+◌, ℕ,
}

pub record Segment (F : Type 0) : Type 0 where
  pub start : ℕ
  pub finish : ℕ
  pub state : State
  pub confidence : F
  pub days : ℕ

-- A run of equal states that is still open, with the sum of its confidences.
pub record OpenRun (F : Type 0) : Type 0 where
  pub first_date : ℕ
  pub last_date : ℕ
  pub run_state : State
  pub total : F
  pub count : ℕ

module _ {F : Type 0} ⦃fl : Float F⦄ where
  abbrev pub open_run : Point F → OpenRun F
  open_run p = record {
    first_date = p.date;
    last_date = p.date;
    run_state = p.state;
    total = of_ℕ 0 ⊕ p.score;
    count = 1;
  }

  abbrev pub extend_run : OpenRun F → Point F → OpenRun F
  extend_run r p = record r { last_date = p.date; total = r.total ⊕ p.score; count = r.count + 1 }

  abbrev pub close_run : OpenRun F → Segment F
  close_run r = record {
    start = r.first_date;
    finish = r.last_date;
    state = r.run_state;
    confidence = round_to (r.total ⊘ of_ℕ r.count) 3;
    days = r.count;
  }

  -- The first loop: a day of another state closes the run.
  unfoldable pub split_loop : OpenRun F → List (Point F) → List (Segment F)
  split_loop r [] = close_run r ∷ []
  split_loop r (p ∷ ps) =
      let longer = split_loop (extend_run r p) ps in
      let closed = close_run r ∷ split_loop (open_run p) ps in
      if state_eq p.state r.run_state then longer else closed

  unfoldable pub split_runs : List (Point F) → List (Segment F)
  unfolding split_loop
  split_runs [] = []
  split_runs (p ∷ ps) = split_loop (open_run p) ps

  -- `last` takes in the segment behind it.
  abbrev pub absorb : Segment F → Segment F → Segment F
  absorb last s = record last {
    finish = s.finish;
    days = last.days + s.days;
    confidence = round_to ((last.confidence ⊕ s.confidence) ⊘ of_ℕ 2) 3;
  }

  -- A loop that takes a segment into the last one if the test says so, and else appends it.
  unfoldable pub merge_loop :
      (Segment F → Segment F → Bool) → Segment F → List (Segment F) → List (Segment F)
  merge_loop test last [] = last ∷ []
  merge_loop test last (s ∷ segs) =
      let joined = merge_loop test (absorb last s) segs in
      let apart = last ∷ merge_loop test s segs in if test last s then joined else apart

  unfoldable pub merge_when : (Segment F → Segment F → Bool) → List (Segment F) → List (Segment F)
  unfolding merge_loop
  merge_when test [] = []
  merge_when test (s ∷ segs) = merge_loop test s segs

  abbrev pub is_short : Segment F → Segment F → Bool
  is_short last s = ltb s.days 14 || (ltb s.days 21 && (s.confidence <? dec 75 2))

  abbrev pub is_same : Segment F → Segment F → Bool
  is_same last s = state_eq last.state s.state

  unfoldable pub build_segments : List (Point F) → List (Segment F)
  unfolding split_runs merge_when round_to
  build_segments ps = merge_when is_same (merge_when is_short (split_runs ps))

  abbrev startpoint : Segment F → RegimeStartpoint F
  startpoint s = record { time = s.start; state = s.state; confidence = s.confidence }

  unfoldable pub compute_regime_startpoints :
      List (RegimeBar F) → List (RegimeBar F) → List (RegimeStartpoint F)
  unfolding classify_trend_1d classify_cp_1w fuse_states build_segments
  compute_regime_startpoints daily weekly =
      if length daily == 0 || length weekly == 0
      then []
      else map startpoint
          (build_segments (fuse_states (classify_trend_1d daily) (classify_cp_1w weekly)))
