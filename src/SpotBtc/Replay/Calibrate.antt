-- ===== src/SpotBtc/Replay/Calibrate.antt =====
-- strategies/spot_btc_conservative_v1/regime_calibration.go and replay.go: the choice of a timeframe
-- and its parameters, and the choice of the loop for a profile.
pub mod Total
pub mod Profiles
use cryptotips.SpotBtc.Replay.Basic.{run_basic_replay}
use cryptotips.SpotBtc.Replay.V10.{run_v10_replay}
use cryptotips.SpotBtc.Strategy.{day_ns}
use cryptotips.SpotBtc.Replay.V9.{run_v9_replay}
use cryptotips.SpotBtc.Replay.V11.Loop.{run_v11_replay, is_v13_name}
use cryptotips.SpotBtc.Replay.Candles.{last_kline, aggregate_1d_to_1w}
use cryptotips.SpotBtc.Replay.V8.{run_v8_replay}
use cryptotips.SpotBtc.Replay.V6.{run_v6_replay}
use cryptotips.SpotBtc.Config.{Config}
use cryptotips.SpotBtc.Replay.Labels.{default_labels, no_eval, FuzzyLabel}
use cryptotips.Base.Texts.{same_text}
use cryptotips.SpotBtc.Replay.Points.{classify_series, Confirm, ClassPoint, RegimeCalibParams}
use cryptotips.SpotBtc.Replay.Times.{day_key}
use cryptotips.Models.{KlineRecord}
use cryptotips.SpotBtc.Replay.Search.{
  should_prefer_weekly, Search, calibrate_on_bars, CalibCandidate,
}
use cryptotips.Float.{◌<?◌, dec, of_ℕ, ◌⊘◌, ◌⊕◌, Float}
use cryptotips.SpotBtc.Replay.{regime_eq, MarketRegime}
use cryptotips.SpotBtc.Replay.Ledger.{ReplayResult}
use Prim.Native.String.{String}
use cryptotips.Base.{
  ◌==◌, ◌&&◌, [], length, ◌++◌, ltb, take, ◌*◌, ◌||◌, if◌then◌else◌, ◌-◌, ◌∷◌, Bool, List, ℕ,
}
use cryptotips.Base.Outcome.{ok, Run, ◌>>=◌}

-- The days of a segment are keys such as 20060102.
pub record RegimeSegment (F : Type 0) : Type 0 where
  pub segment_start : ℕ
  pub segment_end : ℕ
  pub segment_regime : MarketRegime
  pub segment_confidence : F
  pub segment_score : F

pub record RegimeCalibrationReport (F : Type 0) : Type 0 where
  pub version : String
  pub selected_timeframe : String
  pub daily_best : CalibCandidate F
  pub weekly_best : CalibCandidate F
  pub top_candidates : List (CalibCandidate F)
  pub daily_segments : List (RegimeSegment F)
  pub weekly_segments : List (RegimeSegment F)
  pub selected_segments : List (RegimeSegment F)
  pub selected_label_score : F
  pub segment_scores : List (FuzzyLabel × F)

-- The results of calibrateRegime; the report is written to a file afterwards.
pub data CalibResult (F : Type 0) : Type 0 where
  too_few_days : ℕ → CalibResult F
  no_daily_candidate : CalibResult F
  calibrated : RegimeCalibrationReport F → CalibResult F

-- The results of runProfileReplayInRange.
pub data ProfileResult (F : Type 0) : Type 0 where
  replayed : ReplayResult F → ProfileResult F
  not_calibrated : CalibResult F → ProfileResult F

abbrev pub is_v11_name : String → Bool
is_v11_name name =
    same_text name "v11"
    || same_text name "v11_a"
    || same_text name "v11_b"
    || same_text name "v12"
    || same_text name "v12_a"
    || same_text name "v12_b"
    || is_v13_name name

module _ {F : Type 0} ⦃fl : Float F⦄ where
  abbrev pub filter_bars_by_time : List (KlineRecord F) → ℕ → List (KlineRecord F)
  filter_bars_by_time [] start = []
  filter_bars_by_time (b ∷ bs) start =
      let rest = filter_bars_by_time bs start in if ltb b.open_time start then rest else b ∷ rest

  -- The sums since the segment began, with its first point.
  abbrev pub segments_from :
      ClassPoint F
      → (conf score cnt : F) → ClassPoint F
      → List (ClassPoint F)
      → List (RegimeSegment F)
  segments_from first conf score cnt p [] =
      record {
        segment_start = day_key first.time;
        segment_end = day_key p.time;
        segment_regime = p.regime;
        segment_confidence = (conf ⊕ p.confidence) ⊘ (cnt ⊕ of_ℕ 1);
        segment_score = (score ⊕ p.score) ⊘ (cnt ⊕ of_ℕ 1);
      }
      ∷ []
  segments_from first conf score cnt p (q ∷ qs) =
      let longer =
        segments_from first (conf ⊕ p.confidence) (score ⊕ p.score) (cnt ⊕ of_ℕ 1) q qs in
      let fresh = segments_from q (of_ℕ 0) (of_ℕ 0) (of_ℕ 0) q qs in
      if regime_eq q.regime p.regime
      then longer
      else record {
        segment_start = day_key first.time;
        segment_end = day_key p.time;
        segment_regime = p.regime;
        segment_confidence = (conf ⊕ p.confidence) ⊘ (cnt ⊕ of_ℕ 1);
        segment_score = (score ⊕ p.score) ⊘ (cnt ⊕ of_ℕ 1);
      }
        ∷ fresh

  -- buildSegments of regime_calibration.go
  unfoldable pub regime_segments : List (ClassPoint F) → List (RegimeSegment F)
  unfolding day_key
  regime_segments [] = []
  regime_segments (p ∷ ps) = segments_from p (of_ℕ 0) (of_ℕ 0) (of_ℕ 0) p ps

  -- Whether the weeks are taken instead of the days.
  abbrev pub takes_weekly : Bool → Search F → Search F → Bool
  takes_weekly is_v7_1 daily weekly =
      should_prefer_weekly daily.best
      || (ltb 0 (length weekly.cands)
          && ((daily.best.objective ⊕ dec 5 2 <? weekly.best.objective)
              || (is_v7_1 && (daily.best.label_score ⊕ dec 3 2 <? weekly.best.label_score))))

  abbrev pub calib_start : KlineRecord F → KlineRecord F → ℕ
  calib_start first last =
      let from = last.open_time - 1080 * day_ns in
      if ltb from first.open_time then first.open_time else from

  abbrev pub enough_weeks : List (KlineRecord F) → List (KlineRecord F)
  enough_weeks weeks = if ltb (length weeks) 120 then [] else weeks

  abbrev pub report_of :
      (List (CalibCandidate F) → List (CalibCandidate F))
      → String
      → Search F
      → Search F
      → List (RegimeSegment F)
      → List (RegimeSegment F)
      → RegimeCalibrationReport F
  report_of by_objective name daily weekly daily_segs weekly_segs =
      let selected =
        if takes_weekly (same_text name "v7_1") daily weekly then weekly.best else daily.best in
      record {
        version = name;
        selected_timeframe = selected.cand_timeframe;
        daily_best = daily.best;
        weekly_best = weekly.best;
        top_candidates = take 12 (by_objective (daily.cands ++ weekly.cands));
        daily_segments = daily_segs;
        weekly_segments = weekly_segs;
        selected_segments =
            if same_text selected.cand_timeframe "1w" then weekly_segs else daily_segs;
        selected_label_score = selected.label_score;
        segment_scores = daily.best_eval.per_segment;
      }

  abbrev pub calib_to_params : RegimeCalibrationReport F → RegimeCalibParams F
  calib_to_params r =
      if same_text r.selected_timeframe "1w"
      then r.weekly_best.cand_params
      else r.daily_best.cand_params

  -- What the orders of a map and of sort.Slice leave open is an argument.
  module _ (in_order : List F → List F)
      (by_objective : List (CalibCandidate F) → List (CalibCandidate F)) where
    -- The search on the weeks, if there are enough of them.
    unfoldable pub weekly_search :
        Search F
        → List (KlineRecord F)
        → List (KlineRecord F)
        → List (KlineRecord F)
        → ℕ
        → Config F
        → List FuzzyLabel
        → Bool
        → Run (Search F)
    unfolding calibrate_on_bars
    weekly_search daily w1 day_data h4_data start cfg labels use_fuzzy =
        if ltb 0 (length w1)
        then calibrate_on_bars in_order "1w" w1 day_data h4_data start cfg labels use_fuzzy
            by_objective
        else ok (record { cands = []; best = daily.best; best_eval = no_eval })

    -- The error of saveCalibrationReport, which writes the report to a file, is left out.
    unfoldable pub calibrate_from :
        KlineRecord F
        → List (KlineRecord F)
        → List (KlineRecord F)
        → Config F
        → ℕ
        → String
        → Run (CalibResult F)
    unfolding weekly_search calibrate_on_bars aggregate_1d_to_1w classify_series regime_segments
    calibrate_from first day_data h4_data cfg start name = do
      last ← last_kline day_data
      let d1 = filter_bars_by_time day_data (calib_start first last)
      let w1 = enough_weeks (aggregate_1d_to_1w d1)
      let labels = default_labels last.open_time
      let fuzzy = same_text name "v7_1"
      daily ←
          calibrate_on_bars in_order "1d" d1 day_data h4_data start cfg labels fuzzy by_objective
      if length daily.cands == 0 then ok no_daily_candidate else (do
        weekly ← weekly_search daily w1 day_data h4_data start cfg labels fuzzy
        daily_points ← classify_series d1 daily.best.cand_params
        weekly_points ← classify_series w1 weekly.best.cand_params
        ok (
            calibrated (
              report_of by_objective name daily weekly (regime_segments daily_points)
                (regime_segments weekly_points))))

    unfoldable pub calibrate_regime :
        List (KlineRecord F) → List (KlineRecord F) → Config F → ℕ → String → Run (CalibResult F)
    unfolding calibrate_from
    calibrate_regime [] h4_data cfg start name = ok (too_few_days 0)
    calibrate_regime (first ∷ days) h4_data cfg start name =
        let day_data = first ∷ days in
        if ltb (length day_data) 450
        then ok (too_few_days (length day_data))
        else calibrate_from first day_data h4_data cfg start name

    -- v8 and v9 with the parameters of a report.
    abbrev pub run_calibrated :
        String
        → Config F
        → List (KlineRecord F)
        → List (KlineRecord F)
        → ℕ
        → ℕ
        → CalibResult F
        → Run (ProfileResult F)
    run_calibrated name cfg day_data h4_data start end (calibrated r) =
        (if same_text name "v9"
          then run_v9_replay in_order cfg day_data h4_data start end (calib_to_params r)
          else run_v8_replay in_order cfg day_data h4_data start end (calib_to_params r))
        >>= λ s. ok (replayed s)
    run_calibrated name cfg day_data h4_data start end e = ok (not_calibrated e)

    unfoldable pub run_profile_replay_in_range :
        Config F
        → String
        → List (KlineRecord F)
        → List (KlineRecord F)
        → ℕ
        → ℕ
        → Run (ProfileResult F)
    unfolding run_v6_replay run_v8_replay run_v9_replay run_v10_replay run_v11_replay
        run_basic_replay calibrate_regime
    run_profile_replay_in_range cfg name day_data h4_data start end =
        if same_text name "v6"
        then run_v6_replay in_order cfg day_data h4_data start >>= (λ s. ok (replayed s))
        else if same_text name "v8" || same_text name "v9"
        then calibrate_regime day_data h4_data cfg start "v7_1"
          >>= (λ r. run_calibrated name cfg day_data h4_data start end r)
        else if same_text name "v10"
        then run_v10_replay in_order cfg day_data h4_data start end >>= (λ s. ok (replayed s))
        else if is_v11_name name
        then run_v11_replay in_order cfg name day_data h4_data start end >>= (λ s. ok (replayed s))
        else run_basic_replay in_order cfg name day_data h4_data start end
          >>= (λ s. ok (replayed s))
