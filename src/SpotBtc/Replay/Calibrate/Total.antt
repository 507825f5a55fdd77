-- ===== src/SpotBtc/Replay/Calibrate/Total.antt =====
-- Neither the calibration nor the choice of the loop panics.
use cryptotips.SpotBtc.Replay.Answers.Basic.{run_basic_replay-Total}
use cryptotips.SpotBtc.Replay.Answers.Profiles.{run_v11_replay-Total}
use cryptotips.SpotBtc.Replay.Points.Classified.{classify_series-length}
use cryptotips.SpotBtc.Replay.Candles.{aggregate_1d_to_1w}
use cryptotips.SpotBtc.Replay.V8.Answer.{run_v8_replay-Answers}
use cryptotips.SpotBtc.Replay.Search.Best.{search_over-Returns}
use cryptotips.SpotBtc.Replay.Answers.Others.{run_v10_replay-Total, run_v9_replay-Total}
use cryptotips.SpotBtc.Replay.Answers.V6.{run_v6_replay-Total}
use cryptotips.Base.Texts.{same_text}
use cryptotips.SpotBtc.Replay.Labels.{default_labels, FuzzyLabel}
use cryptotips.Models.{KlineRecord}
use Prim.Native.String.{String}
use cryptotips.SpotBtc.Replay.Ledger.{ReplayResult}
use cryptotips.Base.Outcome.{Returns-map, Returns-bind, Returns-if, ok, value, ◌>>=◌, Run}
use cryptotips.SpotBtc.Replay.Calibrate.{
  no_daily_candidate, enough_weeks, too_few_days, calib_start, filter_bars_by_time, is_v11_name,
  calib_to_params, calibrated, replayed, run_calibrated, CalibResult, run_profile_replay_in_range,
  calibrate_from, calibrate_regime, weekly_search,
}
use cryptotips.SpotBtc.Signal.Safe.{index-Total, Total, HasPeriods}
use cryptotips.SpotBtc.Config.{Config}
use cryptotips.SpotBtc.Replay.Search.{search_start, grid, Search, calibrate_on_bars, CalibCandidate}
use cryptotips.Float.{Float}
use cryptotips.Base.{[], ◌==◌, arith, ◌||◌, length, ltb, Bool, ◌∷◌, ◌<◌, ◌+◌, ◌≤◌, List, ℕ}

module _ {F : Type 0} ⦃fl : Float F⦄ (in_order : List F → List F)
    (by_objective : List (CalibCandidate F) → List (CalibCandidate F)) (cfg : Config F)
    (periods : HasPeriods cfg) where
  calibrate_on_bars-Total :
      (tf : String) (bars day_data h4_data : List (KlineRecord F)) (start : ℕ)
      (labels : List FuzzyLabel) (use_fuzzy : Bool)
      → Total (
          calibrate_on_bars in_order tf bars day_data h4_data start cfg labels use_fuzzy
            by_objective)
  unfolding calibrate_on_bars
  calibrate_on_bars-Total tf bars day_data h4_data start labels use_fuzzy =
      Returns-if (ltb (length bars) 80) (λ _. value tt)
        λ _.
          Returns-bind
            (search_over-Returns (λ _. Unit {0}) (λ _ _ _ _. tt) in_order tf bars day_data h4_data
              start cfg labels use_fuzzy grid search_start periods tt)
            λ _ _. value tt

  weekly_search-Total :
      (daily : Search F) (w1 day_data h4_data : List (KlineRecord F)) (start : ℕ)
      (labels : List FuzzyLabel) (use_fuzzy : Bool)
      → Total
          (weekly_search in_order by_objective daily w1 day_data h4_data start cfg labels use_fuzzy)
  unfolding weekly_search
  weekly_search-Total daily w1 day_data h4_data start labels use_fuzzy =
      Returns-if (ltb 0 (length w1))
        (λ _. calibrate_on_bars-Total "1w" w1 day_data h4_data start labels use_fuzzy) λ _. value tt

  pub calibrate_regime-Total :
      (day_data h4_data : List (KlineRecord F)) (start : ℕ) (name : String)
      → Total (calibrate_regime in_order by_objective day_data h4_data cfg start name)
  unfolding calibrate_regime calibrate_from
  calibrate_regime-Total [] h4_data start name = value tt
  calibrate_regime-Total (first ∷ days) h4_data start name =
      let day_data = first ∷ days in
      let fuzzy = same_text name "v7_1" in
      Returns-if (ltb (length day_data) 450) (λ _. value tt)
        λ _. Returns-bind (index-Total day_data _ (omega arith)) λ last _.
          let d1 = filter_bars_by_time day_data (calib_start first last) in
          let w1 = enough_weeks (aggregate_1d_to_1w d1) in
          let labels = default_labels last.open_time in
          Returns-bind (calibrate_on_bars-Total "1d" d1 day_data h4_data start labels fuzzy)
            λ daily _.
              Returns-if (length daily.cands == 0) (λ _. value tt)
                λ _.
                  Returns-bind (weekly_search-Total daily w1 day_data h4_data start labels fuzzy)
                    λ weekly _.
                      Returns-bind (classify_series-length d1 daily.best.cand_params) λ _ _.
                        Returns-bind (classify_series-length w1 weekly.best.cand_params)
                          λ _ _. value tt

  replayed-Total :
      (call : Run (ReplayResult F)) → Total call → Total (call >>= λ s. ok (replayed s))
  replayed-Total call t = Returns-bind t λ _ _. value tt

  module _ (three : 3 ≤ cfg.ema_filter_period + cfg.ema200_slope_lookback) where
    run_calibrated-Total :
        (name : String) (day_data h4_data : List (KlineRecord F)) (start end : ℕ)
        (found : CalibResult F)
        → Total (run_calibrated in_order by_objective name cfg day_data h4_data start end found)
    run_calibrated-Total name day_data h4_data start end (calibrated r) =
        Returns-bind
          (Returns-if {Good = λ _. Unit {0}} (same_text name "v9")
            (λ _.
              run_v9_replay-Total in_order cfg day_data h4_data start end (calib_to_params r)
                periods three)
            λ _.
              Returns-map
                (run_v8_replay-Answers in_order cfg day_data h4_data start end (calib_to_params r)
                  periods three)
                λ _ _. tt)
          λ _ _. value tt
    run_calibrated-Total name day_data h4_data start end (too_few_days n) = value tt
    run_calibrated-Total name day_data h4_data start end no_daily_candidate = value tt

    pub run_profile_replay_in_range-Total :
        (name : String) (day_data h4_data : List (KlineRecord F)) (start end : ℕ)
        → 0 < cfg.regime_vol_period
        → Total
            (run_profile_replay_in_range in_order by_objective cfg name day_data h4_data start end)
    unfolding run_profile_replay_in_range
    run_profile_replay_in_range-Total name day_data h4_data start end v =
        Returns-if (same_text name "v6")
          (λ _.
            replayed-Total _ (run_v6_replay-Total in_order cfg day_data h4_data start periods v))
          λ _.
            Returns-if (same_text name "v8" || same_text name "v9")
              (λ _.
                Returns-bind (calibrate_regime-Total day_data h4_data start "v7_1")
                  λ found _. run_calibrated-Total name day_data h4_data start end found)
              λ _.
                Returns-if (same_text name "v10")
                  (λ _.
                    replayed-Total _ (run_v10_replay-Total in_order cfg day_data h4_data start end))
                  λ _.
                    Returns-if (is_v11_name name)
                      (λ _. replayed-Total _ (
                        run_v11_replay-Total in_order cfg name day_data h4_data start end periods
                          three))
                      λ _. replayed-Total _ (
                        run_basic_replay-Total in_order cfg name day_data h4_data start end periods)
