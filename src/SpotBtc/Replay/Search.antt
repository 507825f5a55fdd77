-- ===== src/SpotBtc/Replay/Search.antt =====
-- strategies/spot_btc_conservative_v1/regime_calibration.go: the search for the parameters.
pub mod Best
use cryptotips.SpotBtc.Strategy.{day_ns}
use cryptotips.Indicator.Series.{last_or}
use cryptotips.SpotBtc.Replay.Ledger.{summary, ReplayResult, ReplaySummary}
use cryptotips.Models.{KlineRecord}
use cryptotips.SpotBtc.Replay.Points.{classify_series, RegimeCalibParams}
use cryptotips.SpotBtc.Replay.Labels.{
  regime_stats, evaluate_fuzzy_labels, FuzzyLabel, RegimeStats, no_eval, LabelEval,
}
use cryptotips.SpotBtc.Replay.V7.{run_v7_replay}
use cryptotips.SpotBtc.Config.{Config}
use Prim.Native.String.{String}
use cryptotips.Float.{◌⊖◌, ◌⊗◌, ◌<?◌, ◌⊕◌, ◌⊘◌, dec, of_ℕ, Float}
use cryptotips.Base.Outcome.{ok, Run, ◌>>=◌}
use cryptotips.Base.{
  ◌&&◌, leb, ◌==◌, take, ◌*◌, length, ◌-◌, if◌then◌else◌, ◌||◌, ltb, ◌++◌, ◌∷◌, Bool, [], List, ℕ,
}

pub record CalibCandidate (F : Type 0) : Type 0 where
  pub cand_timeframe : String
  pub cand_params : RegimeCalibParams F
  pub objective : F
  pub label_score : F
  pub trade_score : F
  pub stability : F
  pub prior_penalty : F
  pub profitability : F
  pub cand_switches : ℕ
  pub bull_share : F
  pub bear_share : F
  pub range_share : F

-- The variables of calibrateOnBars.
pub record Search (F : Type 0) : Type 0 where
  pub cands : List (CalibCandidate F)
  pub best : CalibCandidate F
  pub best_eval : LabelEval F

module _ {F : Type 0} ⦃fl : Float F⦄ where
  abbrev pub should_prefer_weekly : CalibCandidate F → Bool
  should_prefer_weekly d =
      ltb 18 d.cand_switches
      || (d.bull_share <? dec 8 2)
      || (d.bear_share <? dec 5 2)
      || (dec 75 2 <? d.range_share)

  -- The start of quickTradeScore: at most 540 days before the last candle.
  abbrev pub quick_start : List (KlineRecord F) → ℕ → ℕ
  quick_start [] start = start
  quick_start (k ∷ ks) start =
      let from = (last_or k ks).open_time - 540 * day_ns in if ltb start from then from else start

  -- The two scores of a summary.
  abbrev pub trade_scores : Config F → ReplaySummary F → F × F
  trade_scores cfg s =
      let capital = fl.math_max cfg.risk_capital_usdt (of_ℕ 1) in
      let ret = s.net_pnl ⊘ capital in
      let dd = s.max_drawdown ⊘ capital in
      let ret_score = dec 5 1 ⊕ dec 5 1 ⊗ fl.tanh (ret ⊗ of_ℕ 2) in
      let dd_score = of_ℕ 1 ⊖ fl.math_min (of_ℕ 1) (dd ⊘ dec 35 2) in
      let pf_score = fl.math_min (of_ℕ 1) (s.profit_factor ⊘ of_ℕ 2) in
      let freq_score =
        if leb 6 s.trades && leb s.trades 90
        then of_ℕ 1
        else if ltb 0 s.trades
        then dec 7 1
        else dec 4 1 in
      (
        dec 4 1 ⊗ ret_score ⊕ dec 3 1 ⊗ dd_score ⊕ dec 2 1 ⊗ pf_score ⊕ dec 1 1 ⊗ freq_score,
        dec 5 1 ⊕ fl.tanh (ret ⊖ dec 6 1 ⊗ dd) ⊗ dec 5 1,
      )

  abbrev pub scores_of : Config F → ReplayResult F → F × F
  scores_of cfg (summary s) = trade_scores cfg s
  scores_of cfg _ = (of_ℕ 0, of_ℕ 0)

  unfoldable pub quick_trade_score :
      (List F → List F)
      → Config F
      → List (KlineRecord F)
      → List (KlineRecord F)
      → ℕ
      → String
      → RegimeCalibParams F
      → Run (F × F)
  unfolding run_v7_replay
  quick_trade_score in_order cfg day_data h4_data start tf p =
      run_v7_replay in_order cfg day_data h4_data (quick_start h4_data start) tf p >>= λ r.
      ok (scores_of cfg r)

  -- What the loop computes from the statistics, the label score and the two scores of the trades.
  abbrev pub candidate_of :
      String → RegimeCalibParams F → Bool → RegimeStats F → F → F × F → CalibCandidate F
  candidate_of tf p use_fuzzy st labels (trade, profit) =
      let stability = of_ℕ 1 ⊘ (of_ℕ 1 ⊕ of_ℕ st.stat_switches ⊘ of_ℕ 8) in
      let penalty =
        fl.abs (st.bull_part ⊖ dec 75 2)
        ⊕ fl.abs (st.bear_part ⊖ dec 25 2)
        ⊕ fl.math_max (of_ℕ 0) (st.range_part ⊖ dec 35 2) in
      let prior = of_ℕ 1 ⊖ fl.math_min (of_ℕ 1) penalty in
      let label = if use_fuzzy then labels else prior in
      let regime = dec 6 1 ⊗ stability ⊕ dec 4 1 ⊗ prior in
      record {
        cand_timeframe = tf;
        cand_params = p;
        objective = dec 45 2 ⊗ label ⊕ dec 35 2 ⊗ trade ⊕ dec 20 2 ⊗ regime;
        label_score = label;
        trade_score = trade;
        stability = stability;
        prior_penalty = penalty;
        profitability = profit;
        cand_switches = st.stat_switches;
        bull_share = st.bull_part;
        bear_share = st.bear_part;
        range_share = st.range_part;
      }

  -- The innermost body: a candidate is added, and kept as the best if it is better.
  abbrev pub with_candidate : CalibCandidate F → LabelEval F → Search F → Search F
  with_candidate c eval s =
      let s' = record s { cands = s.cands ++ c ∷ [] } in
      if s.best.objective <? c.objective then record s' { best = c; best_eval = eval } else s'

  abbrev pub params_of : F → F → ℕ → RegimeCalibParams F
  params_of slope dd confirms = record {
    slope_bull_min = slope;
    slope_bear_max = fl.neg (dec 2 4);
    return_bull_min = dec 10 2;
    return_bear_max = fl.neg (dec 10 2);
    drawdown_bear_min = dd;
    vol_range_max = dec 3 2;
    min_confirm_bar = confirms;
  }

  -- The grid, in the order of the nested loops.
  abbrev pub grid : List (RegimeCalibParams F)
  grid =
      params_of (dec 2 4) (dec 20 2) 2
      ∷ params_of (dec 2 4) (dec 20 2) 3
      ∷ params_of (dec 2 4) (dec 30 2) 2
      ∷ params_of (dec 2 4) (dec 30 2) 3
      ∷ params_of (dec 4 4) (dec 20 2) 2
      ∷ params_of (dec 4 4) (dec 20 2) 3
      ∷ params_of (dec 4 4) (dec 30 2) 2
      ∷ params_of (dec 4 4) (dec 30 2) 3
      ∷ []

  abbrev pub no_candidate : CalibCandidate F
  no_candidate = record {
    cand_timeframe = "";
    cand_params = record {
      slope_bull_min = of_ℕ 0;
      slope_bear_max = of_ℕ 0;
      return_bull_min = of_ℕ 0;
      return_bear_max = of_ℕ 0;
      drawdown_bear_min = of_ℕ 0;
      vol_range_max = of_ℕ 0;
      min_confirm_bar = 0;
    };
    objective = of_ℕ 0;
    label_score = of_ℕ 0;
    trade_score = of_ℕ 0;
    stability = of_ℕ 0;
    prior_penalty = of_ℕ 0;
    profitability = of_ℕ 0;
    cand_switches = 0;
    bull_share = of_ℕ 0;
    bear_share = of_ℕ 0;
    range_share = of_ℕ 0;
  }

  abbrev pub search_start : Search F
  search_start = record {
    cands = [];
    best = record no_candidate { objective = fl.neg (of_ℕ 1_000_000_000) };
    best_eval = no_eval;
  }

  -- The arguments that calibrateOnBars hands on to each round.
  module _ (in_order : List F → List F) (tf : String) (bars day_data h4_data : List (KlineRecord F))
      (start : ℕ) (cfg : Config F) (labels : List FuzzyLabel) (use_fuzzy : Bool) where
    unfoldable pub try_params : RegimeCalibParams F → Search F → Run (Search F)
    unfolding classify_series quick_trade_score evaluate_fuzzy_labels regime_stats
    try_params p s = do
      points ← classify_series bars p
      if length points == 0 then ok s else (do
        let eval = evaluate_fuzzy_labels points (14 * day_ns) labels
        scores ← quick_trade_score in_order cfg day_data h4_data start tf p
        ok (
            with_candidate
              (candidate_of tf p use_fuzzy (regime_stats points) eval.total_score scores) eval s))

    unfoldable pub search_over : List (RegimeCalibParams F) → Search F → Run (Search F)
    unfolding try_params
    search_over [] s = ok s
    search_over (p ∷ ps) s = try_params p s >>= λ s'. search_over ps s'

    -- The candidates are sorted by their objective, with sort.Slice, and the first ten are kept.
    unfoldable pub calibrate_on_bars :
        (List (CalibCandidate F) → List (CalibCandidate F)) → Run (Search F)
    unfolding search_over
    calibrate_on_bars by_objective =
        if ltb (length bars) 80
        then ok (record { cands = []; best = no_candidate; best_eval = no_eval })
        else search_over grid search_start
          >>= (λ s. ok (record s { cands = take 10 (by_objective s.cands) }))
