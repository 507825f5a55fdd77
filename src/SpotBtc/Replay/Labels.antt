-- ===== src/SpotBtc/Replay/Labels.antt =====
-- strategies/spot_btc_conservative_v1/regime_calibration.go: how a classification is judged.
use cryptotips.SpotBtc.Strategy.{day_ns}
use cryptotips.SpotBtc.Replay.Points.{ClassPoint}
use cryptotips.SpotBtc.Replay.{regime_range, regime_bull, regime_eq, regime_bear, MarketRegime}
use cryptotips.Float.{◌⊗◌, ◌⊕◌, dec, ◌<?◌, ◌⊘◌, of_ℕ, Float}
use cryptotips.Base.{
  ◌/◌, map, ◌&&◌, ◌++◌, ◌-◌, ◌==◌, [], foldl, length, ltb, ◌||◌, ◌∷◌, if◌then◌else◌, not, ◌*◌, ◌+◌,
  Bool, List, ℕ,
}

-- A stretch of the market with the regime that it is known for; the times are the first and the last
-- midnight.
pub record FuzzyLabel : Type 0 where
  pub label_start : ℕ
  pub label_end : ℕ
  pub label_regime : MarketRegime

abbrev pub label_of : ℕ → ℕ → MarketRegime → FuzzyLabel
label_of start end regime = record {
  label_start = start * day_ns;
  label_end = end * day_ns;
  label_regime = regime;
}

-- defaultFuzzyLabelSet: the dates from 2018-11-10 to 2025-12-10, as days since 1 January of year 1.
abbrev pub default_labels : ℕ → List FuzzyLabel
default_labels end =
    label_of 737007 737088 regime_bear
    ∷ label_of 737138 737278 regime_bull
    ∷ label_of 737278 737625 regime_range
    ∷ label_of 737687 737924 regime_bull
    ∷ label_of 737955 738272 regime_range
    ∷ label_of 738272 738495 regime_bear
    ∷ label_of 738495 738754 regime_range
    ∷ label_of 738754 739584 regime_bull
    ∷ label_of 739594 (end / day_ns) regime_bear
    ∷ []

abbrev pub in_main : FuzzyLabel → ℕ → Bool
in_main l t = not (ltb t l.label_start) && not (ltb l.label_end t)

abbrev pub in_reach : ℕ → FuzzyLabel → ℕ → Bool
in_reach buf l t = not (ltb t (l.label_start - buf)) && not (ltb (l.label_end + buf) t)

-- The sums of evaluateFuzzyLabels.
pub record LabelSums (F : Type 0) : Type 0 where
  pub seg_sum : F
  pub seg_cnt : F
  pub total : F
  pub count : F

-- TotalScore, and the score of each label.
pub record LabelEval (F : Type 0) : Type 0 where
  pub total_score : F
  pub per_segment : List (FuzzyLabel × F)

-- The switches, and the shares of the three regimes.
pub record RegimeStats (F : Type 0) : Type 0 where
  pub stat_switches : ℕ
  pub bull_part : F
  pub bear_part : F
  pub range_part : F

-- The counters of regimeStats.
pub record StatCounts : Type 0 where
  pub switch_count : ℕ
  pub bull_count : ℕ
  pub bear_count : ℕ
  pub range_count : ℕ
  pub prev_regime : MarketRegime

abbrev pub seen_regime : MarketRegime → StatCounts → StatCounts
seen_regime regime_bull s = record s { bull_count = s.bull_count + 1 }
seen_regime regime_bear s = record s { bear_count = s.bear_count + 1 }
seen_regime regime_range s = record s { range_count = s.range_count + 1 }

abbrev pub stat_step : StatCounts → MarketRegime → StatCounts
stat_step s r =
    let s' = seen_regime r s in
    if regime_eq r s.prev_regime
    then s'
    else record s' { switch_count = s'.switch_count + 1; prev_regime = r }

module _ {F : Type 0} ⦃fl : Float F⦄ where
  abbrev pub fuzzy_pair_score : MarketRegime → MarketRegime → F
  fuzzy_pair_score expect got =
      if regime_eq expect got
      then of_ℕ 1
      else if regime_eq expect regime_range || regime_eq got regime_range
      then dec 62 2
      else dec 12 2

  -- What a point counts for a label that reaches it.
  abbrev pub label_value : FuzzyLabel → ClassPoint F → F
  label_value l pt =
      let base = fuzzy_pair_score l.label_regime pt.regime in
      (if in_main l pt.time then base else dec 55 2 ⊕ dec 45 2 ⊗ base)
      ⊗ (dec 7 1 ⊕ dec 3 1 ⊗ pt.confidence)

  abbrev pub label_point : ℕ → FuzzyLabel → LabelSums F → ClassPoint F → LabelSums F
  label_point buf l s pt =
      let v = label_value l pt in
      if in_main l pt.time || in_reach buf l pt.time
      then record {
        seg_sum = s.seg_sum ⊕ v;
        seg_cnt = s.seg_cnt ⊕ of_ℕ 1;
        total = s.total ⊕ v;
        count = s.count ⊕ of_ℕ 1;
      }
      else s

  -- One round over the labels; a label that ends before it begins is passed over.
  abbrev pub label_step :
      ℕ
      → List (ClassPoint F)
      → LabelSums F × List (FuzzyLabel × F)
      → FuzzyLabel
      → LabelSums F × List (FuzzyLabel × F)
  label_step buf points (s, per) l =
      let s' = foldl (label_point buf l) (record s { seg_sum = of_ℕ 0; seg_cnt = of_ℕ 0 }) points in
      if ltb l.label_end l.label_start
      then (s, per)
      else (s', if of_ℕ 0 <? s'.seg_cnt then per ++ (l, s'.seg_sum ⊘ s'.seg_cnt) ∷ [] else per)

  abbrev pub label_eval_of : LabelSums F × List (FuzzyLabel × F) → LabelEval F
  label_eval_of (s, per) = record {
    total_score = if of_ℕ 0 <? s.count then s.total ⊘ s.count else of_ℕ 0;
    per_segment = per;
  }

  abbrev pub no_eval : LabelEval F
  no_eval = record { total_score = of_ℕ 0; per_segment = [] }

  unfoldable pub evaluate_fuzzy_labels : List (ClassPoint F) → ℕ → List FuzzyLabel → LabelEval F
  evaluate_fuzzy_labels points buf labels =
      let zero_sums : LabelSums F = record {
        seg_sum = of_ℕ 0;
        seg_cnt = of_ℕ 0;
        total = of_ℕ 0;
        count = of_ℕ 0;
      } in
      if length points == 0 || length labels == 0
      then no_eval
      else label_eval_of (foldl (label_step buf points) (zero_sums, []) labels)

  abbrev pub stats_of : StatCounts → ℕ → RegimeStats F
  stats_of s n = record {
    stat_switches = s.switch_count;
    bull_part = of_ℕ s.bull_count ⊘ of_ℕ n;
    bear_part = of_ℕ s.bear_count ⊘ of_ℕ n;
    range_part = of_ℕ s.range_count ⊘ of_ℕ n;
  }

  unfoldable pub regime_stats : List (ClassPoint F) → RegimeStats F
  regime_stats [] = record {
    stat_switches = 999;
    bull_part = of_ℕ 0;
    bear_part = of_ℕ 0;
    range_part = of_ℕ 1;
  }
  regime_stats (p ∷ ps) =
      let begin : StatCounts = record {
        switch_count = 0;
        bull_count = 0;
        bear_count = 0;
        range_count = 0;
        prev_regime = p.regime;
      } in
      stats_of (foldl stat_step begin (map (λ q. q.regime) (p ∷ ps))) (length (p ∷ ps))
