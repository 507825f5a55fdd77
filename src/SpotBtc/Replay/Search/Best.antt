-- ===== src/SpotBtc/Replay/Search/Best.antt =====
-- calibrateOnBars: its best candidate is the best.
use cryptotips.SpotBtc.Strategy.{day_ns}
use cryptotips.SpotBtc.Replay.Answers.Others.{run_v7_replay-Total}
use cryptotips.SpotBtc.Replay.Points.Classified.{classify_series-length}
use cryptotips.Base.Outcome.{Returns-bind, Returns-if, value, Returns}
use cryptotips.SpotBtc.Replay.Points.{RegimeCalibParams}
use cryptotips.SpotBtc.Signal.Safe.{HasPeriods}
use cryptotips.SpotBtc.Config.{Config}
use cryptotips.Models.{KlineRecord}
use Prim.Native.String.{String}
use cryptotips.SpotBtc.Replay.Labels.{regime_stats, evaluate_fuzzy_labels, FuzzyLabel, LabelEval}
use cryptotips.Float.Order.{le_of_lt, lt_of_lt-le, IsOrdered}
use cryptotips.SpotBtc.Replay.Search.{
  candidate_of, quick_start, search_start, grid, quick_trade_score, calibrate_on_bars, search_over,
  try_params, with_candidate, CalibCandidate, Search,
}
use cryptotips.SpotBtc.Replay.Benchmark.Drawdown.{Has}
use cryptotips.Float.{IsNum, ◌<?◌, Float}
use cryptotips.Base.{
  ◌*◌, ◌==◌, length, ltb, Bool, zero, arith, inr, true, ◌⊎◌, Bool-cases, [], false, inl, suc, ◌∷◌,
  ◌≡◌, take, ◌++◌, List, ℕ,
}

Has-snoc : {A : Type 0} (x y : A) (xs : List A) → Has x (xs ++ y ∷ []) → Has x xs ⊎ (x ≡ y)
Has-snoc x y [] (inl e) = inr e
Has-snoc x y [] (inr h) = absurd h
Has-snoc x y (z ∷ zs) (inl e) = inl (inl e)
Has-snoc x y (z ∷ zs) (inr h) = elim (Has-snoc x y zs h) [
  | inl there ↦ inl (inr there)
  | inr last ↦ inr last
]

Has-take : {A : Type 0} (x : A) (n : ℕ) (xs : List A) → Has x (take n xs) → Has x xs
Has-take x zero xs h = absurd h
Has-take x (suc n) [] h = h
Has-take x (suc n) (y ∷ ys) (inl e) = inl e
Has-take x (suc n) (y ∷ ys) (inr h) = inr (Has-take x n ys h)

module _ {F : Type 0} ⦃fl : Float F⦄ where
  -- Nothing that was found has a higher objective than the best.
  abbrev pub IsUnbeaten : Search F → Type 0
  IsUnbeaten s = (c : CalibCandidate F) → Has c s.cands → (s.best.objective <? c.objective) ≡ false

  -- sort.Slice only changes the order.
  abbrev pub OnlyReorders : (List (CalibCandidate F) → List (CalibCandidate F)) → Type 0
  OnlyReorders by_objective =
      (c : CalibCandidate F) (cs : List (CalibCandidate F)) → Has c (by_objective cs) → Has c cs

  -- What every new candidate keeps is kept by the search, which does not panic.
  module _ (P : Search F → Type 0)
      (keeps : (c : CalibCandidate F) (eval : LabelEval F) (s : Search F)
        → P s
        → P (with_candidate c eval s))
      (in_order : List F → List F) (tf : String) (bars day_data h4_data : List (KlineRecord F))
      (start : ℕ) (cfg : Config F) (labels : List FuzzyLabel) (use_fuzzy : Bool) where
    try_params-Returns :
        (p : RegimeCalibParams F) (s : Search F)
        → HasPeriods cfg
        → P s
        → Returns P (try_params in_order tf bars day_data h4_data start cfg labels use_fuzzy p s)
    unfolding try_params quick_trade_score
    try_params-Returns p s periods u = Returns-bind (classify_series-length bars p) λ points _.
        Returns-if (length points == 0) (λ _. value u)
          λ _.
            Returns-bind
              (Returns-bind {Then = λ _. Unit {0}}
                (run_v7_replay-Total in_order cfg day_data h4_data (quick_start h4_data start) tf p
                  periods)
                λ _ _. value tt)
              λ scores _.
                let eval = evaluate_fuzzy_labels points (14 * day_ns) labels in
                value (
                  keeps (candidate_of tf p use_fuzzy (regime_stats points) eval.total_score scores)
                    eval s u)

    pub search_over-Returns :
        (ps : List (RegimeCalibParams F)) (s : Search F)
        → HasPeriods cfg
        → P s
        → Returns P (search_over in_order tf bars day_data h4_data start cfg labels use_fuzzy ps s)
    unfolding search_over
    search_over-Returns [] s periods u = value u
    search_over-Returns (p ∷ ps) s periods u =
        Returns-bind (try_params-Returns p s periods u)
          λ s' u'. search_over-Returns ps s' periods u'

  module _ (laws : IsOrdered F) where
    not_self : (x : F) → IsNum x → (x <? x) ≡ false
    not_self x n = ground (arith, laws.lt-eq-not-le x x n n)

    -- A value that beats the best is not beaten by what the best was not beaten by.
    still_unbeaten : (b b' x : F) → (b <? x) ≡ false → (b <? b') ≡ true → (b' <? x) ≡ false
    still_unbeaten b b' x h up = elim (Bool-cases (b' <? x)) [
      | inl beats ↦ cc (lt_of_lt-le laws b b' x up (le_of_lt laws b' x beats))
      | inr less ↦ less
    ]

    with_candidate-IsUnbeaten :
        (c : CalibCandidate F) (eval : LabelEval F) (s : Search F)
        → IsUnbeaten s
        → IsUnbeaten (with_candidate c eval s)
    with_candidate-IsUnbeaten c eval s u = elim (Bool-cases (s.best.objective <? c.objective)) [
      | inl better ↦
          let (_, n) = laws.num_of_lt s.best.objective c.objective better in
          rw better λ d h. elim (Has-snoc d c s.cands h) [
            | inl old ↦ still_unbeaten s.best.objective c.objective d.objective (u d old) better
            | inr new ↦ rw new (not_self c.objective n)
          ]
      | inr worse ↦
          rw worse
            λ d h. elim (Has-snoc d c s.cands h) [ inl old ↦ u d old | inr new ↦ rw new worse ]
    ]

    -- With periods of at least 1, an order of the numbers and a sort that only reorders, calibrateOnBars
    -- does not panic, and
    -- no candidate of its list has a higher objective than the one that it names the best.
    pub calibrate_on_bars-IsUnbeaten :
        (in_order : List F → List F) (tf : String) (bars day_data h4_data : List (KlineRecord F))
        (start : ℕ) (cfg : Config F) (labels : List FuzzyLabel) (use_fuzzy : Bool)
        (by_objective : List (CalibCandidate F) → List (CalibCandidate F))
        → HasPeriods cfg
        → OnlyReorders by_objective
        → Returns IsUnbeaten (
            calibrate_on_bars in_order tf bars day_data h4_data start cfg labels use_fuzzy
              by_objective)
    unfolding calibrate_on_bars
    calibrate_on_bars-IsUnbeaten in_order tf bars day_data h4_data start cfg labels use_fuzzy
          by_objective periods only =
        Returns-if (ltb (length bars) 80) (λ _. value (λ c h. absurd h))
          λ _.
            Returns-bind
              (search_over-Returns IsUnbeaten with_candidate-IsUnbeaten in_order tf bars day_data
                h4_data start cfg labels use_fuzzy grid search_start periods (λ c h. absurd h))
              λ s u. value (λ c h. u c (only c s.cands (Has-take c 10 (by_objective s.cands) h)))
