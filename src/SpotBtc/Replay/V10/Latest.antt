-- ===== src/SpotBtc/Replay/V10/Latest.antt =====
-- detectV10RegimeFromStartpoints finds the regime of the last start point that is not after the time.
use mathlib.Core.List.{append_assoc}
use cryptotips.SpotBtc.Replay.{MarketRegime, regime_bull, regime_bear, regime_range}
use cryptotips.SpotBtc.Replay.V10.{last_state, regime_of_state, bars_of, detect_v10_regime}
use cryptotips.SpotBtc.Replay.Candles.{aggregate_1d_to_1w}
use cryptotips.SpotBtc.Replay.Candles.Grouped.{aggregate_1d_to_1w-WeekByWeek}
use cryptotips.Indicator.Regime.Features.{State, bull, bear, range, unset, RegimeStartpoint}
use cryptotips.Indicator.Regime.Segments.{compute_regime_startpoints}
use cryptotips.Models.{KlineRecord}
use cryptotips.Float.{Float}
use cryptotips.Base.{
  arith, subst, inr, ltb→lt, false, ltb, Bool-cases, inl, ◌<◌, ◌==◌, ◌⊎◌, [], length, ◌++◌, ◌∷◌,
  ◌≤◌, List, refl, ◌≡◌, ℕ,
}

-- The market regime that a state of the start points stands for.
abbrev pub Names : State → MarketRegime → Type 0
Names bull r = r ≡ regime_bull
Names bear r = r ≡ regime_bear
Names range r = r ≡ regime_range
Names unset r = r ≡ regime_range

regime_of_state-Names : (s : State) → Names s (regime_of_state s)
regime_of_state-Names bull = refl
regime_of_state-Names bear = refl
regime_of_state-Names range = refl
regime_of_state-Names unset = refl

module _ {F : Type 0} where
  abbrev NoneAfter : ℕ → List (RegimeStartpoint F) → Type 0
  NoneAfter t [] = Unit
  NoneAfter t (p ∷ ps) = (p.time ≤ t) × NoneAfter t ps

  abbrev FirstAfter : ℕ → List (RegimeStartpoint F) → Type 0
  FirstAfter t [] = Unit
  FirstAfter t (p ∷ ps) = t < p.time

  -- The regime of the last point, or a range if there is none.
  abbrev LastNames : List (RegimeStartpoint F) → MarketRegime → Type 0
  LastNames ps r =
      ((ps ≡ []) × (r ≡ regime_range))
      ⊎ ((front : List (RegimeStartpoint F)) × (p : RegimeStartpoint F) × (ps ≡ front ++ p ∷ [])
          × Names p.state r)

  -- The points up to the first that is after the time end with one of the regime.
  pub record IsLatest (t : ℕ) (points : List (RegimeStartpoint F)) (r : MarketRegime) : Type 0 where
    pub before : List (RegimeStartpoint F)
    pub behind : List (RegimeStartpoint F)
    pub joined : points ≡ before ++ behind
    pub past : NoneAfter t before
    pub future : FirstAfter t behind
    pub named : LastNames before r

  NoneAfter-snoc :
      (t : ℕ) (ps : List (RegimeStartpoint F)) (p : RegimeStartpoint F)
      → NoneAfter t ps
      → p.time ≤ t
      → NoneAfter t (ps ++ p ∷ [])
  NoneAfter-snoc t [] p h q = (q, tt)
  NoneAfter-snoc t (x ∷ ps) p (g, h) q = (g, NoneAfter-snoc t ps p h q)

module _ {F : Type 0} ⦃fl : Float F⦄ where
  last_state-from :
      (t : ℕ) (past points : List (RegimeStartpoint F)) (r : MarketRegime)
      → NoneAfter t past
      → LastNames past r
      → IsLatest t (past ++ points) (last_state t r points)
  last_state-from t past [] r h q = record {
    before = past;
    behind = [];
    joined = refl;
    past = h;
    future = tt;
    named = q;
  }
  last_state-from t past (p ∷ ps) r h q = elim (Bool-cases (ltb t p.time)) [
    | inl later ↦ rw later (record {
      before = past;
      behind = p ∷ ps;
      joined = refl;
      past = h;
      future = ltb→lt t p.time later;
      named = q;
    })
    | inr due ↦ rw due (
        subst (λ l. IsLatest t l (last_state t (regime_of_state p.state) ps))
          (append_assoc past (p ∷ []) ps)
          (last_state-from t (past ++ p ∷ []) ps (regime_of_state p.state)
            (NoneAfter-snoc t past p h (ground arith))
            (inr (past, p, refl, regime_of_state-Names p.state))))
  ]

  -- The start points of some days and of their weeks.
  abbrev pub points_of : List (KlineRecord F) → List (RegimeStartpoint F)
  points_of days = compute_regime_startpoints (bars_of days) (bars_of (aggregate_1d_to_1w days))

  has_day : (d : KlineRecord F) (ds : List (KlineRecord F)) → (length (d ∷ ds) == 0) ≡ false
  has_day d ds = ground arith

  has_week :
      (d : KlineRecord F) (ds : List (KlineRecord F))
      → (length (aggregate_1d_to_1w (d ∷ ds)) == 0) ≡ false
  has_week d ds =
      let (first, runs, weeks, _, _, _) = aggregate_1d_to_1w-WeekByWeek d ds in
      rw weeks (ground arith)

  pub detect_v10_regime-IsLatest :
      (d : KlineRecord F) (ds : List (KlineRecord F)) (t : ℕ)
      → IsLatest t (points_of (d ∷ ds)) (detect_v10_regime (d ∷ ds) t)
  unfolding detect_v10_regime
  detect_v10_regime-IsLatest d ds t =
      rw (has_day d ds, has_week d ds)
        (last_state-from t [] (points_of (d ∷ ds)) regime_range tt (inl (refl, refl)))
