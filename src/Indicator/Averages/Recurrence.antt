-- ===== src/Indicator/Averages/Recurrence.antt =====
-- The values of EMA and SMA, index by index.
use cryptotips.Indicator.Series.Scan.{warm_scan-Follows, get_or-scan, length-scan, Follows}
use cryptotips.Indicator.Series.{
  get_or-append_right, get_or-replicate, get_or-append_left, get_or-drop, length-zip_with, sum,
  zip_with,
}
use cryptotips.Base.Outcome.{Returns-map, value, Returns-if, Returns}
use cryptotips.Indicator.Averages.{
  sma, mean_of_first, alpha_of, slide, ema_step, pair, ema, window_sums,
}
use cryptotips.Base.{
  length-map, length-replicate, length-append, ap, inr, ◌++◌, replicate, ◌==◌, ◌∙◌, inl, map, ltb,
  length-drop, refl, zero, take, ◌∷◌, arith, drop, ◌+◌, ◌⊎◌, [], suc, ◌-◌, get_or, ◌≡◌, length, ◌<◌,
  ◌≤◌, ℕ, List,
}
use cryptotips.Float.{◌⊗◌, ◌⊘◌, ◌⊖◌, ◌⊕◌, of_ℕ, Float}

module _ {F : Type 0} ⦃fl : Float F⦄ where
  -- EMA as the scan of its step.
  pub ema-Follows :
      (closes : List F) (period : ℕ)
      → 0 < period
      → Returns
          (λ out.
            ((length closes < period) × (out ≡ []))
            ⊎ ((period ≤ length closes)
                × Follows
                    (ema_step (alpha_of period))
                    (of_ℕ 0)
                    (mean_of_first period closes)
                    (of_ℕ 0)
                    period
                    closes
                    out))
          (ema closes period)
  unfolding ema
  ema-Follows closes period p =
      Returns-if (ltb (length closes) period) (λ short. value (inl (ground arith, refl)))
        λ enough.
          Returns-if (period == 0) (λ e. absurd (ground arith))
            λ _. value (
              inr (
                ground arith,
                warm_scan-Follows (ema_step (alpha_of period)) (of_ℕ 0)
                    (mean_of_first period closes) (of_ℕ 0) period closes p (ground arith),
              ))

  -- `out` is zero below index `period - 1`, there the mean of the first `period` closes, and from then
  -- on each close by alpha and the value before it by the rest of 1, where alpha is 2 / (period + 1).
  pub record IsEma (closes : List F) (period : ℕ) (out : List F) : Type 0 where
    pub same_length : length out ≡ length closes
    pub warm_up : (i : ℕ) → suc i < period → get_or out i (of_ℕ 0) ≡ of_ℕ 0
    pub begins : get_or out (period - 1) (of_ℕ 0) ≡ sum (take period closes) ⊘ of_ℕ period
    pub steps :
        (i : ℕ)
        → period ≤ i
        → i < length closes
        → get_or out i (of_ℕ 0)
          ≡ (get_or closes i (of_ℕ 0) ⊗ (of_ℕ 2 ⊘ of_ℕ (period + 1)))
            ⊕ (get_or out (i - 1) (of_ℕ 0) ⊗ (of_ℕ 1 ⊖ (of_ℕ 2 ⊘ of_ℕ (period + 1))))

  -- EMA with a period of at least 1 does not panic. It returns nil exactly on fewer closes than the
  -- period, and otherwise a slice as long as the closes: zero below index `period - 1`, there the sum
  -- of the first `period` closes divided by the period, and from then on the close times alpha and the
  -- value before it times 1 - alpha, where alpha is 2 / (period + 1).
  pub ema-IsEma :
      (closes : List F) (period : ℕ)
      → 0 < period
      → Returns
          (λ out.
            ((length closes < period) × (out ≡ []))
            ⊎ ((period ≤ length closes) × IsEma closes period out))
          (ema closes period)
  ema-IsEma closes period p = Returns-map (ema-Follows closes period p) λ out r. elim r [
    | inl none_at_all ↦ inl none_at_all
    | inr (enough, f) ↦ inr (
      enough,
      record {
        same_length = f.same_length;
        warm_up = f.warm_up;
        begins = f.begins;
        steps = f.steps;
      },
    )
  ]

  length-window_sums :
      (closes : List F) (period : ℕ)
      → period ≤ length closes
      → length (window_sums closes period) ≡ length closes - period + 1
  unfolding window_sums
  length-window_sums closes period h =
      let olds = zip_with pair (drop period closes) closes in
      omega (
        arith,
        length-scan slide (sum (take period closes)) olds,
        length-zip_with pair (drop period closes) closes,
        length-drop period closes,
      )

  get_or-pairs :
      (news olds : List F) (i : ℕ) (d : F)
      → i < length news
      → i < length olds
      → get_or (zip_with pair news olds) i (d, d) ≡ (get_or news i d, get_or olds i d)
  get_or-pairs [] olds i d p r = absurd (omega arith)
  get_or-pairs (x ∷ news) [] i d p r = absurd (omega arith)
  get_or-pairs (x ∷ news) (y ∷ olds) zero d p r = refl
  get_or-pairs (x ∷ news) (y ∷ olds) (suc i) d p r =
      get_or-pairs news olds i d (omega arith) (omega arith)

  -- `totals` begins with the sum of the window that ends at index `period - 1`, moves
  -- with the window, and `out` has the totals divided by the period, behind `period - 1` zeros.
  pub record Slides (closes : List F) (period : ℕ) (totals out : List F) : Type 0 where
    pub same_length : length out ≡ length closes
    pub warm_up : (i : ℕ) → suc i < period → get_or out i (of_ℕ 0) ≡ of_ℕ 0
    pub begins : get_or totals 0 (of_ℕ 0) ≡ sum (take period closes)
    pub slides :
        (i : ℕ)
        → period + i < length closes
        → get_or totals (suc i) (of_ℕ 0)
          ≡ get_or totals i (of_ℕ 0)
            ⊕ (get_or closes (period + i) (of_ℕ 0) ⊖ get_or closes i (of_ℕ 0))
    pub means :
        (i : ℕ)
        → period + i ≤ length closes
        → get_or out (period - 1 + i) (of_ℕ 0) ≡ get_or totals i (of_ℕ 0) ⊘ of_ℕ period

  get_or-means :
      (totals : List F) (period i : ℕ)
      → i < length totals
      → get_or (map (λ total. total ⊘ of_ℕ period) totals) i (of_ℕ 0)
        ≡ get_or totals i (of_ℕ 0) ⊘ of_ℕ period
  get_or-means [] period i h = absurd (omega arith)
  get_or-means (x ∷ totals) period zero h = refl
  get_or-means (x ∷ totals) period (suc i) h = get_or-means totals period i (omega arith)

  window_sums-slides :
      (closes : List F) (period i : ℕ)
      → period + i < length closes
      → get_or (window_sums closes period) (suc i) (of_ℕ 0)
        ≡ get_or (window_sums closes period) i (of_ℕ 0)
          ⊕ (get_or closes (period + i) (of_ℕ 0) ⊖ get_or closes i (of_ℕ 0))
  unfolding window_sums
  window_sums-slides closes period i h =
      let news = drop period closes in
      let z : F = of_ℕ 0 in
      get_or-scan slide (sum (take period closes)) z (z, z) (zip_with pair news closes) i
        (omega (arith, length-zip_with pair news closes, length-drop period closes))
      ∙ ap (slide (get_or (window_sums closes period) i z)) (
          get_or-pairs news closes i z (omega (arith, length-drop period closes)) (omega arith)
          ∙ ap (λ c. (c, get_or closes i z)) (get_or-drop period i closes z))

  -- SMA with a period of at least 1 does not panic. It returns nil exactly on fewer closes than the
  -- period, and otherwise a slice as long as the closes: zero below index `period - 1`, and from there
  -- on a running total divided by the period. The total begins as the sum of the first `period` closes,
  -- and each step adds the difference of the close that enters the window and the one that leaves it.
  pub sma-Slides :
      (closes : List F) (period : ℕ)
      → 0 < period
      → Returns
          (λ out.
            ((length closes < period) × (out ≡ []))
            ⊎ ((period ≤ length closes) × Slides closes period (window_sums closes period) out))
          (sma closes period)
  unfolding sma
  sma-Slides closes period p =
      Returns-if (ltb (length closes) period) (λ short. value (inl (ground arith, refl)))
        λ enough.
          Returns-if (period == 0) (λ e. absurd (ground arith))
            λ _. value (inr (ground arith, filled (ground arith)))
    where
      zeros : List F
      zeros = replicate (period - 1) (of_ℕ 0)

      totals : List F
      totals = window_sums closes period

      averages : List F
      averages = map (λ total. total ⊘ of_ℕ period) totals

      filled : period ≤ length closes → Slides closes period totals (zeros ++ averages)
      filled h = record {
        same_length = omega (
          arith,
          length-append zeros averages,
          length-replicate (period - 1) (of_ℕ 0),
          length-map totals (λ total. total ⊘ of_ℕ period),
          length-window_sums closes period h,
        );
        warm_up = λ i r.
            get_or-append_left zeros averages i (of_ℕ 0)
              (omega (arith, length-replicate {A = F} (period - 1) (of_ℕ 0)))
            ∙ get_or-replicate (period - 1) i (of_ℕ 0) (of_ℕ 0) (omega arith);
        begins = refl;
        slides = window_sums-slides closes period;
        means = λ i r.
            ap (λ k. get_or (zeros ++ averages) k (of_ℕ 0)) {y = length zeros + i}
              (omega (arith, length-replicate {A = F} (period - 1) (of_ℕ 0)))
            ∙ get_or-append_right zeros averages i (of_ℕ 0)
            ∙ get_or-means totals period i (omega (arith, length-window_sums closes period h));
      }
