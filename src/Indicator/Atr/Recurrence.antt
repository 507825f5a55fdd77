-- ===== src/Indicator/Atr/Recurrence.antt =====
-- The values of ATR, index by index.
use cryptotips.Indicator.Series.{sum, of_pred, warm_scan}
use cryptotips.Indicator.Averages.{mean_of_first}
use cryptotips.Indicator.Series.Scan.{warm_scan-Follows, Follows}
use cryptotips.Base.Outcome.{Returns-map, value, Returns-if, Returns}
use mathlib.Core.Path.{ap₂}
use cryptotips.Base.{
  ◌≤◌, ◌-◌, zero, foldl, take, get_or, not, ◌||◌, ◌+◌, ltb, inr, ◌==◌, inl, refl, suc, ap, ◌∙◌, ◌∷◌,
  arith, ◌⊎◌, [], ◌<◌, ◌≡◌, length, ℕ, List,
}
use cryptotips.Indicator.Atr.{wilder, atr, tr_loop, true_ranges}
use cryptotips.Float.{◌⊕◌, ◌⊖◌, ◌⊗◌, ◌⊘◌, of_ℕ, Float}

module _ {F : Type 0} ⦃fl : Float F⦄ where
  length-tr_loop :
      (prev : F) (highs lows closes : List F)
      → length highs ≡ length closes
      → length lows ≡ length closes
      → length (tr_loop prev highs lows closes) ≡ length closes
  unfolding tr_loop
  length-tr_loop prev [] [] [] p r = refl
  length-tr_loop prev (h ∷ hs) (l ∷ ls) (c ∷ cs) p r =
      ap suc (length-tr_loop c hs ls cs (omega arith) (omega arith))
  length-tr_loop prev [] ls (c ∷ cs) p r = absurd (omega arith)
  length-tr_loop prev (h ∷ hs) ls [] p r = absurd (omega arith)
  length-tr_loop prev hs [] (c ∷ cs) p r = absurd (omega arith)
  length-tr_loop prev hs (l ∷ ls) [] p r = absurd (omega arith)

  length-true_ranges :
      (highs lows closes : List F)
      → length highs ≡ length closes
      → length lows ≡ length closes
      → length (true_ranges highs lows closes) ≡ length closes
  unfolding true_ranges
  length-true_ranges (h ∷ hs) (l ∷ ls) (c ∷ cs) p r =
      ap suc (length-tr_loop c hs ls cs (omega arith) (omega arith))
  length-true_ranges [] [] [] p r = refl
  length-true_ranges [] ls (c ∷ cs) p r = absurd (omega arith)
  length-true_ranges (h ∷ hs) ls [] p r = absurd (omega arith)
  length-true_ranges hs [] (c ∷ cs) p r = absurd (omega arith)
  length-true_ranges hs (l ∷ ls) [] p r = absurd (omega arith)

  abbrev pub AtrInput : List F → List F → List F → ℕ → Type 0
  AtrInput highs lows closes period =
      (period < length closes) × (length highs ≡ length closes) × (length lows ≡ length closes)

  -- ATR as the scan of its step over the true ranges.
  pub atr-Follows :
      (highs lows closes : List F) (period : ℕ)
      → 0 < period
      → let tr = true_ranges highs lows closes in
        Returns
          (λ out.
            ((¬ AtrInput highs lows closes period) × (out ≡ []))
            ⊎ (AtrInput highs lows closes period
                × (length out ≡ length closes)
                × Follows
                    (wilder period)
                    (of_ℕ 0)
                    (mean_of_first period tr)
                    (of_ℕ 0)
                    period
                    tr
                    out))
          (atr highs lows closes period)
  unfolding atr
  atr-Follows highs lows closes period p =
      Returns-if
        (ltb (length closes) (period + 1)
          || not (length highs == length closes)
          || not (length lows == length closes))
        (λ bad. value (inl (λ (a, b, c). ground arith, refl)))
        λ good.
          Returns-if (period == 0) (λ e. absurd (ground arith))
            λ _. value (inr (filled (ground arith, ground arith, ground arith)))
    where
      tr : List F
      tr = true_ranges highs lows closes

      out : List F
      out = warm_scan (of_ℕ 0) (wilder period) period (mean_of_first period tr) tr

      filled :
          AtrInput highs lows closes period
          → AtrInput highs lows closes period
            × (length out ≡ length closes)
            × Follows (wilder period) (of_ℕ 0) (mean_of_first period tr) (of_ℕ 0) period tr out
      filled (a, b, c) =
          let same = length-true_ranges highs lows closes b c in
          let follows =
            warm_scan-Follows (wilder period) (of_ℕ 0) (mean_of_first period tr) (of_ℕ 0) period tr
              p (omega (arith, same)) in
          ((a, b, c), follows.same_length ∙ same, follows)

  -- The true range at an index, from the prices at the index and the close before it.
  abbrev pub range_at : List F → List F → List F → ℕ → F
  range_at highs lows closes zero = get_or highs 0 (of_ℕ 0) ⊖ get_or lows 0 (of_ℕ 0)
  range_at highs lows closes (suc i) =
      fl.math_max (get_or highs (suc i) (of_ℕ 0) ⊖ get_or lows (suc i) (of_ℕ 0)) (
        fl.math_max (fl.abs (get_or highs (suc i) (of_ℕ 0) ⊖ get_or closes i (of_ℕ 0)))
          (fl.abs (get_or lows (suc i) (of_ℕ 0) ⊖ get_or closes i (of_ℕ 0))))

  -- The sum of the first `n` true ranges, from the left.
  abbrev pub range_sum : List F → List F → List F → ℕ → F
  range_sum highs lows closes zero = of_ℕ 0
  range_sum highs lows closes (suc n) = range_sum highs lows closes n ⊕ range_at highs lows closes n

  get_or-tr_loop :
      (high low prev : F) (highs lows closes : List F) (i : ℕ)
      → length highs ≡ length closes
      → length lows ≡ length closes
      → i < length closes
      → get_or (tr_loop prev highs lows closes) i (of_ℕ 0)
        ≡ range_at (high ∷ highs) (low ∷ lows) (prev ∷ closes) (suc i)
  unfolding tr_loop
  get_or-tr_loop high low prev (h ∷ hs) (l ∷ ls) (c ∷ cs) zero p r q = refl
  get_or-tr_loop high low prev (h ∷ hs) (l ∷ ls) (c ∷ cs) (suc i) p r q =
      get_or-tr_loop h l c hs ls cs i (omega arith) (omega arith) (omega arith)
  get_or-tr_loop high low prev hs ls [] i p r q = absurd (omega arith)
  get_or-tr_loop high low prev [] ls (c ∷ cs) i p r q = absurd (omega arith)
  get_or-tr_loop high low prev (h ∷ hs) [] (c ∷ cs) i p r q = absurd (omega arith)

  get_or-true_ranges :
      (highs lows closes : List F) (i : ℕ)
      → length highs ≡ length closes
      → length lows ≡ length closes
      → i < length closes
      → get_or (true_ranges highs lows closes) i (of_ℕ 0) ≡ range_at highs lows closes i
  unfolding true_ranges
  get_or-true_ranges (h ∷ hs) (l ∷ ls) (c ∷ cs) zero p r q = refl
  get_or-true_ranges (h ∷ hs) (l ∷ ls) (c ∷ cs) (suc i) p r q =
      get_or-tr_loop h l c hs ls cs i (omega arith) (omega arith) (omega arith)
  get_or-true_ranges hs ls [] i p r q = absurd (omega arith)
  get_or-true_ranges [] ls (c ∷ cs) i p r q = absurd (omega arith)
  get_or-true_ranges (h ∷ hs) [] (c ∷ cs) i p r q = absurd (omega arith)

  foldl-take :
      (z : F) (n : ℕ) (xs : List F)
      → n < length xs
      → foldl ◌⊕◌ z (take (suc n) xs) ≡ foldl ◌⊕◌ z (take n xs) ⊕ get_or xs n (of_ℕ 0)
  foldl-take z n [] h = absurd (omega arith)
  foldl-take z zero (x ∷ xs) h = refl
  foldl-take z (suc n) (x ∷ xs) h = foldl-take (z ⊕ x) n xs (omega arith)

  sum-true_ranges :
      (highs lows closes : List F) (n : ℕ)
      → length highs ≡ length closes
      → length lows ≡ length closes
      → n ≤ length closes
      → sum (take n (true_ranges highs lows closes)) ≡ range_sum highs lows closes n
  sum-true_ranges highs lows closes zero p r h = refl
  sum-true_ranges highs lows closes (suc n) p r h =
      foldl-take (of_ℕ 0) n (true_ranges highs lows closes)
        (omega (arith, length-true_ranges highs lows closes p r))
      ∙ ap₂ ◌⊕◌ (sum-true_ranges highs lows closes n p r (omega arith))
          (get_or-true_ranges highs lows closes n p r (omega arith))

  -- `out` is zero below index `period - 1`, there the mean of the first `period` true ranges, and from
  -- then on Wilder's average of the value before and the true range at the index.
  pub record IsAtr (highs lows closes : List F) (period : ℕ) (out : List F) : Type 0 where
    pub same_length : length out ≡ length closes
    pub warm_up : (i : ℕ) → suc i < period → get_or out i (of_ℕ 0) ≡ of_ℕ 0
    pub begins : get_or out (period - 1) (of_ℕ 0) ≡ range_sum highs lows closes period ⊘ of_ℕ period
    pub steps :
        (i : ℕ)
        → period ≤ i
        → i < length closes
        → get_or out i (of_ℕ 0)
          ≡ ((get_or out (i - 1) (of_ℕ 0) ⊗ of_ℕ (period - 1)) ⊕ range_at highs lows closes i)
            ⊘ of_ℕ period

  of_pred-eq : (n : ℕ) → 0 < n → ◌≡◌ {A = F} (of_pred n) (of_ℕ (n - 1))
  of_pred-eq zero h = absurd (omega arith)
  of_pred-eq (suc n) h = ap of_ℕ (omega arith)

  -- ATR with a period of at least 1 does not panic. It returns nil exactly if there are not more
  -- closes than the period or the slices differ in length. Otherwise the result is as long as the
  -- closes: zero below index `period - 1`, there the sum of the first `period` true ranges divided by
  -- the period, and from then on the value before it times `period - 1` and the true range at the
  -- index, together divided by the period. The true range is high - low at index 0, and otherwise the
  -- largest of it and the distances of the high and the low to the close before.
  pub atr-IsAtr :
      (highs lows closes : List F) (period : ℕ)
      → 0 < period
      → Returns
          (λ out.
            ((¬ AtrInput highs lows closes period) × (out ≡ []))
            ⊎ (AtrInput highs lows closes period × IsAtr highs lows closes period out))
          (atr highs lows closes period)
  atr-IsAtr highs lows closes period p =
      Returns-map (atr-Follows highs lows closes period p) λ out r. elim r [
        | inl refused ↦ inl refused
        | inr ((a, b, c), same, f) ↦ inr (
          (a, b, c),
          record {
            same_length = same;
            warm_up = f.warm_up;
            begins =
                f.begins
                ∙ ap (λ total. total ⊘ of_ℕ period)
                    (sum-true_ranges highs lows closes period b c (omega arith));
            steps = λ i from below.
                f.steps i from (omega (arith, length-true_ranges highs lows closes b c))
                ∙ ap₂ (λ k x. (get_or out (i - 1) (of_ℕ 0) ⊗ k ⊕ x) ⊘ of_ℕ period)
                    (of_pred-eq period p) (get_or-true_ranges highs lows closes i b c below);
          },
        )
      ]
