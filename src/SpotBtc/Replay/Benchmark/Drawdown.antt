-- ===== src/SpotBtc/Replay/Benchmark/Drawdown.antt =====
-- calcBuyHoldBenchmark: its drawdown is the deepest fall.
use cryptotips.SpotBtc.Replay.Ledger.{deeper, peak_of}
use cryptotips.SpotBtc.Replay.Benchmark.{
  hold_start, hold_qty, in_window, calc_buy_hold_benchmark, HoldState, hold_step,
}
use cryptotips.Models.{KlineRecord}
use cryptotips.Float.Order.{le_of_not-lt, le_of_lt, IsOrdered}
use cryptotips.Base.{
  subst, ap, ℕ, ◌∙◌, arith, Bool-cases, foldl, if_rule, refl, [], inl, inr, map, ◌≡◌, ◌⊎◌, ◌∷◌,
  List,
}
use cryptotips.Float.{of_ℕ, ◌<?◌, ◌⊗◌, ◌⊖◌, IsNum, ◌≼◌, Float}

-- What IEEE 754 promises of a difference: it does not fall when what it is taken from rises.
pub record IsMonotone (F : Type 0) ⦃fl : Float F⦄ : Type 0 where
  pub sub_mono : (x y z : F) → x ≼ y → IsNum (x ⊖ z) → IsNum (y ⊖ z) → x ⊖ z ≼ y ⊖ z

abbrev pub Has : {A : Type 0} → A → List A → Type 0
Has x [] = ⊥
Has x (y ∷ ys) = (x ≡ y) ⊎ Has x ys

abbrev HasAll : {A : Type 0} → List A → List A → Type 0
HasAll xs [] = Unit
HasAll xs (y ∷ ys) = Has y xs × HasAll xs ys

HasAll-cons : {A : Type 0} (x : A) (xs ys : List A) → HasAll xs ys → HasAll (x ∷ xs) ys
HasAll-cons x xs [] h = tt
HasAll-cons x xs (y ∷ ys) (p, h) = (inr p, HasAll-cons x xs ys h)

HasAll-self : {A : Type 0} (xs : List A) → HasAll xs xs
HasAll-self [] = tt
HasAll-self (x ∷ xs) = (inl refl, HasAll-cons x xs xs (HasAll-self xs))

module _ {F : Type 0} ⦃fl : Float F⦄ where
  -- The values and their differences are numbers: none overflows.
  pub record IsFinite (es : List F) : Type 0 where
    pub values_num : (x : F) → Has x es → IsNum x
    pub differences_num : (x y : F) → Has x es → Has y es → IsNum (x ⊖ y)

  -- No fall from `x`, or from a value to a later one, is deeper than `dd`.
  abbrev pub FallsFrom : F → List F → F → Type 0
  FallsFrom x [] dd = Unit
  FallsFrom x (y ∷ ys) dd = (x ⊖ y ≼ dd) × FallsFrom x ys dd

  abbrev pub FallsBounded : List F → F → Type 0
  FallsBounded [] dd = Unit
  FallsBounded (x ∷ xs) dd = FallsFrom x xs dd × FallsBounded xs dd

  -- `dd` is the fall from `x`, or from a value to one that is not earlier.
  abbrev pub IsFallFrom : F → List F → F → Type 0
  IsFallFrom x [] dd = ⊥
  IsFallFrom x (y ∷ ys) dd = (dd ≡ x ⊖ y) ⊎ IsFallFrom x ys dd

  abbrev pub IsFall : List F → F → Type 0
  IsFall [] dd = ⊥
  IsFall (x ∷ xs) dd = IsFallFrom x (x ∷ xs) dd ⊎ IsFall xs dd

  -- The equity at each candle.
  abbrev pub equities : F → List (KlineRecord F) → List F
  equities qty = map λ k. qty ⊗ k.close

  module _ (laws : IsOrdered F) (mono : IsMonotone F) (capital qty : F) (all : List F)
      (finite : IsFinite all) where
    abbrev After : HoldState F → List (KlineRecord F) → HoldState F
    After s ks = foldl (hold_step capital qty) s ks

    -- What a loop from here does to a peak and a drawdown that are numbers.
    record Bounds (s : HoldState F) (ks : List (KlineRecord F)) : Type 0 where
      grows : s.hold_max_dd ≼ (After s ks).hold_max_dd
      from_below :
          (x : F)
          → Has x all
          → x ≼ s.hold_peak
          → FallsFrom x (equities qty ks) (After s ks).hold_max_dd
      among : FallsBounded (equities qty ks) (After s ks).hold_max_dd

    peak_of-le : (p e : F) → IsNum p → IsNum e → (p ≼ peak_of p e) × (e ≼ peak_of p e)
    peak_of-le p e m n = elim (Bool-cases (p <? e)) [
      | inl less ↦ rw less (le_of_lt laws p e less, n)
      | inr more ↦ rw more (m, le_of_not-lt laws p e m n more)
    ]

    peak_of-Has : (p e : F) → Has p all → Has e all → Has (peak_of p e) all
    peak_of-Has p e m n = if_rule (λ x. Has x all) (p <? e) (λ _. n) λ _. m

    bounds :
        (s : HoldState F) (ks : List (KlineRecord F))
        → Has s.hold_peak all
        → IsNum s.hold_max_dd
        → HasAll all (equities qty ks)
        → Bounds s ks
    unfolding hold_step
    bounds s [] hp hd h = record { grows = hd; from_below = λ x _ _. tt; among = tt }
    bounds s (k ∷ ks) hp hd (he, h) =
        let e = qty ⊗ k.close in
        let p = s.hold_peak in
        let peak = peak_of p e in
        let next = hold_step capital qty s k in
        let (above, over) = peak_of-le p e (finite.values_num p hp) (finite.values_num e he) in
        let has_peak = peak_of-Has p e hp he in
        let fall_num = finite.differences_num peak e has_peak he in
        let (old, new) = peak_of-le s.hold_max_dd (peak ⊖ e) hd fall_num in
        let later = bounds next ks has_peak (laws.num_of_le _ _ old).1 h in
        record {
          grows = laws.le_trans _ _ _ old later.grows;
          from_below = λ x hx low.
              let under = laws.le_trans x p peak low above in
              (
                laws.le_trans _ _ _
                    (mono.sub_mono x peak e under (finite.differences_num x e hx he) fall_num)
                    (laws.le_trans _ _ _ new later.grows),
                later.from_below x hx under,
              );
          among = (later.from_below e he over, later.among);
        }

  either_peak : (p e : F) → (peak_of p e ≡ p) ⊎ (peak_of p e ≡ e)
  either_peak p e = ground arith

  -- Where a drawdown comes from: from before, from a peak before, or from the candles.
  abbrev Source : F → F → List F → F → Type 0
  Source dd peak es r = (r ≡ dd) ⊎ (IsFallFrom peak es r ⊎ IsFall es r)

  Source-step :
      (dd p e : F) (es : List F) (r : F)
      → Source (deeper dd (peak_of p e ⊖ e)) (peak_of p e) es r
      → Source dd p (e ∷ es) r
  Source-step dd p e es r h = elim (either_peak p e) [
    | inl same ↦ elim h [
      | inl now ↦ elim (either_peak dd (peak_of p e ⊖ e)) [
        | inl old ↦ inl (now ∙ old)
        | inr new ↦ inr (inl (inl (now ∙ new ∙ ap (λ x. x ⊖ e) same)))
      ]
      | inr (inl f) ↦ inr (inl (inr (subst (λ x. IsFallFrom x es r) same f)))
      | inr (inr f) ↦ inr (inr (inr f))
    ]
    | inr top ↦ elim h [
      | inl now ↦ elim (either_peak dd (peak_of p e ⊖ e)) [
        | inl old ↦ inl (now ∙ old)
        | inr new ↦ inr (inr (inl (inl (now ∙ new ∙ ap (λ x. x ⊖ e) top))))
      ]
      | inr (inl f) ↦ inr (inr (inl (inr (subst (λ x. IsFallFrom x es r) top f))))
      | inr (inr f) ↦ inr (inr (inr f))
    ]
  ]

  Source-of :
      (capital qty : F) (s : HoldState F) (ks : List (KlineRecord F))
      → Source s.hold_max_dd s.hold_peak
          (equities qty ks)
          (foldl (hold_step capital qty) s ks).hold_max_dd
  unfolding hold_step
  Source-of capital qty s [] = inl refl
  Source-of capital qty s (k ∷ ks) =
      Source-step s.hold_max_dd s.hold_peak (qty ⊗ k.close) (equities qty ks) _
        (Source-of capital qty (hold_step capital qty s k) ks)

  IsFall-of_Source :
      (capital dd r : F) (es : List F) → Source dd capital es r → (r ≡ dd) ⊎ IsFall (capital ∷ es) r
  IsFall-of_Source capital dd r es (inl e) = inl e
  IsFall-of_Source capital dd r es (inr (inl f)) = inr (inl (inr f))
  IsFall-of_Source capital dd r es (inr (inr f)) = inr (inr f)

  -- For two candles or more in the window, whose equities do not overflow: the benchmark's drawdown is
  -- at least every fall, from the capital or an equity to a later equity; and it is itself such a fall,
  -- or zero.
  pub calc_buy_hold_benchmark-IsDeepest :
      (laws : IsOrdered F) (mono : IsMonotone F) (in_order : List F → List F) (capital : F)
      (h4 : List (KlineRecord F)) (start end : ℕ) (first second : KlineRecord F)
      (ks : List (KlineRecord F))
      → in_window start end h4 ≡ first ∷ second ∷ ks
      → IsFinite (capital ∷ equities (hold_qty capital first.close) (first ∷ second ∷ ks))
      → let es = capital ∷ equities (hold_qty capital first.close) (first ∷ second ∷ ks) in
        let dd = (calc_buy_hold_benchmark in_order capital h4 start end).bench_max_drawdown in
        FallsBounded es dd × ((dd ≡ of_ℕ 0) ⊎ IsFall es dd)
  unfolding calc_buy_hold_benchmark
  calc_buy_hold_benchmark-IsDeepest laws mono in_order capital h4 start end first second ks e
        finite =
      let series = first ∷ second ∷ ks in
      let qty = hold_qty capital first.close in
      let es = equities qty series in
      let here : Has capital (capital ∷ es) = inl refl in
      let b =
        bounds laws mono capital qty (capital ∷ es) finite (hold_start capital) series here
          (laws.num-of_ℕ 0) (HasAll-cons capital es es (HasAll-self es)) in
      rw e (
        (b.from_below capital here (finite.values_num capital here), b.among),
        IsFall-of_Source capital (of_ℕ 0) _ es (Source-of capital qty (hold_start capital) series),
      )
