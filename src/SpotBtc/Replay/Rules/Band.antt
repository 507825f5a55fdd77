-- ===== src/SpotBtc/Replay/Rules/Band.antt =====
-- detectRangeBand: the band holds the days that it looks at.
use cryptotips.SpotBtc.Replay.Total.{last_range-Total}
use cryptotips.Base.Outcome.{Returns-bind, value, Returns-if, Returns, ok}
use cryptotips.SpotBtc.Signal.Safe.{HasPeriods}
use cryptotips.SpotBtc.Replay.Rules.{no_band, detect_range_band, widened, band_of}
use cryptotips.SpotBtc.Replay.Steps.{RangeBand}
use cryptotips.SpotBtc.Config.{Config}
use cryptotips.SpotBtc.Signal.{Ohlc}
use cryptotips.Base.{
  lt→ltb, ap, sym, ◌∙◌, ltb→lt, length-drop, ◌+◌, ltb, subst, zero, suc, drop, ◌-◌, length, ℕ, ◌<◌,
  index, refl, arith, inr, ◌||◌, ◌⊎◌, false, inl, ◌≡◌, Bool, Bool-cases, [], foldl, ◌∷◌, List,
}
use cryptotips.Float.Order.{le_of_not-lt, le_of_lt, IsOrdered}
use cryptotips.Float.{◌⊖◌, ◌⊘◌, ◌⊕◌, of_ℕ, ◌<?◌, ◌≤?◌, ◌≼◌, IsNum, Float}

index-drop :
    {A : Type 0} (xs : List A) (i : ℕ)
    → i < length xs
    → (x : A) × (rest : List A) × (index xs i ≡ ok x) × (drop i xs ≡ x ∷ rest)
unfolding index
index-drop [] i h = absurd (omega arith)
index-drop (x ∷ xs) zero h = (x, xs, refl, refl)
index-drop (x ∷ xs) (suc i) h = index-drop xs i (omega arith)

module _ {F : Type 0} ⦃fl : Float F⦄ where
  abbrev pub BarsNum : List (Ohlc F) → Type 0
  BarsNum [] = Unit
  BarsNum (k ∷ ks) = IsNum k.high × IsNum k.low × BarsNum ks

  -- All the bars are between the two.
  abbrev pub Between : F → F → List (Ohlc F) → Type 0
  Between upper lower [] = Unit
  Between upper lower (k ∷ ks) = (k.high ≼ upper) × (lower ≼ k.low) × Between upper lower ks

  -- What a band that is reported promises: it looks at as many days as the profile says, none of them is
  -- beyond it, its middle is the mean of its edges, its range is positive, and it is as wide as the
  -- profile wants.
  abbrev pub IsBand : Config F → List (Ohlc F) → RangeBand F × Bool → Type 0
  IsBand cfg days (b, reported) =
      (reported ≡ false)
      ⊎ ((length days ≡ cfg.range_lookback_days)
          × Between b.upper b.lower days
          × (b.mid ≡ (b.upper ⊕ b.lower) ⊘ of_ℕ 2)
          × (((b.range_atr ≤? of_ℕ 0) ≡ false)
              × ((b.upper ≤? b.lower) ≡ false)
              × (((b.upper ⊖ b.lower) ⊘ b.range_atr <? cfg.range_min_width_atr) ≡ false)))

  module _ (laws : IsOrdered F) where
    widened-le :
        (u l : F) (k : Ohlc F)
        → IsNum u
        → IsNum l
        → IsNum k.high
        → IsNum k.low
        → let (u', l') = widened (u, l) k in (u ≼ u') × (k.high ≼ u') × ((l' ≼ l) × (l' ≼ k.low))
    widened-le u l k p q r s = (
      elim (Bool-cases (u <? k.high)) [
        | inl less ↦ rw less (le_of_lt laws u k.high less)
        | inr more ↦ rw more p
      ],
      elim (Bool-cases (u <? k.high)) [
        | inl less ↦ rw less r
        | inr more ↦ rw more (le_of_not-lt laws u k.high p r more)
      ],
      (
        elim (Bool-cases (k.low <? l)) [
          | inl less ↦ rw less (le_of_lt laws k.low l less)
          | inr more ↦ rw more q
        ],
        elim (Bool-cases (k.low <? l)) [
          | inl less ↦ rw less s
          | inr more ↦ rw more (le_of_not-lt laws k.low l s q more)
        ],
      ),
    )

    widened-Between :
        (ul : F × F) (ks : List (Ohlc F))
        → IsNum ul.0
        → IsNum ul.1
        → BarsNum ks
        → let r = foldl widened ul ks in (ul.0 ≼ r.0) × (r.1 ≼ ul.1) × Between r.0 r.1 ks
    widened-Between (u, l) [] p q h = (p, q, tt)
    widened-Between (u, l) (k ∷ ks) p q (kh, kl, h) =
        let ul = widened (u, l) k in
        let (up, high, (down, low)) = widened-le u l k p q kh kl in
        let (above, below, rest) =
          widened-Between ul ks (laws.num_of_le _ _ up).1 (laws.num_of_le _ _ down).0 h in
        (
          laws.le_trans _ _ _ up above,
          laws.le_trans _ _ _ below down,
          (laws.le_trans _ _ _ high above, laws.le_trans _ _ _ below low, rest),
        )

    band_of-IsBand :
        (cfg : Config F) (days : List (Ohlc F)) (u l atr : F)
        → length days ≡ cfg.range_lookback_days
        → Between u l days
        → IsBand cfg days (band_of cfg (u, l) atr)
    band_of-IsBand cfg days u l atr count h = elim (Bool-cases ((atr ≤? of_ℕ 0) || (u ≤? l))) [
      | inl bad ↦ rw bad (inl refl)
      | inr good ↦ rw good (elim (Bool-cases ((u ⊖ l) ⊘ atr <? cfg.range_min_width_atr)) [
        | inl narrow ↦ rw narrow (inl refl)
        | inr wide ↦ rw wide (inr (count, h, refl, (ground arith, ground arith, wide)))
      ])
    ]

    detect_from :
        (cfg : Config F) (day h4 : List (Ohlc F))
        → HasPeriods cfg
        → (first : Ohlc F) (rest : List (Ohlc F))
        → index day (length day - cfg.range_lookback_days) ≡ ok first
        → drop (length day - cfg.range_lookback_days) day ≡ first ∷ rest
        → length (first ∷ rest) ≡ cfg.range_lookback_days
        → BarsNum (first ∷ rest)
        → Returns (IsBand cfg (first ∷ rest)) (detect_range_band cfg day h4)
    unfolding detect_range_band
    detect_from cfg day h4 p first rest at days count (nh, nl, n) =
        let (_, _, within) =
          widened-Between (first.high, first.low) (first ∷ rest) nh nl (nh, nl, n) in
        let (u, l) = foldl widened (first.high, first.low) (first ∷ rest) in
        Returns-if
          (ltb (length day) cfg.range_lookback_days || ltb (length h4) (cfg.atr_period + 2))
          (λ _. value (inl refl))
          λ _.
            rw (at, days)
              (Returns-bind (last_range-Total h4 cfg.atr_period p.range_period)
                λ atr _. value (band_of-IsBand cfg (first ∷ rest) u l atr count within))

    short_history :
        (cfg : Config F) (day h4 : List (Ohlc F))
        → length day < cfg.range_lookback_days
        → detect_range_band cfg day h4 ≡ ok (no_band, false)
    unfolding detect_range_band
    short_history cfg day h4 short = rw (lt→ltb (length day) cfg.range_lookback_days short) refl

    -- detectRangeBand does not panic, however many days and candles it has, if the profile looks back at
    -- least one day and its periods are at least 1. If it reports a band, there were as many days as it
    -- looks back at, none of them goes beyond the band, its middle is the mean of its edges, the upper is
    -- not at most the lower, its range is positive, and it is as wide as the profile wants; if the
    -- prices of those days are numbers.
    pub detect_range_band-IsBand :
        (cfg : Config F) (day h4 : List (Ohlc F))
        → HasPeriods cfg
        → 0 < cfg.range_lookback_days
        → BarsNum (drop (length day - cfg.range_lookback_days) day)
        → Returns
            (IsBand cfg (drop (length day - cfg.range_lookback_days) day))
            (detect_range_band cfg day h4)
    detect_range_band-IsBand cfg day h4 p back n =
        elim (Bool-cases (ltb (length day) cfg.range_lookback_days)) [
          | inl short ↦ rw (short_history cfg day h4 (ltb→lt _ _ short)) (value (inl refl))
          | inr enough ↦
              let (first, rest, at, days) =
                index-drop day (length day - cfg.range_lookback_days) (ground arith) in
              let count =
                ap length (sym days) ∙ length-drop (length day - cfg.range_lookback_days) day in
              rw days (
                detect_from cfg day h4 p first rest at days (count ∙ ground arith)
                  (subst BarsNum days n))
        ]
