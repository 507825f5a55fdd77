-- ===== src/SpotBtc/Signal/Stops.antt =====
-- calcStop is not above any of the prices that it looks at.
use cryptotips.Base.Outcome.{value, Returns, ok}
use cryptotips.SpotBtc.Config.{Config}
use cryptotips.SpotBtc.Signal.{lowest, last_bar, lower_low, at_most, Ohlc, calc_stop}
use cryptotips.Float.Order.{le_of_not-lt, le_of_lt, IsOrdered}
use cryptotips.Base.{inr, inl, ◌-◌, ◌≡◌, Bool-cases, [], length, drop, foldl, ◌∷◌, List}
use cryptotips.Float.{◌⊖◌, dec, ◌⊗◌, ◌<?◌, ◌≼◌, IsNum, Float}

module _ {F : Type 0} ⦃fl : Float F⦄ where
  abbrev pub LowsNum : List (Ohlc F) → Type 0
  LowsNum [] = Unit
  LowsNum (k ∷ ks) = IsNum k.low × LowsNum ks

  -- Not above any low.
  abbrev pub UnderLows : F → List (Ohlc F) → Type 0
  UnderLows s [] = Unit
  UnderLows s (k ∷ ks) = (s ≼ k.low) × UnderLows s ks

  -- The last five bars, or all of them.
  abbrev pub last_five : List (Ohlc F) → List (Ohlc F)
  last_five h4 = drop (length h4 - 5) h4

  module _ (laws : IsOrdered F) where
    at_most-le :
        (s limit : F) → IsNum s → IsNum limit → (at_most s limit ≼ s) × (at_most s limit ≼ limit)
    at_most-le s limit p q = elim (Bool-cases (limit <? s)) [
      | inl less ↦ rw less (le_of_lt laws limit s less, q)
      | inr more ↦ rw more (p, le_of_not-lt laws limit s q p more)
    ]

    lowest_under :
        (s : F) (ks : List (Ohlc F))
        → IsNum s
        → LowsNum ks
        → let r = foldl lower_low s ks in (r ≼ s) × UnderLows r ks
    lowest_under s [] p q = (p, tt)
    lowest_under s (k ∷ ks) p (q, qs) =
        let (under_s, under_k) = at_most-le s k.low p q in
        let n = (laws.num_of_le _ s under_s).0 in
        let (below, all) = lowest_under (lower_low s k) ks n qs in
        (laws.le_trans _ _ s below under_s, (laws.le_trans _ _ k.low below under_k, all))

    UnderLows-trans : (r s : F) (ks : List (Ohlc F)) → r ≼ s → UnderLows s ks → UnderLows r ks
    UnderLows-trans r s [] h u = tt
    UnderLows-trans r s (k ∷ ks) h (u, us) =
        (laws.le_trans r s k.low h u, UnderLows-trans r s ks h us)

    -- If the prices that calcStop compares are numbers, its stop is above none of them: not the lows of
    -- the last five bars, not 0.98 times the fast average, not the last close less the scaled range.
    pub calc_stop-IsLowest :
        (cfg : Config F) (h4 : List (Ohlc F)) (ema_now atr : F) (last : Ohlc F)
        → last_bar h4 ≡ ok last
        → IsNum last.low
        → LowsNum (last_five h4)
        → IsNum (ema_now ⊗ dec 98 2)
        → IsNum (last.close ⊖ atr ⊗ cfg.trail_atr_multiplier)
        → Returns
            (λ stop.
              UnderLows stop (last_five h4)
              × (stop ≼ ema_now ⊗ dec 98 2)
              × (stop ≼ last.close ⊖ atr ⊗ cfg.trail_atr_multiplier))
            (calc_stop cfg h4 ema_now atr)
    unfolding calc_stop
    calc_stop-IsLowest cfg h4 ema_now atr last e n lows p q =
        let low = lowest h4 last.low in
        let (below, all) = lowest_under last.low (last_five h4) n lows in
        let m = at_most low (ema_now ⊗ dec 98 2) in
        let (m_low, m_ema) = at_most-le low (ema_now ⊗ dec 98 2) (laws.num_of_le _ _ below).0 p in
        let (s_m, s_atr) =
          at_most-le m (last.close ⊖ atr ⊗ cfg.trail_atr_multiplier) (laws.num_of_le _ _ m_low).0
            q in
        rw e (
          value (
            UnderLows-trans _ m (last_five h4) s_m (UnderLows-trans m low (last_five h4) m_low all),
            laws.le_trans _ m _ s_m m_ema,
            s_atr,
          ))
