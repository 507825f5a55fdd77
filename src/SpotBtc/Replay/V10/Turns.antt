-- ===== src/SpotBtc/Replay/V10/Turns.antt =====
-- RunV10Replay turns to a regime: what is closed, what is opened, and at which prices.
use cryptotips.SpotBtc.Replay.{MarketRegime, regime_bull, regime_bear, regime_range}
use cryptotips.SpotBtc.Replay.V10.{StateV10, turn_to}
use cryptotips.SpotBtc.Replay.Ledger.{marked, tallied, Ledger}
use cryptotips.Float.{◌⊘◌, dec, ◌⊕◌, ◌⊗◌, ◌<?◌, ◌≤?◌, ◌⊖◌, Float, of_ℕ}
use cryptotips.Base.{refl, ◌≢◌, inl, Bool-cases, arith, false, true, ◌+◌, ◌⊎◌, inr, ◌≡◌, ℕ}

module _ {F : Type 0} ⦃fl : Float F⦄ where
  -- A side is held with a quantity, so that it can be closed.
  abbrev pub IsHeld : StateV10 F → Type 0
  IsHeld s = (s.side ≡ regime_range) ⊎ ((s.qty_v10 ≤? of_ℕ 0) ≡ false)

  -- The price is positive, and buys a quantity.
  pub record IsPriced (capital price : F) : Type 0 where
    pub positive : (of_ℕ 0 <? price) ≡ true
    pub buys_long : (capital ⊗ dec 70 2 ⊘ price ≤? of_ℕ 0) ≡ false
    pub sells_short : (capital ⊗ dec 70 2 ⊗ of_ℕ 2 ⊘ price ≤? of_ℕ 0) ≡ false

  -- One more trade, with its gain.
  abbrev Traded : F → StateV10 F → StateV10 F → Type 0
  Traded gain s s' =
      (s'.tally.trade_count ≡ s.tally.trade_count + 1) × (s'.tally.net ≡ s.tally.net ⊕ gain)

  abbrev NoTrade : StateV10 F → StateV10 F → Type 0
  NoTrade s s' = (s'.tally.trade_count ≡ s.tally.trade_count) × (s'.tally.net ≡ s.tally.net)

  abbrev Kept : StateV10 F → StateV10 F → Type 0
  Kept s s' = NoTrade s s' × (s'.entry ≡ s.entry) × (s'.qty_v10 ≡ s.qty_v10)

  -- What was held is closed at the price.
  abbrev Leaves : MarketRegime → F → StateV10 F → StateV10 F → Type 0
  Leaves regime_bull price s s' = Traded ((price ⊖ s.entry) ⊗ s.qty_v10) s s'
  Leaves regime_bear price s s' = Traded ((s.entry ⊖ price) ⊗ s.qty_v10) s s'
  Leaves regime_range price s s' = NoTrade s s'

  -- A long is of 0.7 of the capital, a short of twice that; in a range nothing is held.
  abbrev Enters : MarketRegime → F → F → StateV10 F → Type 0
  Enters regime_bull capital price s' =
      (s'.entry ≡ price) × (s'.qty_v10 ≡ capital ⊗ dec 70 2 ⊘ price)
  Enters regime_bear capital price s' =
      (s'.entry ≡ price) × (s'.qty_v10 ≡ capital ⊗ dec 70 2 ⊗ of_ℕ 2 ⊘ price)
  Enters regime_range capital price s' = (s'.entry ≡ of_ℕ 0) × (s'.qty_v10 ≡ of_ℕ 0)

  -- From one side to another.
  abbrev pub Turns : (old new : MarketRegime) → F → F → StateV10 F → StateV10 F → Type 0
  Turns regime_bull regime_bull capital price s s' = Kept s s'
  Turns regime_bear regime_bear capital price s s' = Kept s s'
  Turns regime_range regime_range capital price s s' = Kept s s'
  Turns old new capital price s s' = Leaves old price s s' × Enters new capital price s'

  -- A state that has a side and holds it.
  abbrev pub Turned : (old new : MarketRegime) → F → F → StateV10 F → StateV10 F → Type 0
  Turned old new capital price s s' = IsHeld s' × (s'.side ≡ new) × Turns old new capital price s s'

  -- The wins, the profits and the losses do not touch the rest.
  tallied-rest :
      (pnl : F) (l : Ledger F)
      → ((tallied pnl l).trade_count ≡ l.trade_count) × ((tallied pnl l).net ≡ l.net)
  tallied-rest pnl l = elim (Bool-cases (of_ℕ 0 <? pnl)) [
    | inl gain ↦ rw gain (refl, refl)
    | inr no_gain ↦ rw no_gain (elim (Bool-cases (pnl <? of_ℕ 0)) [
      | inl loss ↦ rw loss (refl, refl)
      | inr even ↦ rw even (refl, refl)
    ])
  ]

  abbrev on_side : MarketRegime → StateV10 F → StateV10 F
  on_side r s = record s { side = r }

  -- A bull or a bear is held with a quantity.
  bull_quantity : (s : StateV10 F) → IsHeld (on_side regime_bull s) → (s.qty_v10 ≤? of_ℕ 0) ≡ false
  bull_quantity s (inl e) = absurd (bull-ne-range e)
    where
      bull-ne-range : regime_bull ≢ regime_range
      bull-ne-range h = cc
  bull_quantity s (inr q) = q

  bear_quantity : (s : StateV10 F) → IsHeld (on_side regime_bear s) → (s.qty_v10 ≤? of_ℕ 0) ≡ false
  bear_quantity s (inl e) = absurd (bear-ne-range e)
    where
      bear-ne-range : regime_bear ≢ regime_range
      bear-ne-range h = cc
  bear_quantity s (inr q) = q

  turn_to-from :
      (old new : MarketRegime) (capital price : F) (t : ℕ) (s : StateV10 F)
      → IsPriced capital price
      → IsHeld (on_side old s)
      → Turned old new capital price (on_side old s) (turn_to new capital price t (on_side old s))
  turn_to-from regime_bull regime_bull capital price t s p h = (h, refl, ((refl, refl), refl, refl))
  turn_to-from regime_bear regime_bear capital price t s p h = (h, refl, ((refl, refl), refl, refl))
  turn_to-from regime_range regime_range capital price t s p h =
      (h, refl, ((refl, refl), refl, refl))
  turn_to-from regime_range regime_bull capital price t s p h =
      rw p.positive (inr p.buys_long, refl, ((refl, refl), (refl, refl)))
  turn_to-from regime_range regime_bear capital price t s p h =
      rw p.positive (inr p.sells_short, refl, ((refl, refl), (refl, refl)))
  turn_to-from regime_bull regime_range capital price t s p h =
      let (count, net) = tallied-rest ((price ⊖ s.entry) ⊗ s.qty_v10) _ in
      rw (bull_quantity s h) (inl refl, refl, ((count, net), (refl, refl)))
  turn_to-from regime_bear regime_range capital price t s p h =
      let (count, net) = tallied-rest ((s.entry ⊖ price) ⊗ s.qty_v10) _ in
      rw (bear_quantity s h) (inl refl, refl, ((count, net), (refl, refl)))
  turn_to-from regime_bull regime_bear capital price t s p h =
      let (count, net) = tallied-rest ((price ⊖ s.entry) ⊗ s.qty_v10) _ in
      rw (bull_quantity s h, p.positive) (inr p.sells_short, refl, ((count, net), (refl, refl)))
  turn_to-from regime_bear regime_bull capital price t s p h =
      let (count, net) = tallied-rest ((s.entry ⊖ price) ⊗ s.qty_v10) _ in
      rw (bear_quantity s h, p.positive) (inr p.buys_long, refl, ((count, net), (refl, refl)))

  -- A turn to a regime ends on its side.
  pub turn_to-Turned :
      (r : MarketRegime) (capital price : F) (t : ℕ) (s : StateV10 F)
      → IsPriced capital price
      → IsHeld s
      → Turned s.side r capital price s (turn_to r capital price t s)
  turn_to-Turned r capital price t s p h = turn_to-from s.side r capital price t s p h

  -- A look at the days before and the mark of the equity behind do not matter to a turn.
  pub Turns-same :
      (old new : MarketRegime) (capital price equity : F) (key : ℕ) (r : MarketRegime)
      (s s' : StateV10 F)
      → Turns old new capital price (record s { regime_day = key; regime_v10 = r }) s'
      → Turns old new capital price s (record s' { tally = marked equity s'.tally })
  unfolding marked
  Turns-same regime_bull regime_bull capital price equity key r s s' h = h
  Turns-same regime_bull regime_bear capital price equity key r s s' h = h
  Turns-same regime_bull regime_range capital price equity key r s s' h = h
  Turns-same regime_bear regime_bull capital price equity key r s s' h = h
  Turns-same regime_bear regime_bear capital price equity key r s s' h = h
  Turns-same regime_bear regime_range capital price equity key r s s' h = h
  Turns-same regime_range regime_bull capital price equity key r s s' h = h
  Turns-same regime_range regime_bear capital price equity key r s s' h = h
  Turns-same regime_range regime_range capital price equity key r s s' h = h

  -- A turn does not touch the regime.
  pub turn_to-regime :
      (r : MarketRegime) (capital price : F) (t : ℕ) (s : StateV10 F)
      → (turn_to r capital price t s).regime_v10 ≡ s.regime_v10
  turn_to-regime regime_bull capital price t s = ground arith
  turn_to-regime regime_bear capital price t s = ground arith
  turn_to-regime regime_range capital price t s = ground arith

  pub turn_to-regime_day :
      (r : MarketRegime) (capital price : F) (t : ℕ) (s : StateV10 F)
      → (turn_to r capital price t s).regime_day ≡ s.regime_day
  turn_to-regime_day regime_bull capital price t s = ground arith
  turn_to-regime_day regime_bear capital price t s = ground arith
  turn_to-regime_day regime_range capital price t s = ground arith
