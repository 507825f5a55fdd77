-- ===== src/SpotBtc/Strategy/Trailing.antt =====
-- The stop of a held position never falls.
use cryptotips.SpotBtc.Signal.Safe.{last_atr-Total}
use cryptotips.SpotBtc.Executor.{partial_close}
use cryptotips.Base.Outcome.{value, Returns-bind, Returns-if, Returns}
use cryptotips.SpotBtc.Strategy.Runs.{advance_stop, take_profit_1, take_profit_2}
use cryptotips.SpotBtc.Signal.{Reason, closes_of, lows_of, highs_of, tp1_1r, tp2_2r, Ohlc}
use cryptotips.SpotBtc.Config.{Config}
use cryptotips.Models.{StrategyLogRecord, TradeRecord, Database}
use cryptotips.Base.{
  length, ◌+◌, leb, ◌&&◌, ◌<◌, List, ℕ, refl, false, inr, arith, inl, Bool-cases, ◌⊎◌, true,
  if◌then◌else◌, ◌≡◌,
}
use cryptotips.SpotBtc.Strategy.{
  tp1_qty, tp2_qty, raised, aged, next_trail, or_stop_loss, after_tp1, after_tp2, tp2_of, tp1_of,
  hits_tp1, hits_tp2,
}
use cryptotips.SpotBtc.State.{Services, StrategyState}
use cryptotips.Float.Order.{le_of_lt, IsOrdered}
use cryptotips.Float.{◌⊗◌, ◌⊖◌, ◌≤?◌, ◌<?◌, of_ℕ, ◌≼◌, IsNum, Float}
use cryptotips.Base.Act.{ended, Ends-lift-Returns, Ends-after, Ends-if, Ends}

module _ {F : Type 0} ⦃fl : Float F⦄ (order : IsOrdered F) where
  -- The prices of a position are in order, and the stop is not above the entry before the first take
  -- profit.
  pub record IsTrailing (st : StrategyState F) : Type 0 where
    pub stop_positive : of_ℕ 0 ≼ st.stop_loss
    pub stop_below : st.stop_loss ≼ st.entry_price
    pub targets : tp1_of st ≼ tp2_of st
    pub trail_num : IsNum st.trail_stop
    pub trail_low : (st.tp1_done ≡ true) ⊎ (st.trail_stop ≼ st.entry_price)

  -- After the first take profit at a price.
  abbrev Passed : F → StrategyState F → StrategyState F → Type 0
  Passed price old st =
      IsTrailing st
      × (old.trail_stop ≼ st.trail_stop)
      × ((st.tp1_done ≡ true) ⊎ ((tp1_of st ≤? price) ≡ false))

  after_tp1-Passed :
      (price : F) (st : StrategyState F)
      → IsTrailing st
      → hits_tp1 price st ≡ true
      → Passed price st (after_tp1 st)
  after_tp1-Passed price st t h = (
    record {
      stop_positive = t.stop_positive;
      stop_below = t.stop_below;
      targets = t.targets;
      trail_num = (order.num_of_le _ _ t.stop_below).1;
      trail_low = inl refl;
    },
    elim t.trail_low [ inl d ↦ absurd (ground arith) | inr low ↦ low ],
    inl refl,
  )

  higher_stop : (a b : F) → IsNum a → IsNum b → a ≼ (if a <? b then b else a)
  higher_stop a b p q = elim (Bool-cases (a <? b)) [
    | inl less ↦ rw less (le_of_lt order a b less)
    | inr more ↦ rw more p
  ]

  after_tp2-Trailing :
      (price : F) (old st : StrategyState F)
      → Passed price old st
      → hits_tp2 price st ≡ true
      → IsTrailing (after_tp2 st) × (old.trail_stop ≼ (after_tp2 st).trail_stop)
  after_tp2-Trailing price old st (t, up, tp1) h =
      let hit : tp2_of st ≼ price = ground arith in
      let reached : tp1_of st ≼ price = order.le_trans _ _ _ t.targets hit in
      let higher =
        higher_stop st.trail_stop (tp1_of st) t.trail_num (order.num_of_le _ _ t.targets).0 in
      (
        record {
          stop_positive = t.stop_positive;
          stop_below = t.stop_below;
          targets = t.targets;
          trail_num = (order.num_of_le _ _ higher).1;
          trail_low = elim tp1 [ inl d ↦ inl d | inr not_yet ↦ absurd (ground arith) ];
        },
        order.le_trans _ _ _ up higher,
      )

  -- What the next stop is: not below the one before, and still not above the entry before the first
  -- take profit.
  abbrev NextStop : StrategyState F → F → Type 0
  NextStop st t = (st.trail_stop ≼ t) × ((st.tp1_done ≡ true) ⊎ (t ≼ st.entry_price))

  or_stop_loss-NextStop :
      (st : StrategyState F) (t : F)
      → IsTrailing st
      → NextStop st t
      → NextStop st (or_stop_loss st t)
  or_stop_loss-NextStop st t h (up, low) = elim (Bool-cases (t ≤? of_ℕ 0)) [
    | inl unset ↦
        rw unset
          (order.le_trans _ _ _ up (order.le_trans _ _ _ unset h.stop_positive), inr h.stop_below)
    | inr set ↦ rw set (up, low)
  ]

  next_trail-NextStop :
      (cfg : Config F) (h4 : List (Ohlc F)) (price : F) (st : StrategyState F)
      → 0 < cfg.atr_period
      → IsTrailing st
      → Returns (NextStop st) (next_trail cfg h4 price st)
  unfolding next_trail
  next_trail-NextStop cfg h4 price st p h =
      Returns-if (st.tp1_done && leb (cfg.atr_period + 1) (length h4))
        (λ late.
          Returns-bind (last_atr-Total (highs_of h4) (lows_of h4) (closes_of h4) cfg.atr_period p)
            λ atr _. value (
              or_stop_loss-NextStop st _ h
                (raised-higher cfg price atr st.trail_stop h.trail_num, inl (ground arith))))
        λ _. value (or_stop_loss-NextStop st st.trail_stop h (h.trail_num, h.trail_low))
    where
      raised-higher :
          (cfg : Config F) (price atr trail : F) → IsNum trail → trail ≼ raised cfg price atr trail
      raised-higher cfg price atr trail n =
          elim (Bool-cases (trail <? price ⊖ atr ⊗ cfg.trail_atr_multiplier)) [
            | inl less ↦
                ground (arith, le_of_lt order trail (price ⊖ atr ⊗ cfg.trail_atr_multiplier) less)
            | inr more ↦ ground arith
          ]

  -- `E` is true where a save of a trade or of a log record fails.
  module _ (db : Database F) (sv : Services F db) (cfg : Config F) (now : ℕ) (E : db.State → Type 0)
      (trades : (r : TradeRecord F) (s : db.State) → Ends (λ _ _. Unit {0}) E (db.save_trade s r))
      (logs : (r : StrategyLogRecord (Reason F)) (s : db.State)
        → Ends (λ _ _. Unit {0}) E (sv.save_log s r)) where
    partial_close-Ends :
        (qty price : F) (reason : Reason F) (s : db.State)
        → Ends (λ _ _. Unit {0}) E (partial_close db sv cfg qty price reason s)
    unfolding partial_close
    partial_close-Ends qty price reason s = Ends-after (trades _ s) λ _ s' _. logs _ s'

    take_profit_1-Passed :
        (price : F) (st : StrategyState F) (s : db.State)
        → IsTrailing st
        → Ends (λ st' _. Passed price st st') E (take_profit_1 db sv cfg now price st s)
    unfolding take_profit_1
    take_profit_1-Passed price st s t =
        Ends-if _ _ s (hits_tp1 price st)
          (λ hit.
            Ends-after (partial_close-Ends (tp1_qty st) price tp1_1r s)
              λ _ s' _. ended (after_tp1-Passed price st t hit))
          λ miss. ended (t, t.trail_num, ground arith)

    take_profit_2-Trailing :
        (price : F) (old st : StrategyState F) (s : db.State)
        → Passed price old st
        → Ends
            (λ st' _. IsTrailing st' × (old.trail_stop ≼ st'.trail_stop))
            E
            (take_profit_2 db sv cfg now price st s)
    unfolding take_profit_2
    take_profit_2-Trailing price old st s p =
        Ends-if _ _ s (hits_tp2 price st)
          (λ hit.
            Ends-after (partial_close-Ends (tp2_qty st) price tp2_2r s)
              λ _ s' _. ended (after_tp2-Trailing price old st p hit))
          λ miss. ended (p.0, p.1)

    -- While a position is held and the period of the range is at least 1, the stop never falls: a pass
    -- over an ordered position ends with a state whose stop is not below the one before, and which is
    -- ordered again, unless a save of a trade or of a log record fails.
    pub advance_stop-Trailing :
        (h4 : List (Ohlc F)) (price : F) (st : StrategyState F) (s : db.State)
        → 0 < cfg.atr_period
        → IsTrailing st
        → Ends
            (λ st' _. IsTrailing st' × (st.trail_stop ≼ st'.trail_stop))
            E
            (advance_stop db sv cfg now h4 price st s)
    unfolding advance_stop
    advance_stop-Trailing h4 price st s p t =
        Ends-after
          (Ends-after (take_profit_1-Passed price (aged st) s (aged_still t))
            λ st1 s1 passed. take_profit_2-Trailing price (aged st) st1 s1 passed)
          λ st2 s2 (t2, up).
            Ends-after
              (Ends-lift-Returns {Q = λ trail _. NextStop st2 trail} s2
                (next_trail cfg h4 price st2) (next_trail-NextStop cfg h4 price st2 p t2)
                (λ trail next. next))
              λ trail s3 (higher, low). ended (
                record {
                  stop_positive = t2.stop_positive;
                  stop_below = t2.stop_below;
                  targets = t2.targets;
                  trail_num = (order.num_of_le _ _ higher).1;
                  trail_low = low;
                },
                order.le_trans _ _ _ up higher,
              )
      where
        aged_still : {st : StrategyState F} → IsTrailing st → IsTrailing (aged st)
        aged_still t = record {
          stop_positive = t.stop_positive;
          stop_below = t.stop_below;
          targets = t.targets;
          trail_num = t.trail_num;
          trail_low = t.trail_low;
        }
