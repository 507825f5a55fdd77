-- ===== src/SpotBtc/Replay/Steps/Fills.antt =====
-- The profit that a step reports is the sum of what was sold, part by part.
use cryptotips.SpotBtc.Replay.Steps.Ranges.{leaves_range, part_of, step_range_position, take_mid}
use cryptotips.SpotBtc.Replay.Total.Steps.{atr_trail-Total, ema_trail-Total}
use cryptotips.Base.Outcome.{Returns-if, value, Returns-bind, Returns}
use cryptotips.SpotBtc.Signal.Safe.{HasPeriods}
use cryptotips.SpotBtc.Signal.{Ohlc}
use mathlib.Core.List.{append-nil, append_assoc}
use cryptotips.SpotBtc.Config.{Config}
use cryptotips.SpotBtc.Replay.Steps.{
  timed_out, stopped_by, or_stop_loss, with_targets, tp1_of, tp2_of, reached, RangeBand, kept,
  step_position_v8, closed_at, held_on, step_position, take_tp1, take_tp2,
}
use cryptotips.SpotBtc.Replay.{MarketRegime, sell_part, gain, ReplayPosition, Direction}
use cryptotips.Base.{
  arith, ◌||◌, ◌&&◌, not, if_rule, sym, ap, if◌then◌else◌, subst, ◌∙◌, true, false, refl, Bool, [],
  ◌++◌, ◌≡◌, foldl, ◌∷◌, List,
}
use cryptotips.Float.{dec, of_ℕ, ◌⊗◌, ◌⊕◌, ◌⊖◌, Float}

-- A part of a position that was sold.
pub record Fill (F : Type 0) : Type 0 where
  pub fill_price : F
  pub fill_qty : F

pub foldl-snoc :
    {A B : Type 0} (f : B → A → B) (z : B) (xs : List A) (x : A)
    → foldl f z (xs ++ x ∷ []) ≡ f (foldl f z xs) x
foldl-snoc f z [] x = refl
foldl-snoc f z (y ∷ xs) x = foldl-snoc f (f z y) xs x

module _ {F : Type 0} ⦃fl : Float F⦄ where
  abbrev pub fill : F → F → Fill F
  fill price qty = record { fill_price = price; fill_qty = qty }

  -- What the parts have earned, and the quantity that they leave.
  abbrev pub earned_by : Direction → F → List (Fill F) → F
  earned_by d entry = foldl (λ acc f. acc ⊕ gain d entry f.fill_price ⊗ f.fill_qty) (of_ℕ 0)

  abbrev pub left_by : F → List (Fill F) → F
  left_by = foldl λ q f. q ⊖ f.fill_qty

  -- The position is what was opened, less the parts.
  pub record IsAccounted (d : Direction) (entry total : F) (fills : List (Fill F))
      (pos : ReplayPosition F) : Type 0 where
    pub same_entry : pos.entry_price ≡ entry
    pub same_total : pos.qty_total ≡ total
    pub qty_left : pos.qty_remain ≡ left_by total fills
    pub part_earned : pos.realized_part ≡ earned_by d entry fills

  -- The same, with more parts that were sold at the price.
  abbrev pub AtPrice : F → List (Fill F) → Type 0
  AtPrice price [] = Unit
  AtPrice price (f ∷ fs) = (f.fill_price ≡ price) × AtPrice price fs

  abbrev SoldMore : Direction → (entry total price : F) → List (Fill F) → ReplayPosition F → Type 0
  SoldMore d entry total price fills pos =
      (more : List (Fill F)) × AtPrice price more × IsAccounted d entry total (fills ++ more) pos

  -- After a step: the position that is kept is accounted for, and the profit of one that is closed is
  -- what all its parts have earned, the last of which is the quantity that the others leave.
  abbrev pub Settles :
      Direction → (entry total price : F) → List (Fill F) → ReplayPosition F × F × Bool → Type 0
  Settles d entry total price fills (pos, pnl, false) =
      (more : List (Fill F)) × AtPrice price more × IsAccounted d entry total (fills ++ more) pos
  Settles d entry total price fills (pos, pnl, true) =
      (more : List (Fill F)) × AtPrice price more
      × (let sold = fills ++ more in
          pnl ≡ earned_by d entry (sold ++ fill price (left_by total sold) ∷ []))

  sell_part-IsAccounted :
      (d : Direction) (entry total price qty : F) (fills : List (Fill F)) (pos : ReplayPosition F)
      → IsAccounted d entry total fills pos
      → IsAccounted d entry total (fills ++ fill price qty ∷ []) (sell_part d price qty pos)
  sell_part-IsAccounted d entry total price qty fills pos a = record {
    same_entry = a.same_entry;
    same_total = a.same_total;
    qty_left =
        ap (λ q. q ⊖ qty) a.qty_left
        ∙ sym (foldl-snoc (λ q f. q ⊖ f.fill_qty) total fills (fill price qty));
    part_earned =
        (λ i. a.part_earned i ⊕ gain d (a.same_entry i) price ⊗ qty)
        ∙ sym (
            foldl-snoc (λ acc f. acc ⊕ gain d entry f.fill_price ⊗ f.fill_qty) (of_ℕ 0) fills
              (fill price qty));
  }

  AtPrice-snoc :
      (price qty : F) (fs : List (Fill F))
      → AtPrice price fs
      → AtPrice price (fs ++ fill price qty ∷ [])
  AtPrice-snoc price qty [] h = (refl, tt)
  AtPrice-snoc price qty (f ∷ fs) (e, h) = (e, AtPrice-snoc price qty fs h)

  module _ (d : Direction) (entry total price : F) (fills : List (Fill F)) where
    -- Only the quantity and the profit of a position are accounted for.
    same_money :
        (pos pos' : ReplayPosition F)
        → pos'.entry_price ≡ pos.entry_price
        → pos'.qty_total ≡ pos.qty_total
        → pos'.qty_remain ≡ pos.qty_remain
        → pos'.realized_part ≡ pos.realized_part
        → SoldMore d entry total price fills pos
        → SoldMore d entry total price fills pos'
    same_money pos pos' p q r s (more, at, a) = (
      more,
      at,
      record {
        same_entry = p ∙ a.same_entry;
        same_total = q ∙ a.same_total;
        qty_left = r ∙ a.qty_left;
        part_earned = s ∙ a.part_earned;
      },
    )

    sell_part-SoldMore :
        (qty : F) (pos : ReplayPosition F)
        → SoldMore d entry total price fills pos
        → SoldMore d entry total price fills (sell_part d price qty pos)
    sell_part-SoldMore qty pos (more, at, a) = (
      more ++ fill price qty ∷ [],
      AtPrice-snoc price qty more at,
      subst (λ fs. IsAccounted d entry total fs (sell_part d price qty pos))
          (append_assoc fills more (fill price qty ∷ []))
          (sell_part-IsAccounted d entry total price qty (fills ++ more) pos a),
    )

    take_tp1-SoldMore :
        (fraction : F) (pos : ReplayPosition F)
        → SoldMore d entry total price fills pos
        → SoldMore d entry total price fills (take_tp1 d fraction price pos)
    take_tp1-SoldMore fraction pos a =
        let qty = pos.qty_total ⊗ fraction in
        if_rule (SoldMore d entry total price fills)
          (not pos.tp1_done && reached d (tp1_of d pos) price)
          (λ _.
            same_money (sell_part d price qty pos) _ refl refl refl refl
              (sell_part-SoldMore qty pos a))
          λ _. a

    take_tp2-SoldMore :
        (pos : ReplayPosition F)
        → SoldMore d entry total price fills pos
        → SoldMore d entry total price fills (take_tp2 d price pos)
    take_tp2-SoldMore pos a =
        let qty = pos.qty_total ⊗ dec 3 1 in
        if_rule (SoldMore d entry total price fills)
          (not pos.tp2_done && reached d (tp2_of d pos) price)
          (λ _.
            same_money (sell_part d price qty pos) _ refl refl refl refl
              (sell_part-SoldMore qty pos a))
          λ _. a

    take_mid-SoldMore :
        (cfg : Config F) (b : RangeBand F) (pos : ReplayPosition F)
        → SoldMore d entry total price fills pos
        → SoldMore d entry total price fills (take_mid d cfg b price pos)
    take_mid-SoldMore cfg b pos a =
        let qty = part_of (pos.qty_total ⊗ cfg.range_mid_exit_ratio) pos.qty_remain in
        if_rule (SoldMore d entry total price fills) (not pos.tp1_done && reached d b.mid price)
          (λ _.
            same_money (sell_part d price qty pos) _ refl refl refl refl
              (sell_part-SoldMore qty pos a))
          λ _. a

    held_on-SoldMore :
        (pos : ReplayPosition F)
        → IsAccounted d entry total fills pos
        → SoldMore d entry total price fills (held_on pos)
    held_on-SoldMore pos a =
        same_money pos (held_on pos) refl refl refl refl
          ([], tt, subst (λ fs. IsAccounted d entry total fs pos) (sym (append-nil fills)) a)

    -- The last part is the rest.
    closed_at-Settles :
        (pos : ReplayPosition F)
        → SoldMore d entry total price fills pos
        → Settles d entry total price fills (closed_at d pos price)
    closed_at-Settles pos (more, at, a) =
        let sold = fills ++ more in
        (
          more,
          at,
          (λ i. a.part_earned i ⊕ gain d (a.same_entry i) price ⊗ a.qty_left i)
              ∙ sym (
                  foldl-snoc (λ acc f. acc ⊕ gain d entry f.fill_price ⊗ f.fill_qty) (of_ℕ 0) sold
                    (fill price (left_by total sold))),
        )

    exits_or_keeps :
        (test : Bool) (pos : ReplayPosition F) (trail : F)
        → SoldMore d entry total price fills pos
        → Settles d entry total price fills
            (if test then closed_at d pos price else kept (record pos { trail_stop = trail }))
    exits_or_keeps true pos trail a = closed_at-Settles pos a
    exits_or_keeps false pos trail a = same_money pos _ refl refl refl refl a

    step_position-Settles :
        (cfg : Config F) (pos : ReplayPosition F) (h4 : List (Ohlc F))
        → HasPeriods cfg
        → pos.active ≡ true
        → IsAccounted d entry total fills pos
        → Returns (Settles d entry total price fills) (step_position d cfg pos price h4)
    unfolding step_position
    step_position-Settles cfg pos h4 p e a =
        let tp1 = take_tp1 d (dec 4 1) price (held_on pos) in
        let held = with_targets d price pos in
        let sold : SoldMore d entry total price fills held =
          take_tp2-SoldMore tp1
            (take_tp1-SoldMore (dec 4 1) (held_on pos) (held_on-SoldMore pos a)) in
        Returns-if {Good = Settles d entry total price fills} pos.active
          (λ _. Returns-bind (atr_trail-Total d cfg held price h4 p) λ trail _. value (
            exits_or_keeps (stopped_by d (or_stop_loss held trail) price || timed_out cfg held) held
              held.trail_stop sold))
          λ off. absurd (ground arith)

    step_position_v8-Settles :
        (cfg : Config F) (pos : ReplayPosition F) (h4 : List (Ohlc F))
        → HasPeriods cfg
        → pos.active ≡ true
        → IsAccounted d entry total fills pos
        → Returns (Settles d entry total price fills) (step_position_v8 d cfg pos price h4)
    unfolding step_position_v8
    step_position_v8-Settles cfg pos h4 p e a =
        let held = take_tp1 d (dec 25 2) price (held_on pos) in
        let sold : SoldMore d entry total price fills held =
          take_tp1-SoldMore (dec 25 2) (held_on pos) (held_on-SoldMore pos a) in
        Returns-if {Good = Settles d entry total price fills} pos.active
          (λ _. Returns-bind (ema_trail-Total d cfg held.trail_stop h4 p) λ trail _.
            let stop = or_stop_loss held trail in
            value (exits_or_keeps (stopped_by d stop price || timed_out cfg held) held stop sold))
          λ off. absurd (ground arith)

    step_range_position-Settles :
        (cfg : Config F) (pos : ReplayPosition F) (regime : MarketRegime) (b : RangeBand F)
        (range_ok : Bool)
        → pos.active ≡ true
        → IsAccounted d entry total fills pos
        → Settles d entry total price fills (step_range_position d cfg pos price regime b range_ok)
    unfolding step_range_position
    step_range_position-Settles cfg pos regime b range_ok e a =
        let held = take_mid d cfg b price (held_on pos) in
        if_rule (Settles d entry total price fills) pos.active
          (λ _.
            exits_or_keeps (leaves_range d cfg held price regime b range_ok) held held.trail_stop
              (take_mid-SoldMore cfg b (held_on pos) (held_on-SoldMore pos a)))
          λ off. absurd (ground arith)

    -- With periods of at least 1, a step on an open position whose books are right: it keeps them right,
    -- with what it sold at the price of the bar; and when it closes the position, the profit it reports is the sum of all that
    -- the parts have earned, bit by bit in the order of their sale, and the last part is what is left.
    -- So for the steps of v6 and v7, of v8, and of the ranges of v9, for longs and shorts.
    pub steps-Settles :
        (cfg : Config F) (pos : ReplayPosition F) (h4 : List (Ohlc F)) (regime : MarketRegime)
        (b : RangeBand F) (range_ok : Bool)
        → HasPeriods cfg
        → pos.active ≡ true
        → IsAccounted d entry total fills pos
        → Returns (Settles d entry total price fills) (step_position d cfg pos price h4)
          × Returns (Settles d entry total price fills) (step_position_v8 d cfg pos price h4)
          × Settles d entry total price fills
              (step_range_position d cfg pos price regime b range_ok)
    steps-Settles cfg pos h4 regime b range_ok p e a = (
      step_position-Settles cfg pos h4 p e a,
      step_position_v8-Settles cfg pos h4 p e a,
      step_range_position-Settles cfg pos regime b range_ok e a,
    )
