-- ===== src/SpotBtc/Replay/Steps/Trail.antt =====
-- v8: the stop of a long position.
use cryptotips.Base.Outcome.{value, Returns-bind, Returns-if, Returns}
use cryptotips.SpotBtc.Signal.Safe.{last_atr-Total, last_ema-Total, HasPeriods}
use cryptotips.SpotBtc.Signal.{lows_of, highs_of, closes_of, Ohlc}
use cryptotips.SpotBtc.Config.{Config}
use cryptotips.Base.{
  arith, sym, ◌||◌, refl, subst, if_rule, length, ◌+◌, leb, inr, false, inl, ◌⊎◌, Bool-cases, true,
  ◌&&◌, List, not, ◌≡◌, Bool, if◌then◌else◌,
}
use cryptotips.SpotBtc.Replay.{long, ReplayPosition}
use cryptotips.SpotBtc.Replay.Steps.{
  timed_out, stop_or_trail, behind, held_on, take_tp1, tp1_of, or_stop_loss, tighter, ema_trail,
  step_position_v8,
}
use cryptotips.Float.Order.{le_of_lt, IsOrdered}
use cryptotips.Float.{◌⊗◌, dec, ◌<?◌, ◌≤?◌, of_ℕ, ◌≼◌, IsNum, Float}

module _ {F : Type 0} ⦃fl : Float F⦄ (laws : IsOrdered F) where
  -- The stop that a bar begins with: the entry, where it sells at the first target.
  abbrev pub first_stop : ReplayPosition F → F → F
  first_stop pos price =
      if not pos.tp1_done && (tp1_of long pos ≤? price) then pos.entry_price else pos.trail_stop

  tighter-le : (trail cand : F) → IsNum trail → trail ≼ tighter long trail cand
  tighter-le trail cand n = elim (Bool-cases (trail <? cand)) [
    | inl less ↦ rw less (le_of_lt laws trail cand less)
    | inr more ↦ rw more n
  ]

  ema_trail-Rises :
      (cfg : Config F) (trail : F) (h4 : List (Ohlc F))
      → HasPeriods cfg
      → IsNum trail
      → Returns (λ (t : F). trail ≼ t) (ema_trail long cfg trail h4)
  unfolding ema_trail
  ema_trail-Rises cfg trail h4 p n =
      Returns-if (leb (cfg.atr_period + 2) (length h4))
        (λ _. Returns-bind (last_ema-Total (closes_of h4) cfg.ema_pullback p.pullback_period) λ e _.
          Returns-bind
            (last_atr-Total (highs_of h4) (lows_of h4) (closes_of h4) cfg.atr_period p.range_period)
            λ a _. value (
              if_rule (λ (t : F). trail ≼ t) ((of_ℕ 0 <? a) && (of_ℕ 0 <? e))
                (λ _. tighter-le trail (behind long e (a ⊗ cfg.trail_atr_multiplier)) n) λ _. n))
        λ _. value n

  -- A stop loss that is not negative is no step back.
  or_stop_loss-le :
      (pos : ReplayPosition F) (old trail : F)
      → of_ℕ 0 ≼ pos.stop_loss
      → old ≼ trail
      → old ≼ or_stop_loss pos trail
  or_stop_loss-le pos old trail s h = elim (Bool-cases (trail ≤? of_ℕ 0)) [
    | inl low ↦
        rw low (
          laws.le_trans old trail pos.stop_loss h
            (laws.le_trans trail (of_ℕ 0) pos.stop_loss low s))
    | inr high ↦ rw high h
  ]

  -- A position that is kept has a stop that is not below the old one and not at or above the price.
  abbrev pub KeepsStop : F → F → ReplayPosition F × F × Bool → Type 0
  KeepsStop old price (pos, pnl, closed) =
      (closed ≡ true) ⊎ ((old ≼ pos.trail_stop) × ((price ≤? pos.trail_stop) ≡ false))

  first_of_held :
      (pos : ReplayPosition F) (price : F)
      → (take_tp1 long (dec 25 2) price (held_on pos)).trail_stop ≡ first_stop pos price
  first_of_held pos price = elim (Bool-cases (not pos.tp1_done && (tp1_of long pos ≤? price))) [
    | inl sells ↦ rw sells refl
    | inr holds ↦ rw holds refl
  ]

  loss_of_held :
      (pos : ReplayPosition F) (price : F)
      → (take_tp1 long (dec 25 2) price (held_on pos)).stop_loss ≡ pos.stop_loss
  loss_of_held pos price = elim (Bool-cases (not pos.tp1_done && (tp1_of long pos ≤? price))) [
    | inl sells ↦ rw sells refl
    | inr holds ↦ rw holds refl
  ]

  stop_or_trail-KeepsStop :
      (cfg : Config F) (pos : ReplayPosition F) (price stop old : F)
      → old ≼ stop
      → KeepsStop old price (stop_or_trail long cfg pos price stop)
  stop_or_trail-KeepsStop cfg pos price stop old h =
      elim (Bool-cases ((price ≤? stop) || timed_out cfg pos)) [
        | inl out ↦ rw out (inl refl)
        | inr stays ↦ rw stays (inr (h, ground arith))
      ]

  -- A step of v8 on a long that is kept leaves it with a stop below the price, and not below the one that
  -- the bar began with; that is the old one, or the entry price on the bar that sells at the first
  -- target. The entry and the old stop are numbers, and the stop loss is not negative.
  pub step_position_v8-KeepsStop :
      (cfg : Config F) (pos : ReplayPosition F) (price : F) (h4 : List (Ohlc F))
      → HasPeriods cfg
      → pos.active ≡ true
      → IsNum pos.entry_price
      → IsNum pos.trail_stop
      → of_ℕ 0 ≼ pos.stop_loss
      → Returns (KeepsStop (first_stop pos price) price) (step_position_v8 long cfg pos price h4)
  unfolding step_position_v8
  step_position_v8-KeepsStop cfg pos price h4 p e n m s =
      let held = take_tp1 long (dec 25 2) price (held_on pos) in
      let sells = not pos.tp1_done && (tp1_of long pos ≤? price) in
      let first = first_stop pos price in
      let first_num : IsNum first = if_rule (λ (t : F). IsNum t) sells (λ _. n) λ _. m in
      let begins : held.trail_stop ≡ first = first_of_held pos price in
      let loss : held.stop_loss ≡ pos.stop_loss = loss_of_held pos price in
      Returns-if {Good = KeepsStop first price} pos.active
        (λ _.
          Returns-bind
            (ema_trail-Rises cfg held.trail_stop h4 p
              (subst (λ (t : F). IsNum t) (sym begins) first_num))
            λ trail up. value (
              stop_or_trail-KeepsStop cfg held price (or_stop_loss held trail) first (
                or_stop_loss-le held first trail (subst (λ (x : F). of_ℕ 0 ≼ x) (sym loss) s)
                  (subst (λ (t : F). t ≼ trail) begins up))))
        λ off. absurd (ground arith)
