-- ===== src/SpotBtc/Replay/Steps/Ranges.antt =====
-- strategies/spot_btc_conservative_v1/replay.go: the steps of a position in a range.
use cryptotips.SpotBtc.Replay.Steps.{kept, closed_at, held_on, reached, stopped_by, RangeBand}
use cryptotips.SpotBtc.Replay.{
  regime_range, regime_eq, sell_part, short, long, MarketRegime, Direction, ReplayPosition,
}
use cryptotips.SpotBtc.Config.{Config}
use cryptotips.Base.{true, leb, ◌&&◌, ◌||◌, Bool, not, if◌then◌else◌}
use cryptotips.Float.{◌⊗◌, dec, ◌<?◌, ◌⊕◌, ◌⊖◌, Float}

module _ {F : Type 0} ⦃fl : Float F⦄ where
  -- v9, in a range: a part is sold in the middle of the band.
  abbrev pub part_of : F → F → F
  part_of qty remain = if remain <? qty then remain else qty

  abbrev pub take_mid : Direction → Config F → RangeBand F → F → ReplayPosition F → ReplayPosition F
  take_mid d cfg b price pos =
      if not pos.tp1_done && reached d b.mid price
      then record (sell_part d price
          (part_of (pos.qty_total ⊗ cfg.range_mid_exit_ratio) pos.qty_remain) pos) {
            tp1_done = true;
          }
      else pos

  -- The edge of the band that the position runs to, less a fifth of the range.
  abbrev pub far_edge : Direction → RangeBand F → F
  far_edge long b = b.upper ⊖ b.range_atr ⊗ dec 2 1
  far_edge short b = b.lower ⊕ b.range_atr ⊗ dec 2 1

  abbrev pub leaves_range :
      Direction → Config F → ReplayPosition F → F → MarketRegime → RangeBand F → Bool → Bool
  leaves_range d cfg pos price regime b range_ok =
      stopped_by d pos.trail_stop price
      || not (regime_eq regime regime_range)
      || (range_ok && reached d (far_edge d b) price)
      || leb cfg.range_max_hold_bars pos.hold_bars

  unfoldable pub step_range_position :
      Direction
      → Config F
      → ReplayPosition F
      → F
      → MarketRegime
      → RangeBand F
      → Bool
      → ReplayPosition F × F × Bool
  step_range_position d cfg pos price regime b range_ok =
      if pos.active
      then (let held = take_mid d cfg b price (held_on pos) in
          if leaves_range d cfg held price regime b range_ok
          then closed_at d held price
          else kept held)
      else kept pos
