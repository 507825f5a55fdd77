-- ===== src/SpotBtc/Replay/Switch.antt =====
-- strategies/spot_btc_conservative_v1/replay.go: what v6 sells when a trend turns into a range.
use cryptotips.SpotBtc.Replay.Steps.Ranges.{part_of}
use cryptotips.Indicator.Atr.{last_atr}
use cryptotips.Base.Outcome.{◌>>=◌, ok, Run}
use cryptotips.SpotBtc.Replay.Steps.{behind, or_stop_loss, stopped_by}
use cryptotips.SpotBtc.Signal.{closes_of, lows_of, highs_of, Ohlc}
use cryptotips.Base.{◌+◌, length, ltb, not, ◌||◌, ℕ, if◌then◌else◌, List}
use cryptotips.SpotBtc.Config.{Config}
use cryptotips.SpotBtc.Replay.{
  gain, no_position, long, short, ReplayShortPosition, Direction, ReplayPosition,
}
use cryptotips.Float.{◌⊗◌, ◌⊕◌, dec, ◌<?◌, of_ℕ, ◌≤?◌, ◌⊖◌, Float}

module _ {F : Type 0} ⦃fl : Float F⦄ where
  -- lastATR
  unfoldable pub last_range : List (Ohlc F) → ℕ → Run F
  last_range h4 period =
      if ltb (length h4) (period + 1)
      then ok (of_ℕ 0)
      else last_atr (highs_of h4) (lows_of h4) (closes_of h4) period

  abbrev pub without : F → ReplayPosition F → ReplayPosition F
  without qty pos = record pos { qty_remain = pos.qty_remain ⊖ qty }

  -- The body of the loop over the first two parts; the profit stands beside the position.
  abbrev pub sell_now : Direction → F → F → ReplayPosition F × F → ReplayPosition F × F
  sell_now d price q (pos, pnl) =
      if (q ≤? of_ℕ 0) || (pos.qty_remain ≤? of_ℕ 0)
      then (pos, pnl)
      else (let sold = part_of q pos.qty_remain in
          (without sold pos, pnl ⊕ gain d pos.entry_price price ⊗ sold))

  -- The third part is sold only behind its stop.
  abbrev pub sell_behind : Direction → F → F → F → ReplayPosition F × F → ReplayPosition F × F
  sell_behind d price distance q (pos, pnl) =
      let sold = part_of q pos.qty_remain in
      if of_ℕ 0 <? sold
      then (let rest = without sold pos in
          if stopped_by d (or_stop_loss pos (behind d price distance)) price
          then (rest, pnl ⊕ gain d pos.entry_price price ⊗ sold)
          else (record rest { qty_remain = rest.qty_remain ⊕ sold }, pnl))
      else (pos, pnl)

  abbrev pub or_empty : ReplayPosition F × F → ReplayPosition F × F
  or_empty (pos, pnl) = (if pos.qty_remain ≤? dec 1 9 then no_position else pos, pnl)

  unfoldable pub switch_take_profit :
      Direction → Config F → ReplayPosition F → F → List (Ohlc F) → Run (ReplayPosition F × F)
  unfolding last_range
  switch_take_profit d cfg pos price h4 =
      if not pos.active || (pos.qty_remain ≤? of_ℕ 0) then ok (pos, of_ℕ 0) else (do
        atr ← last_range h4 cfg.atr_period
        let q1 = pos.qty_remain ⊗ cfg.switch_tp1_pct
        let q2 = pos.qty_remain ⊗ cfg.switch_tp2_pct
        let q3 = pos.qty_remain ⊗ cfg.switch_tp3_pct
        let sold = sell_now d price q2 (sell_now d price q1 (pos, of_ℕ 0))
        ok (or_empty (sell_behind d price (atr ⊗ cfg.switch_trail_atr_multiplier) q3 sold)))

  -- applyLongSwitchTakeProfit and applyShortSwitchTakeProfit
  abbrev pub apply_long_switch_take_profit :
      Config F → ReplayPosition F → F → List (Ohlc F) → Run (ReplayPosition F × F)
  apply_long_switch_take_profit cfg pos price h4 = switch_take_profit long cfg pos price h4

  abbrev pub apply_short_switch_take_profit :
      Config F → ReplayShortPosition F → F → List (Ohlc F) → Run (ReplayPosition F × F)
  apply_short_switch_take_profit cfg pos price h4 = switch_take_profit short cfg pos price h4
