-- ===== src/SpotBtc/Replay/Steps.antt =====
-- strategies/spot_btc_conservative_v1/replay.go: what one bar does to a position, with the results of a step.
pub mod Fills
pub mod Trail
pub mod Ranges
use cryptotips.Indicator.Averages.{last_ema}
use cryptotips.Indicator.Atr.{last_atr}
use cryptotips.Base.Outcome.{ok, ◌>>=◌, Run}
use cryptotips.SpotBtc.Signal.{closes_of, lows_of, highs_of, last_bar, Ohlc}
use cryptotips.SpotBtc.Replay.{
  regime_range, open_value, regime_eq, sell_part, short, long, no_position, MarketRegime,
  ReplayShortPosition, Direction, ReplayPosition,
}
use cryptotips.SpotBtc.Config.{Config}
use cryptotips.Base.{length, true, leb, false, ltb, ◌&&◌, ◌||◌, Bool, List, not, ◌+◌, if◌then◌else◌}
use cryptotips.Float.{◌=?◌, ◌⊗◌, dec, of_ℕ, ◌<?◌, ◌≤?◌, ◌⊕◌, ◌⊖◌, Float}

-- v9: the range of the last days.
pub record RangeBand (F : Type 0) : Type 0 where
  pub upper : F
  pub lower : F
  pub mid : F
  pub range_atr : F

module _ {F : Type 0} ⦃fl : Float F⦄ where
  -- The price is at the target or past it, seen from the entry.
  abbrev pub reached : Direction → F → F → Bool
  reached long target price = target ≤? price
  reached short target price = price ≤? target

  -- The price is at the stop or past it.
  abbrev pub stopped_by : Direction → F → F → Bool
  stopped_by long stop price = price ≤? stop
  stopped_by short stop price = stop ≤? price

  -- On the side of the target, and on the side of the stop.
  abbrev pub ahead : Direction → F → F → F
  ahead long price distance = price ⊕ distance
  ahead short price distance = price ⊖ distance

  abbrev pub behind : Direction → F → F → F
  behind long price distance = price ⊖ distance
  behind short price distance = price ⊕ distance

  abbrev pub tp1_of : Direction → ReplayPosition F → F
  tp1_of d pos = ahead d pos.entry_price pos.risk_per_unit

  abbrev pub tp2_of : Direction → ReplayPosition F → F
  tp2_of d pos = ahead d pos.entry_price (of_ℕ 2 ⊗ pos.risk_per_unit)

  abbrev pub held_on : ReplayPosition F → ReplayPosition F
  held_on pos = record pos { hold_bars = pos.hold_bars + 1 }

  -- The block of the first target; v8 sells a quarter there, the others two fifths.
  abbrev pub take_tp1 : Direction → F → F → ReplayPosition F → ReplayPosition F
  take_tp1 d fraction price pos =
      if not pos.tp1_done && reached d (tp1_of d pos) price
      then record (sell_part d price (pos.qty_total ⊗ fraction) pos) {
        tp1_done = true;
        trail_stop = pos.entry_price;
      }
      else pos

  -- The stop behind the second target.
  abbrev pub raised_to : Direction → F → F → F
  raised_to long tp1 trail = if trail <? tp1 then tp1 else trail
  raised_to short tp1 trail = if (trail =? of_ℕ 0) || (tp1 <? trail) then tp1 else trail

  abbrev pub take_tp2 : Direction → F → ReplayPosition F → ReplayPosition F
  take_tp2 d price pos =
      if not pos.tp2_done && reached d (tp2_of d pos) price
      then record (sell_part d price (pos.qty_total ⊗ dec 3 1) pos) {
        tp2_done = true;
        trail_stop = raised_to d (tp1_of d pos) pos.trail_stop;
      }
      else pos

  -- A stop that follows the price.
  abbrev pub tighter : Direction → F → F → F
  tighter long trail cand = if trail <? cand then cand else trail
  tighter short trail cand = if (trail =? of_ℕ 0) || (cand <? trail) then cand else trail

  abbrev pub range_of : Config F → List (Ohlc F) → Run F
  range_of cfg h4 = last_atr (highs_of h4) (lows_of h4) (closes_of h4) cfg.atr_period

  abbrev pub follows_price : Config F → ReplayPosition F → List (Ohlc F) → Bool
  follows_price cfg pos h4 =
      (of_ℕ 0 <? cfg.trail_atr_multiplier) && pos.tp1_done && leb (cfg.atr_period + 1) (length h4)

  unfoldable pub atr_trail : Direction → Config F → ReplayPosition F → F → List (Ohlc F) → Run F
  atr_trail d cfg pos price h4 =
      if follows_price cfg pos h4
      then range_of cfg h4 >>= (λ atr. ok (
          if of_ℕ 0 <? atr
          then tighter d pos.trail_stop (behind d price (atr ⊗ cfg.trail_atr_multiplier))
          else pos.trail_stop))
      else ok pos.trail_stop

  -- `if trail <= 0 { trail = pos.stopLoss }`
  abbrev pub or_stop_loss : ReplayPosition F → F → F
  or_stop_loss pos trail = if trail ≤? of_ℕ 0 then pos.stop_loss else trail

  abbrev pub timed_out : Config F → ReplayPosition F → Bool
  timed_out cfg pos = ltb 0 cfg.max_hold_bars && leb cfg.max_hold_bars pos.hold_bars

  abbrev pub closed_at : Direction → ReplayPosition F → F → ReplayPosition F × F × Bool
  closed_at d pos price = (no_position, open_value d pos price, true)

  abbrev pub kept : ReplayPosition F → ReplayPosition F × F × Bool
  kept pos = (pos, of_ℕ 0, false)

  -- The two targets, before the stop.
  abbrev pub with_targets : Direction → F → ReplayPosition F → ReplayPosition F
  with_targets d price pos = take_tp2 d price (take_tp1 d (dec 4 1) price (held_on pos))

  unfoldable pub step_position :
      Direction
      → Config F
      → ReplayPosition F
      → F
      → List (Ohlc F)
      → Run (ReplayPosition F × F × Bool)
  unfolding atr_trail
  step_position d cfg pos price h4 =
      if pos.active
      then (let held = with_targets d price pos in
          atr_trail d cfg held price h4 >>= (λ trail. ok (
            if stopped_by d (or_stop_loss held trail) price || timed_out cfg held
            then closed_at d held price
            else kept held)))
      else ok (kept pos)

  -- stepLongPosition and stepShortPosition
  abbrev pub step_long_position :
      Config F → ReplayPosition F → F → List (Ohlc F) → Run (ReplayPosition F × F × Bool)
  step_long_position cfg pos price h4 = step_position long cfg pos price h4

  abbrev pub step_short_position :
      Config F → ReplayShortPosition F → F → List (Ohlc F) → Run (ReplayPosition F × F × Bool)
  step_short_position cfg pos price h4 = step_position short cfg pos price h4

  -- v8: the stop follows the fast average.
  unfoldable pub ema_trail : Direction → Config F → F → List (Ohlc F) → Run F
  ema_trail d cfg trail h4 =
      if leb (cfg.atr_period + 2) (length h4)
      then (do
        ema_fast ← last_ema (closes_of h4) cfg.ema_pullback
        atr ← range_of cfg h4
        ok (
            if (of_ℕ 0 <? atr) && (of_ℕ 0 <? ema_fast)
            then tighter d trail (behind d ema_fast (atr ⊗ cfg.trail_atr_multiplier))
            else trail))
      else ok trail

  -- The end of the v8 steps: the stop is kept for the next bar.
  abbrev pub stop_or_trail :
      Direction → Config F → ReplayPosition F → F → F → ReplayPosition F × F × Bool
  stop_or_trail d cfg pos price trail =
      if stopped_by d trail price || timed_out cfg pos
      then closed_at d pos price
      else kept (record pos { trail_stop = trail })

  unfoldable pub step_position_v8 :
      Direction
      → Config F
      → ReplayPosition F
      → F
      → List (Ohlc F)
      → Run (ReplayPosition F × F × Bool)
  unfolding ema_trail
  step_position_v8 d cfg pos price h4 =
      if pos.active
      then (let held = take_tp1 d (dec 25 2) price (held_on pos) in
          ema_trail d cfg held.trail_stop h4
          >>= (λ trail. ok (stop_or_trail d cfg held price (or_stop_loss held trail))))
      else ok (kept pos)

  abbrev pub step_long_position_v8 :
      Config F → ReplayPosition F → F → List (Ohlc F) → Run (ReplayPosition F × F × Bool)
  step_long_position_v8 cfg pos price h4 = step_position_v8 long cfg pos price h4

  abbrev pub step_short_position_v8 :
      Config F → ReplayShortPosition F → F → List (Ohlc F) → Run (ReplayPosition F × F × Bool)
  step_short_position_v8 cfg pos price h4 = step_position_v8 short cfg pos price h4
