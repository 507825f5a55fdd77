-- ===== src/SpotBtc/Replay/V11/Holds.antt =====
-- strategies/spot_btc_conservative_v1/replay.go: how runV11Replay holds and leaves a position.
use cryptotips.SpotBtc.Replay.V11.{add_on_floor, core_exit_floor, not_below, StateV11, close_v11}
use cryptotips.Indicator.Averages.{last_ema}
use cryptotips.SpotBtc.Replay.Steps.{tighter}
use cryptotips.SpotBtc.Signal.{closes_of, Ohlc}
use cryptotips.SpotBtc.Config.{Config}
use cryptotips.SpotBtc.Replay.Switch.{last_range}
use cryptotips.SpotBtc.Replay.{
  short, regime_bull, regime_range, regime_bear, regime_eq, MarketRegime,
}
use cryptotips.SpotBtc.Replay.Strength.{long_signal_strength, signal_strength}
use cryptotips.Base.{none, ◌||◌, List, not, some, ◌&&◌, Bool, Option, if◌then◌else◌, ℕ}
use cryptotips.Float.{◌⊕◌, ◌⊖◌, dec, of_ℕ, ◌<?◌, ◌≤?◌, ◌⊗◌, Float}
use cryptotips.Base.Outcome.{ok, Run, ◌>>=◌}

module _ {F : Type 0} ⦃fl : Float F⦄ where
  -- Whether v13 gives up a long: by the regime, by its added part, or by its core.
  abbrev pub weak_bull : Config F → MarketRegime → F → StateV11 F → Bool
  weak_bull cfg regime strength s =
      regime_eq regime regime_bear
      || (regime_eq regime regime_range && (strength <? core_exit_floor cfg))
      || ((s.bull_core <? s.qty_v11) && (strength <? add_on_floor cfg ⊖ dec 6 2))
      || (strength <? core_exit_floor cfg ⊖ dec 4 2)

  abbrev pub exits_bull : Bool → Config F → MarketRegime → F → F → StateV11 F → Bool
  exits_bull is_v13 cfg regime price strength s =
      (price ≤? s.trail_price)
      || (price ≤? s.stop_price)
      || (if is_v13 then weak_bull cfg regime strength s else not (regime_eq regime regime_bull))

  unfoldable pub hold_bull :
      Bool → Config F → F → ℕ → List (Ohlc F) → List (Ohlc F) → StateV11 F → Run (StateV11 F)
  unfolding last_range signal_strength close_v11
  hold_bull is_v13 cfg price t day h4 s = do
    atr ← last_range h4 cfg.atr_period
    let cand = price ⊖ atr ⊗ cfg.trail_atr_multiplier
    let s' = record s { trail_price = not_below cand s.trail_price }
    strength ← long_signal_strength cfg day h4
    ok (
        if exits_bull is_v13 cfg s.daily.confirm_v11.current price strength s'
        then close_v11 cfg price t s'
        else s')

  abbrev pub exits_bear : MarketRegime → F → StateV11 F → Bool
  exits_bear regime price s =
      not (regime_eq regime regime_bear) || (s.trail_price ≤? price) || (s.stop_price ≤? price)

  unfoldable pub hold_bear : Config F → F → ℕ → List (Ohlc F) → StateV11 F → Run (StateV11 F)
  unfolding last_range close_v11
  hold_bear cfg price t h4 s = do
    atr ← last_range h4 cfg.atr_period
    let cand = price ⊕ atr ⊗ cfg.trail_atr_multiplier
    let s' = record s { trail_price = tighter short s.trail_price cand }
    ok (if exits_bear s.daily.confirm_v11.current price s' then close_v11 cfg price t s' else s')

  unfoldable pub hold_range : Config F → F → ℕ → List (Ohlc F) → StateV11 F → Run (StateV11 F)
  unfolding last_range close_v11
  hold_range cfg price t h4 s =
      let s' =
        if regime_eq s.daily.confirm_v11.current regime_range then s else close_v11 cfg price t s in
      if of_ℕ 0 <? cfg.range_exit_ema_buffer_atr
      then (do
        ema_fast ← last_ema (closes_of h4) cfg.ema_pullback
        atr ← last_range h4 cfg.atr_period
        ok (
            if (of_ℕ 0 <? ema_fast)
              && (of_ℕ 0 <? atr)
              && (price <? ema_fast ⊖ atr ⊗ cfg.range_exit_ema_buffer_atr)
            then close_v11 cfg price t s'
            else s'))
      else ok s'

  abbrev pub hold_v11 :
      Option MarketRegime
      → Bool
      → Config F
      → F
      → ℕ
      → List (Ohlc F)
      → List (Ohlc F)
      → StateV11 F
      → Run (StateV11 F)
  hold_v11 none is_v13 cfg price t day h4 s = ok s
  hold_v11 (some regime_bull) is_v13 cfg price t day h4 s = hold_bull is_v13 cfg price t day h4 s
  hold_v11 (some regime_bear) is_v13 cfg price t day h4 s = hold_bear cfg price t h4 s
  hold_v11 (some regime_range) is_v13 cfg price t day h4 s = hold_range cfg price t h4 s
