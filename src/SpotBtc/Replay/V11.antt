-- ===== src/SpotBtc/Replay/V11.antt =====
-- strategies/spot_btc_conservative_v1/replay.go: runV11Replay, of the profiles v11 to v13.
pub mod Entries
pub mod Sound
pub mod Loop
pub mod Bars
pub mod Holds
use cryptotips.Indicator.Averages.{last_ema}
use cryptotips.SpotBtc.Replay.Steps.{tighter}
use cryptotips.SpotBtc.Replay.Candles.{last_kline}
use cryptotips.SpotBtc.Replay.V8.{or_default}
use cryptotips.Models.{KlineRecord}
use cryptotips.SpotBtc.Signal.{closes_of, Ohlc}
use cryptotips.SpotBtc.Replay.V9.{or_default_float}
use cryptotips.SpotBtc.Config.{Config}
use cryptotips.SpotBtc.Replay.Switch.{last_range}
use cryptotips.SpotBtc.Replay.V10.{detect_v10_regime}
use cryptotips.SpotBtc.Replay.{
  short, regime_bull, regime_range, regime_bear, regime_eq, MarketRegime,
}
use cryptotips.SpotBtc.Replay.Strength.{
  regime_switch_strength, long_signal_strength, range_switch_strength, signal_strength,
}
use cryptotips.SpotBtc.Replay.Times.{day_key, month_key}
use cryptotips.Base.{
  ◌+◌, ◌%◌, ◌/◌, leb, none, true, ◌-◌, ◌==◌, ◌||◌, List, false, not, some, ◌&&◌, Bool, Option,
  if◌then◌else◌, ℕ,
}
use cryptotips.SpotBtc.Replay.Ledger.{earned, counted, tallied, Ledger}
use cryptotips.Float.{◌⊘◌, ◌=?◌, ◌⊕◌, ◌⊖◌, dec, of_ℕ, ◌<?◌, ◌≤?◌, ◌⊗◌, Float}
use cryptotips.SpotBtc.Replay.Points.{awaited, Confirm}
use cryptotips.Base.Outcome.{ok, Run, ◌>>=◌}

-- The regime, which is looked at once for each last day.
pub record DailyTrack : Type 0 where
  pub confirm_v11 : Confirm
  pub days_since_switch : ℕ
  pub last_day : ℕ

-- An open position has a regime; `bull_core` is the part that v13 holds longest.
pub record StateV11 (F : Type 0) : Type 0 where
  pub tally_v11 : Ledger F
  pub pos_regime : Option MarketRegime
  pub entry_v11 : F
  pub qty_v11 : F
  pub entry_time : ℕ
  pub stop_price : F
  pub trail_price : F
  pub bull_core : F
  pub daily : DailyTrack
  pub week_entries : List (ℕ × ℕ)
  pub cooldown_v11 : ℕ

abbrev pub is_short : Option MarketRegime → Bool
is_short (some regime_bear) = true
is_short _ = false

abbrev pub has_regime : Option MarketRegime → Bool
has_regime none = false
has_regime (some r) = true

abbrev pub over_confirm : (Confirm → Confirm) → DailyTrack → DailyTrack
over_confirm f d = record d { confirm_v11 = f d.confirm_v11 }

abbrev pub reset_to : MarketRegime → Confirm → Confirm
reset_to cand c = record c { pending = cand; pending_count = 0 }

module _ {F : Type 0} ⦃fl : Float F⦄ where
  abbrev pub not_below : F → F → F
  not_below floor x = if x <? floor then floor else x

  abbrev pub not_above : F → F → F
  not_above limit x = if limit <? x then limit else x

  abbrev pub defaults_v11 : Config F → Config F
  defaults_v11 cfg =
      let least = or_default_float (dec 70 2) cfg.bull_alloc_min in
      record cfg {
        bull_alloc_min = least;
        bull_alloc_max = not_above (dec 95 2) (not_below least cfg.bull_alloc_max);
        bull_signal_floor = or_default_float (dec 50 2) cfg.bull_signal_floor;
        range_base_alloc = or_default_float (dec 20 2) cfg.range_base_alloc;
        range_trend_alloc_boost = not_below (of_ℕ 0) cfg.range_trend_alloc_boost;
        bear_signal_floor = or_default_float (dec 80 2) cfg.bear_signal_floor;
        bear_leverage_cap = or_default_float (dec 15 1) cfg.bear_leverage_cap;
        bear_momentum_floor =
            if cfg.bear_momentum_floor =? of_ℕ 0 then fl.neg (dec 3 2) else cfg.bear_momentum_floor;
        regime_min_confirm_bars = or_default 1 cfg.regime_min_confirm_bars;
        regime_min_stay_bars = or_default 1 cfg.regime_min_stay_bars;
        regime_hysteresis = not_below (of_ℕ 0) cfg.regime_hysteresis;
        range_cost_guard_atr = or_default_float (of_ℕ 1) cfg.range_cost_guard_atr;
        cost_per_side_pct = not_below (of_ℕ 0) cfg.cost_per_side_pct;
        short_funding_apr = not_below (of_ℕ 0) cfg.short_funding_apr;
      }

  abbrev pub core_exit_floor : Config F → F
  core_exit_floor cfg = not_below (dec 40 2) (cfg.bull_signal_floor ⊖ dec 10 2)

  abbrev pub add_on_floor : Config F → F
  add_on_floor cfg =
      let wanted = or_default_float (cfg.bull_signal_floor ⊕ dec 20 2) cfg.min_signal_strength in
      not_above (dec 92 2) (not_below (cfg.bull_signal_floor ⊕ dec 10 2) wanted)

  -- `t.Sub(entryTime).Hours()`; the candles are in the order of time.
  abbrev pub hours_between : ℕ → ℕ → F
  hours_between from to =
      let hour : ℕ = 3_600_000_000_000 in
      of_ℕ ((to - from) / hour) ⊕ of_ℕ ((to - from) % hour) ⊘ of_ℕ hour

  abbrev pub position_gain : Option MarketRegime → F → F → F → F
  position_gain none entry qty price = of_ℕ 0
  position_gain (some regime_bear) entry qty price = (entry ⊖ price) ⊗ qty
  position_gain (some _) entry qty price = (price ⊖ entry) ⊗ qty

  -- What is taken off for the two sides, and for a short that is held for some hours.
  abbrev pub funding_of : Config F → ℕ → F → StateV11 F → F → F
  funding_of cfg t notional s pnl =
      let hours = hours_between s.entry_time t in
      if is_short s.pos_regime
        && not (s.entry_time == 0)
        && (of_ℕ 0 <? cfg.short_funding_apr)
        && (of_ℕ 0 <? hours)
      then pnl ⊖ notional ⊗ cfg.short_funding_apr ⊗ (hours ⊘ of_ℕ 8760)
      else pnl

  unfoldable pub net_gain : Config F → F → ℕ → StateV11 F → F
  net_gain cfg price t s =
      let pnl = position_gain s.pos_regime s.entry_v11 s.qty_v11 price in
      let notional = fl.abs (s.entry_v11 ⊗ s.qty_v11) in
      funding_of cfg t notional s
        (pnl ⊖ (notional ⊕ fl.abs (price ⊗ s.qty_v11)) ⊗ cfg.cost_per_side_pct)

  -- closePos
  unfoldable pub close_v11 : Config F → F → ℕ → StateV11 F → StateV11 F
  unfolding net_gain month_key
  close_v11 cfg price t s =
      let pnl = net_gain cfg price t s in
      if not (has_regime s.pos_regime) || (s.qty_v11 ≤? of_ℕ 0) then s else record s {
        tally_v11 =
            tallied pnl (counted (earned cfg.risk_capital_usdt (month_key t) pnl s.tally_v11));
        pos_regime = none;
        entry_v11 = of_ℕ 0;
        qty_v11 = of_ℕ 0;
        entry_time = 0;
        stop_price = of_ℕ 0;
        trail_price = of_ℕ 0;
        bull_core = of_ℕ 0;
      }

  -- A candidate that is strong enough, after enough days.
  abbrev pub switch_day : Config F → MarketRegime → DailyTrack → DailyTrack
  switch_day cfg cand d =
      let c = awaited cand d.confirm_v11 in
      if leb cfg.regime_min_confirm_bars c.pending_count
      then record d {
        confirm_v11 = record c { current = cand; pending_count = 0 };
        days_since_switch = 0;
      }
      else record d { confirm_v11 = c }

  unfoldable pub new_day :
      Config F → MarketRegime → List (Ohlc F) → List (Ohlc F) → DailyTrack → Run DailyTrack
  unfolding signal_strength range_switch_strength
  new_day cfg cand day h4 d =
      if regime_eq cand d.confirm_v11.current
      then ok (over_confirm (reset_to cand) d)
      else regime_switch_strength cfg cand day h4 >>= (λ strength. ok (
          if leb cfg.regime_min_stay_bars d.days_since_switch && (cfg.regime_hysteresis ≤? strength)
          then switch_day cfg cand d
          else over_confirm (reset_to cand) d))

  unfoldable pub look_at_day :
      Config F
      → List (KlineRecord F)
      → ℕ
      → List (Ohlc F)
      → List (Ohlc F)
      → StateV11 F
      → Run (StateV11 F)
  unfolding new_day detect_v10_regime day_key
  look_at_day cfg days t day h4 s = do
    last ← last_kline days
    let key = day_key last.open_time
    if key == s.daily.last_day then ok s else (do
      d ←
          new_day cfg (detect_v10_regime days t) day h4
            (record s.daily { last_day = key; days_since_switch = s.daily.days_since_switch + 1 })
      ok (record s { daily = d }))
