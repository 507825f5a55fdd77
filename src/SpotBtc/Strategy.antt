-- ===== src/SpotBtc/Strategy.antt =====
-- strategies/spot_btc_conservative_v1/strategy.go: the pure steps of a run.
pub mod Runs
pub mod Reads
pub mod Rows
pub mod OneOpen
pub mod Gate
pub mod Calendar
pub mod Closing
pub mod Looped
pub mod Trailing
use cryptotips.Indicator.Atr.{last_atr}
use cryptotips.Base.Outcome.{ok, ◌>>=◌, Run}
use cryptotips.SpotBtc.Position.{PositionPlan}
use cryptotips.Models.{TradeRecord}
use cryptotips.SpotBtc.Config.{Config}
use cryptotips.SpotBtc.Signal.{closes_of, lows_of, highs_of, last_bar, Ohlc, SignalResult}
use cryptotips.SpotBtc.State.{StrategyState}
use cryptotips.Float.{◌<?◌, dec, of_ℕ, ◌≤?◌, ◌⊕◌, ◌⊖◌, ◌⊗◌, Float}
use cryptotips.Base.{
  length, [], leb, not, true, ◌%◌, ◌&&◌, ◌||◌, ◌∷◌, Bool, false, ltb, ◌+◌, ◌-◌, List, if◌then◌else◌,
  ◌*◌, ◌/◌, ℕ,
}

abbrev pub day_ns : ℕ
day_ns = 24 * 3600 * 1_000_000_000

-- `dayStart`, midnight of the day.
abbrev pub day_start : ℕ → ℕ
day_start now = now / day_ns * day_ns

-- `weekStart`, midnight of the Monday.
abbrev pub week_start : ℕ → ℕ
week_start now = (now / day_ns - now / day_ns % 7) * day_ns

-- A pause that is over is taken away.
abbrev pub lifted : ℕ → ℕ → ℕ
lifted now pause = if ltb 0 pause && ltb pause now then 0 else pause

module _ {F : Type 0} ⦃fl : Float F⦄ where
  abbrev pub daily_loss_limit : Config F → F
  daily_loss_limit cfg = fl.neg cfg.risk_capital_usdt ⊗ cfg.max_daily_loss_pct

  abbrev pub weekly_loss_limit : Config F → F
  weekly_loss_limit cfg = fl.neg cfg.risk_capital_usdt ⊗ cfg.max_weekly_loss_pct

  -- The gates: the loss of the day, the loss of the week and three losses in a row each pause for a day.
  abbrev pub gated : Config F → F → F → ℕ → Bool
  gated cfg daily weekly streak =
      (daily ≤? daily_loss_limit cfg) || (weekly ≤? weekly_loss_limit cfg) || leb 3 streak

  -- The end of refreshRiskStateFromDB.
  unfoldable pub risk_state : Config F → ℕ → F → F → ℕ → StrategyState F → StrategyState F
  risk_state cfg now daily weekly streak st = record st {
    loss_streak = streak;
    pause_until =
        lifted now (if gated cfg daily weekly streak then now + day_ns else st.pause_until);
  }

  -- The end of recoverPositionState, on the open trades.
  unfoldable pub recovered : List (TradeRecord F) → StrategyState F → StrategyState F
  recovered [] st = record st { has_position = false }
  recovered (t ∷ ts) st = if st.has_position then st else record st {
    has_position = true;
    entry_price = t.price;
    stop_loss = t.stop_loss;
    qty_total = t.qty;
    qty_remain = t.qty;
    risk_per_unit = t.price ⊖ t.stop_loss;
  }

  abbrev pub entered : ℕ → SignalResult F → PositionPlan F → StrategyState F → StrategyState F
  entered now sig plan st = record st {
    has_position = true;
    entry_price = sig.entry_price;
    stop_loss = sig.stop_loss;
    qty_total = plan.qty;
    qty_remain = plan.qty;
    risk_per_unit = plan.risk_per_unit;
    tp1_done = false;
    tp2_done = false;
    trail_stop = of_ℕ 0;
    hold_bars = 0;
    updated_at = now;
  }

  -- The state after a position is closed, before the time of the update is set.
  abbrev pub flat : StrategyState F → StrategyState F
  flat st = record st {
    has_position = false;
    entry_price = of_ℕ 0;
    stop_loss = of_ℕ 0;
    qty_total = of_ℕ 0;
    qty_remain = of_ℕ 0;
    risk_per_unit = of_ℕ 0;
    tp1_done = false;
    tp2_done = false;
    trail_stop = of_ℕ 0;
    hold_bars = 0;
  }

  abbrev pub tp1_of : StrategyState F → F
  tp1_of st = st.entry_price ⊕ st.risk_per_unit

  abbrev pub tp2_of : StrategyState F → F
  tp2_of st = st.entry_price ⊕ of_ℕ 2 ⊗ st.risk_per_unit

  abbrev pub hits_tp1 : F → StrategyState F → Bool
  hits_tp1 price st = not st.tp1_done && (tp1_of st ≤? price)

  abbrev pub hits_tp2 : F → StrategyState F → Bool
  hits_tp2 price st = not st.tp2_done && (tp2_of st ≤? price)

  abbrev pub tp1_qty : StrategyState F → F
  tp1_qty st = st.qty_total ⊗ dec 4 1

  abbrev pub tp2_qty : StrategyState F → F
  tp2_qty st = st.qty_total ⊗ dec 3 1

  abbrev pub after_tp1 : StrategyState F → StrategyState F
  after_tp1 st = record st {
    qty_remain = st.qty_remain ⊖ tp1_qty st;
    tp1_done = true;
    trail_stop = st.entry_price;
  }

  abbrev pub after_tp2 : StrategyState F → StrategyState F
  after_tp2 st = record st {
    qty_remain = st.qty_remain ⊖ tp2_qty st;
    tp2_done = true;
    trail_stop = if st.trail_stop <? tp1_of st then tp1_of st else st.trail_stop;
  }

  -- The stop after the take profits: raised to the range below the price, or the stop loss if none is
  -- set.
  abbrev pub raised : Config F → F → F → F → F
  raised cfg price atr trail =
      let atr_trail = price ⊖ atr ⊗ cfg.trail_atr_multiplier in
      if (of_ℕ 0 <? atr) && (trail <? atr_trail) then atr_trail else trail

  abbrev pub or_stop_loss : StrategyState F → F → F
  or_stop_loss st trail = if trail ≤? of_ℕ 0 then st.stop_loss else trail

  unfoldable pub next_trail : Config F → List (Ohlc F) → F → StrategyState F → Run F
  next_trail cfg h4 price st =
      if st.tp1_done && leb (cfg.atr_period + 1) (length h4)
      then last_atr (highs_of h4) (lows_of h4) (closes_of h4) cfg.atr_period
        >>= (λ atr. ok (or_stop_loss st (raised cfg price atr st.trail_stop)))
      else ok (or_stop_loss st st.trail_stop)

  -- `state.HoldBars++`
  abbrev pub aged : StrategyState F → StrategyState F
  aged st = record st { hold_bars = st.hold_bars + 1 }

  abbrev pub with_trail : F → StrategyState F → StrategyState F
  with_trail trail st = record st { trail_stop = trail }

  abbrev pub exits_by_timeout : Config F → StrategyState F → Bool
  exits_by_timeout cfg st = ltb 0 cfg.max_hold_bars && leb cfg.max_hold_bars st.hold_bars
