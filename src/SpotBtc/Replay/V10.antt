-- ===== src/SpotBtc/Replay/V10.antt =====
-- strategies/spot_btc_conservative_v1/replay.go: runV10Replay, which holds what the regime says.
pub mod Follows
pub mod Latest
pub mod Turns
use cryptotips.Indicator.Regime.Segments.{compute_regime_startpoints}
use cryptotips.Indicator.Series.{last_or}
use cryptotips.SpotBtc.Config.{Config}
use cryptotips.SpotBtc.Replay.Times.{month_key, day_key}
use cryptotips.Models.{KlineRecord}
use cryptotips.SpotBtc.Replay.Candles.{out_of_window, last_kline, klines_until, aggregate_1d_to_1w}
use cryptotips.Indicator.Regime.Features.{range, bear, bull, RegimeBar, RegimeStartpoint, State}
use cryptotips.SpotBtc.Replay.Book.{each_bar}
use cryptotips.SpotBtc.Replay.{regime_bear, regime_bull, regime_eq, regime_range, MarketRegime}
use cryptotips.Base.{[], ltb, map, ◌==◌, length, ◌&&◌, ◌||◌, ◌∷◌, not, List, if◌then◌else◌, ℕ}
use cryptotips.Float.{◌⊘◌, ◌<?◌, ◌≤?◌, dec, of_ℕ, ◌⊕◌, ◌⊖◌, ◌⊗◌, Float}
use cryptotips.SpotBtc.Replay.Ledger.{
  earned, counted, invalid_capital, tallied, summary, ReplayResult, summarise, empty_ledger, lost,
  marked, Ledger,
}
use cryptotips.Base.Outcome.{ok, Run, ◌>>=◌}

-- Of the ledger only the sums and the drawdown are used.
pub record StateV10 (F : Type 0) : Type 0 where
  pub tally : Ledger F
  pub side : MarketRegime
  pub entry : F
  pub qty_v10 : F
  pub regime_v10 : MarketRegime
  pub regime_day : ℕ

abbrev pub regime_of_state : State → MarketRegime
regime_of_state bull = regime_bull
regime_of_state bear = regime_bear
regime_of_state _ = regime_range

module _ {F : Type 0} ⦃fl : Float F⦄ where
  abbrev pub bars_of : List (KlineRecord F) → List (RegimeBar F)
  bars_of = map λ k. record { time = k.open_time; close = k.close }

  -- The loop over the points stops behind the time.
  abbrev pub last_state : ℕ → MarketRegime → List (RegimeStartpoint F) → MarketRegime
  last_state at state [] = state
  last_state at state (p ∷ ps) =
      let rest = last_state at (regime_of_state p.state) ps in if ltb at p.time then state else rest

  -- Its error result is nil in every case.
  unfoldable pub detect_v10_regime : List (KlineRecord F) → ℕ → MarketRegime
  unfolding aggregate_1d_to_1w
  detect_v10_regime days at =
      let weekly = aggregate_1d_to_1w days in
      if length days == 0 || length weekly == 0
      then regime_range
      else last_state at regime_range (compute_regime_startpoints (bars_of days) (bars_of weekly))

  -- What the open position has earned.
  abbrev pub side_gain : MarketRegime → F → F → F → F
  side_gain regime_bull entry qty price = (price ⊖ entry) ⊗ qty
  side_gain regime_bear entry qty price = (entry ⊖ price) ⊗ qty
  side_gain regime_range entry qty price = of_ℕ 0

  -- closePos
  abbrev pub close_pos : F → F → ℕ → StateV10 F → StateV10 F
  close_pos capital price t s =
      let pnl = side_gain s.side s.entry s.qty_v10 price in
      if regime_eq s.side regime_range || (s.qty_v10 ≤? of_ℕ 0) then s else record s {
        tally = tallied pnl (counted (earned capital (month_key t) pnl s.tally));
        side = regime_range;
        entry = of_ℕ 0;
        qty_v10 = of_ℕ 0;
      }

  abbrev pub open_side : MarketRegime → F → F → StateV10 F → StateV10 F
  open_side r notional price s =
      if not (regime_eq s.side r) && (of_ℕ 0 <? price)
      then record s { side = r; entry = price; qty_v10 = notional ⊘ price }
      else s

  abbrev pub notional_of : MarketRegime → F → F
  notional_of regime_bear capital = capital ⊗ dec 70 2 ⊗ of_ℕ 2
  notional_of _ capital = capital ⊗ dec 70 2

  -- The other side is closed before the own one is opened.
  abbrev pub turn_to : MarketRegime → F → F → ℕ → StateV10 F → StateV10 F
  turn_to regime_bull capital price t s =
      open_side regime_bull (notional_of regime_bull capital) price
        (if regime_eq s.side regime_bear then close_pos capital price t s else s)
  turn_to regime_bear capital price t s =
      open_side regime_bear (notional_of regime_bear capital) price
        (if regime_eq s.side regime_bull then close_pos capital price t s else s)
  turn_to regime_range capital price t s =
      if regime_eq s.side regime_range then s else close_pos capital price t s

  -- The regime is computed once for each last day.
  abbrev pub look_at_days : List (KlineRecord F) → ℕ → StateV10 F → StateV10 F
  look_at_days [] t s = s
  look_at_days (d ∷ ds) t s =
      let key = day_key (last_or d ds).open_time in
      if key == s.regime_day
      then s
      else record s { regime_day = key; regime_v10 = detect_v10_regime (d ∷ ds) t }

  abbrev pub equity_v10 : F → StateV10 F → F
  equity_v10 price s =
      if regime_eq s.side regime_range
      then s.tally.net
      else s.tally.net ⊕ side_gain s.side s.entry s.qty_v10 price

  unfoldable pub bar_v10 :
      F → List (KlineRecord F) → List (KlineRecord F) → KlineRecord F → StateV10 F → StateV10 F
  unfolding detect_v10_regime marked day_key month_key
  bar_v10 capital day_data seen k s =
      let t = k.open_time in
      let looked = look_at_days (klines_until t day_data) t s in
      let turned = turn_to looked.regime_v10 capital k.close t looked in
      record turned { tally = marked (equity_v10 k.close turned) turned.tally }

  abbrev pub state_v10 : StateV10 F
  state_v10 = record {
    tally = empty_ledger;
    side = regime_range;
    entry = of_ℕ 0;
    qty_v10 = of_ℕ 0;
    regime_v10 = regime_range;
    regime_day = 0;
  }

  -- What is open at the end is closed at the last candle of all.
  abbrev pub close_last : F → List (KlineRecord F) → StateV10 F → Run (StateV10 F)
  close_last capital h4_data s =
      if regime_eq s.side regime_range
      then ok s
      else last_kline h4_data >>= (λ k. ok (close_pos capital k.close k.open_time s))

  abbrev pub summary_v10 : (List F → List F) → StateV10 F → ReplayResult F
  summary_v10 in_order s =
      summary (record (summarise in_order "v10" s.tally) { timeframe = "realtime_startpoints" })

  unfoldable pub run_v10_replay :
      (List F → List F)
      → Config F
      → List (KlineRecord F)
      → List (KlineRecord F)
      → ℕ
      → ℕ
      → Run (ReplayResult F)
  unfolding bar_v10 each_bar summarise month_key
  run_v10_replay in_order cfg day_data h4_data start end =
      let capital = cfg.risk_capital_usdt in
      if capital ≤? of_ℕ 0 then ok invalid_capital else (do
        s ←
            each_bar (out_of_window start end) (λ seen k s. ok (bar_v10 capital day_data seen k s))
              state_v10 [] h4_data
        s' ← close_last capital h4_data s
        ok (summary_v10 in_order s'))
