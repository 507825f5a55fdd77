-- ===== src/SpotBtc/Replay/V11/Loop.antt =====
-- strategies/spot_btc_conservative_v1/replay.go: the loop of runV11Replay.
use cryptotips.SpotBtc.Replay.V11.Holds.{hold_v11, hold_range, hold_bear, hold_bull}
use cryptotips.SpotBtc.Replay.V8.{or_default}
use cryptotips.SpotBtc.Replay.Maps.{lookup_or}
use cryptotips.SpotBtc.Signal.{Ohlc}
use cryptotips.SpotBtc.Replay.Points.{confirm_start}
use cryptotips.SpotBtc.Replay.Candles.{out_of_window, days_until, klines_until, last_kline}
use cryptotips.SpotBtc.Replay.V11.Entries.{
  enter_v11, enter_bear_v11, enter_range_v11, enter_bull_v11,
}
use cryptotips.Base.Texts.{same_text}
use cryptotips.SpotBtc.Replay.Times.{iso_week_key}
use cryptotips.Models.{KlineRecord}
use cryptotips.SpotBtc.Replay.Ledger.{
  invalid_capital, summary, ReplayResult, empty_ledger, marked, summarise,
}
use cryptotips.SpotBtc.Config.{Config}
use cryptotips.SpotBtc.Replay.Book.{bars_to, each_bar}
use cryptotips.Base.{
  ◌-◌, ◌+◌, length, [], ltb, ◌==◌, ◌&&◌, none, not, ◌||◌, if◌then◌else◌, ℕ, Bool, List,
}
use cryptotips.SpotBtc.Replay.V11.{
  position_gain, defaults_v11, close_v11, has_regime, StateV11, look_at_day,
}
use Prim.Native.String.{String}
use cryptotips.Float.{◌≤?◌, of_ℕ, ◌⊕◌, Float}
use cryptotips.Base.Outcome.{ok, Run, ◌>>=◌}

abbrev pub is_v13_name : String → Bool
is_v13_name name = same_text name "v13" || same_text name "v13_a" || same_text name "v13_b"

module _ {F : Type 0} ⦃fl : Float F⦄ where
  abbrev pub may_enter_v11 : Config F → ℕ → StateV11 F → Bool
  may_enter_v11 cfg week s =
      not (has_regime s.pos_regime)
      && s.cooldown_v11 == 0
      && ltb (lookup_or 0 week s.week_entries) (or_default 4 cfg.max_entries_per_week)

  abbrev pub equity_v11 : F → StateV11 F → F
  equity_v11 price s =
      if has_regime s.pos_regime
      then s.tally_v11.net ⊕ position_gain s.pos_regime s.entry_v11 s.qty_v11 price
      else s.tally_v11.net

  abbrev pub marked_v11 : F → StateV11 F → StateV11 F
  marked_v11 price s = record s { tally_v11 = marked (equity_v11 price s) s.tally_v11 }

  -- The bar behind the regime.
  unfoldable pub trade_v11 :
      Bool → Config F → F → ℕ → ℕ → List (Ohlc F) → List (Ohlc F) → StateV11 F → Run (StateV11 F)
  unfolding hold_bull hold_bear hold_range enter_bull_v11 enter_range_v11 enter_bear_v11 marked
  trade_v11 is_v13 cfg price t week day h4 s = do
    held ← hold_v11 s.pos_regime is_v13 cfg price t day h4 s
    s' ←
        if may_enter_v11 cfg week held
        then enter_v11 held.daily.confirm_v11.current is_v13 cfg price t week day h4 held
        else ok held
    ok (marked_v11 price s')

  -- A bar with too few days or candles before it changes nothing.
  unfoldable pub bar_v11 :
      Bool
      → Config F
      → List (KlineRecord F)
      → List (KlineRecord F)
      → KlineRecord F
      → StateV11 F
      → Run (StateV11 F)
  unfolding look_at_day trade_v11 iso_week_key
  bar_v11 is_v13 cfg day_data seen k s =
      let t = k.open_time in
      let days = klines_until t day_data in
      let day = days_until t day_data in
      let h4 = bars_to seen k in
      if ltb (length day) (cfg.ema_filter_period + cfg.ema200_slope_lookback + 2)
        || ltb (length h4) (cfg.atr_period + 3)
      then ok s
      else (do
        looked ← look_at_day cfg days t day h4 s
        trade_v11 is_v13 cfg k.close t (iso_week_key t) day h4
            (record looked { cooldown_v11 = looked.cooldown_v11 - 1 }))

  abbrev pub state_v11 : StateV11 F
  state_v11 = record {
    tally_v11 = empty_ledger;
    pos_regime = none;
    entry_v11 = of_ℕ 0;
    qty_v11 = of_ℕ 0;
    entry_time = 0;
    stop_price = of_ℕ 0;
    trail_price = of_ℕ 0;
    bull_core = of_ℕ 0;
    daily = record { confirm_v11 = confirm_start; days_since_switch = 999; last_day = 0 };
    week_entries = [];
    cooldown_v11 = 0;
  }

  abbrev pub close_last_v11 : Config F → List (KlineRecord F) → StateV11 F → Run (StateV11 F)
  close_last_v11 cfg h4_data s =
      if has_regime s.pos_regime
      then last_kline h4_data >>= (λ k. ok (close_v11 cfg k.close k.open_time s))
      else ok s

  abbrev pub summary_v11 : (List F → List F) → String → StateV11 F → ReplayResult F
  summary_v11 in_order name s =
      summary (record (summarise in_order name s.tally_v11) { timeframe = "realtime_startpoints" })

  unfoldable pub run_v11_replay :
      (List F → List F)
      → Config F
      → String
      → List (KlineRecord F)
      → List (KlineRecord F)
      → ℕ
      → ℕ
      → Run (ReplayResult F)
  unfolding bar_v11 each_bar summarise close_v11
  run_v11_replay in_order cfg0 name day_data h4_data start end =
      let cfg = defaults_v11 cfg0 in
      if cfg.risk_capital_usdt ≤? of_ℕ 0 then ok invalid_capital else (do
        s ←
            each_bar (out_of_window start end) (bar_v11 (is_v13_name name) cfg day_data) state_v11
              [] h4_data
        s' ← close_last_v11 cfg h4_data s
        ok (summary_v11 in_order name s'))
