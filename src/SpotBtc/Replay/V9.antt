-- ===== src/SpotBtc/Replay/V9.antt =====
-- strategies/spot_btc_conservative_v1/replay.go: runV9Replay; a position of a range has a stop loss of zero.
pub mod Sound
use cryptotips.SpotBtc.Replay.Steps.Ranges.{step_range_position}
use cryptotips.Models.{KlineRecord}
use cryptotips.SpotBtc.Signal.{Ohlc}
use cryptotips.SpotBtc.Replay.Times.{month_key, iso_week_key, day_key}
use cryptotips.SpotBtc.Replay.Points.{RegimeCalibParams, classify_series}
use cryptotips.SpotBtc.Replay.Book.{
  with_position, bars_to, over_ledger, plan_for, each_bar, position, step_both, Book,
}
use cryptotips.Base.{[], ◌==◌, length, ltb, not, ◌&&◌, ◌||◌, List, Bool, ℕ, if◌then◌else◌}
use cryptotips.SpotBtc.Replay.Candles.{out_of_window, days_until, aggregate_1d_to_1w}
use cryptotips.SpotBtc.Replay.Ledger.{
  no_points, insufficient_bars, earned, in_limits, ReplayResult, counted, risk_blocked, summarise,
  BarKeys,
}
use cryptotips.SpotBtc.Config.{Config}
use cryptotips.SpotBtc.Replay.Rules.{detect_range_band, range_signal_strength}
use cryptotips.SpotBtc.Replay.Steps.{RangeBand, step_position_v8}
use cryptotips.SpotBtc.Replay.{
  no_position, regime_bear, regime_range, opened_at, regime_bull, regime_eq, open_value, long,
  short, MarketRegime, Direction, ReplayPosition,
}
use cryptotips.SpotBtc.Replay.V8.{
  summary_v8, state_v8, may_enter, over_book, entered_in, keys_by_iso_year, StateV8, enter_bear,
  or_default, begin_bar, enter_bull,
}
use cryptotips.Float.{◌<?◌, ◌⊕◌, ◌⊗◌, dec, of_ℕ, ◌=?◌, ◌⊖◌, ◌≤?◌, Float}
use cryptotips.Base.Outcome.{ok, Run, ◌>>=◌}

module _ {F : Type 0} ⦃fl : Float F⦄ where
  abbrev pub or_default_float : F → F → F
  or_default_float d x = if x ≤? of_ℕ 0 then d else x

  abbrev pub defaults_v9 : Config F → Config F
  defaults_v9 cfg = record cfg {
    regime_min_confirm_bars = or_default 2 cfg.regime_min_confirm_bars;
    regime_min_stay_bars = or_default 3 cfg.regime_min_stay_bars;
    max_entries_per_week = or_default 3 cfg.max_entries_per_week;
    range_lookback_days = or_default 20 cfg.range_lookback_days;
    range_entry_atr_buffer = or_default_float (dec 6 1) cfg.range_entry_atr_buffer;
    range_breakout_atr_buffer = or_default_float (dec 55 2) cfg.range_breakout_atr_buffer;
    range_mid_exit_ratio =
        if (cfg.range_mid_exit_ratio ≤? of_ℕ 0) || (of_ℕ 1 ≤? cfg.range_mid_exit_ratio)
        then dec 6 1
        else cfg.range_mid_exit_ratio;
    range_max_hold_bars = or_default 18 cfg.range_max_hold_bars;
    range_min_width_atr = or_default_float (dec 24 1) cfg.range_min_width_atr;
    range_min_signal_strength =
        or_default_float cfg.min_signal_strength cfg.range_min_signal_strength;
  }

  abbrev pub from_range : ReplayPosition F → Bool
  from_range pos = pos.stop_loss =? of_ℕ 0

  -- A position of a range is closed when the regime is no range: in the limits, and no win or loss.
  abbrev pub range_closed : Direction → F → BarKeys → F → Book F → Book F
  range_closed d capital keys price b =
      if (position d b).active && from_range (position d b)
      then (let pnl = open_value d (position d b) price in
          over_ledger (λ l. counted (in_limits keys pnl (earned capital keys.month pnl l)))
            (with_position d no_position b))
      else b

  abbrev pub ranges_closed : F → BarKeys → F → Book F → Book F
  ranges_closed capital keys price b =
      range_closed short capital keys price (range_closed long capital keys price b)

  -- The stop of a position in a range, outside of the band.
  abbrev pub range_stop : Direction → Config F → RangeBand F → F
  range_stop long cfg b = b.lower ⊖ b.range_atr ⊗ cfg.range_breakout_atr_buffer
  range_stop short cfg b = b.upper ⊕ b.range_atr ⊗ cfg.range_breakout_atr_buffer

  abbrev pub open_in_range : Direction → Config F → ℕ → F → RangeBand F → StateV8 F → StateV8 F
  open_in_range d cfg week price band s =
      let stop = range_stop d cfg band in
      let plan = plan_for d cfg price stop in
      if of_ℕ 0 <? plan.qty
      then entered_in d cfg week (record (opened_at price (of_ℕ 0) plan) { trail_stop = stop }) s
      else s

  abbrev pub strong_edge : Direction → Config F → F → RangeBand F → Bool
  strong_edge d cfg price band =
      cfg.range_min_signal_strength ≤? range_signal_strength d cfg price band

  unfoldable pub enter_range : Config F → ℕ → F → RangeBand F × Bool → StateV8 F → StateV8 F
  unfolding range_signal_strength
  enter_range cfg week price (band, range_ok) s =
      if not range_ok
      then s
      else if strong_edge long cfg price band
      then open_in_range long cfg week price band s
      else if strong_edge short cfg price band
      then open_in_range short cfg week price band s
      else s

  abbrev pub enter_v9 :
      Config F
      → MarketRegime
      → ℕ
      → F
      → RangeBand F × Bool
      → List (Ohlc F)
      → List (Ohlc F)
      → StateV8 F
      → Run (StateV8 F)
  enter_v9 cfg regime_bull week price band day h4 s = enter_bull cfg week day h4 s
  enter_v9 cfg regime_bear week price band day h4 s = enter_bear cfg week day h4 s
  enter_v9 cfg regime_range week price band day h4 s = ok (enter_range cfg week price band s)

  unfoldable pub step_v9 :
      Config F
      → F
      → MarketRegime
      → RangeBand F × Bool
      → List (Ohlc F)
      → Direction
      → ReplayPosition F
      → Run (ReplayPosition F × F × Bool)
  unfolding step_range_position step_position_v8
  step_v9 cfg price regime (band, range_ok) h4 d pos =
      if from_range pos
      then ok (step_range_position d cfg pos price regime band range_ok)
      else step_position_v8 d cfg pos price h4

  -- The bar behind the regime and the keys.
  unfoldable pub trade_v9 :
      Config F → BarKeys → F → List (Ohlc F) → List (Ohlc F) → StateV8 F → Run (StateV8 F)
  unfolding enter_bull enter_bear enter_range step_both detect_range_band step_v9
  trade_v9 cfg keys price day h4 s =
      let capital = cfg.risk_capital_usdt in
      let regime = s.track.confirm.current in
      let blocked = risk_blocked cfg keys s.book.ledger in
      detect_range_band cfg day h4 >>= λ band.
      let out =
        if regime_eq regime regime_range
        then s
        else over_book (ranges_closed capital keys price) s in
      (if may_enter cfg blocked keys.week out
        then enter_v9 cfg regime keys.week price band day h4 out
        else ok out)
      >>= λ s'. step_both capital keys price (step_v9 cfg price regime band h4) s'.book >>= λ b.
          ok (record s' { book = b })

  unfoldable pub bar_v9 :
      Config F
      → List (KlineRecord F)
      → List (KlineRecord F)
      → KlineRecord F
      → StateV8 F
      → Run (StateV8 F)
  unfolding trade_v9 begin_bar day_key iso_week_key month_key
  bar_v9 cfg day_data seen k s =
      let t = k.open_time in
      trade_v9 cfg (keys_by_iso_year t) k.close (days_until t day_data) (bars_to seen k)
        (begin_bar cfg t s)

  unfoldable pub run_v9_replay :
      (List F → List F)
      → Config F
      → List (KlineRecord F)
      → List (KlineRecord F)
      → ℕ
      → ℕ
      → RegimeCalibParams F
      → Run (ReplayResult F)
  unfolding bar_v9 aggregate_1d_to_1w classify_series each_bar summarise
  run_v9_replay in_order cfg day_data h4_data start end p =
      let weekly = aggregate_1d_to_1w day_data in
      if ltb (length weekly) 120 then ok (insufficient_bars (length weekly)) else (do
        points ← classify_series weekly p
        if length points == 0 then ok no_points else (do
          s ←
              each_bar (out_of_window start end) (bar_v9 (defaults_v9 cfg) day_data)
                (state_v8 points) [] h4_data
          ok (summary_v8 in_order "v9" s)))
