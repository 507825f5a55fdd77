-- ===== src/SpotBtc/Replay/V8.antt =====
-- strategies/spot_btc_conservative_v1/replay.go: runV8Replay.
pub mod Answer
pub mod Sound
pub mod Switches
use cryptotips.SpotBtc.Replay.Steps.{step_position_v8}
use cryptotips.SpotBtc.Signal.Rules.{eval_trend}
use cryptotips.Models.{KlineRecord}
use cryptotips.SpotBtc.Replay.Rules.{eval_trend_short}
use cryptotips.SpotBtc.Replay.Points.{RegimeCalibParams, ClassPoint, classify_series}
use cryptotips.SpotBtc.Signal.{Ohlc, SignalResult}
use Prim.Native.String.{String}
use cryptotips.SpotBtc.Replay.Candles.{out_of_window, days_until, aggregate_1d_to_1w}
use cryptotips.SpotBtc.Replay.Ledger.{
  no_points, insufficient_bars, risk_blocked, summarise, summary, ReplayResult, pause_less, BarKeys,
}
use cryptotips.SpotBtc.Replay.Track.{track_start, Track, catch_up}
use cryptotips.SpotBtc.Config.{Config}
use cryptotips.SpotBtc.Replay.{
  opened_at, regime_bear, regime_range, long, regime_bull, regime_eq, short, MarketRegime,
  ReplayPosition, Direction,
}
use cryptotips.SpotBtc.Replay.Maps.{update_at, lookup_or}
use cryptotips.SpotBtc.Replay.Times.{month_key, iso_week_key, day_key}
use cryptotips.SpotBtc.Replay.Strength.{bear_quality_filter, signal_strength}
use cryptotips.Float.{◌<?◌, of_ℕ, ◌≤?◌, Float}
use cryptotips.SpotBtc.Replay.Book.{
  both_forced_out, bars_to, each_bar, empty_book, is_flat, plan_for, with_position, over_ledger,
  step_both, Book,
}
use cryptotips.Base.{length, ltb, [], not, ◌+◌, ◌&&◌, ◌-◌, Bool, ◌==◌, List, if◌then◌else◌, ℕ}
use cryptotips.Base.Outcome.{ok, Run, ◌>>=◌}

pub record StateV8 (F : Type 0) : Type 0 where
  pub book : Book F
  pub track : Track F
  pub cooldown : ℕ
  pub weekly_entries : List (ℕ × ℕ)

abbrev pub or_default : ℕ → ℕ → ℕ
or_default d n = if n == 0 then d else n

abbrev pub keys_by_iso_year : ℕ → BarKeys
keys_by_iso_year t = record { day = day_key t; week = iso_week_key t; month = month_key t }

module _ {F : Type 0} ⦃fl : Float F⦄ where
  -- A cooldown is not negative in any profile.
  abbrev pub defaults_v8 : Config F → Config F
  defaults_v8 cfg = record cfg {
    regime_min_confirm_bars = or_default 2 cfg.regime_min_confirm_bars;
    regime_min_stay_bars = or_default 3 cfg.regime_min_stay_bars;
    max_entries_per_week = or_default 2 cfg.max_entries_per_week;
  }

  abbrev pub over_book : (Book F → Book F) → StateV8 F → StateV8 F
  over_book f s = record s { book = f s.book }

  abbrev pub entries_in : ℕ → StateV8 F → ℕ
  entries_in week s = lookup_or 0 week s.weekly_entries

  -- The points, and the counters that fall with each bar.
  unfoldable pub begin_bar : Config F → ℕ → StateV8 F → StateV8 F
  unfolding catch_up
  begin_bar cfg t s = record s {
    book = over_ledger pause_less s.book;
    track = catch_up cfg t s.track;
    cooldown = s.cooldown - 1;
  }

  abbrev pub may_enter : Config F → Bool → ℕ → StateV8 F → Bool
  may_enter cfg blocked week s =
      is_flat s.book
      && not blocked
      && s.cooldown == 0
      && ltb (entries_in week s) cfg.max_entries_per_week

  -- An entry begins a cooldown and counts for its week.
  abbrev pub entered_in : Direction → Config F → ℕ → ReplayPosition F → StateV8 F → StateV8 F
  entered_in d cfg week pos s = record s {
    book = with_position d pos s.book;
    cooldown = cfg.cooldown_bars;
    weekly_entries = update_at 0 week (λ n. n + 1) s.weekly_entries;
  }

  abbrev pub open_strong : Direction → Config F → ℕ → SignalResult F → F → StateV8 F → StateV8 F
  open_strong d cfg week sig strength s =
      let plan = plan_for d cfg sig.entry_price sig.stop_loss in
      if (cfg.min_signal_strength ≤? strength) && (of_ℕ 0 <? plan.qty)
      then entered_in d cfg week (opened_at sig.entry_price sig.stop_loss plan) s
      else s

  -- An entry on a signal; the strength is computed for a signal only.
  unfoldable pub enter_signal :
      Direction
      → Config F
      → ℕ
      → List (Ohlc F)
      → List (Ohlc F)
      → SignalResult F
      → StateV8 F
      → Run (StateV8 F)
  unfolding signal_strength
  enter_signal d cfg week day h4 sig s =
      if sig.should_enter
      then signal_strength d cfg day h4 >>= (λ strength. ok (open_strong d cfg week sig strength s))
      else ok s

  unfoldable pub enter_bull :
      Config F → ℕ → List (Ohlc F) → List (Ohlc F) → StateV8 F → Run (StateV8 F)
  unfolding enter_signal
  enter_bull cfg week day h4 s =
      eval_trend cfg day h4 >>= λ sig. enter_signal long cfg week day h4 sig s

  unfoldable pub enter_bear :
      Config F → ℕ → List (Ohlc F) → List (Ohlc F) → StateV8 F → Run (StateV8 F)
  unfolding enter_signal bear_quality_filter eval_trend_short
  enter_bear cfg week day h4 s = bear_quality_filter cfg day h4 >>= λ good.
      if good
      then eval_trend_short cfg day h4 >>= (λ sig. enter_signal short cfg week day h4 sig s)
      else ok s

  abbrev pub enter_v8 :
      Config F → MarketRegime → ℕ → List (Ohlc F) → List (Ohlc F) → StateV8 F → Run (StateV8 F)
  enter_v8 cfg regime_bull week day h4 s = enter_bull cfg week day h4 s
  enter_v8 cfg regime_bear week day h4 s = enter_bear cfg week day h4 s
  enter_v8 cfg regime_range week day h4 s = ok s

  -- The bar behind the regime and the keys.
  unfoldable pub trade_v8 :
      Config F → BarKeys → F → List (Ohlc F) → List (Ohlc F) → StateV8 F → Run (StateV8 F)
  unfolding enter_bull enter_bear step_both
  trade_v8 cfg keys price day h4 s =
      let capital = cfg.risk_capital_usdt in
      let regime = s.track.confirm.current in
      let blocked = risk_blocked cfg keys s.book.ledger in
      let out =
        if regime_eq regime regime_range
        then over_book (both_forced_out capital keys.month price) s
        else s in
      (if may_enter cfg blocked keys.week out
        then enter_v8 cfg regime keys.week day h4 out
        else ok out)
      >>= λ s'.
          step_both capital keys price (λ d pos. step_position_v8 d cfg pos price h4) s'.book
          >>= λ b. ok (record s' { book = b })

  unfoldable pub bar_v8 :
      Config F
      → List (KlineRecord F)
      → List (KlineRecord F)
      → KlineRecord F
      → StateV8 F
      → Run (StateV8 F)
  unfolding trade_v8 begin_bar day_key iso_week_key month_key
  bar_v8 cfg day_data seen k s =
      let t = k.open_time in
      trade_v8 cfg (keys_by_iso_year t) k.close (days_until t day_data) (bars_to seen k)
        (begin_bar cfg t s)

  abbrev pub state_v8 : List (ClassPoint F) → StateV8 F
  state_v8 points = record {
    book = empty_book;
    track = track_start points;
    cooldown = 0;
    weekly_entries = [];
  }

  abbrev pub summary_v8 : (List F → List F) → String → StateV8 F → ReplayResult F
  summary_v8 in_order name s = summary (record (summarise in_order name s.book.ledger) {
    regime_switches = s.track.switches;
    timeframe = "1w";
  })

  unfoldable pub run_v8_replay :
      (List F → List F)
      → Config F
      → List (KlineRecord F)
      → List (KlineRecord F)
      → ℕ
      → ℕ
      → RegimeCalibParams F
      → Run (ReplayResult F)
  unfolding bar_v8 aggregate_1d_to_1w classify_series each_bar summarise
  run_v8_replay in_order cfg day_data h4_data start end p =
      let weekly = aggregate_1d_to_1w day_data in
      if ltb (length weekly) 120 then ok (insufficient_bars (length weekly)) else (do
        points ← classify_series weekly p
        if length points == 0 then ok no_points else (do
          s ←
              each_bar (out_of_window start end) (bar_v8 (defaults_v8 cfg) day_data)
                (state_v8 points) [] h4_data
          ok (summary_v8 in_order "v8" s)))
