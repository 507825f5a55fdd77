-- ===== src/SpotBtc/Replay/V9/Sound.antt =====
-- What holds after every bar of RunV9Replay.
use cryptotips.SpotBtc.Replay.Total.Steps.{step_position_v8-Total}
use cryptotips.SpotBtc.Replay.Candles.{days_until, out_of_window}
use cryptotips.SpotBtc.Replay.Total.{detect_range_band-Total}
use cryptotips.Base.Outcome.{Returns-bind, value, Returns, Returns-if}
use cryptotips.SpotBtc.Replay.Points.{ClassPoint}
use cryptotips.SpotBtc.Signal.Safe.{Total, HasPeriods}
use cryptotips.SpotBtc.Replay.V8.Sound.{
  state_v8-IsSound, begin_bar-IsSound, may_enter-IsReady, later-IsSound, with_book-IsSound,
  entered_in-IsSound, enter_bear-IsSound, enter_bull-IsSound, IsSoundV8, IsReadyV8,
}
use cryptotips.SpotBtc.Signal.{Ohlc}
use cryptotips.Models.{KlineRecord}
use cryptotips.SpotBtc.Replay.V8.{
  begin_bar, may_enter, keys_by_iso_year, state_v8, over_book, StateV8,
}
use cryptotips.SpotBtc.Replay.Steps.{RangeBand}
use cryptotips.SpotBtc.Replay.Sound.{step_both-IsBook, each_bar-Returns, IsBook}
use cryptotips.SpotBtc.Replay.Book.{bars_to, each_bar, plan_for, Book}
use cryptotips.Base.{[], if◌then◌else◌, length, not, ◌<◌, if_rule, ◌+◌, ◌≤◌, arith, Bool, List, ℕ}
use cryptotips.SpotBtc.Config.{Config}
use cryptotips.SpotBtc.Replay.Ledger.{risk_blocked, BarKeys}
use cryptotips.SpotBtc.Replay.{
  opened_at, regime_bear, regime_range, regime_bull, regime_eq, ReplayPosition, long, short,
  MarketRegime, Direction,
}
use cryptotips.SpotBtc.Replay.V9.{
  enter_v9, from_range, strong_edge, range_stop, open_in_range, range_closed, ranges_closed, bar_v9,
  enter_range, step_v9, trade_v9,
}
use cryptotips.Float.{◌<?◌, of_ℕ, Float}

module _ {F : Type 0} ⦃fl : Float F⦄ where
  range_closed-IsBook :
      (d : Direction) (capital : F) (keys : BarKeys) (price : F) (b : Book F)
      → IsBook b
      → IsBook (range_closed d capital keys price b)
  range_closed-IsBook long capital keys price b s = ground arith
  range_closed-IsBook short capital keys price b s = ground arith

  ranges_closed-IsBook :
      (capital : F) (keys : BarKeys) (price : F) (b : Book F)
      → IsBook b
      → IsBook (ranges_closed capital keys price b)
  ranges_closed-IsBook capital keys price b s =
      range_closed-IsBook short capital keys price (range_closed long capital keys price b)
        (range_closed-IsBook long capital keys price b s)

  open_in_range-IsSound :
      (d : Direction) (cfg : Config F) (n week : ℕ) (price : F) (band : RangeBand F) (s : StateV8 F)
      → IsReadyV8 cfg n week s
      → IsSoundV8 cfg n (open_in_range d cfg week price band s)
  open_in_range-IsSound d cfg n week price band s r =
      let stop = range_stop d cfg band in
      let plan = plan_for d cfg price stop in
      if_rule (IsSoundV8 cfg n) (of_ℕ 0 <? plan.qty)
        (λ _.
          entered_in-IsSound d cfg n week
            (record (opened_at price (of_ℕ 0) plan) { trail_stop = stop }) s r)
        λ _. r.sound

  enter_range-IsSound :
      (cfg : Config F) (n week : ℕ) (price : F) (band : RangeBand F × Bool) (s : StateV8 F)
      → IsReadyV8 cfg n week s
      → IsSoundV8 cfg n (enter_range cfg week price band s)
  unfolding enter_range
  enter_range-IsSound cfg n week price (band, range_ok) s r =
      if_rule (IsSoundV8 cfg n) (not range_ok) (λ _. r.sound)
        λ _.
          if_rule (IsSoundV8 cfg n) (strong_edge long cfg price band)
            (λ _. open_in_range-IsSound long cfg n week price band s r)
            λ _.
              if_rule (IsSoundV8 cfg n) (strong_edge short cfg price band)
                (λ _. open_in_range-IsSound short cfg n week price band s r) λ _. r.sound

  enter_v9-IsSound :
      (cfg : Config F) (n : ℕ) (regime : MarketRegime) (week : ℕ) (price : F)
      (band : RangeBand F × Bool) (day h4 : List (Ohlc F)) (s : StateV8 F)
      → HasPeriods cfg
      → 3 ≤ cfg.ema_filter_period + cfg.ema200_slope_lookback
      → IsReadyV8 cfg n week s
      → Returns (IsSoundV8 cfg n) (enter_v9 cfg regime week price band day h4 s)
  enter_v9-IsSound cfg n regime_bull week price band day h4 s p three r =
      enter_bull-IsSound cfg n week day h4 s p r
  enter_v9-IsSound cfg n regime_bear week price band day h4 s p three r =
      enter_bear-IsSound cfg n week day h4 s p three r
  enter_v9-IsSound cfg n regime_range week price band day h4 s p three r =
      value (enter_range-IsSound cfg n week price band s r)

  step_v9-Total :
      (cfg : Config F) (price : F) (regime : MarketRegime) (band : RangeBand F × Bool)
      (h4 : List (Ohlc F))
      → HasPeriods cfg
      → (d : Direction) (pos : ReplayPosition F) → Total (step_v9 cfg price regime band h4 d pos)
  unfolding step_v9
  step_v9-Total cfg price regime (band, range_ok) h4 p d pos =
      Returns-if (from_range pos) (λ _. value tt) λ _. step_position_v8-Total d cfg pos price h4 p

  trade_v9-IsSound :
      (cfg : Config F) (n : ℕ) (keys : BarKeys) (price : F) (day h4 : List (Ohlc F)) (s : StateV8 F)
      → HasPeriods cfg
      → 3 ≤ cfg.ema_filter_period + cfg.ema200_slope_lookback
      → 0 < cfg.range_lookback_days
      → IsSoundV8 cfg n s
      → Returns (IsSoundV8 cfg n) (trade_v9 cfg keys price day h4 s)
  unfolding trade_v9
  trade_v9-IsSound cfg n keys price day h4 s p three back q =
      let capital = cfg.risk_capital_usdt in
      let regime = s.track.confirm.current in
      let blocked = risk_blocked cfg keys s.book.ledger in
      let closed = over_book (ranges_closed capital keys price) s in
      let out = if regime_eq regime regime_range then s else closed in
      let out_sound : IsSoundV8 cfg n out =
        if_rule (IsSoundV8 cfg n) (regime_eq regime regime_range) (λ _. q)
          λ _.
            with_book-IsSound cfg n (ranges_closed capital keys price s.book) s q
              (ranges_closed-IsBook capital keys price s.book q.sound_book) in
      Returns-bind (detect_range_band-Total cfg day h4 p back) λ band _.
        Returns-bind
          (Returns-if {Good = IsSoundV8 cfg n} (may_enter cfg blocked keys.week out)
            (λ e.
              enter_v9-IsSound cfg n regime keys.week price band day h4 out p three
                (may_enter-IsReady cfg n blocked keys.week out out_sound e))
            λ _. value out_sound)
          λ s' q'.
            Returns-bind
              (step_both-IsBook capital keys price (step_v9 cfg price regime band h4) s'.book
                (step_v9-Total cfg price regime band h4 p) q'.sound_book)
              λ b r. value (with_book-IsSound cfg n b s' q' r)

  -- With periods of at least 1, a range of at least one day and enough days for the bear filter, the
  -- bar loop of RunV9Replay panics on no candles, no window and no regime points, and keeps after every
  -- bar all that the one of RunV8Replay keeps: not a long and a short at once, the wins at most the
  -- trades, fewer than three losses counted, a pause of at most six bars, the cooldown and the entries
  -- of each week within the profile, and no switch of the regime, or the switches but the first, times
  -- the bars that it must stay, and the bars since the last one together at most the candles.
  pub bars_v9-IsSound :
      (cfg : Config F) (start end : ℕ) (day_data h4_data : List (KlineRecord F))
      (points : List (ClassPoint F))
      → HasPeriods cfg
      → 3 ≤ cfg.ema_filter_period + cfg.ema200_slope_lookback
      → 0 < cfg.range_lookback_days
      → Returns
          (IsSoundV8 cfg (length h4_data))
          (each_bar (out_of_window start end) (bar_v9 cfg day_data) (state_v8 points) [] h4_data)
  unfolding bar_v9
  bars_v9-IsSound cfg start end day_data h4_data points p three back =
      each_bar-Returns (IsSoundV8 cfg) (out_of_window start end) (bar_v9 cfg day_data)
        (λ n s q. later-IsSound cfg n s q)
        (λ seen k s q.
          trade_v9-IsSound cfg (length seen + 1) (keys_by_iso_year k.open_time) k.close
            (days_until k.open_time day_data) (bars_to seen k) (begin_bar cfg k.open_time s) p three
            back (begin_bar-IsSound cfg (length seen) k.open_time s q))
        (state_v8 points) h4_data (state_v8-IsSound cfg points)
