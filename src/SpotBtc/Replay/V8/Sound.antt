-- ===== src/SpotBtc/Replay/V8/Sound.antt =====
-- What holds after every bar of RunV8Replay.
use cryptotips.SpotBtc.Replay.Total.Steps.{step_position_v8-Total}
use cryptotips.SpotBtc.Replay.Total.Scores.{bear_quality_filter-Total, signal_strength-Total}
use cryptotips.SpotBtc.Replay.V8.Switches.{Spaced, later-Spaced, catch_up-Spaced}
use cryptotips.SpotBtc.Replay.Steps.{step_position_v8}
use cryptotips.SpotBtc.Replay.Total.{eval_trend_short-Total}
use cryptotips.SpotBtc.Replay.Candles.{days_until, out_of_window}
use cryptotips.SpotBtc.Replay.Maps.{lookup_or-update_at}
use cryptotips.Base.Outcome.{Returns-if, value, Returns-bind, Returns}
use cryptotips.SpotBtc.Signal.Safe.{eval_trend-IsGuarded, HasPeriods}
use cryptotips.Models.{KlineRecord}
use cryptotips.SpotBtc.Replay.Points.{ClassPoint}
use cryptotips.SpotBtc.Signal.{SignalResult, Ohlc}
use cryptotips.SpotBtc.Replay.Sound.{
  step_both-IsBook, both_forced_out-IsBook, each_bar-Returns, empty_book-IsBook,
  with_position-IsBook, IsBook, pause_less-IsBook,
}
use cryptotips.SpotBtc.Replay.Ledger.{risk_blocked, BarKeys}
use cryptotips.Base.{
  inl, refl, length, ◌&&◌, if_rule, if◌then◌else◌, [], ◌<◌, true, ◌+◌, arith, ◌≡◌, ◌≤◌, Bool, List,
  ℕ,
}
use cryptotips.SpotBtc.Replay.Book.{bars_to, both_forced_out, each_bar, plan_for, is_flat, Book}
use cryptotips.SpotBtc.Replay.{
  opened_at, regime_eq, regime_range, regime_bear, short, long, regime_bull, ReplayPosition,
  MarketRegime, Direction,
}
use cryptotips.SpotBtc.Config.{Config}
use cryptotips.SpotBtc.Replay.V8.{
  keys_by_iso_year, over_book, enter_v8, entries_in, entered_in, state_v8, may_enter, StateV8,
  bar_v8, begin_bar, enter_bear, enter_bull, enter_signal, trade_v8,
}
use cryptotips.Float.{◌<?◌, of_ℕ, ◌≤?◌, Float}

module _ {F : Type 0} ⦃fl : Float F⦄ where
  -- After `n` candles: a sound book, a cooldown that is not longer than a full one, no week with too
  -- many entries, and switches that are apart.
  pub record IsSoundV8 (cfg : Config F) (n : ℕ) (s : StateV8 F) : Type 0 where
    pub sound_book : IsBook s.book
    pub cooldown_bound : s.cooldown ≤ cfg.cooldown_bars
    pub entries_bound : (week : ℕ) → entries_in week s ≤ cfg.max_entries_per_week
    pub spaced : Spaced cfg n s.track

  pub later-IsSound :
      (cfg : Config F) (n : ℕ) (s : StateV8 F) → IsSoundV8 cfg n s → IsSoundV8 cfg (n + 1) s
  later-IsSound cfg n s p = record {
    sound_book = p.sound_book;
    cooldown_bound = p.cooldown_bound;
    entries_bound = p.entries_bound;
    spaced = later-Spaced cfg n s.track p.spaced;
  }

  -- The same, at a time when an entry is allowed.
  pub record IsReadyV8 (cfg : Config F) (n week : ℕ) (s : StateV8 F) : Type 0 where
    pub sound : IsSoundV8 cfg n s
    pub flat : is_flat s.book ≡ true
    pub room : entries_in week s < cfg.max_entries_per_week

  pub begin_bar-IsSound :
      (cfg : Config F) (n t : ℕ) (s : StateV8 F)
      → IsSoundV8 cfg n s
      → IsSoundV8 cfg (n + 1) (begin_bar cfg t s)
  unfolding begin_bar
  begin_bar-IsSound cfg n t s p = record {
    sound_book = pause_less-IsBook s.book p.sound_book;
    cooldown_bound = omega (arith, p.cooldown_bound);
    entries_bound = p.entries_bound;
    spaced = catch_up-Spaced cfg n t s.track p.spaced;
  }

  pub entered_in-IsSound :
      (d : Direction) (cfg : Config F) (n week : ℕ) (pos : ReplayPosition F) (s : StateV8 F)
      → IsReadyV8 cfg n week s
      → IsSoundV8 cfg n (entered_in d cfg week pos s)
  entered_in-IsSound d cfg n week pos s r = record {
    sound_book = with_position-IsBook d pos s.book r.flat r.sound.sound_book;
    cooldown_bound = omega arith;
    entries_bound = λ w.
        rw (lookup_or-update_at 0 week w (λ n. n + 1) s.weekly_entries)
          (ground (arith, r.room, r.sound.entries_bound w));
    spaced = r.sound.spaced;
  }

  enter_signal-IsSound :
      (d : Direction) (cfg : Config F) (n week : ℕ) (day h4 : List (Ohlc F)) (sig : SignalResult F)
      (s : StateV8 F)
      → HasPeriods cfg
      → IsReadyV8 cfg n week s
      → Returns (IsSoundV8 cfg n) (enter_signal d cfg week day h4 sig s)
  unfolding enter_signal
  enter_signal-IsSound d cfg n week day h4 sig s p r =
      let plan = plan_for d cfg sig.entry_price sig.stop_loss in
      Returns-if sig.should_enter
        (λ _. Returns-bind (signal_strength-Total d cfg day h4 p) λ strength _. value (
          if_rule (IsSoundV8 cfg n) ((cfg.min_signal_strength ≤? strength) && (of_ℕ 0 <? plan.qty))
            (λ _.
              entered_in-IsSound d cfg n week (opened_at sig.entry_price sig.stop_loss plan) s r)
            λ _. r.sound))
        λ _. value r.sound

  pub enter_bull-IsSound :
      (cfg : Config F) (n week : ℕ) (day h4 : List (Ohlc F)) (s : StateV8 F)
      → HasPeriods cfg
      → IsReadyV8 cfg n week s
      → Returns (IsSoundV8 cfg n) (enter_bull cfg week day h4 s)
  unfolding enter_bull
  enter_bull-IsSound cfg n week day h4 s p r =
      Returns-bind (eval_trend-IsGuarded cfg day h4 p)
        λ sig _. enter_signal-IsSound long cfg n week day h4 sig s p r

  pub enter_bear-IsSound :
      (cfg : Config F) (n week : ℕ) (day h4 : List (Ohlc F)) (s : StateV8 F)
      → HasPeriods cfg
      → 3 ≤ cfg.ema_filter_period + cfg.ema200_slope_lookback
      → IsReadyV8 cfg n week s
      → Returns (IsSoundV8 cfg n) (enter_bear cfg week day h4 s)
  unfolding enter_bear
  enter_bear-IsSound cfg n week day h4 s p three r =
      Returns-bind (bear_quality_filter-Total cfg day h4 p three) λ good _.
        Returns-if good
          (λ _.
            Returns-bind (eval_trend_short-Total cfg day h4 p)
              λ sig _. enter_signal-IsSound short cfg n week day h4 sig s p r)
          λ _. value r.sound

  enter_v8-IsSound :
      (cfg : Config F) (n : ℕ) (regime : MarketRegime) (week : ℕ) (day h4 : List (Ohlc F))
      (s : StateV8 F)
      → HasPeriods cfg
      → 3 ≤ cfg.ema_filter_period + cfg.ema200_slope_lookback
      → IsReadyV8 cfg n week s
      → Returns (IsSoundV8 cfg n) (enter_v8 cfg regime week day h4 s)
  enter_v8-IsSound cfg n regime_bull week day h4 s p three r =
      enter_bull-IsSound cfg n week day h4 s p r
  enter_v8-IsSound cfg n regime_bear week day h4 s p three r =
      enter_bear-IsSound cfg n week day h4 s p three r
  enter_v8-IsSound cfg n regime_range week day h4 s p three r = value r.sound

  -- An entry is tried only where one is allowed.
  pub may_enter-IsReady :
      (cfg : Config F) (n : ℕ) (blocked : Bool) (week : ℕ) (s : StateV8 F)
      → IsSoundV8 cfg n s
      → may_enter cfg blocked week s ≡ true
      → IsReadyV8 cfg n week s
  may_enter-IsReady cfg n blocked week s p e = record {
    sound = p;
    flat = ground arith;
    room = ground arith;
  }

  pub with_book-IsSound :
      (cfg : Config F) (n : ℕ) (b : Book F) (s : StateV8 F)
      → IsSoundV8 cfg n s
      → IsBook b
      → IsSoundV8 cfg n (record s { book = b })
  with_book-IsSound cfg n b s p q = record {
    sound_book = q;
    cooldown_bound = p.cooldown_bound;
    entries_bound = p.entries_bound;
    spaced = p.spaced;
  }

  trade_v8-IsSound :
      (cfg : Config F) (n : ℕ) (keys : BarKeys) (price : F) (day h4 : List (Ohlc F)) (s : StateV8 F)
      → HasPeriods cfg
      → 3 ≤ cfg.ema_filter_period + cfg.ema200_slope_lookback
      → IsSoundV8 cfg n s
      → Returns (IsSoundV8 cfg n) (trade_v8 cfg keys price day h4 s)
  unfolding trade_v8
  trade_v8-IsSound cfg n keys price day h4 s p three q =
      let capital = cfg.risk_capital_usdt in
      let regime = s.track.confirm.current in
      let blocked = risk_blocked cfg keys s.book.ledger in
      let forced = over_book (both_forced_out capital keys.month price) s in
      let out = if regime_eq regime regime_range then forced else s in
      let out_sound : IsSoundV8 cfg n out =
        if_rule (IsSoundV8 cfg n) (regime_eq regime regime_range)
          (λ _.
            with_book-IsSound cfg n (both_forced_out capital keys.month price s.book) s q
              (both_forced_out-IsBook capital keys.month price s.book q.sound_book))
          λ _. q in
      Returns-bind
        (Returns-if {Good = IsSoundV8 cfg n} (may_enter cfg blocked keys.week out)
          (λ e.
            enter_v8-IsSound cfg n regime keys.week day h4 out p three
              (may_enter-IsReady cfg n blocked keys.week out out_sound e))
          λ _. value out_sound)
        λ s' q'.
          Returns-bind
            (step_both-IsBook capital keys price (λ d pos. step_position_v8 d cfg pos price h4)
              s'.book (λ d pos. step_position_v8-Total d cfg pos price h4 p) q'.sound_book)
            λ b r. value (with_book-IsSound cfg n b s' q' r)

  pub state_v8-IsSound :
      (cfg : Config F) (points : List (ClassPoint F)) → IsSoundV8 cfg 0 (state_v8 points)
  state_v8-IsSound cfg points = record {
    sound_book = empty_book-IsBook;
    cooldown_bound = omega arith;
    entries_bound = λ w. omega arith;
    spaced = inl refl;
  }

  -- With periods of at least 1, and enough days for the bear filter, the bar loop of RunV8Replay panics
  -- on no candles, no window and no regime points, and after every bar a long and a short are not both
  -- open, the wins are at most the trades, fewer than three losses in a row are counted, a pause is of
  -- at most six bars, the cooldown is at most the one of the profile, no week has more entries than the
  -- profile allows, and the regime has not switched, or its switches but the first, times the bars that
  -- it must stay, and the bars since the last one are together at most the candles.
  pub bars_v8-IsSound :
      (cfg : Config F) (start end : ℕ) (day_data h4_data : List (KlineRecord F))
      (points : List (ClassPoint F))
      → HasPeriods cfg
      → 3 ≤ cfg.ema_filter_period + cfg.ema200_slope_lookback
      → Returns
          (IsSoundV8 cfg (length h4_data))
          (each_bar (out_of_window start end) (bar_v8 cfg day_data) (state_v8 points) [] h4_data)
  unfolding bar_v8
  bars_v8-IsSound cfg start end day_data h4_data points p three =
      each_bar-Returns (IsSoundV8 cfg) (out_of_window start end) (bar_v8 cfg day_data)
        (λ n s q. later-IsSound cfg n s q)
        (λ seen k s q.
          trade_v8-IsSound cfg (length seen + 1) (keys_by_iso_year k.open_time) k.close
            (days_until k.open_time day_data) (bars_to seen k) (begin_bar cfg k.open_time s) p three
            (begin_bar-IsSound cfg (length seen) k.open_time s q))
        (state_v8 points) h4_data (state_v8-IsSound cfg points)
