-- ===== src/SpotBtc/Replay/V11/Bars.antt =====
-- The entries and the bars of runV11Replay keep what holds after every bar.
use cryptotips.SpotBtc.Replay.Total.Scores.{
  recent_momentum-Total, bear_quality_filter-Total, is_range_trend_support-Total,
  signal_strength-Total,
}
use cryptotips.SpotBtc.Replay.Times.{iso_week_key}
use cryptotips.SpotBtc.Replay.Sound.{each_bar-Returns}
use cryptotips.SpotBtc.Replay.Total.{last_range-Total}
use cryptotips.SpotBtc.Replay.Book.{bars_to, each_bar}
use cryptotips.Base.Outcome.{value, Returns-if, Returns-bind, Returns}
use cryptotips.SpotBtc.Replay.V11.Entries.{
  too_costly, core_part, bear_notional, bull_alloc, enter_v11, enter_bear_v11, enter_bull_v11,
  enter_range_v11, enter_short_v11, entered_v11,
}
use cryptotips.SpotBtc.Replay.V8.{or_default}
use cryptotips.SpotBtc.Replay.Candles.{out_of_window, days_until, klines_until}
use cryptotips.SpotBtc.Replay.Maps.{lookup_or-update_at, lookup_or}
use cryptotips.SpotBtc.Signal.Safe.{HasPeriods}
use cryptotips.SpotBtc.Replay.V11.Sound.{
  same_counts, look_at_day-IsSound, hold_v11-IsSound, IsSoundV11,
}
use cryptotips.Models.{KlineRecord}
use cryptotips.SpotBtc.Signal.{Ohlc}
use cryptotips.SpotBtc.Replay.Ledger.{marked}
use cryptotips.SpotBtc.Replay.V11.{StateV11}
use cryptotips.SpotBtc.Replay.V11.Loop.{may_enter_v11, state_v11, bar_v11, trade_v11}
use cryptotips.SpotBtc.Config.{Config}
use cryptotips.Base.{
  ◌-◌, if_rule, ◌||◌, ltb, if◌then◌else◌, refl, [], arith, ◌∷◌, ◌+◌, ◌≡◌, ◌<◌, ◌≤◌, length, Bool,
  List, ℕ,
}
use cryptotips.SpotBtc.Replay.{regime_bear, regime_range, regime_bull, long, short, MarketRegime}
use cryptotips.Float.{◌⊖◌, dec, of_ℕ, ◌⊘◌, ◌≤?◌, ◌<?◌, ◌⊕◌, ◌⊗◌, Float}

module _ {F : Type 0} ⦃fl : Float F⦄ where
  entered_v11-IsSound :
      (r : MarketRegime) (cfg : Config F) (t week : ℕ) (price qty stop trail : F) (s : StateV11 F)
      → IsSoundV11 cfg s
      → lookup_or 0 week s.week_entries < or_default 4 cfg.max_entries_per_week
      → IsSoundV11 cfg (entered_v11 r cfg t week price qty stop trail s)
  entered_v11-IsSound r cfg t week price qty stop trail s q room = record {
    wins_v11 = q.wins_v11;
    cooldown_v11_bound = omega arith;
    entries_v11 = λ w.
        rw (lookup_or-update_at 0 week w (λ n. n + 1) s.week_entries)
          (ground (arith, q.entries_v11 w));
  }

  module _ (cfg : Config F) (price : F) (t week : ℕ) (day h4 : List (Ohlc F)) (s : StateV11 F)
      (p : HasPeriods cfg) (q : IsSoundV11 cfg s)
      (room : lookup_or 0 week s.week_entries < or_default 4 cfg.max_entries_per_week) where
    enter_bull_v11-IsSound :
        (is_v13 : Bool) → Returns (IsSoundV11 cfg) (enter_bull_v11 is_v13 cfg price t week day h4 s)
    unfolding enter_bull_v11
    enter_bull_v11-IsSound is_v13 =
        Returns-bind (signal_strength-Total long cfg day h4 p) λ strength _.
          let notional = cfg.risk_capital_usdt ⊗ bull_alloc is_v13 cfg strength in
          let qty = notional ⊘ price in
          Returns-if
            ((strength <? cfg.bull_signal_floor) || (price ≤? of_ℕ 0) || (notional ≤? of_ℕ 0))
            (λ _. value q)
            λ _. Returns-bind (last_range-Total h4 cfg.atr_period p.range_period) λ atr _.
              let s' = record s { bull_core = core_part is_v13 cfg price qty s.bull_core } in
              value (
                entered_v11-IsSound regime_bull cfg t week price qty (price ⊖ atr ⊗ dec 18 1)
                  (price ⊖ atr ⊗ cfg.trail_atr_multiplier) s'
                  (same_counts cfg s s' refl refl refl q) room)

    enter_range_v11-IsSound : Returns (IsSoundV11 cfg) (enter_range_v11 cfg price t week day h4 s)
    unfolding enter_range_v11
    enter_range_v11-IsSound = Returns-bind (is_range_trend_support-Total cfg day h4 p) λ support _.
        let alloc =
          if support
          then cfg.range_base_alloc ⊕ cfg.range_trend_alloc_boost
          else cfg.range_base_alloc in
        Returns-if ((alloc ≤? of_ℕ 0) || (dec 45 2 <? alloc) || (price ≤? of_ℕ 0)) (λ _. value q)
          λ _. Returns-bind (last_range-Total h4 cfg.atr_period p.range_period) λ atr _. value (
            if_rule (IsSoundV11 cfg) ((atr ≤? of_ℕ 0) || too_costly cfg price atr) (λ _. q)
              λ _.
                entered_v11-IsSound regime_range cfg t week price
                  (cfg.risk_capital_usdt ⊗ alloc ⊘ price) (price ⊖ atr ⊗ dec 15 1)
                  (price ⊖ atr ⊗ dec 15 1) s q room)

    enter_short_v11-IsSound : Returns (IsSoundV11 cfg) (enter_short_v11 cfg price t week day h4 s)
    unfolding enter_short_v11
    enter_short_v11-IsSound = Returns-bind (signal_strength-Total short cfg day h4 p) λ strength _.
        Returns-if (strength <? cfg.bear_signal_floor) (λ _. value q)
          λ _. Returns-bind (recent_momentum-Total day 5) λ mom _.
            let notional = bear_notional cfg strength in
            Returns-if
              ((cfg.bear_momentum_floor <? mom) || (price ≤? of_ℕ 0) || (notional ≤? of_ℕ 0))
              (λ _. value q)
              λ _. Returns-bind (last_range-Total h4 cfg.atr_period p.range_period) λ atr _. value (
                entered_v11-IsSound regime_bear cfg t week price (notional ⊘ price)
                  (price ⊕ atr ⊗ dec 16 1) (price ⊕ atr ⊗ cfg.trail_atr_multiplier) s q room)

    enter_v11-IsSound :
        (r : MarketRegime) (is_v13 : Bool)
        → 3 ≤ cfg.ema_filter_period + cfg.ema200_slope_lookback
        → Returns (IsSoundV11 cfg) (enter_v11 r is_v13 cfg price t week day h4 s)
    unfolding enter_bear_v11
    enter_v11-IsSound regime_bull is_v13 three = enter_bull_v11-IsSound is_v13
    enter_v11-IsSound regime_range is_v13 three = enter_range_v11-IsSound
    enter_v11-IsSound regime_bear is_v13 three =
        Returns-bind
          (Returns-if {Good = λ _. Unit {0}} cfg.bear_require_quality
            (λ _. bear_quality_filter-Total cfg day h4 p three) λ _. value tt)
          λ good _. Returns-if good (λ _. enter_short_v11-IsSound) λ _. value q

  trade_v11-IsSound :
      (is_v13 : Bool) (cfg : Config F) (price : F) (t week : ℕ) (day h4 : List (Ohlc F))
      (s : StateV11 F)
      → HasPeriods cfg
      → 3 ≤ cfg.ema_filter_period + cfg.ema200_slope_lookback
      → IsSoundV11 cfg s
      → Returns (IsSoundV11 cfg) (trade_v11 is_v13 cfg price t week day h4 s)
  unfolding trade_v11 marked
  trade_v11-IsSound is_v13 cfg price t week day h4 s p three q =
      Returns-bind (hold_v11-IsSound s.pos_regime is_v13 cfg price t day h4 s p q) λ held r.
        Returns-bind
          (Returns-if {Good = IsSoundV11 cfg} (may_enter_v11 cfg week held)
            (λ may.
              enter_v11-IsSound cfg price t week day h4 held p r (ground arith)
                held.daily.confirm_v11.current is_v13 three)
            λ _. value r)
          λ s' r'. value (record {
            wins_v11 = r'.wins_v11;
            cooldown_v11_bound = r'.cooldown_v11_bound;
            entries_v11 = r'.entries_v11;
          })

  length-klines_until :
      (t : ℕ) (ds : List (KlineRecord F)) → length (klines_until t ds) ≡ length (days_until t ds)
  length-klines_until t [] = refl
  length-klines_until t (d ∷ ds) = ground (arith, length-klines_until t ds)

  -- With periods of at least 1, and enough days for the bear filter, the bar loop of runV11Replay panics
  -- on no candles and no window, in v11, v12 and v13; and after every bar the wins are at most the
  -- trades, the cooldown is at most the one of the profile, and no week has more entries than the
  -- profile allows, or four where it gives no number.
  pub bars_v11-IsSound :
      (is_v13 : Bool) (cfg : Config F) (start end : ℕ) (day_data h4_data : List (KlineRecord F))
      → HasPeriods cfg
      → 3 ≤ cfg.ema_filter_period + cfg.ema200_slope_lookback
      → Returns
          (IsSoundV11 cfg)
          (each_bar (out_of_window start end) (bar_v11 is_v13 cfg day_data) state_v11 [] h4_data)
  unfolding bar_v11
  bars_v11-IsSound is_v13 cfg start end day_data h4_data p three =
      each_bar-Returns (λ _. IsSoundV11 cfg) (out_of_window start end) (bar_v11 is_v13 cfg day_data)
        (λ n s q. q)
        (λ seen k s q.
          let t = k.open_time in
          let days = klines_until t day_data in
          let day = days_until t day_data in
          let h4 = bars_to seen k in
          Returns-if
            (ltb (length day) (cfg.ema_filter_period + cfg.ema200_slope_lookback + 2)
              || ltb (length h4) (cfg.atr_period + 3))
            (λ _. value q)
            λ e.
              Returns-bind
                (look_at_day-IsSound cfg days t day h4 s p
                  (ground (arith, length-klines_until t day_data)) q)
                λ looked r.
                  trade_v11-IsSound is_v13 cfg k.close t (iso_week_key t) day h4
                    (record looked { cooldown_v11 = looked.cooldown_v11 - 1 }) p three
                    (record {
                      wins_v11 = r.wins_v11;
                      cooldown_v11_bound = omega (arith, r.cooldown_v11_bound);
                      entries_v11 = r.entries_v11;
                    }))
        state_v11 h4_data
        (record {
          wins_v11 = omega arith;
          cooldown_v11_bound = omega arith;
          entries_v11 = λ w. omega arith;
        })
