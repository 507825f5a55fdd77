-- ===== src/SpotBtc/Replay/V11/Sound.antt =====
-- What holds after every bar of runV11Replay.
use cryptotips.SpotBtc.Replay.Total.Scores.{range_switch_strength-Total, signal_strength-Total}
use cryptotips.SpotBtc.Replay.V11.Holds.{
  exits_bear, exits_bull, hold_bear, hold_bull, hold_range, hold_v11,
}
use cryptotips.SpotBtc.Replay.V10.{detect_v10_regime}
use cryptotips.SpotBtc.Replay.Steps.{tighter}
use cryptotips.SpotBtc.Replay.Times.{month_key, day_key}
use cryptotips.SpotBtc.Replay.Total.{last_range-Total}
use cryptotips.SpotBtc.Replay.Strength.{regime_switch_strength}
use cryptotips.Base.Outcome.{Returns-if, value, Returns-bind, Returns}
use cryptotips.SpotBtc.Replay.V8.{or_default}
use cryptotips.SpotBtc.Signal.Safe.{last_ema-Total, index-Total, Total, HasPeriods}
use cryptotips.Models.{KlineRecord}
use cryptotips.SpotBtc.Signal.{closes_of, Ohlc}
use cryptotips.SpotBtc.Replay.Maps.{lookup_or}
use cryptotips.SpotBtc.Replay.{
  regime_bear, regime_bull, short, long, regime_range, regime_eq, MarketRegime,
}
use cryptotips.SpotBtc.Config.{Config}
use cryptotips.SpotBtc.Replay.Ledger.{earned, counted, tallied, Ledger}
use cryptotips.Base.{
  refl, ◌&&◌, ◌+◌, ◌==◌, none, some, ◌||◌, if◌then◌else◌, length, arith, not, sym, ◌<◌, if_rule,
  subst, ◌≡◌, Bool, List, ℕ, ◌≤◌, Option,
}
use cryptotips.SpotBtc.Replay.V11.{
  not_below, has_regime, DailyTrack, net_gain, StateV11, close_v11, look_at_day, new_day,
}
use cryptotips.Float.{◌⊗◌, ◌<?◌, ◌⊕◌, ◌⊖◌, of_ℕ, ◌≤?◌, Float}

module _ {F : Type 0} ⦃fl : Float F⦄ where
  -- The wins are at most the trades, and the cooldown and the entries of each week within the profile.
  pub record IsSoundV11 (cfg : Config F) (s : StateV11 F) : Type 0 where
    pub wins_v11 : s.tally_v11.wins ≤ s.tally_v11.trade_count
    pub cooldown_v11_bound : s.cooldown_v11 ≤ cfg.cooldown_bars
    pub entries_v11 :
        (week : ℕ) → lookup_or 0 week s.week_entries ≤ or_default 4 cfg.max_entries_per_week

  -- Only the sums, the cooldown and the entries matter.
  pub same_counts :
      (cfg : Config F) (s s' : StateV11 F)
      → s'.tally_v11 ≡ s.tally_v11
      → s'.cooldown_v11 ≡ s.cooldown_v11
      → s'.week_entries ≡ s.week_entries
      → IsSoundV11 cfg s
      → IsSoundV11 cfg s'
  same_counts cfg s s' a b c q = record {
    wins_v11 = subst (λ l. l.wins ≤ l.trade_count) (sym a) q.wins_v11;
    cooldown_v11_bound = omega (arith, q.cooldown_v11_bound);
    entries_v11 = λ w.
        subst (λ m. lookup_or 0 w m ≤ or_default 4 cfg.max_entries_per_week) (sym c)
          (q.entries_v11 w);
  }

  tallied-wins :
      (pnl : F) (l : Ledger F)
      → l.wins ≤ l.trade_count
      → (tallied pnl (counted l)).wins ≤ (tallied pnl (counted l)).trade_count
  tallied-wins pnl l h = ground arith

  pub close_v11-IsSound :
      (cfg : Config F) (price : F) (t : ℕ) (s : StateV11 F)
      → IsSoundV11 cfg s
      → IsSoundV11 cfg (close_v11 cfg price t s)
  unfolding close_v11
  close_v11-IsSound cfg price t s q =
      let pnl = net_gain cfg price t s in
      if_rule (IsSoundV11 cfg) (not (has_regime s.pos_regime) || (s.qty_v11 ≤? of_ℕ 0)) (λ _. q)
        λ _. record {
          wins_v11 =
              tallied-wins pnl (earned cfg.risk_capital_usdt (month_key t) pnl s.tally_v11)
                q.wins_v11;
          cooldown_v11_bound = q.cooldown_v11_bound;
          entries_v11 = q.entries_v11;
        }

  hold_bull-IsSound :
      (is_v13 : Bool) (cfg : Config F) (price : F) (t : ℕ) (day h4 : List (Ohlc F)) (s : StateV11 F)
      → HasPeriods cfg
      → IsSoundV11 cfg s
      → Returns (IsSoundV11 cfg) (hold_bull is_v13 cfg price t day h4 s)
  unfolding hold_bull
  hold_bull-IsSound is_v13 cfg price t day h4 s p q =
      Returns-bind (last_range-Total h4 cfg.atr_period p.range_period) λ atr _.
        Returns-bind (signal_strength-Total long cfg day h4 p) λ strength _.
          let s' = record s {
            trail_price = not_below (price ⊖ atr ⊗ cfg.trail_atr_multiplier) s.trail_price;
          } in
          let q' = same_counts cfg s s' refl refl refl q in
          value (
            if_rule (IsSoundV11 cfg)
              (exits_bull is_v13 cfg s.daily.confirm_v11.current price strength s')
              (λ _. close_v11-IsSound cfg price t s' q') λ _. q')

  hold_bear-IsSound :
      (cfg : Config F) (price : F) (t : ℕ) (h4 : List (Ohlc F)) (s : StateV11 F)
      → HasPeriods cfg
      → IsSoundV11 cfg s
      → Returns (IsSoundV11 cfg) (hold_bear cfg price t h4 s)
  unfolding hold_bear
  hold_bear-IsSound cfg price t h4 s p q =
      Returns-bind (last_range-Total h4 cfg.atr_period p.range_period) λ atr _.
        let s' = record s {
          trail_price = tighter short s.trail_price (price ⊕ atr ⊗ cfg.trail_atr_multiplier);
        } in
        let q' = same_counts cfg s s' refl refl refl q in
        value (
          if_rule (IsSoundV11 cfg) (exits_bear s.daily.confirm_v11.current price s')
            (λ _. close_v11-IsSound cfg price t s' q') λ _. q')

  hold_range-IsSound :
      (cfg : Config F) (price : F) (t : ℕ) (h4 : List (Ohlc F)) (s : StateV11 F)
      → HasPeriods cfg
      → IsSoundV11 cfg s
      → Returns (IsSoundV11 cfg) (hold_range cfg price t h4 s)
  unfolding hold_range
  hold_range-IsSound cfg price t h4 s p q =
      let s' =
        if regime_eq s.daily.confirm_v11.current regime_range then s else close_v11 cfg price t s in
      let q' : IsSoundV11 cfg s' =
        if_rule (IsSoundV11 cfg) (regime_eq s.daily.confirm_v11.current regime_range) (λ _. q)
          λ _. close_v11-IsSound cfg price t s q in
      Returns-if (of_ℕ 0 <? cfg.range_exit_ema_buffer_atr)
        (λ _.
          Returns-bind (last_ema-Total (closes_of h4) cfg.ema_pullback p.pullback_period) λ fast _.
            Returns-bind (last_range-Total h4 cfg.atr_period p.range_period) λ atr _. value (
              if_rule (IsSoundV11 cfg)
                ((of_ℕ 0 <? fast)
                  && (of_ℕ 0 <? atr)
                  && (price <? fast ⊖ atr ⊗ cfg.range_exit_ema_buffer_atr))
                (λ _. close_v11-IsSound cfg price t s' q') λ _. q'))
        λ _. value q'

  pub hold_v11-IsSound :
      (r : Option MarketRegime) (is_v13 : Bool) (cfg : Config F) (price : F) (t : ℕ)
      (day h4 : List (Ohlc F)) (s : StateV11 F)
      → HasPeriods cfg
      → IsSoundV11 cfg s
      → Returns (IsSoundV11 cfg) (hold_v11 r is_v13 cfg price t day h4 s)
  hold_v11-IsSound none is_v13 cfg price t day h4 s p q = value q
  hold_v11-IsSound (some regime_bull) is_v13 cfg price t day h4 s p q =
      hold_bull-IsSound is_v13 cfg price t day h4 s p q
  hold_v11-IsSound (some regime_bear) is_v13 cfg price t day h4 s p q =
      hold_bear-IsSound cfg price t h4 s p q
  hold_v11-IsSound (some regime_range) is_v13 cfg price t day h4 s p q =
      hold_range-IsSound cfg price t h4 s p q

  new_day-Total :
      (cfg : Config F) (cand : MarketRegime) (day h4 : List (Ohlc F)) (d : DailyTrack)
      → HasPeriods cfg
      → Total (new_day cfg cand day h4 d)
  unfolding new_day
  new_day-Total cfg cand day h4 d p =
      Returns-if (regime_eq cand d.confirm_v11.current) (λ _. value tt)
        λ _. Returns-bind (by_regime cand) λ _ _. value tt
    where
      by_regime : (r : MarketRegime) → Total (regime_switch_strength cfg r day h4)
      by_regime regime_bull = signal_strength-Total long cfg day h4 p
      by_regime regime_bear = signal_strength-Total short cfg day h4 p
      by_regime regime_range = range_switch_strength-Total cfg day p

  pub look_at_day-IsSound :
      (cfg : Config F) (days : List (KlineRecord F)) (t : ℕ) (day h4 : List (Ohlc F))
      (s : StateV11 F)
      → HasPeriods cfg
      → 0 < length days
      → IsSoundV11 cfg s
      → Returns (IsSoundV11 cfg) (look_at_day cfg days t day h4 s)
  unfolding look_at_day
  look_at_day-IsSound cfg days t day h4 s p n q =
      Returns-bind (index-Total days _ (omega arith)) λ last _.
        let key = day_key last.open_time in
        Returns-if (key == s.daily.last_day) (λ _. value q)
          λ _.
            Returns-bind
              (new_day-Total cfg (detect_v10_regime days t) day h4
                (record s.daily {
                  last_day = key;
                  days_since_switch = s.daily.days_since_switch + 1;
                })
                p)
              λ d _. value (same_counts cfg s (record s { daily = d }) refl refl refl q)
