-- ===== src/SpotBtc/Replay/Answers/V6.antt =====
-- RunV6Replay does not panic.
use cryptotips.SpotBtc.Replay.Total.Steps.{step_position-Total, switch_take_profit-Total}
use cryptotips.SpotBtc.Replay.Steps.{step_position}
use cryptotips.SpotBtc.Replay.V7.{keys_by_year}
use cryptotips.SpotBtc.Replay.Ledger.{risk_blocked, pause_less}
use cryptotips.SpotBtc.Replay.Times.{month_key}
use cryptotips.SpotBtc.Replay.Total.{detect_regime-Total}
use cryptotips.SpotBtc.Replay.Book.{is_flat, over_ledger, position, bars_to}
use cryptotips.SpotBtc.Replay.Answers.Loops.{
  step_both-Total, enter_trend-Total, same_periods, each_bar-Total,
}
use cryptotips.SpotBtc.Replay.Points.{awaited}
use cryptotips.Base.Outcome.{value, Returns-if, Returns-bind}
use cryptotips.SpotBtc.Replay.Candles.{days_until}
use cryptotips.SpotBtc.Signal.{Ohlc}
use cryptotips.SpotBtc.Signal.Safe.{Total, HasPeriods}
use cryptotips.Models.{KlineRecord}
use cryptotips.Base.{not, ◌&&◌, arith, refl, leb, ◌+◌, length, ltb, ◌<◌, ℕ, List}
use cryptotips.SpotBtc.Config.{Config}
use cryptotips.SpotBtc.Replay.V6.{
  state_v6, defaults_v6, at_switch, sell_at_switch, StateV6, trade_v6, bar_v6, route_v6,
  run_v6_replay,
}
use cryptotips.Float.{Float}
use cryptotips.SpotBtc.Replay.{
  regime_eq, short, long, Direction, MarketRegime, regime_bull, regime_bear, regime_range,
}

module _ {F : Type 0} ⦃fl : Float F⦄ where
  pub sell_at_switch-Total :
      (d : Direction) (cfg : Config F) (month : ℕ) (price : F) (h4 : List (Ohlc F)) (s : StateV6 F)
      → HasPeriods cfg
      → Total (sell_at_switch d cfg month price h4 s)
  sell_at_switch-Total d cfg month price h4 s p =
      Returns-if (position d s.book_v6).active
        (λ _.
          Returns-bind (switch_take_profit-Total d cfg (position d s.book_v6) price h4 p)
            λ _ _. value tt)
        λ _. value tt

  pub at_switch-Total :
      (prev cur : MarketRegime) (cfg : Config F) (month : ℕ) (price : F) (h4 : List (Ohlc F))
      (s : StateV6 F)
      → HasPeriods cfg
      → Total (at_switch prev cur cfg month price h4 s)
  at_switch-Total regime_bull regime_range cfg month price h4 s p =
      sell_at_switch-Total long cfg month price h4 s p
  at_switch-Total regime_bear regime_range cfg month price h4 s p =
      sell_at_switch-Total short cfg month price h4 s p
  at_switch-Total regime_range regime_bull cfg month price h4 s p = value tt
  at_switch-Total regime_range regime_range cfg month price h4 s p = value tt
  at_switch-Total regime_range regime_bear cfg month price h4 s p = value tt
  at_switch-Total regime_bull regime_bull cfg month price h4 s p = value tt
  at_switch-Total regime_bull regime_bear cfg month price h4 s p = value tt
  at_switch-Total regime_bear regime_bull cfg month price h4 s p = value tt
  at_switch-Total regime_bear regime_bear cfg month price h4 s p = value tt

  pub route_v6-Total :
      (cfg : Config F) (cand : MarketRegime) (month : ℕ) (price : F) (h4 : List (Ohlc F))
      (s : StateV6 F)
      → HasPeriods cfg
      → Total (route_v6 cfg cand month price h4 s)
  unfolding route_v6
  route_v6-Total cfg cand month price h4 s p =
      let c = awaited cand s.confirm_v6 in
      Returns-if (regime_eq cand s.confirm_v6.current) (λ _. value tt)
        λ _.
          Returns-if (leb cfg.regime_min_confirm_bars c.pending_count)
            (λ _. at_switch-Total s.confirm_v6.current cand cfg month price h4 _ p) λ _. value tt

  pub bar_v6-Total :
      (cfg : Config F) (day_data seen : List (KlineRecord F)) (k : KlineRecord F) (s : StateV6 F)
      → HasPeriods cfg
      → 0 < cfg.regime_vol_period
      → Total (bar_v6 cfg day_data seen k s)
  unfolding bar_v6 trade_v6
  bar_v6-Total cfg day_data seen k s p v =
      let t = k.open_time in
      let day = days_until t day_data in
      let h4 = bars_to seen k in
      Returns-if (ltb (length day) (cfg.ema_filter_period + cfg.ema200_slope_lookback + 2))
        (λ _. value tt)
        λ e. Returns-bind (detect_regime-Total cfg day p v (ground arith)) λ cand _.
          Returns-bind (route_v6-Total cfg cand (month_key t) k.close h4 s p) λ s' _.
            let b = over_ledger pause_less s'.book_v6 in
            let keys = keys_by_year t in
            Returns-bind
              (Returns-bind
                (Returns-if {Good = λ _. Unit {0}}
                  (is_flat b && not (risk_blocked cfg keys b.ledger))
                  (λ _. enter_trend-Total cfg s'.confirm_v6.current day h4 b p) λ _. value tt)
                λ b' _.
                  step_both-Total cfg.risk_capital_usdt keys k.close
                    (λ d pos. step_position d cfg pos k.close h4) b'
                    λ d pos. step_position-Total d cfg pos k.close h4 p)
              λ _ _. value tt

  pub run_v6_replay-Total :
      (in_order : List F → List F) (cfg : Config F) (day_data h4_data : List (KlineRecord F))
      (start : ℕ)
      → HasPeriods cfg
      → 0 < cfg.regime_vol_period
      → Total (run_v6_replay in_order cfg day_data h4_data start)
  unfolding run_v6_replay
  run_v6_replay-Total in_order cfg day_data h4_data start p v =
      Returns-bind
        (each_bar-Total (λ t. ltb t start) (bar_v6 (defaults_v6 cfg) day_data)
          (λ seen k s.
            bar_v6-Total (defaults_v6 cfg) day_data seen k s
              (same_periods cfg (defaults_v6 cfg) p refl refl refl refl) v)
          state_v6 h4_data)
        λ _ _. value tt
