-- ===== src/SpotBtc/Strategy/Runs.antt =====
-- strategies/spot_btc_conservative_v1/strategy.go: Run and its two branches.
use cryptotips.Base.Texts.{same_text}
use cryptotips.Indicator.Series.{last_or}
use cryptotips.SpotBtc.Position.{build_position}
use cryptotips.Models.Klines.{get_klines}
use cryptotips.Models.Trades.{
  latest_loss_streak, get_open_trades_by_strategy, sum_closed_pnl_by_range,
}
use cryptotips.SpotBtc.Signal.Rules.{evaluate_signal}
use cryptotips.SpotBtc.Strategy.{
  with_trail, aged, flat, after_tp1, after_tp2, week_start, day_ns, entered, tp1_qty, tp2_qty,
  day_start, exits_by_timeout, hits_tp1, hits_tp2, next_trail, recovered, risk_state,
}
use Prim.Native.String.{String}
use cryptotips.SpotBtc.Executor.{close_all, open_trade, partial_close}
use cryptotips.Base.{◌*◌, ◌||◌, not, ◌&&◌, ◌+◌, ltb, map, List, if◌then◌else◌, ℕ}
use cryptotips.SpotBtc.Config.{Config}
use cryptotips.SpotBtc.State.{or_zero, StrategyState, Services}
use cryptotips.SpotBtc.Signal.{
  trailing_stop, closes_of, max_hold_timeout, tp1_1r, tp2_2r, SignalResult, Ohlc,
}
use cryptotips.Float.{◌⊗◌, ◌⊖◌, of_ℕ, ◌≤?◌, Float}
use cryptotips.Models.{spot, Database, KlineRecord}
use cryptotips.Base.Act.{only_paper_mode, reads, fail, give, lift_run, Act, ◌>>=◌}

abbrev pub ohlc_of : {F : Type 0} → KlineRecord F → Ohlc F
ohlc_of k = record { close = k.close; high = k.high; low = k.low; volume = k.volume }

module _ {F : Type 0} ⦃fl : Float F⦄ (db : Database F) (sv : Services F db) (cfg : Config F)
    (now : ℕ) where
  abbrev pub load : Act db.State (StrategyState F)
  load = reads sv.load_state >>= λ stored. give (or_zero stored)

  abbrev pub save : StrategyState F → Act db.State Unit
  save st s = sv.save_state s (record st { updated_at = now })

  unfoldable pub recover_position_state : StrategyState F → Act db.State (StrategyState F)
  unfolding recovered
  recover_position_state st =
      get_open_trades_by_strategy db cfg.strategy_id cfg.symbol spot >>= λ trades.
      give (recovered trades st)

  unfoldable pub refresh_risk_state : StrategyState F → Act db.State (StrategyState F)
  unfolding risk_state
  refresh_risk_state st =
      sum_closed_pnl_by_range db cfg.strategy_id (day_start now) (day_start now + day_ns)
      >>= λ daily.
          sum_closed_pnl_by_range db cfg.strategy_id (week_start now) (week_start now + 7 * day_ns)
          >>= λ weekly. latest_loss_streak db cfg.strategy_id 50 >>= λ streak.
              give (risk_state cfg now daily weekly streak st)

  -- The end of the branch without a position, on a signal.
  unfoldable pub act_on : StrategyState F → SignalResult F → Act db.State Unit
  unfolding open_trade build_position
  act_on st sig =
      let plan = build_position cfg sig.entry_price sig.stop_loss in
      if not sig.should_enter
      then give tt
      else if plan.qty ≤? of_ℕ 0
      then give tt
      else open_trade db sv cfg sig.entry_price sig.stop_loss plan.qty sig.reason
        >>= (λ _. save (entered now sig plan st))

  unfoldable pub enter : List (Ohlc F) → List (Ohlc F) → StrategyState F → Act db.State Unit
  unfolding evaluate_signal act_on
  enter day h4 st =
      if ltb now st.pause_until
      then save st
      else lift_run (evaluate_signal cfg day h4) >>= act_on st

  unfoldable pub take_profit_1 : F → StrategyState F → Act db.State (StrategyState F)
  unfolding partial_close
  take_profit_1 price st =
      if hits_tp1 price st
      then partial_close db sv cfg (tp1_qty st) price tp1_1r >>= (λ _. give (after_tp1 st))
      else give st

  unfoldable pub take_profit_2 : F → StrategyState F → Act db.State (StrategyState F)
  unfolding partial_close
  take_profit_2 price st =
      if hits_tp2 price st
      then partial_close db sv cfg (tp2_qty st) price tp2_2r >>= (λ _. give (after_tp2 st))
      else give st

  -- The end of the branch with a position: the state has its new stop.
  unfoldable pub stop_or_keep : F → StrategyState F → Act db.State Unit
  unfolding close_all
  stop_or_keep price st =
      let by_stop = price ≤? st.trail_stop in
      let reason =
        if exits_by_timeout cfg st && not by_stop then max_hold_timeout else trailing_stop in
      if by_stop || exits_by_timeout cfg st
      then close_all db sv cfg price ((price ⊖ st.entry_price) ⊗ st.qty_remain) reason
        >>= (λ _. save (flat st))
      else save st

  -- The branch with a position, up to the decision to exit.
  unfoldable pub advance_stop : List (Ohlc F) → F → StrategyState F → Act db.State (StrategyState F)
  unfolding take_profit_1 take_profit_2 next_trail
  advance_stop h4 price st = take_profit_1 price (aged st) >>= take_profit_2 price >>= λ st2.
      lift_run (next_trail cfg h4 price st2) >>= λ trail. give (with_trail trail st2)

  unfoldable pub hold : List (Ohlc F) → StrategyState F → Act db.State Unit
  unfolding advance_stop stop_or_keep
  hold h4 st =
      let price = last_or (of_ℕ 0) (closes_of h4) in advance_stop h4 price st >>= stop_or_keep price

  unfoldable pub run_paper : Act db.State Unit
  unfolding recover_position_state refresh_risk_state enter hold
  run_paper = get_klines db cfg.symbol "1d" 0 0 >>= λ day.
      get_klines db cfg.symbol "4h" 0 0 >>= λ h4.
      load >>= recover_position_state >>= refresh_risk_state >>= λ st.
      if st.has_position
      then hold (map ohlc_of h4) st
      else enter (map ohlc_of day) (map ohlc_of h4) st

  unfoldable pub run : String → Act db.State Unit
  unfolding run_paper
  run mode = if same_text mode "paper" then run_paper else fail only_paper_mode
