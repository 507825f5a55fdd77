-- ===== src/SpotBtc/Strategy/OneOpen.antt =====
-- A run never has two open trades.
use cryptotips.SpotBtc.Strategy.Rows.{AtMostOne, select-close, select-snoc, select-snoc_other}
use cryptotips.Base.Texts.{same_text}
use cryptotips.SpotBtc.Strategy.Reads.{load-Ends, klines-Ends, streak-Ends, sum-Ends}
use cryptotips.Indicator.Series.{last_or}
use cryptotips.SpotBtc.Strategy.{
  aged, entered, flat, next_trail, exits_by_timeout, tp1_qty, tp2_qty, hits_tp1, hits_tp2,
  recovered,
}
use cryptotips.SpotBtc.Signal.Rules.{evaluate_signal}
use cryptotips.SpotBtc.Position.{build_position}
use cryptotips.SpotBtc.Executor.{log_decision, close_all, open_trade, partial_close}
use cryptotips.SpotBtc.Signal.{tp1_1r, tp2_2r, closes_of, Ohlc, SignalResult, Reason}
use cryptotips.SpotBtc.Strategy.Runs.{
  advance_stop, ohlc_of, run, run_paper, hold, recover_position_state, refresh_risk_state,
  stop_or_keep, take_profit_1, take_profit_2, save, act_on, enter,
}
use cryptotips.SpotBtc.Config.{Config}
use cryptotips.SpotBtc.State.{StrategyState, IsSeparate, Services}
use cryptotips.Float.{of_ℕ, ◌≤?◌, Float}
use cryptotips.Models.Trades.{close_open_trades_by_strategy, close_with, is_open_of, is_open_trade}
use cryptotips.Base.{
  map, sym, ◌||◌, ltb, not, inr, refl, inl, ℕ, [], arith, ◌∷◌, false, ◌≡◌, List, Bool,
}
use cryptotips.Models.{stamped, closed, spot, IsLawful, Database, select, TradeRecord}
use Prim.Native.String.{String}
use cryptotips.Base.Act.{
  broken, Ends-world, Ends-reads, Ends-lift_run, ended, Ends-if, Ends-after, Ends-any, Result, Ends,
}

module _ {F : Type 0} ⦃fl : Float F⦄ where
  module _ (db : Database F) (sv : Services F db) (laws : IsLawful db) (apart : IsSeparate laws sv)
      (cfg : Config F) (now : ℕ) where
    abbrev pub mine : TradeRecord F → Bool
    mine = is_open_trade cfg.strategy_id cfg.symbol spot

    abbrev pub OneOpen : db.State → Type 0
    OneOpen s = AtMostOne mine (laws.rows s)

    abbrev pub NoneOpen : db.State → Type 0
    NoneOpen s = select mine (laws.rows s) ≡ []

    abbrev Keeps : {A : Type 0} → Result A × db.State → Type 0
    Keeps = Ends (λ _. OneOpen) OneOpen

    save-OneOpen :
        (st : StrategyState F) (s : db.State) → OneOpen s → Keeps (save db sv cfg now st s)
    save-OneOpen st s o =
        Ends-any OneOpen (save db sv cfg now st s)
          (rw (apart.save_state-rows s (record st { updated_at = now })) o)

    log-OneOpen :
        (d : String) (r : Reason F) (s : db.State)
        → OneOpen s
        → Keeps (log_decision db sv cfg d r s)
    log-OneOpen d r s o =
        Ends-any OneOpen (log_decision db sv cfg d r s) (rw (apart.save_log-rows s _) o)

    save_closed-OneOpen :
        (r : TradeRecord F) (s : db.State)
        → r.status ≡ closed
        → OneOpen s
        → Keeps (db.save_trade s r)
    save_closed-OneOpen r s c o = Ends-any OneOpen (db.save_trade s r) (elim (laws.save-rows s r) [
      | inl same ↦ rw same o
      | inr (t, more) ↦
          rw more (omega (arith, select-snoc_other mine (laws.rows s) (stamped t r) (ground arith)))
    ])

    save_open-OneOpen : (r : TradeRecord F) (s : db.State) → NoneOpen s → Keeps (db.save_trade s r)
    save_open-OneOpen r s n = Ends-any OneOpen (db.save_trade s r) (elim (laws.save-rows s r) [
      | inl same ↦ rw (same, n) (omega arith)
      | inr (t, more) ↦ rw more (ground (arith, select-snoc mine (laws.rows s) (stamped t r)))
    ])

    close-OneOpen :
        (pnl : F) (s : db.State)
        → OneOpen s
        → Keeps (close_open_trades_by_strategy db cfg.strategy_id cfg.symbol pnl s)
    close-OneOpen pnl s o =
        let p = is_open_of cfg.strategy_id cfg.symbol in
        Ends-any OneOpen (db.update_trades s p (close_with pnl))
          (elim (laws.update-rows s p (close_with pnl)) [
            | inl same ↦ rw same o
            | inr new ↦
                rw new
                  (omega (arith, select-close cfg.strategy_id cfg.symbol spot pnl (laws.rows s)))
          ])

    open_trade-OneOpen :
        (entry stop qty : F) (r : Reason F) (s : db.State)
        → NoneOpen s
        → Keeps (open_trade db sv cfg entry stop qty r s)
    unfolding open_trade
    open_trade-OneOpen entry stop qty r s n =
        Ends-after (save_open-OneOpen _ s n) λ _ s' o. log-OneOpen "BUY" r s' o

    partial_close-OneOpen :
        (qty price : F) (r : Reason F) (s : db.State)
        → OneOpen s
        → Keeps (partial_close db sv cfg qty price r s)
    unfolding partial_close
    partial_close-OneOpen qty price r s o =
        Ends-after (save_closed-OneOpen _ s refl o) λ _ s' o'. log-OneOpen "PARTIAL_SELL" r s' o'

    close_all-OneOpen :
        (price pnl : F) (r : Reason F) (s : db.State)
        → OneOpen s
        → Keeps (close_all db sv cfg price pnl r s)
    unfolding close_all
    close_all-OneOpen price pnl r s o = Ends-after (close-OneOpen pnl s o) λ _ s1 o1.
        Ends-after (save_closed-OneOpen _ s1 refl o1) λ _ s2 o2. log-OneOpen "CLOSE_ALL" r s2 o2

    act_on-OneOpen :
        (st : StrategyState F) (sig : SignalResult F) (s : db.State)
        → NoneOpen s
        → Keeps (act_on db sv cfg now st sig s)
    unfolding act_on
    act_on-OneOpen st sig s n =
        let some_room : OneOpen s = rw n (omega arith) in
        let plan = build_position cfg sig.entry_price sig.stop_loss in
        Ends-if _ _ s (not sig.should_enter) (λ _. ended some_room)
          λ _.
            Ends-if _ _ s (plan.qty ≤? of_ℕ 0) (λ _. ended some_room)
              λ _.
                Ends-after (open_trade-OneOpen _ _ _ _ s n)
                  λ _ s' o. save-OneOpen (entered now sig plan st) s' o

    enter-OneOpen :
        (day h4 : List (Ohlc F)) (st : StrategyState F) (s : db.State)
        → NoneOpen s
        → Keeps (enter db sv cfg now day h4 st s)
    unfolding enter
    enter-OneOpen day h4 st s n =
        let some_room : OneOpen s = rw n (omega arith) in
        Ends-if _ _ s (ltb now st.pause_until) (λ _. save-OneOpen st s some_room)
          λ _.
            Ends-after
              (Ends-lift_run {Q = λ _. NoneOpen} s (evaluate_signal cfg day h4) (λ _. n) some_room)
              λ sig s' n'. act_on-OneOpen st sig s' n'

    take_profit_1-OneOpen :
        (price : F) (st : StrategyState F) (s : db.State)
        → OneOpen s
        → Keeps (take_profit_1 db sv cfg now price st s)
    unfolding take_profit_1
    take_profit_1-OneOpen price st s o =
        Ends-if _ _ s (hits_tp1 price st)
          (λ _.
            Ends-after (partial_close-OneOpen (tp1_qty st) price tp1_1r s o) λ _ s' o'. ended o')
          λ _. ended o

    take_profit_2-OneOpen :
        (price : F) (st : StrategyState F) (s : db.State)
        → OneOpen s
        → Keeps (take_profit_2 db sv cfg now price st s)
    unfolding take_profit_2
    take_profit_2-OneOpen price st s o =
        Ends-if _ _ s (hits_tp2 price st)
          (λ _.
            Ends-after (partial_close-OneOpen (tp2_qty st) price tp2_2r s o) λ _ s' o'. ended o')
          λ _. ended o

    stop_or_keep-OneOpen :
        (price : F) (st : StrategyState F) (s : db.State)
        → OneOpen s
        → Keeps (stop_or_keep db sv cfg now price st s)
    unfolding stop_or_keep
    stop_or_keep-OneOpen price st s o =
        Ends-if _ _ s ((price ≤? st.trail_stop) || exits_by_timeout cfg st)
          (λ _.
            Ends-after (close_all-OneOpen price _ _ s o) λ _ s' o'. save-OneOpen (flat st) s' o')
          λ _. save-OneOpen st s o

    advance_stop-OneOpen :
        (h4 : List (Ohlc F)) (price : F) (st : StrategyState F) (s : db.State)
        → OneOpen s
        → Keeps (advance_stop db sv cfg now h4 price st s)
    unfolding advance_stop
    advance_stop-OneOpen h4 price st s o =
        Ends-after
          (Ends-after (take_profit_1-OneOpen price (aged st) s o)
            λ st1 s1 o1. take_profit_2-OneOpen price st1 s1 o1)
          λ st2 s2 o2.
            Ends-after
              (Ends-lift_run {Q = λ _. OneOpen} s2 (next_trail cfg h4 price st2) (λ _. o2) o2)
              λ trail s3 o3. ended o3

    hold-OneOpen :
        (h4 : List (Ohlc F)) (st : StrategyState F) (s : db.State)
        → OneOpen s
        → Keeps (hold db sv cfg now h4 st s)
    unfolding hold
    hold-OneOpen h4 st s o =
        let price = last_or (of_ℕ 0) (closes_of h4) in
        Ends-after (advance_stop-OneOpen h4 price st s o)
          λ st' s' o'. stop_or_keep-OneOpen price st' s' o'

    -- Without a position there is no open trade.
    Agrees : StrategyState F → db.State → Type 0
    Agrees st s = OneOpen s × (st.has_position ≡ false → NoneOpen s)

    recovered-Agrees :
        (trades : List (TradeRecord F)) (st : StrategyState F) (s : db.State)
        → trades ≡ select mine (laws.rows s)
        → OneOpen s
        → Agrees (recovered trades st) s
    unfolding recovered Agrees
    recovered-Agrees [] st s e o = (o, λ _. sym e)
    recovered-Agrees (t ∷ ts) st s e o = (o, λ none. ground arith)

    recover-Agrees :
        (st : StrategyState F) (s : db.State)
        → OneOpen s
        → Ends Agrees OneOpen (recover_position_state db sv cfg now st s)
    unfolding recover_position_state
    recover-Agrees st s o =
        Ends-after
          (Ends-reads {Q = λ trades s. (trades ≡ select mine (laws.rows s)) × OneOpen s}
            (db.find_trades s mine) (λ trades e. (laws.find-rows s mine trades e, o)) o)
          λ trades s' (e, o'). ended (recovered-Agrees trades st s' e o')

    refresh-Agrees :
        (st : StrategyState F) (s : db.State)
        → Agrees st s
        → Ends Agrees OneOpen (refresh_risk_state db sv cfg now st s)
    unfolding refresh_risk_state Agrees
    refresh-Agrees st s a =
        Ends-after (sum-Ends db {P = Agrees st} cfg.strategy_id _ _ s a a.0) λ daily s1 a1.
          Ends-after (sum-Ends db {P = Agrees st} cfg.strategy_id _ _ s1 a1 a1.0) λ weekly s2 a2.
            Ends-after (streak-Ends db {P = Agrees st} cfg.strategy_id 50 s2 a2 a2.0)
              λ streak s3 a3. ended a3

    run_paper-OneOpen : (s : db.State) → OneOpen s → Keeps (run_paper db sv cfg now s)
    unfolding run_paper Agrees
    run_paper-OneOpen s o =
        Ends-after (klines-Ends db {P = OneOpen} cfg.symbol "1d" 0 0 s o o) λ day s1 o1.
          Ends-after (klines-Ends db {P = OneOpen} cfg.symbol "4h" 0 0 s1 o1 o1) λ h4 s2 o2.
            Ends-after
              (Ends-after
                (Ends-after (load-Ends db {P = OneOpen} sv cfg now s2 o2 o2)
                  λ st s3 o3. recover-Agrees st s3 o3)
                λ st s4 a. refresh-Agrees st s4 a)
              λ st s5 (o5, n5).
                Ends-if _ _ s5 st.has_position (λ _. hold-OneOpen (map ohlc_of h4) st s5 o5)
                  λ none. enter-OneOpen (map ohlc_of day) (map ohlc_of h4) st s5 (n5 none)

    -- If the table has at most one open spot trade of the strategy and its symbol, then so it has after
    -- a run, at whatever statement the run ends, with a value, an error or a panic, and also where a
    -- statement that reported an error was carried out.
    pub run-OneOpen :
        (mode : String) (s : db.State) → OneOpen s → OneOpen (run db sv cfg now mode s).1
    unfolding run
    run-OneOpen mode s o =
        Ends-world OneOpen _
          (Ends-if _ _ s (same_text mode "paper") (λ _. run_paper-OneOpen s o) λ _. broken o)
