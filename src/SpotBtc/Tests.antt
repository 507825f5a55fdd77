-- ===== src/SpotBtc/Tests.antt =====
-- Runs and examples, on a database in memory and fixed-point numbers.
use cryptotips.SpotBtc.Strategy.Calendar.{week_start-Contains}
use cryptotips.SpotBtc.Strategy.{week_start, day_ns, day_start}
use cryptotips.SpotBtc.Strategy.Looped.{run_loop-OneOpen, spot_strategy}
use cryptotips.Engine.Runner.{tick, run_loop, cancelled}
use cryptotips.SpotBtc.Strategy.Closing.{close_all-NoOpenTrade}
use cryptotips.SpotBtc.Strategy.Gate.{IsGated, run-Untraded}
use cryptotips.SpotBtc.Executor.{close_all}
use cryptotips.Models.Trades.{is_open_trade}
use cryptotips.SpotBtc.Signal.Stops.{calc_stop-IsLowest, last_five, UnderLows}
use cryptotips.Float.{dec, ◌⊗◌, ◌⊕◌, ◌⊖◌, ◌≼◌, of_ℕ}
use cryptotips.SpotBtc.Strategy.OneOpen.{run-OneOpen, OneOpen}
use cryptotips.SpotBtc.Signal.{Reason, calc_stop, trailing_stop, Ohlc}
use cryptotips.SpotBtc.Strategy.Runs.{advance_stop, run}
use cryptotips.Base.Act.{ended, Result, done, Ends}
use cryptotips.Base.{
  Bool, ◌<◌, ◌≤◌, ◌%◌, ◌*◌, sym, ap, arith, length, ◌++◌, ◌-◌, ◌≡◌, [], map, none, suc, take, true,
  ◌+◌, ◌∷◌, index, inr, refl, List, ℕ,
}
use cryptotips.SpotBtc.Config.{Config, v3_config}
use cryptotips.SpotBtc.State.{zero_state, IsSeparate, Services, StrategyState}
use cryptotips.Models.{
  StrategyLogRecord, update_where, Status, stamped, Side, opened, buy, closed, Stamp, select, sell,
  spot, Database, IsLawful, KlineRecord, TradeRecord,
}
use cryptotips.Base.Outcome.{Returns}
use cryptotips.SpotBtc.Strategy.Trailing.{advance_stop-Trailing, IsTrailing}
use cryptotips.Float.Fixed.{Fixed, fixed_float, Fixed-IsOrdered}

abbrev bar : ℕ → Ohlc Fixed
bar n = record { close = of_ℕ n; high = of_ℕ (n + 1); low = of_ℕ (n - 1); volume = of_ℕ 5 }

abbrev bars : List (Ohlc Fixed)
bars = bar 100 ∷ bar 104 ∷ bar 110 ∷ []

abbrev cfg : Config Fixed
cfg = v3_config

calc_stop-IsLowest_example :
    Returns
      (λ stop.
        UnderLows stop (last_five bars)
        × (stop ≼ of_ℕ 106 ⊗ dec 98 2)
        × (stop ≼ of_ℕ 110 ⊖ of_ℕ 2 ⊗ cfg.trail_atr_multiplier))
      (calc_stop cfg bars (of_ℕ 106) (of_ℕ 2))
unfolding v3_config index cryptotips.Base.Int.◌+ℤ◌ cryptotips.Base.Int.◌-ℤ◌
calc_stop-IsLowest_example =
    calc_stop-IsLowest Fixed-IsOrdered cfg bars (of_ℕ 106) (of_ℕ 2) (bar 110) refl refl
      (refl, (refl, (refl, tt))) refl refl

-- A table of trades, and one candle at 90 that every read of candles finds.
abbrev candle : KlineRecord Fixed
candle = record {
  symbol = "BTCUSDT";
  interval = "4h";
  open_time = 1;
  close_time = 2;
  open_price = of_ℕ 95;
  high = of_ℕ 96;
  low = of_ℕ 89;
  close = of_ℕ 90;
  volume = of_ℕ 5;
  quote_volume = of_ℕ 450;
}

abbrev total_pnl : List (TradeRecord Fixed) → Fixed
total_pnl [] = of_ℕ 0
total_pnl (r ∷ rs) = r.pnl ⊕ total_pnl rs

abbrev stamp_for : List (TradeRecord Fixed) → Stamp
stamp_for rs = record { new_id = suc (length rs); created = 1; updated = 1 }

abbrev memory_db : Database Fixed
memory_db = record {
  State = List (TradeRecord Fixed);
  find_trades = λ rs p. done (select p rs);
  latest_trades = λ rs p n. done (take n (select p rs));
  sum_pnl = λ rs p. done (total_pnl (select p rs));
  save_trade = λ rs r. (done tt, rs ++ stamped (stamp_for rs) r ∷ []);
  update_trades = λ rs p f. (done tt, update_where p f rs);
  find_klines = λ rs p. done (candle ∷ []);
}

value_of : {A : Type 0} → A → Result A → A
value_of d (done a) = a
value_of d _ = d

done-inj : {A : Type 0} {a b : A} → done a ≡ done b → b ≡ a
unfolding value_of
done-inj {A} {a} {b} e = ap (value_of b) (sym e)

memory_db-IsLawful : IsLawful memory_db
memory_db-IsLawful = record {
  rows = λ s. s;
  find-rows = λ s p rs e. done-inj e;
  save-rows = λ s r. inr (stamp_for s, refl);
  update-done = λ s p f e. refl;
  update-rows = λ s p f. inr refl;
}

abbrev services : Services Fixed memory_db
services = record {
  load_state = λ s. done none;
  save_state = λ s st. (done tt, s);
  save_log = λ s r. (done tt, s);
  md5_text = λ s strategy symbol tag. tag;
}

services-IsSeparate : IsSeparate memory_db-IsLawful services
services-IsSeparate = record { save_state-rows = λ s st. refl; save_log-rows = λ s r. refl }

-- No statement on this database fails.
updates_answer :
    (p : TradeRecord Fixed → Bool) (f : TradeRecord Fixed → TradeRecord Fixed) (s : memory_db.State)
    → Ends (λ _ _. Unit {0}) (λ _. ⊥) (memory_db.update_trades s p f)
updates_answer p f s = ended tt

trades_answer :
    (r : TradeRecord Fixed) (s : memory_db.State)
    → Ends (λ _ _. Unit {0}) (λ _. ⊥) (memory_db.save_trade s r)
trades_answer r s = ended tt

logs_answer :
    (r : StrategyLogRecord (Reason Fixed)) (s : memory_db.State)
    → Ends (λ _ _. Unit {0}) (λ _. ⊥) (services.save_log s r)
logs_answer r s = ended tt

abbrev held : TradeRecord Fixed
held = record {
  id = 1;
  md5 = "a";
  strategy_id = "spot_btc_conservative_v1";
  platform = "paper";
  trade_type = spot;
  side = buy;
  symbol = "BTCUSDT";
  price = of_ℕ 100;
  qty = of_ℕ 2;
  stop_loss = of_ℕ 95;
  take_profit = of_ℕ 0;
  status = opened;
  pnl = of_ℕ 0;
  created_at = 0;
  updated_at = 0;
}

abbrev loss : TradeRecord Fixed
loss = record held { side = sell; status = closed; pnl = of_ℕ 0 ⊖ of_ℕ 500 }

run-OneOpen_example :
    OneOpen memory_db services memory_db-IsLawful services-IsSeparate cfg 1000
      (run memory_db services cfg 1000 "paper" (held ∷ [])).1
unfolding v3_config memory_db-IsLawful
run-OneOpen_example =
    run-OneOpen memory_db services memory_db-IsLawful services-IsSeparate cfg 1000 "paper"
      (held ∷ []) (omega arith)

-- The candle is under the stop: the trade is closed, and the sale is written.
run-stopped :
    map {B = Side × Status}
      (λ r. (r.side, r.status))
      (run memory_db services cfg 1000 "paper" (held ∷ [])).1
    ≡ (buy, closed) ∷ (sell, closed) ∷ []
unfolding v3_config run cryptotips.Base.Int.◌+ℤ◌ cryptotips.Base.Int.◌-ℤ◌
run-stopped = refl

loss-IsGated :
    IsGated memory_db services memory_db-IsLawful services-IsSeparate cfg 1000 (loss ∷ [])
unfolding v3_config cryptotips.Base.Int.◌+ℤ◌ cryptotips.Base.Int.◌-ℤ◌
loss-IsGated daily weekly streak d w k = rw (done-inj d) refl

run-Untraded_example : (run memory_db services cfg 1000 "paper" (loss ∷ [])).1 ≡ loss ∷ []
unfolding v3_config memory_db-IsLawful
run-Untraded_example =
    run-Untraded memory_db services memory_db-IsLawful services-IsSeparate cfg 1000 "paper"
      (loss ∷ []) refl loss-IsGated

close_all-NoOpenTrade_example :
    Ends
      (λ _ s. select (is_open_trade cfg.strategy_id cfg.symbol spot) s ≡ [])
      (λ _. ⊥)
      (close_all memory_db services cfg (of_ℕ 90) (of_ℕ 0) trailing_stop (held ∷ loss ∷ []))
unfolding memory_db-IsLawful
close_all-NoOpenTrade_example =
    close_all-NoOpenTrade memory_db services memory_db-IsLawful services-IsSeparate cfg (λ _. ⊥)
      updates_answer trades_answer logs_answer (of_ℕ 90) (of_ℕ 0) trailing_stop (held ∷ loss ∷ [])

abbrev position : StrategyState Fixed
position = record zero_state {
  has_position = true;
  entry_price = of_ℕ 100;
  stop_loss = of_ℕ 95;
  qty_total = of_ℕ 2;
  qty_remain = of_ℕ 2;
  risk_per_unit = of_ℕ 5;
  trail_stop = of_ℕ 95;
}

position-IsTrailing : IsTrailing Fixed-IsOrdered position
unfolding cryptotips.Base.Int.◌+ℤ◌
position-IsTrailing = record {
  stop_positive = refl;
  stop_below = refl;
  targets = refl;
  trail_num = refl;
  trail_low = inr refl;
}

advance_stop-Trailing_example :
    Ends
      (λ st' _. IsTrailing Fixed-IsOrdered st' × (of_ℕ 95 ≼ st'.trail_stop))
      (λ _. ⊥)
      (advance_stop memory_db services cfg 1000 bars (of_ℕ 110) position (held ∷ []))
unfolding v3_config
advance_stop-Trailing_example =
    advance_stop-Trailing Fixed-IsOrdered memory_db services cfg 1000 (λ _. ⊥) trades_answer
      logs_answer bars (of_ℕ 110) position (held ∷ []) (omega arith) position-IsTrailing

run_loop-OneOpen_example :
    OneOpen memory_db services memory_db-IsLawful services-IsSeparate cfg 1000
      (run_loop
        (spot_strategy memory_db services memory_db-IsLawful services-IsSeparate cfg)
        "paper"
        1000
        (tick 2000 ∷ tick 3000 ∷ cancelled ∷ [])
        (held ∷ [])).1
unfolding v3_config memory_db-IsLawful
run_loop-OneOpen_example =
    run_loop-OneOpen memory_db services memory_db-IsLawful services-IsSeparate cfg "paper" 1000
      (tick 2000 ∷ tick 3000 ∷ cancelled ∷ []) (held ∷ []) (omega arith)

-- Wednesday, the third day of the calendar, at one in the morning.
abbrev wednesday : ℕ
wednesday = 2 * day_ns + 3600 * 1_000_000_000

week_start-Contains_example :
    (day_start wednesday % day_ns ≡ 0)
    × (day_start wednesday ≤ wednesday)
    × (wednesday < day_start wednesday + day_ns)
    × (week_start wednesday % (7 * day_ns) ≡ 0)
    × (week_start wednesday ≤ day_start wednesday)
    × (wednesday < week_start wednesday + 7 * day_ns)
week_start-Contains_example = week_start-Contains wednesday
