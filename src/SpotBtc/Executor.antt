-- ===== src/SpotBtc/Executor.antt =====
-- strategies/spot_btc_conservative_v1/executor.go: trades on paper.
use cryptotips.Models.Trades.{close_open_trades_by_strategy}
use cryptotips.SpotBtc.Signal.{Reason}
use Prim.Native.String.{String}
use cryptotips.SpotBtc.Config.{Config}
use cryptotips.SpotBtc.State.{Services}
use cryptotips.Models.{closed, opened, spot, Status, buy, sell, Side, TradeRecord, Database}
use cryptotips.Float.{of_ℕ, Float}
use cryptotips.Base.Act.{Act, ◌>>=◌}

module _ {F : Type 0} ⦃fl : Float F⦄ (db : Database F) (sv : Services F db) (cfg : Config F) where
  abbrev pub log_decision : String → Reason F → Act db.State Unit
  log_decision decision reason s = sv.save_log s (record {
    log_md5 = sv.md5_text s cfg.strategy_id cfg.symbol decision;
    log_strategy_id = cfg.strategy_id;
    log_symbol = cfg.symbol;
    decision = decision;
    log_reason = reason;
  })

  -- The record of an order; the fields that are not set are zero.
  abbrev pub order : db.State → String → Side → Status → TradeRecord F
  order s tag side status = record {
    id = 0;
    md5 = sv.md5_text s cfg.strategy_id cfg.symbol tag;
    strategy_id = cfg.strategy_id;
    platform = "paper";
    trade_type = spot;
    side = side;
    symbol = cfg.symbol;
    price = of_ℕ 0;
    qty = of_ℕ 0;
    stop_loss = of_ℕ 0;
    take_profit = of_ℕ 0;
    status = status;
    pnl = of_ℕ 0;
    created_at = 0;
    updated_at = 0;
  }

  abbrev pub save_order : (db.State → TradeRecord F) → Act db.State Unit
  save_order r s = db.save_trade s (r s)

  unfoldable pub open_trade : F → F → F → Reason F → Act db.State Unit
  open_trade entry stop qty reason =
      save_order
        (λ s. record (order s "open" buy opened) { price = entry; qty = qty; stop_loss = stop })
      >>= λ _. log_decision "BUY" reason

  unfoldable pub partial_close : F → F → Reason F → Act db.State Unit
  partial_close qty price reason =
      save_order (λ s. record (order s "partial" sell closed) { price = price; qty = qty }) >>= λ _.
      log_decision "PARTIAL_SELL" reason

  unfoldable pub close_all : F → F → Reason F → Act db.State Unit
  close_all price pnl reason =
      close_open_trades_by_strategy db cfg.strategy_id cfg.symbol pnl >>= λ _.
      save_order (λ s. record (order s "close" sell closed) { price = price; pnl = pnl }) >>= λ _.
      log_decision "CLOSE_ALL" reason
