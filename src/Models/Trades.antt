-- ===== src/Models/Trades.antt =====
-- models/trades.go and models/trade_stats.go: the queries on the table of trades.
use cryptotips.Base.Texts.{same_text}
use cryptotips.Base.Act.{give, reads, Act, ◌>>=◌}
use Prim.Native.String.{String}
use cryptotips.Base.{[], suc, ltb, ◌==◌, if◌then◌else◌, leb, ◌&&◌, ◌∷◌, Bool, ℕ, List}
use cryptotips.Models.{
  is_closed, is_opened, is_sell, type_eq, TradeType, closed, Database, TradeRecord,
}
use cryptotips.Float.{of_ℕ, ◌<?◌, Float}

module _ {F : Type 0} ⦃fl : Float F⦄ where
  abbrev pub is_open_of : String → String → TradeRecord F → Bool
  is_open_of strategy symbol r =
      (same_text r.strategy_id strategy) && (same_text r.symbol symbol) && is_opened r.status

  abbrev pub is_open_trade : String → String → TradeType → TradeRecord F → Bool
  is_open_trade strategy symbol type r = is_open_of strategy symbol r && type_eq r.trade_type type

  abbrev pub is_closed_sale : String → TradeRecord F → Bool
  is_closed_sale strategy r =
      (same_text r.strategy_id strategy) && is_sell r.side && is_closed r.status

  abbrev pub close_with : F → TradeRecord F → TradeRecord F
  close_with pnl r = record r { status = closed; pnl = pnl }

  -- How many losses stand at the head of the rows, where a trade without gain or loss is passed over.
  abbrev pub streak_of : List (TradeRecord F) → ℕ
  streak_of [] = 0
  streak_of (r ∷ rs) =
      let streak = streak_of rs in
      if r.pnl <? of_ℕ 0 then suc streak else if of_ℕ 0 <? r.pnl then 0 else streak

  module _ (db : Database F) where
    abbrev pub get_open_trades_by_strategy :
        String → String → TradeType → Act db.State (List (TradeRecord F))
    get_open_trades_by_strategy strategy symbol type =
        reads λ s. db.find_trades s (is_open_trade strategy symbol type)

    abbrev pub close_open_trades_by_strategy : String → String → F → Act db.State Unit
    close_open_trades_by_strategy strategy symbol pnl s =
        db.update_trades s (is_open_of strategy symbol) (close_with pnl)

    abbrev pub close_open_trades : String → F → Act db.State Unit
    close_open_trades symbol pnl s =
        db.update_trades s (λ r. (same_text r.symbol symbol) && is_opened r.status) (close_with pnl)

    abbrev pub sum_closed_pnl_by_range : String → ℕ → ℕ → Act db.State F
    sum_closed_pnl_by_range strategy start finish = reads λ s.
        db.sum_pnl s
          (λ r. is_closed_sale strategy r && leb start r.created_at && ltb r.created_at finish)

    abbrev pub latest_loss_streak : String → ℕ → Act db.State ℕ
    latest_loss_streak strategy limit =
        reads (λ s. db.latest_trades s (is_closed_sale strategy) (if limit == 0 then 50 else limit))
        >>= λ rs. give (streak_of rs)
