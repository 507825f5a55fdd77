-- ===== src/SpotBtc/Strategy/Closing.antt =====
-- A closed position leaves no open trade.
use cryptotips.SpotBtc.Signal.{Reason}
use cryptotips.SpotBtc.Executor.{close_all}
use cryptotips.Models.Trades.{close_with, is_open_of, close_open_trades_by_strategy, is_open_trade}
use cryptotips.SpotBtc.Config.{Config}
use cryptotips.SpotBtc.State.{IsSeparate, Services}
use cryptotips.Base.{◌∙◌, refl, sym, ap, arith, inr, ◌∷◌, inl, ◌++◌, [], false, ◌≡◌, List, Bool}
use Prim.Native.String.{String}
use cryptotips.Models.{
  StrategyLogRecord, stamped, closed, spot, update_where, select, IsLawful, TradeType, Database,
  TradeRecord,
}
use cryptotips.Float.{Float}
use cryptotips.Base.Act.{crashed, stopped, broken, failed, Ends-after, ended, done, Result, Ends}

module _ {F : Type 0} ⦃fl : Float F⦄ where
  select-closed :
      (strategy symbol : String) (type : TradeType) (pnl : F) (rs : List (TradeRecord F))
      → select
          (is_open_trade strategy symbol type)
          (update_where (is_open_of strategy symbol) (close_with pnl) rs)
        ≡ []
  select-closed strategy symbol type pnl [] = refl
  select-closed strategy symbol type pnl (r ∷ rs) =
      ground (arith, select-closed strategy symbol type pnl rs)

  select-snoc_none :
      (p : TradeRecord F → Bool) (xs : List (TradeRecord F)) (y : TradeRecord F)
      → p y ≡ false
      → select p xs ≡ []
      → select p (xs ++ y ∷ []) ≡ []
  select-snoc_none p [] y h n = ground arith
  select-snoc_none p (x ∷ xs) y h n = ground (arith, select-snoc_none p xs y h)

  -- `E` is true where a statement fails.
  module _ (db : Database F) (sv : Services F db) (laws : IsLawful db) (apart : IsSeparate laws sv)
      (cfg : Config F) (E : db.State → Type 0)
      (updates : (p : TradeRecord F → Bool) (f : TradeRecord F → TradeRecord F) (s : db.State)
        → Ends (λ _ _. Unit {0}) E (db.update_trades s p f))
      (trades : (r : TradeRecord F) (s : db.State) → Ends (λ _ _. Unit {0}) E (db.save_trade s r))
      (logs : (r : StrategyLogRecord (Reason F)) (s : db.State)
        → Ends (λ _ _. Unit {0}) E (sv.save_log s r)) where
    abbrev NoOpenTrade : db.State → Type 0
    NoOpenTrade s = select (is_open_trade cfg.strategy_id cfg.symbol spot) (laws.rows s) ≡ []

    close-NoOpenTrade :
        (pnl : F) (s : db.State)
        → Ends
            (λ _. NoOpenTrade)
            E
            (close_open_trades_by_strategy db cfg.strategy_id cfg.symbol pnl s)
    close-NoOpenTrade pnl s =
        from (db.update_trades s (is_open_of cfg.strategy_id cfg.symbol) (close_with pnl))
          (updates _ _ s) refl
      where
        from :
            (x : Result Unit × db.State)
            → Ends (λ _ _. Unit {0}) E x
            → db.update_trades s (is_open_of cfg.strategy_id cfg.symbol) (close_with pnl) ≡ x
            → Ends (λ _. NoOpenTrade) E x
        from (done tt, s') _ e = ended (
            ap (λ x. select (is_open_trade cfg.strategy_id cfg.symbol spot) (laws.rows x.1)) (sym e)
            ∙ ap (select (is_open_trade cfg.strategy_id cfg.symbol spot)) (
                laws.update-done s (is_open_of cfg.strategy_id cfg.symbol) (close_with pnl)
                  (ap (λ x. x.0) e))
            ∙ select-closed cfg.strategy_id cfg.symbol spot pnl (laws.rows s))
        from (failed x, s') (broken b) e = broken b
        from (crashed, s') (stopped b) e = stopped b

    save_closed-NoOpenTrade :
        (r : TradeRecord F) (s : db.State)
        → r.status ≡ closed
        → NoOpenTrade s
        → NoOpenTrade (db.save_trade s r).1
    save_closed-NoOpenTrade r s c n = elim (laws.save-rows s r) [
      | inl same ↦ rw same n
      | inr (t, more) ↦ rw more (select-snoc_none _ (laws.rows s) (stamped t r) (ground arith) n)
    ]

    keeps-NoOpenTrade :
        (x : Result Unit × db.State)
        → Ends (λ _ _. Unit {0}) E x
        → NoOpenTrade x.1
        → Ends (λ _. NoOpenTrade) E x
    keeps-NoOpenTrade x (ended _) n = ended n
    keeps-NoOpenTrade x (broken b) n = broken b
    keeps-NoOpenTrade x (stopped b) n = stopped b

    -- CloseAll ends with no open spot trade of the strategy and its symbol, whatever was open before,
    -- unless a statement fails.
    pub close_all-NoOpenTrade :
        (price pnl : F) (reason : Reason F) (s : db.State)
        → Ends (λ _. NoOpenTrade) E (close_all db sv cfg price pnl reason s)
    unfolding close_all
    close_all-NoOpenTrade price pnl reason s = Ends-after (close-NoOpenTrade pnl s) λ _ s1 n1.
        Ends-after (keeps-NoOpenTrade _ (trades _ s1) (save_closed-NoOpenTrade _ s1 refl n1))
          λ _ s2 n2. keeps-NoOpenTrade _ (logs _ s2) (rw (apart.save_log-rows s2 _) n2)
