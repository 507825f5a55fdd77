-- ===== src/SpotBtc/Strategy/Rows.antt =====
-- How many rows pass a test, after a row is added and after rows are closed.
use cryptotips.Models.Trades.{close_with, is_open_of, is_open_trade}
use cryptotips.Base.{suc, [], arith, ◌+◌, ◌∷◌, ◌++◌, ◌≤◌, false, length, ◌≡◌, List, Bool}
use Prim.Native.String.{String}
use cryptotips.Models.{update_where, select, TradeType, TradeRecord}
use cryptotips.Float.{Float}

module _ {F : Type 0} ⦃fl : Float F⦄ where
  abbrev pub AtMostOne : (TradeRecord F → Bool) → List (TradeRecord F) → Type 0
  AtMostOne p rs = length (select p rs) ≤ 1

  select-append :
      (p : TradeRecord F → Bool) (xs ys : List (TradeRecord F))
      → length (select p (xs ++ ys)) ≡ length (select p xs) + length (select p ys)
  select-append p [] ys = omega arith
  select-append p (x ∷ xs) ys = ground (arith, select-append p xs ys)

  -- A row that does not pass the test adds nothing.
  pub select-snoc :
      (p : TradeRecord F → Bool) (xs : List (TradeRecord F)) (y : TradeRecord F)
      → length (select p (xs ++ y ∷ [])) ≤ suc (length (select p xs))
  select-snoc p xs y = ground (arith, select-append p xs (y ∷ []))

  pub select-snoc_other :
      (p : TradeRecord F → Bool) (xs : List (TradeRecord F)) (y : TradeRecord F)
      → p y ≡ false
      → length (select p (xs ++ y ∷ [])) ≡ length (select p xs)
  select-snoc_other p xs y h = ground (arith, select-append p xs (y ∷ []))

  -- Closing the open rows leaves none that was open, and opens none.
  pub select-close :
      (strategy symbol : String) (type : TradeType) (pnl : F) (rs : List (TradeRecord F))
      → length (
          select
            (is_open_trade strategy symbol type)
            (update_where (is_open_of strategy symbol) (close_with pnl) rs))
        ≤ length (select (is_open_trade strategy symbol type) rs)
  select-close strategy symbol type pnl [] = omega arith
  select-close strategy symbol type pnl (r ∷ rs) =
      ground (arith, select-close strategy symbol type pnl rs)
