-- ===== src/Models.antt =====
-- package models: the tables that the strategy reads and writes, and the database as an interface.
-- The mapper gorm and the database are not part of the program: a model query is a test of rows.
pub mod Trades
pub mod Klines
use cryptotips.Base.Act.{done, Result}
use Prim.Native.String.{String}
use cryptotips.Base.{◌++◌, [], ◌⊎◌, false, if◌then◌else◌, map, true, ◌∷◌, ◌≡◌, Bool, List, ℕ}

pub data TradeType : Type 0 where
  spot future : TradeType

pub data Side : Type 0 where
  buy sell : Side

pub data Status : Type 0 where
  opened closed cancelled : Status

abbrev pub type_eq : TradeType → TradeType → Bool
type_eq spot spot = true
type_eq future future = true
type_eq _ _ = false

abbrev pub is_sell : Side → Bool
is_sell sell = true
is_sell buy = false

abbrev pub is_opened : Status → Bool
is_opened opened = true
is_opened _ = false

abbrev pub is_closed : Status → Bool
is_closed closed = true
is_closed _ = false

pub record TradeRecord (F : Type 0) : Type 0 where
  pub id : ℕ
  pub md5 : String
  pub strategy_id : String
  pub platform : String
  pub trade_type : TradeType
  pub side : Side
  pub symbol : String
  pub price : F
  pub qty : F
  pub stop_loss : F
  pub take_profit : F
  pub status : Status
  pub pnl : F
  pub created_at : ℕ
  pub updated_at : ℕ

-- A candle, without the key columns id and md5.
pub record KlineRecord (F : Type 0) : Type 0 where
  pub symbol : String
  pub interval : String
  pub open_time : ℕ
  pub close_time : ℕ
  pub open_price : F
  pub high : F
  pub low : F
  pub close : F
  pub volume : F
  pub quote_volume : F

pub record StrategyLogRecord (R : Type 0) : Type 0 where
  pub log_md5 : String
  pub log_strategy_id : String
  pub log_symbol : String
  pub decision : String
  pub log_reason : R

-- The columns that a save fills in.
pub record Stamp : Type 0 where
  pub new_id : ℕ
  pub created : ℕ
  pub updated : ℕ

abbrev pub stamped : {F : Type 0} → Stamp → TradeRecord F → TradeRecord F
stamped t r = record r { id = t.new_id; created_at = t.created; updated_at = t.updated }

-- The rows that pass a test, in order.
abbrev pub select : {A : Type 0} → (A → Bool) → List A → List A
select p [] = []
select p (x ∷ xs) = let rest = select p xs in if p x then x ∷ rest else rest

-- What gorm does for the models, over an unknown state of the database.
pub record Database (F : Type 0) : Type 1 where
  pub State : Type 0
  -- `Where(…).Order("id ASC").Find`
  pub find_trades : State → (TradeRecord F → Bool) → Result (List (TradeRecord F))
  -- `Where(…).Order("created_at DESC").Limit(…).Find`
  pub latest_trades : State → (TradeRecord F → Bool) → ℕ → Result (List (TradeRecord F))
  -- `Select("COALESCE(SUM(pnl),0)")`
  pub sum_pnl : State → (TradeRecord F → Bool) → Result F
  -- `Save` of a record without a primary key
  pub save_trade : State → TradeRecord F → Result Unit × State
  -- `Updates`
  pub update_trades :
      State → (TradeRecord F → Bool) → (TradeRecord F → TradeRecord F) → Result Unit × State
  -- `Order("open_time ASC").Find`
  pub find_klines : State → (KlineRecord F → Bool) → Result (List (KlineRecord F))

abbrev pub update_where :
    {F : Type 0}
    → (TradeRecord F → Bool)
    → (TradeRecord F → TradeRecord F)
    → List (TradeRecord F)
    → List (TradeRecord F)
update_where p f = map λ r. if p r then f r else r

-- What the table of trades promises. A statement that reports an error may have been carried out or
-- not.
pub record IsLawful {F : Type 0} (db : Database F) : Type 0 where
  pub rows : db.State → List (TradeRecord F)
  pub find-rows :
      (s : db.State) (p : TradeRecord F → Bool) (rs : List (TradeRecord F))
      → db.find_trades s p ≡ done rs
      → rs ≡ select p (rows s)
  pub save-rows :
      (s : db.State) (r : TradeRecord F)
      → (rows (db.save_trade s r).1 ≡ rows s)
        ⊎ ((t : Stamp) × (rows (db.save_trade s r).1 ≡ rows s ++ stamped t r ∷ []))
  pub update-done :
      (s : db.State) (p : TradeRecord F → Bool) (f : TradeRecord F → TradeRecord F)
      → (db.update_trades s p f).0 ≡ done tt
      → rows (db.update_trades s p f).1 ≡ update_where p f (rows s)
  pub update-rows :
      (s : db.State) (p : TradeRecord F → Bool) (f : TradeRecord F → TradeRecord F)
      → (rows (db.update_trades s p f).1 ≡ rows s)
        ⊎ (rows (db.update_trades s p f).1 ≡ update_where p f (rows s))
