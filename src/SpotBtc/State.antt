-- ===== src/SpotBtc/State.antt =====
-- strategies/spot_btc_conservative_v1/state.go, and what the strategy reaches outside: the store of its
-- state, its log, and the hash of the record keys. A time is a number of nanoseconds since the zero
-- time, 1 January of year 1, which is a Monday.
use Prim.Native.String.{String}
use cryptotips.SpotBtc.Signal.{Reason}
use cryptotips.Base.Act.{Result}
use cryptotips.Models.{StrategyLogRecord, IsLawful, Database}
use cryptotips.Float.{of_ℕ, Float}
use cryptotips.Base.{none, some, Option, ◌≡◌, false, ℕ, Bool}

pub record StrategyState (F : Type 0) : Type 0 where
  pub has_position : Bool
  pub entry_price : F
  pub stop_loss : F
  pub qty_total : F
  pub qty_remain : F
  pub risk_per_unit : F
  pub tp1_done : Bool
  pub tp2_done : Bool
  pub trail_stop : F
  pub hold_bars : ℕ
  pub pause_until : ℕ
  pub loss_streak : ℕ
  pub updated_at : ℕ

-- The services of a run, over the state of the database.
pub record Services (F : Type 0) (db : Database F) : Type 0 where
  -- Load of the state store; `none` where nothing is stored
  pub load_state : db.State → Result (Option (StrategyState F))
  pub save_state : db.State → StrategyState F → Result Unit × db.State
  pub save_log : db.State → StrategyLogRecord (Reason F) → Result Unit × db.State
  -- The MD5 of the strategy, the symbol, the clock and a tag
  pub md5_text : db.State → String → String → String → String

-- The state store and the log keep the trades as they are.
pub record IsSeparate {F : Type 0} {db : Database F} (laws : IsLawful db) (sv : Services F db)
    : Type 0 where
  pub save_state-rows :
      (s : db.State) (st : StrategyState F) → laws.rows (sv.save_state s st).1 ≡ laws.rows s
  pub save_log-rows :
      (s : db.State) (r : StrategyLogRecord (Reason F))
      → laws.rows (sv.save_log s r).1 ≡ laws.rows s

module _ {F : Type 0} ⦃fl : Float F⦄ where
  -- `StrategyState{}`
  abbrev pub zero_state : StrategyState F
  zero_state = record {
    has_position = false;
    entry_price = of_ℕ 0;
    stop_loss = of_ℕ 0;
    qty_total = of_ℕ 0;
    qty_remain = of_ℕ 0;
    risk_per_unit = of_ℕ 0;
    tp1_done = false;
    tp2_done = false;
    trail_stop = of_ℕ 0;
    hold_bars = 0;
    pause_until = 0;
    loss_streak = 0;
    updated_at = 0;
  }

  -- What Load leaves in a zero state.
  abbrev pub or_zero : Option (StrategyState F) → StrategyState F
  or_zero none = zero_state
  or_zero (some st) = st
