-- ===== src/SpotBtc/Replay.antt =====
-- strategies/spot_btc_conservative_v1/replay.go: the positions of a replay and what is earned with them.
pub mod Maps
pub mod Times
pub mod Steps
pub mod Switch
pub mod Ledger
pub mod Rules
pub mod Strength
pub mod Candles
pub mod Benchmark
pub mod Points
pub mod Book
pub mod Track
mod Tests
pub mod V6
pub mod V7
pub mod V8
pub mod V9
pub mod V10
pub mod V11
pub mod Basic
pub mod Labels
pub mod Search
pub mod Calibrate
pub mod Total
pub mod Sound
pub mod Answers
use cryptotips.SpotBtc.Position.{PositionPlan}
use cryptotips.Base.{false, true, ℕ, Bool}
use cryptotips.Float.{of_ℕ, ◌⊗◌, ◌⊕◌, ◌⊖◌, Float}

-- The two structs of the source have the same fields.
pub record ReplayPosition (F : Type 0) : Type 0 where
  pub active : Bool
  pub entry_price : F
  pub stop_loss : F
  pub risk_per_unit : F
  pub qty_total : F
  pub qty_remain : F
  pub tp1_done : Bool
  pub tp2_done : Bool
  pub trail_stop : F
  pub realized_part : F
  pub hold_bars : ℕ

abbrev pub ReplayShortPosition : Type 0 → Type 0
ReplayShortPosition F = ReplayPosition F

pub data MarketRegime : Type 0 where
  regime_bull regime_range regime_bear : MarketRegime

abbrev pub regime_eq : MarketRegime → MarketRegime → Bool
regime_eq regime_bull regime_bull = true
regime_eq regime_range regime_range = true
regime_eq regime_bear regime_bear = true
regime_eq _ _ = false

-- A function for longs and its mirror image for shorts are one definition here.
pub data Direction : Type 0 where
  long short : Direction

module _ {F : Type 0} ⦃fl : Float F⦄ where
  -- `replayPosition{}`
  abbrev pub no_position : ReplayPosition F
  no_position = record {
    active = false;
    entry_price = of_ℕ 0;
    stop_loss = of_ℕ 0;
    risk_per_unit = of_ℕ 0;
    qty_total = of_ℕ 0;
    qty_remain = of_ℕ 0;
    tp1_done = false;
    tp2_done = false;
    trail_stop = of_ℕ 0;
    realized_part = of_ℕ 0;
    hold_bars = 0;
  }

  abbrev pub opened_at : F → F → PositionPlan F → ReplayPosition F
  opened_at entry stop plan = record no_position {
    active = true;
    entry_price = entry;
    stop_loss = stop;
    risk_per_unit = plan.risk_per_unit;
    qty_total = plan.qty;
    qty_remain = plan.qty;
  }

  -- What one unit has earned at a price.
  abbrev pub gain : Direction → F → F → F
  gain long entry price = price ⊖ entry
  gain short entry price = entry ⊖ price

  -- The profit, if all that is left is sold at the price.
  abbrev pub open_value : Direction → ReplayPosition F → F → F
  open_value d pos price = pos.realized_part ⊕ gain d pos.entry_price price ⊗ pos.qty_remain

  abbrev pub sell_part : Direction → F → F → ReplayPosition F → ReplayPosition F
  sell_part d price qty pos = record pos {
    qty_remain = pos.qty_remain ⊖ qty;
    realized_part = pos.realized_part ⊕ gain d pos.entry_price price ⊗ qty;
  }
