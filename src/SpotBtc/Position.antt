-- ===== src/SpotBtc/Position.antt =====
-- strategies/spot_btc_conservative_v1/position.go.
use cryptotips.Base.{if◌then◌else◌}
use cryptotips.SpotBtc.Config.{Config}
use cryptotips.Float.{◌<?◌, ◌≤?◌, ◌⊖◌, ◌⊘◌, of_ℕ, ◌⊗◌, Float}

pub record PositionPlan (F : Type 0) : Type 0 where
  pub risk_amount : F
  pub risk_per_unit : F
  pub qty : F
  pub notional : F

module _ {F : Type 0} ⦃fl : Float F⦄ where
  abbrev pub no_plan : PositionPlan F
  no_plan = record { risk_amount = of_ℕ 0; risk_per_unit = of_ℕ 0; qty = of_ℕ 0; notional = of_ℕ 0 }

  -- Six decimals, rounded down.
  abbrev pub round_qty : F → F
  round_qty qty = fl.floor (qty ⊗ of_ℕ 1000000) ⊘ of_ℕ 1000000

  -- The quantity before rounding: what the risk allows, or what the capital buys.
  abbrev pub sized_qty : Config F → F → F → F
  sized_qty cfg entry risk_per_unit =
      let qty = cfg.risk_capital_usdt ⊗ cfg.risk_per_trade ⊘ risk_per_unit in
      if cfg.risk_capital_usdt <? qty ⊗ entry then cfg.risk_capital_usdt ⊘ entry else qty

  unfoldable pub build_position : Config F → F → F → PositionPlan F
  build_position cfg entry stop =
      let risk_per_unit = entry ⊖ stop in
      if risk_per_unit ≤? of_ℕ 0
      then no_plan
      else (let qty = sized_qty cfg entry risk_per_unit in
          record {
            risk_amount = cfg.risk_capital_usdt ⊗ cfg.risk_per_trade;
            risk_per_unit = risk_per_unit;
            qty = round_qty qty;
            notional = qty ⊗ entry;
          })
