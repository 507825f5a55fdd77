-- ===== src/SpotBtc/Replay/Total/Steps.antt =====
-- The steps of a position and the sale at a switch do not panic.
use cryptotips.SpotBtc.Replay.Total.{last_range-Total}
use cryptotips.Base.Outcome.{value, Returns-bind, Returns-if}
use cryptotips.SpotBtc.Replay.{ReplayPosition, Direction}
use cryptotips.SpotBtc.Signal.Safe.{last_atr-Total, last_ema-Total, Total, HasPeriods}
use cryptotips.SpotBtc.Signal.{lows_of, highs_of, closes_of, Ohlc}
use cryptotips.SpotBtc.Config.{Config}
use cryptotips.SpotBtc.Replay.Switch.{switch_take_profit}
use cryptotips.Base.{not, ◌||◌, leb, ◌+◌, length, List}
use cryptotips.SpotBtc.Replay.Steps.{
  held_on, take_tp1, with_targets, follows_price, atr_trail, ema_trail, step_position,
  step_position_v8,
}
use cryptotips.Float.{dec, of_ℕ, ◌≤?◌, Float}

module _ {F : Type 0} ⦃fl : Float F⦄ where
  pub atr_trail-Total :
      (d : Direction) (cfg : Config F) (pos : ReplayPosition F) (price : F) (h4 : List (Ohlc F))
      → HasPeriods cfg
      → Total (atr_trail d cfg pos price h4)
  unfolding atr_trail
  atr_trail-Total d cfg pos price h4 p =
      Returns-if (follows_price cfg pos h4)
        (λ _.
          Returns-bind
            (last_atr-Total (highs_of h4) (lows_of h4) (closes_of h4) cfg.atr_period p.range_period)
            λ a _. value tt)
        λ _. value tt

  pub step_position-Total :
      (d : Direction) (cfg : Config F) (pos : ReplayPosition F) (price : F) (h4 : List (Ohlc F))
      → HasPeriods cfg
      → Total (step_position d cfg pos price h4)
  unfolding step_position
  step_position-Total d cfg pos price h4 p =
      Returns-if pos.active
        (λ _.
          Returns-bind (atr_trail-Total d cfg (with_targets d price pos) price h4 p)
            λ trail _. value tt)
        λ _. value tt

  pub ema_trail-Total :
      (d : Direction) (cfg : Config F) (trail : F) (h4 : List (Ohlc F))
      → HasPeriods cfg
      → Total (ema_trail d cfg trail h4)
  unfolding ema_trail
  ema_trail-Total d cfg trail h4 p =
      Returns-if (leb (cfg.atr_period + 2) (length h4))
        (λ _. Returns-bind (last_ema-Total (closes_of h4) cfg.ema_pullback p.pullback_period) λ e _.
          Returns-bind
            (last_atr-Total (highs_of h4) (lows_of h4) (closes_of h4) cfg.atr_period p.range_period)
            λ a _. value tt)
        λ _. value tt

  pub step_position_v8-Total :
      (d : Direction) (cfg : Config F) (pos : ReplayPosition F) (price : F) (h4 : List (Ohlc F))
      → HasPeriods cfg
      → Total (step_position_v8 d cfg pos price h4)
  unfolding step_position_v8
  step_position_v8-Total d cfg pos price h4 p =
      Returns-if pos.active
        (λ _.
          Returns-bind
            (ema_trail-Total d cfg (take_tp1 d (dec 25 2) price (held_on pos)).trail_stop h4 p)
            λ trail _. value tt)
        λ _. value tt

  pub switch_take_profit-Total :
      (d : Direction) (cfg : Config F) (pos : ReplayPosition F) (price : F) (h4 : List (Ohlc F))
      → HasPeriods cfg
      → Total (switch_take_profit d cfg pos price h4)
  unfolding switch_take_profit
  switch_take_profit-Total d cfg pos price h4 p =
      Returns-if (not pos.active || (pos.qty_remain ≤? of_ℕ 0)) (λ _. value tt)
        λ _. Returns-bind (last_range-Total h4 cfg.atr_period p.range_period) λ _ _. value tt
