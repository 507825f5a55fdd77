-- ===== src/SpotBtc/Replay/Book.antt =====
-- strategies/spot_btc_conservative_v1/replay.go: what the bar loops of v6 to v9 do alike.
use cryptotips.SpotBtc.Replay.Candles.{ohlc_of}
use cryptotips.SpotBtc.Replay.Rules.{eval_trend_short, build_short_position}
use cryptotips.SpotBtc.Signal.Rules.{eval_trend}
use cryptotips.SpotBtc.Signal.{Ohlc, SignalResult}
use cryptotips.SpotBtc.Position.{build_position, PositionPlan}
use cryptotips.Models.{KlineRecord}
use cryptotips.SpotBtc.Config.{Config}
use cryptotips.SpotBtc.Replay.{
  regime_range, regime_bear, opened_at, regime_bull, open_value, MarketRegime, ReplayShortPosition,
  long, no_position, Direction, ReplayPosition, short,
}
use cryptotips.Float.{◌<?◌, of_ℕ, Float}
use cryptotips.SpotBtc.Replay.Ledger.{
  equity_of, earned, counted, BarKeys, marked, booked, empty_ledger, Ledger,
}
use cryptotips.Base.{[], ◌++◌, ◌∷◌, map, ◌&&◌, if◌then◌else◌, not, Bool, List, ℕ}
use cryptotips.Base.Outcome.{ok, Run, ◌>>=◌}

-- The ledger with the two positions.
pub record Book (F : Type 0) : Type 0 where
  pub ledger : Ledger F
  pub long_pos : ReplayPosition F
  pub short_pos : ReplayShortPosition F

-- The state after every candle: `bar` gets the candles before it, and is not called where `skip` says so.
module _ {F S : Type 0} (skip : ℕ → Bool)
    (bar : List (KlineRecord F) → KlineRecord F → S → Run S) where
  unfoldable pub each_bar : S → List (KlineRecord F) → List (KlineRecord F) → Run S
  each_bar s seen [] = ok s
  each_bar s seen (k ∷ ks) =
      let skipped = each_bar s (seen ++ k ∷ []) ks in
      if skip k.open_time then skipped else bar seen k s >>= (λ s'. each_bar s' (seen ++ k ∷ []) ks)

module _ {F : Type 0} ⦃fl : Float F⦄ where
  abbrev pub empty_book : Book F
  empty_book = record { ledger = empty_ledger; long_pos = no_position; short_pos = no_position }

  abbrev pub position : Direction → Book F → ReplayPosition F
  position long b = b.long_pos
  position short b = b.short_pos

  abbrev pub with_position : Direction → ReplayPosition F → Book F → Book F
  with_position long pos b = record b { long_pos = pos }
  with_position short pos b = record b { short_pos = pos }

  abbrev pub over_ledger : (Ledger F → Ledger F) → Book F → Book F
  over_ledger f b = record b { ledger = f b.ledger }

  abbrev pub is_flat : Book F → Bool
  is_flat b = not b.long_pos.active && not b.short_pos.active

  -- The slices of a bar.
  abbrev pub bars_to : List (KlineRecord F) → KlineRecord F → List (Ohlc F)
  bars_to seen k = map ohlc_of (seen ++ k ∷ [])

  -- The result of a step, `if closed { … }` included.
  abbrev pub take_result : Direction → F → BarKeys → ReplayPosition F × F × Bool → Book F → Book F
  take_result d capital keys (pos, pnl, closed) b =
      let b' = with_position d pos b in
      if closed then over_ledger (booked capital keys pnl) b' else b'

  -- `if longPos.active { … }`
  abbrev pub step_active :
      Direction
      → F
      → BarKeys
      → (ReplayPosition F → Run (ReplayPosition F × F × Bool))
      → Book F
      → Run (Book F)
  step_active d capital keys step b =
      if (position d b).active
      then step (position d b) >>= (λ r. ok (take_result d capital keys r b))
      else ok b

  -- The two steps of a bar, and its equity.
  unfoldable pub step_both :
      F
      → BarKeys
      → F
      → (Direction → ReplayPosition F → Run (ReplayPosition F × F × Bool))
      → Book F
      → Run (Book F)
  unfolding booked marked
  step_both capital keys price step b = do
    b1 ← step_active long capital keys (step long) b
    b2 ← step_active short capital keys (step short) b1
    ok (over_ledger (marked (equity_of b2.ledger b2.long_pos b2.short_pos price)) b2)

  -- v7 and v8: a position that is closed because the regime is a range counts as a trade, and neither as
  -- a win or loss nor in the limits.
  abbrev pub forced_out : Direction → F → ℕ → F → Book F → Book F
  forced_out d capital month price b =
      if (position d b).active
      then over_ledger (λ l. counted (earned capital month (open_value d (position d b) price) l))
          (with_position d no_position b)
      else b

  abbrev pub both_forced_out : F → ℕ → F → Book F → Book F
  both_forced_out capital month price b =
      forced_out short capital month price (forced_out long capital month price b)

  -- A position for a signal, if its quantity is not zero.
  abbrev pub plan_for : Direction → Config F → F → F → PositionPlan F
  plan_for long cfg entry stop = build_position cfg entry stop
  plan_for short cfg entry stop = build_short_position cfg entry stop

  abbrev pub open_on : Direction → Config F → SignalResult F → Book F → Book F
  open_on d cfg sig b =
      let plan = plan_for d cfg sig.entry_price sig.stop_loss in
      if sig.should_enter && (of_ℕ 0 <? plan.qty)
      then with_position d (opened_at sig.entry_price sig.stop_loss plan) b
      else b

  -- The `switch` of v6 and v7.
  abbrev pub enter_trend :
      Config F → MarketRegime → List (Ohlc F) → List (Ohlc F) → Book F → Run (Book F)
  enter_trend cfg regime_bull day h4 b =
      eval_trend cfg day h4 >>= λ sig. ok (open_on long cfg sig b)
  enter_trend cfg regime_bear day h4 b =
      eval_trend_short cfg day h4 >>= λ sig. ok (open_on short cfg sig b)
  enter_trend cfg regime_range day h4 b = ok b
