-- ===== src/SpotBtc/Replay/Answers/Loops.antt =====
-- Loops of bars, and the steps that they share, do not panic.
use cryptotips.SpotBtc.Replay.Total.{eval_trend_short-Total}
use cryptotips.SpotBtc.Replay.Sound.{each_bar-Returns}
use cryptotips.SpotBtc.Replay.Candles.{last_kline}
use cryptotips.Base.Outcome.{value, Returns-if, Returns-bind, Run}
use cryptotips.SpotBtc.Signal.{Ohlc}
use cryptotips.SpotBtc.Signal.Safe.{eval_trend-IsGuarded, index-Total, Total, HasPeriods}
use cryptotips.SpotBtc.Replay.Ledger.{BarKeys}
use cryptotips.SpotBtc.Replay.Book.{position, enter_trend, step_active, Book, each_bar, step_both}
use cryptotips.SpotBtc.Config.{Config}
use cryptotips.Models.{KlineRecord}
use cryptotips.Base.{[], ◌∷◌, arith, ◌≡◌, Bool, List, ℕ}
use cryptotips.Float.{Float}
use cryptotips.SpotBtc.Replay.{
  short, long, ReplayPosition, MarketRegime, Direction, regime_bull, regime_bear, regime_range,
}

module _ {F : Type 0} ⦃fl : Float F⦄ where
  -- A loop whose bars do not panic does not.
  pub each_bar-Total :
      {S : Type 0} (skip : ℕ → Bool) (bar : List (KlineRecord F) → KlineRecord F → S → Run S)
      → ((seen : List (KlineRecord F)) (k : KlineRecord F) (s : S) → Total (bar seen k s))
      → (s : S) (ks : List (KlineRecord F)) → Total (each_bar skip bar s [] ks)
  each_bar-Total skip bar total s ks =
      each_bar-Returns (λ _ _. Unit {0}) skip bar (λ _ _ _. tt) (λ seen k s _. total seen k s) s ks
        tt

  pub last_kline-Total :
      (k : KlineRecord F) (ks : List (KlineRecord F)) → Total (last_kline (k ∷ ks))
  last_kline-Total k ks = index-Total (k ∷ ks) _ (omega arith)

  pub same_periods :
      (cfg cfg' : Config F)
      → HasPeriods cfg
      → cfg'.ema_filter_period ≡ cfg.ema_filter_period
      → cfg'.ema_pullback ≡ cfg.ema_pullback
      → cfg'.volume_sma_period ≡ cfg.volume_sma_period
      → cfg'.atr_period ≡ cfg.atr_period
      → HasPeriods cfg'
  same_periods cfg cfg' p a b c d = record {
    filter_period = omega (arith, p.filter_period);
    pullback_period = omega (arith, p.pullback_period);
    volume_period = omega (arith, p.volume_period);
    range_period = omega (arith, p.range_period);
  }

  pub enter_trend-Total :
      (cfg : Config F) (regime : MarketRegime) (day h4 : List (Ohlc F)) (b : Book F)
      → HasPeriods cfg
      → Total (enter_trend cfg regime day h4 b)
  enter_trend-Total cfg regime_bull day h4 b p =
      Returns-bind (eval_trend-IsGuarded cfg day h4 p) λ _ _. value tt
  enter_trend-Total cfg regime_bear day h4 b p =
      Returns-bind (eval_trend_short-Total cfg day h4 p) λ _ _. value tt
  enter_trend-Total cfg regime_range day h4 b p = value tt

  pub step_active-Total :
      (d : Direction) (capital : F) (keys : BarKeys)
      (step : ReplayPosition F → Run (ReplayPosition F × F × Bool)) (b : Book F)
      → ((pos : ReplayPosition F) → Total (step pos))
      → Total (step_active d capital keys step b)
  step_active-Total d capital keys step b total =
      Returns-if (position d b).active (λ _. Returns-bind (total (position d b)) λ _ _. value tt)
        λ _. value tt

  pub step_both-Total :
      (capital : F) (keys : BarKeys) (price : F)
      (step : Direction → ReplayPosition F → Run (ReplayPosition F × F × Bool)) (b : Book F)
      → ((d : Direction) (pos : ReplayPosition F) → Total (step d pos))
      → Total (step_both capital keys price step b)
  unfolding step_both
  step_both-Total capital keys price step b total =
      Returns-bind (step_active-Total long capital keys (step long) b (total long)) λ b1 _.
        Returns-bind (step_active-Total short capital keys (step short) b1 (total short))
          λ _ _. value tt
