-- ===== src/SpotBtc/Replay/V7/Sound.antt =====
-- What holds after every bar of runV7Replay.
use cryptotips.SpotBtc.Replay.Total.Steps.{step_position-Total}
use cryptotips.SpotBtc.Replay.Steps.{step_position}
use cryptotips.SpotBtc.Replay.Candles.{days_until}
use cryptotips.SpotBtc.Replay.Total.{eval_trend_short-Total}
use cryptotips.SpotBtc.Replay.Track.{catch_up_v7}
use cryptotips.Base.Outcome.{Returns-if, value, Returns-bind, Returns}
use cryptotips.SpotBtc.Replay.Sound.{
  empty_book-IsBook, pause_less-IsBook, step_both-IsBook, with_position-IsBook,
  both_forced_out-IsBook, each_bar-Returns, IsBook,
}
use cryptotips.SpotBtc.Replay.Points.{ClassPoint}
use cryptotips.SpotBtc.Signal.Safe.{eval_trend-IsGuarded, HasPeriods}
use cryptotips.Models.{KlineRecord}
use cryptotips.SpotBtc.Replay.Book.{
  over_ledger, bars_to, both_forced_out, plan_for, each_bar, enter_trend, open_on, is_flat, Book,
}
use cryptotips.SpotBtc.Replay.Ledger.{pause_less, risk_blocked, BarKeys}
use cryptotips.SpotBtc.Signal.{Ohlc, SignalResult}
use cryptotips.Base.{arith, not, [], ◌&&◌, if_rule, if◌then◌else◌, ltb, true, ◌≡◌, List, ℕ}
use cryptotips.SpotBtc.Config.{Config}
use cryptotips.SpotBtc.Replay.{
  regime_bear, opened_at, regime_bull, short, long, regime_range, regime_eq, MarketRegime,
  Direction,
}
use cryptotips.SpotBtc.Replay.V7.{keys_by_year, state_v7, bar_v7, trade_v7}
use cryptotips.Float.{◌<?◌, of_ℕ, Float}

module _ {F : Type 0} ⦃fl : Float F⦄ where
  open_on-IsBook :
      (d : Direction) (cfg : Config F) (sig : SignalResult F) (b : Book F)
      → is_flat b ≡ true
      → IsBook b
      → IsBook (open_on d cfg sig b)
  open_on-IsBook d cfg sig b flat s =
      let plan = plan_for d cfg sig.entry_price sig.stop_loss in
      if_rule IsBook (sig.should_enter && (of_ℕ 0 <? plan.qty))
        (λ _. with_position-IsBook d (opened_at sig.entry_price sig.stop_loss plan) b flat s) λ _. s

  pub enter_trend-IsBook :
      (cfg : Config F) (regime : MarketRegime) (day h4 : List (Ohlc F)) (b : Book F)
      → HasPeriods cfg
      → is_flat b ≡ true
      → IsBook b
      → Returns IsBook (enter_trend cfg regime day h4 b)
  enter_trend-IsBook cfg regime_bull day h4 b p flat s =
      Returns-bind (eval_trend-IsGuarded cfg day h4 p)
        λ sig _. value (open_on-IsBook long cfg sig b flat s)
  enter_trend-IsBook cfg regime_bear day h4 b p flat s =
      Returns-bind (eval_trend_short-Total cfg day h4 p)
        λ sig _. value (open_on-IsBook short cfg sig b flat s)
  enter_trend-IsBook cfg regime_range day h4 b p flat s = value s

  trade_v7-IsBook :
      (cfg : Config F) (regime : MarketRegime) (keys : BarKeys) (price : F) (day h4 : List (Ohlc F))
      (b : Book F)
      → HasPeriods cfg
      → IsBook b
      → Returns IsBook (trade_v7 cfg regime keys price day h4 b)
  unfolding trade_v7
  trade_v7-IsBook cfg regime keys price day h4 b p s =
      let capital = cfg.risk_capital_usdt in
      let blocked = risk_blocked cfg keys b.ledger in
      let out =
        if regime_eq regime regime_range then both_forced_out capital keys.month price b else b in
      let out_book : IsBook out =
        if_rule IsBook (regime_eq regime regime_range)
          (λ _. both_forced_out-IsBook capital keys.month price b s) λ _. s in
      Returns-bind
        (Returns-if {Good = IsBook} (is_flat out && not blocked)
          (λ e. enter_trend-IsBook cfg regime day h4 out p (ground arith) out_book)
          λ _. value out_book)
        λ b' s'.
          step_both-IsBook capital keys price (λ d pos. step_position d cfg pos price h4) b'
            (λ d pos. step_position-Total d cfg pos price h4 p) s'

  -- With periods of at least 1, the bar loop of runV7Replay panics on no candles and no regime points,
  -- and after every bar a long and a short are not both open, the wins are at most the trades, fewer
  -- than three losses in a row are counted, and a pause is of at most six bars.
  pub bars_v7-IsSound :
      (cfg : Config F) (start : ℕ) (day_data h4_data : List (KlineRecord F))
      (points : List (ClassPoint F))
      → HasPeriods cfg
      → Returns
          (λ s. IsBook s.book_v7)
          (each_bar (λ t. ltb t start) (bar_v7 cfg day_data) (state_v7 points) [] h4_data)
  unfolding bar_v7
  bars_v7-IsSound cfg start day_data h4_data points p =
      each_bar-Returns (λ _ s. IsBook s.book_v7) (λ t. ltb t start) (bar_v7 cfg day_data)
        (λ n s q. q)
        (λ seen k s q.
          let track = catch_up_v7 k.open_time s.track_v7 in
          Returns-bind
            (trade_v7-IsBook cfg track.regime_v7 (keys_by_year k.open_time) k.close
              (days_until k.open_time day_data) (bars_to seen k) (over_ledger pause_less s.book_v7)
              p (pause_less-IsBook s.book_v7 q))
            λ b r. value r)
        (state_v7 points) h4_data empty_book-IsBook
