-- ===== src/SpotBtc/Replay/V6.antt =====
-- strategies/spot_btc_conservative_v1/replay.go: runV6Replay.
use cryptotips.SpotBtc.Replay.Steps.{step_position}
use cryptotips.SpotBtc.Replay.V7.{keys_by_year}
use cryptotips.SpotBtc.Replay.Track.{count_switch}
use cryptotips.SpotBtc.Replay.Candles.{days_until}
use cryptotips.SpotBtc.Replay.V8.{or_default}
use cryptotips.Models.{KlineRecord}
use cryptotips.SpotBtc.Signal.{Ohlc}
use cryptotips.SpotBtc.Replay.Times.{month_key, year_week_key, day_key}
use cryptotips.Base.{◌+◌, length, not, leb, ◌&&◌, ltb, [], if◌then◌else◌, List, ℕ}
use cryptotips.SpotBtc.Replay.Points.{awaited, confirm_start, Confirm}
use cryptotips.SpotBtc.Config.{Config}
use cryptotips.SpotBtc.Replay.Rules.{detect_regime}
use cryptotips.SpotBtc.Replay.Switch.{switch_take_profit}
use cryptotips.SpotBtc.Replay.Ledger.{
  pause_less, lost, counted, won, earned, risk_blocked, summary, BarKeys, ReplayResult, summarise,
  Ledger,
}
use cryptotips.SpotBtc.Replay.{
  regime_range, regime_bear, no_position, regime_bull, regime_eq, long, short, open_value,
  ReplayPosition, Direction, MarketRegime,
}
use cryptotips.Float.{◌⊕◌, ◌<?◌, of_ℕ, ◌≤?◌, Float}
use cryptotips.SpotBtc.Replay.Book.{
  enter_trend, bars_to, is_flat, with_position, position, over_ledger, each_bar, empty_book,
  step_both, Book,
}
use cryptotips.Base.Outcome.{ok, Run, ◌>>=◌}

pub record StateV6 (F : Type 0) : Type 0 where
  pub book_v6 : Book F
  pub confirm_v6 : Confirm
  pub switches_v6 : List (ℕ × ℕ)
  pub switch_pnl : F

module _ {F : Type 0} ⦃fl : Float F⦄ where
  abbrev pub defaults_v6 : Config F → Config F
  defaults_v6 cfg = record cfg {
    bear_leverage = if cfg.bear_leverage ≤? of_ℕ 0 then of_ℕ 1 else cfg.bear_leverage;
    regime_min_confirm_bars = or_default 2 cfg.regime_min_confirm_bars;
  }

  -- The profit of the parts that a switch sells; the position is what is left of it.
  abbrev pub take_switch_profit : Direction → F → ℕ → ReplayPosition F × F → StateV6 F → StateV6 F
  take_switch_profit d capital month (pos, pnl) s = record s {
    book_v6 = over_ledger (earned capital month pnl) (with_position d pos s.book_v6);
    switch_pnl = s.switch_pnl ⊕ pnl;
  }

  abbrev pub sell_at_switch :
      Direction → Config F → ℕ → F → List (Ohlc F) → StateV6 F → Run (StateV6 F)
  sell_at_switch d cfg month price h4 s =
      if (position d s.book_v6).active
      then switch_take_profit d cfg (position d s.book_v6) price h4
        >>= (λ r. ok (take_switch_profit d cfg.risk_capital_usdt month r s))
      else ok s

  -- A loss that is counted here does not pause.
  abbrev pub scored_only : F → Ledger F → Ledger F
  scored_only pnl l = if of_ℕ 0 <? pnl then won pnl l else if pnl <? of_ℕ 0 then lost pnl l else l

  abbrev pub short_closed : F → ℕ → F → Book F → Book F
  short_closed capital month price b =
      if b.short_pos.active
      then (let pnl = open_value short b.short_pos price in
          over_ledger (λ l. counted (scored_only pnl (earned capital month pnl l)))
            (record b { short_pos = no_position }))
      else b

  -- What a switch from one regime to another does to the positions.
  abbrev pub at_switch :
      MarketRegime → MarketRegime → Config F → ℕ → F → List (Ohlc F) → StateV6 F → Run (StateV6 F)
  at_switch regime_bull regime_range cfg month price h4 s = sell_at_switch long cfg month price h4 s
  at_switch regime_bear regime_range cfg month price h4 s =
      sell_at_switch short cfg month price h4 s
  at_switch regime_range regime_bull cfg month price h4 s =
      ok (record s { book_v6 = short_closed cfg.risk_capital_usdt month price s.book_v6 })
  at_switch _ _ cfg month price h4 s = ok s

  -- The block `if candidate != currentRegime`.
  unfoldable pub route_v6 :
      Config F → MarketRegime → ℕ → F → List (Ohlc F) → StateV6 F → Run (StateV6 F)
  unfolding switch_take_profit
  route_v6 cfg cand month price h4 s =
      let prev = s.confirm_v6.current in
      let c = awaited cand s.confirm_v6 in
      if regime_eq cand prev
      then ok s
      else if leb cfg.regime_min_confirm_bars c.pending_count
      then at_switch prev cand cfg month price h4 (record s {
        confirm_v6 = record c { current = cand; pending_count = 0 };
        switches_v6 = count_switch prev cand s.switches_v6;
      })
      else ok (record s { confirm_v6 = c })

  -- The bar behind the regime.
  unfoldable pub trade_v6 :
      Config F → MarketRegime → BarKeys → F → List (Ohlc F) → List (Ohlc F) → Book F → Run (Book F)
  unfolding step_both
  trade_v6 cfg regime keys price day h4 b =
      let blocked = risk_blocked cfg keys b.ledger in
      (if is_flat b && not blocked then enter_trend cfg regime day h4 b else ok b) >>= λ b'.
      step_both cfg.risk_capital_usdt keys price (λ d pos. step_position d cfg pos price h4) b'

  -- A bar with too few days before it changes nothing.
  unfoldable pub bar_v6 :
      Config F
      → List (KlineRecord F)
      → List (KlineRecord F)
      → KlineRecord F
      → StateV6 F
      → Run (StateV6 F)
  unfolding detect_regime route_v6 trade_v6 day_key year_week_key month_key
  bar_v6 cfg day_data seen k s =
      let t = k.open_time in
      let day = days_until t day_data in
      let h4 = bars_to seen k in
      if ltb (length day) (cfg.ema_filter_period + cfg.ema200_slope_lookback + 2) then ok s else (do
        cand ← detect_regime cfg day
        s' ← route_v6 cfg cand (month_key t) k.close h4 s
        b ←
            trade_v6 cfg s'.confirm_v6.current (keys_by_year t) k.close day h4
              (over_ledger pause_less s'.book_v6)
        ok (record s' { book_v6 = b }))

  abbrev pub state_v6 : StateV6 F
  state_v6 = record {
    book_v6 = empty_book;
    confirm_v6 = confirm_start;
    switches_v6 = [];
    switch_pnl = of_ℕ 0;
  }

  abbrev pub summary_v6 : (List F → List F) → StateV6 F → ReplayResult F
  summary_v6 in_order s = summary (record (summarise in_order "v6" s.book_v6.ledger) {
    regime_switches = s.switches_v6;
    switch_profit = s.switch_pnl;
  })

  unfoldable pub run_v6_replay :
      (List F → List F)
      → Config F
      → List (KlineRecord F)
      → List (KlineRecord F)
      → ℕ
      → Run (ReplayResult F)
  unfolding bar_v6 each_bar summarise
  run_v6_replay in_order cfg day_data h4_data start = do
    s ← each_bar (λ t. ltb t start) (bar_v6 (defaults_v6 cfg) day_data) state_v6 [] h4_data
    ok (summary_v6 in_order s)
