-- ===== src/SpotBtc/Replay/V11/Entries.antt =====
-- strategies/spot_btc_conservative_v1/replay.go: the entries of runV11Replay.
use cryptotips.SpotBtc.Replay.Maps.{update_at}
use cryptotips.SpotBtc.Signal.{Ohlc}
use cryptotips.SpotBtc.Replay.V9.{or_default_float}
use cryptotips.SpotBtc.Replay.Switch.{last_range}
use cryptotips.SpotBtc.Replay.V11.{add_on_floor, StateV11, not_below, not_above}
use cryptotips.SpotBtc.Replay.{regime_bear, regime_range, regime_bull, MarketRegime}
use cryptotips.SpotBtc.Config.{Config}
use cryptotips.Base.{true, ◌+◌, ◌||◌, some, ◌&&◌, List, not, if◌then◌else◌, ℕ, Bool}
use cryptotips.SpotBtc.Replay.Strength.{
  long_signal_strength, short_signal_strength, recent_momentum, bear_quality_filter,
  is_range_trend_support, signal_strength,
}
use cryptotips.Float.{◌≤?◌, ◌⊕◌, ◌⊖◌, dec, ◌<?◌, ◌⊘◌, of_ℕ, ◌⊗◌, Float}
use cryptotips.Base.Outcome.{ok, Run, ◌>>=◌}

module _ {F : Type 0} ⦃fl : Float F⦄ where
  -- What an entry sets, whatever the regime.
  abbrev pub entered_v11 :
      MarketRegime → Config F → ℕ → ℕ → (price qty stop trail : F) → StateV11 F → StateV11 F
  entered_v11 r cfg t week price qty stop trail s = record s {
    pos_regime = some r;
    entry_v11 = price;
    qty_v11 = qty;
    entry_time = t;
    stop_price = stop;
    trail_price = trail;
    cooldown_v11 = cfg.cooldown_bars;
    week_entries = update_at 0 week (λ n. n + 1) s.week_entries;
  }

  -- The share of the capital, by the strength over a floor.
  abbrev pub alloc_by : Config F → F → F → F
  alloc_by cfg strength floor =
      let norm = not_above (of_ℕ 1) (not_below (of_ℕ 0) ((strength ⊖ floor) ⊘ (of_ℕ 1 ⊖ floor))) in
      cfg.bull_alloc_min ⊕ (cfg.bull_alloc_max ⊖ cfg.bull_alloc_min) ⊗ norm

  abbrev pub bull_alloc : Bool → Config F → F → F
  bull_alloc is_v13 cfg strength =
      if not is_v13
      then alloc_by cfg strength cfg.bull_signal_floor
      else if (add_on_floor cfg ≤? strength) && (cfg.bull_alloc_min <? cfg.bull_alloc_max)
      then alloc_by cfg strength (add_on_floor cfg)
      else not_above cfg.bull_alloc_max (not_below (of_ℕ 0) cfg.bull_alloc_min)

  abbrev pub core_part : Bool → Config F → F → F → F → F
  core_part is_v13 cfg price qty old =
      if is_v13 then not_above qty (cfg.risk_capital_usdt ⊗ cfg.bull_alloc_min ⊘ price) else old

  unfoldable pub enter_bull_v11 :
      Bool → Config F → F → ℕ → ℕ → List (Ohlc F) → List (Ohlc F) → StateV11 F → Run (StateV11 F)
  unfolding signal_strength last_range
  enter_bull_v11 is_v13 cfg price t week day h4 s = do
    strength ← long_signal_strength cfg day h4
    let notional = cfg.risk_capital_usdt ⊗ bull_alloc is_v13 cfg strength
    let qty = notional ⊘ price
    if (strength <? cfg.bull_signal_floor) || (price ≤? of_ℕ 0) || (notional ≤? of_ℕ 0)
        then ok s
        else (do
          atr ← last_range h4 cfg.atr_period
          ok (
              entered_v11 regime_bull cfg t week price qty (price ⊖ atr ⊗ dec 18 1)
                (price ⊖ atr ⊗ cfg.trail_atr_multiplier)
                (record s { bull_core = core_part is_v13 cfg price qty s.bull_core })))

  -- A range that does not pay for its costs is left alone.
  abbrev pub too_costly : Config F → F → F → Bool
  too_costly cfg price atr =
      (of_ℕ 0 <? cfg.cost_per_side_pct)
      && (atr ⊗ cfg.range_cost_guard_atr <? price ⊗ cfg.cost_per_side_pct ⊗ of_ℕ 2 ⊗ dec 110 2)

  unfoldable pub enter_range_v11 :
      Config F → F → ℕ → ℕ → List (Ohlc F) → List (Ohlc F) → StateV11 F → Run (StateV11 F)
  unfolding is_range_trend_support last_range
  enter_range_v11 cfg price t week day h4 s = do
    support ← is_range_trend_support cfg day h4
    let alloc =
        if support then cfg.range_base_alloc ⊕ cfg.range_trend_alloc_boost else cfg.range_base_alloc
    if (alloc ≤? of_ℕ 0) || (dec 45 2 <? alloc) || (price ≤? of_ℕ 0) then ok s else (do
      atr ← last_range h4 cfg.atr_period
      ok (
          if (atr ≤? of_ℕ 0) || too_costly cfg price atr
          then s
          else entered_v11 regime_range cfg t week price (cfg.risk_capital_usdt ⊗ alloc ⊘ price)
              (price ⊖ atr ⊗ dec 15 1) (price ⊖ atr ⊗ dec 15 1) s))

  abbrev pub bear_leverage_of : Config F → F
  bear_leverage_of cfg =
      not_above cfg.bear_leverage_cap (or_default_float (of_ℕ 1) cfg.bear_leverage)

  abbrev pub bear_notional : Config F → F → F
  bear_notional cfg strength =
      cfg.risk_capital_usdt
      ⊗ fl.math_min (dec 75 2) (dec 35 2 ⊕ (strength ⊖ cfg.bear_signal_floor) ⊗ dec 14 1)
      ⊗ bear_leverage_of cfg

  -- The short behind the filter.
  unfoldable pub enter_short_v11 :
      Config F → F → ℕ → ℕ → List (Ohlc F) → List (Ohlc F) → StateV11 F → Run (StateV11 F)
  unfolding signal_strength recent_momentum last_range
  enter_short_v11 cfg price t week day h4 s = do
    strength ← short_signal_strength cfg day h4
    if strength <? cfg.bear_signal_floor then ok s else (do
      mom ← recent_momentum day 5
      let notional = bear_notional cfg strength
      if (cfg.bear_momentum_floor <? mom) || (price ≤? of_ℕ 0) || (notional ≤? of_ℕ 0)
          then ok s
          else (do
            atr ← last_range h4 cfg.atr_period
            ok (
                entered_v11 regime_bear cfg t week price (notional ⊘ price) (price ⊕ atr ⊗ dec 16 1)
                  (price ⊕ atr ⊗ cfg.trail_atr_multiplier) s)))

  unfoldable pub enter_bear_v11 :
      Config F → F → ℕ → ℕ → List (Ohlc F) → List (Ohlc F) → StateV11 F → Run (StateV11 F)
  unfolding enter_short_v11 bear_quality_filter
  enter_bear_v11 cfg price t week day h4 s =
      (if cfg.bear_require_quality then bear_quality_filter cfg day h4 else ok true) >>= λ good.
      if good then enter_short_v11 cfg price t week day h4 s else ok s

  abbrev pub enter_v11 :
      MarketRegime
      → Bool
      → Config F
      → F
      → ℕ
      → ℕ
      → List (Ohlc F)
      → List (Ohlc F)
      → StateV11 F
      → Run (StateV11 F)
  enter_v11 regime_bull is_v13 cfg price t week day h4 s =
      enter_bull_v11 is_v13 cfg price t week day h4 s
  enter_v11 regime_range is_v13 cfg price t week day h4 s =
      enter_range_v11 cfg price t week day h4 s
  enter_v11 regime_bear is_v13 cfg price t week day h4 s = enter_bear_v11 cfg price t week day h4 s
