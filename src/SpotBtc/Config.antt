-- ===== src/SpotBtc/Config.antt =====
-- strategies/spot_btc_conservative_v1/config.go: the parameters of the rules, and their first profiles.
-- Counts and periods are not negative in any profile.
pub mod Profiles
pub mod Periods
use cryptotips.Base.{false, Bool, ℕ}
use cryptotips.Float.{dec, of_ℕ, Float}
use Prim.Native.String.{String}

-- The values of StrategyStyle.
pub data Style : Type 0 where
  trend_pullback trend_breakout mean_reversion momentum_factor regime_router_v6 regime_router_v7
        regime_router_v8 regime_router_v9 regime_router_v10 regime_router_v11 regime_router_v12
        regime_router_v13 :
      Style

pub record Config (F : Type 0) : Type 0 where
  pub strategy_id : String
  pub strategy_style : Style
  pub symbol : String
  pub risk_capital_usdt : F
  pub risk_per_trade : F
  pub max_daily_loss_pct : F
  pub max_weekly_loss_pct : F
  pub ema_filter_period : ℕ
  pub ema_pullback : ℕ
  pub pullback_tol : F
  pub ema200_slope_lookback : ℕ
  pub ema200_min_slope : F
  pub volume_sma_period : ℕ
  pub volume_min_ratio : F
  pub atr_period : ℕ
  pub atr_min_pct : F
  pub atr_max_pct : F
  pub trail_atr_multiplier : F
  pub secondary_breakout_lookback : ℕ
  pub secondary_breakout_buffer_pct : F
  pub max_hold_bars : ℕ
  pub core_allocation_pct : F
  -- v6 regime routing
  pub regime_vol_period : ℕ
  pub regime_vol_converge_pct : F
  pub regime_min_confirm_bars : ℕ
  pub bear_leverage : F
  pub switch_tp1_pct : F
  pub switch_tp2_pct : F
  pub switch_tp3_pct : F
  pub switch_trail_atr_multiplier : F
  -- v7 calibrated regime routing
  pub regime_timeframe : String
  -- v8 frequency/quality controls
  pub cooldown_bars : ℕ
  pub max_entries_per_week : ℕ
  pub min_signal_strength : F
  pub regime_min_stay_bars : ℕ
  pub regime_hysteresis : F
  -- v9 range-active controls
  pub range_lookback_days : ℕ
  pub range_entry_atr_buffer : F
  pub range_breakout_atr_buffer : F
  pub range_mid_exit_ratio : F
  pub range_max_hold_bars : ℕ
  pub range_min_width_atr : F
  pub range_min_signal_strength : F
  -- v11 sprint controls (startpoint-driven regime)
  pub bull_alloc_min : F
  pub bull_alloc_max : F
  pub bull_signal_floor : F
  pub range_base_alloc : F
  pub range_trend_alloc_boost : F
  pub range_exit_ema_buffer_atr : F
  pub range_cost_guard_atr : F
  pub bear_signal_floor : F
  pub bear_momentum_floor : F
  pub bear_leverage_cap : F
  pub bear_require_quality : Bool
  -- replay transaction cost model
  pub cost_per_side_pct : F
  pub short_funding_apr : F

module _ {F : Type 0} ⦃fl : Float F⦄ where
  unfoldable pub legacy_optimized_config : Config F
  legacy_optimized_config = record {
    strategy_id = "spot_btc_conservative_v1";
    strategy_style = trend_pullback;
    symbol = "BTCUSDT";
    risk_capital_usdt = of_ℕ 10000;
    risk_per_trade = dec 8 3;
    max_daily_loss_pct = dec 15 3;
    max_weekly_loss_pct = dec 4 2;
    ema_filter_period = 200;
    ema_pullback = 20;
    pullback_tol = dec 3 3;
    ema200_slope_lookback = 5;
    ema200_min_slope = dec 1 3;
    volume_sma_period = 20;
    volume_min_ratio = dec 105 2;
    atr_period = 14;
    atr_min_pct = dec 8 3;
    atr_max_pct = dec 5 2;
    trail_atr_multiplier = dec 12 1;
    secondary_breakout_lookback = 0;
    secondary_breakout_buffer_pct = of_ℕ 0;
    max_hold_bars = 0;
    core_allocation_pct = of_ℕ 0;
    regime_vol_period = 20;
    regime_vol_converge_pct = dec 2 2;
    regime_min_confirm_bars = 2;
    bear_leverage = of_ℕ 1;
    switch_tp1_pct = dec 5 1;
    switch_tp2_pct = dec 3 1;
    switch_tp3_pct = dec 2 1;
    switch_trail_atr_multiplier = of_ℕ 1;
    regime_timeframe = "";
    cooldown_bars = 0;
    max_entries_per_week = 0;
    min_signal_strength = of_ℕ 0;
    regime_min_stay_bars = 0;
    regime_hysteresis = of_ℕ 0;
    range_lookback_days = 0;
    range_entry_atr_buffer = of_ℕ 0;
    range_breakout_atr_buffer = of_ℕ 0;
    range_mid_exit_ratio = of_ℕ 0;
    range_max_hold_bars = 0;
    range_min_width_atr = of_ℕ 0;
    range_min_signal_strength = of_ℕ 0;
    bull_alloc_min = of_ℕ 0;
    bull_alloc_max = of_ℕ 0;
    bull_signal_floor = of_ℕ 0;
    range_base_alloc = of_ℕ 0;
    range_trend_alloc_boost = of_ℕ 0;
    range_exit_ema_buffer_atr = of_ℕ 0;
    range_cost_guard_atr = of_ℕ 0;
    bear_signal_floor = of_ℕ 0;
    bear_momentum_floor = of_ℕ 0;
    bear_leverage_cap = of_ℕ 0;
    bear_require_quality = false;
    cost_per_side_pct = of_ℕ 0;
    short_funding_apr = of_ℕ 0;
  }

  unfoldable pub v3_config : Config F
  v3_config = record {
    strategy_id = "spot_btc_conservative_v1";
    strategy_style = trend_pullback;
    symbol = "BTCUSDT";
    risk_capital_usdt = of_ℕ 10000;
    risk_per_trade = dec 8 3;
    max_daily_loss_pct = dec 15 3;
    max_weekly_loss_pct = dec 4 2;
    ema_filter_period = 200;
    ema_pullback = 20;
    pullback_tol = dec 45 4;
    ema200_slope_lookback = 5;
    ema200_min_slope = dec 6 4;
    volume_sma_period = 20;
    volume_min_ratio = dec 95 2;
    atr_period = 14;
    atr_min_pct = dec 6 3;
    atr_max_pct = dec 5 2;
    trail_atr_multiplier = dec 12 1;
    secondary_breakout_lookback = 6;
    secondary_breakout_buffer_pct = dec 8 4;
    max_hold_bars = 24;
    core_allocation_pct = of_ℕ 0;
    regime_vol_period = 20;
    regime_vol_converge_pct = dec 2 2;
    regime_min_confirm_bars = 2;
    bear_leverage = of_ℕ 1;
    switch_tp1_pct = dec 5 1;
    switch_tp2_pct = dec 3 1;
    switch_tp3_pct = dec 2 1;
    switch_trail_atr_multiplier = of_ℕ 1;
    regime_timeframe = "";
    cooldown_bars = 0;
    max_entries_per_week = 0;
    min_signal_strength = of_ℕ 0;
    regime_min_stay_bars = 0;
    regime_hysteresis = of_ℕ 0;
    range_lookback_days = 0;
    range_entry_atr_buffer = of_ℕ 0;
    range_breakout_atr_buffer = of_ℕ 0;
    range_mid_exit_ratio = of_ℕ 0;
    range_max_hold_bars = 0;
    range_min_width_atr = of_ℕ 0;
    range_min_signal_strength = of_ℕ 0;
    bull_alloc_min = of_ℕ 0;
    bull_alloc_max = of_ℕ 0;
    bull_signal_floor = of_ℕ 0;
    range_base_alloc = of_ℕ 0;
    range_trend_alloc_boost = of_ℕ 0;
    range_exit_ema_buffer_atr = of_ℕ 0;
    range_cost_guard_atr = of_ℕ 0;
    bear_signal_floor = of_ℕ 0;
    bear_momentum_floor = of_ℕ 0;
    bear_leverage_cap = of_ℕ 0;
    bear_require_quality = false;
    cost_per_side_pct = of_ℕ 0;
    short_funding_apr = of_ℕ 0;
  }

  unfoldable pub v4_config : Config F
  v4_config = record {
    strategy_id = "spot_btc_conservative_v1";
    strategy_style = trend_pullback;
    symbol = "BTCUSDT";
    risk_capital_usdt = of_ℕ 10000;
    risk_per_trade = dec 8 3;
    max_daily_loss_pct = dec 15 3;
    max_weekly_loss_pct = dec 4 2;
    ema_filter_period = 200;
    ema_pullback = 20;
    pullback_tol = dec 4 3;
    ema200_slope_lookback = 5;
    ema200_min_slope = dec 5 4;
    volume_sma_period = 20;
    volume_min_ratio = dec 9 1;
    atr_period = 14;
    atr_min_pct = dec 5 3;
    atr_max_pct = dec 5 2;
    trail_atr_multiplier = dec 11 1;
    secondary_breakout_lookback = 8;
    secondary_breakout_buffer_pct = dec 5 4;
    max_hold_bars = 30;
    core_allocation_pct = dec 6 1;
    regime_vol_period = 20;
    regime_vol_converge_pct = dec 2 2;
    regime_min_confirm_bars = 2;
    bear_leverage = of_ℕ 1;
    switch_tp1_pct = dec 5 1;
    switch_tp2_pct = dec 3 1;
    switch_tp3_pct = dec 2 1;
    switch_trail_atr_multiplier = of_ℕ 1;
    regime_timeframe = "";
    cooldown_bars = 0;
    max_entries_per_week = 0;
    min_signal_strength = of_ℕ 0;
    regime_min_stay_bars = 0;
    regime_hysteresis = of_ℕ 0;
    range_lookback_days = 0;
    range_entry_atr_buffer = of_ℕ 0;
    range_breakout_atr_buffer = of_ℕ 0;
    range_mid_exit_ratio = of_ℕ 0;
    range_max_hold_bars = 0;
    range_min_width_atr = of_ℕ 0;
    range_min_signal_strength = of_ℕ 0;
    bull_alloc_min = of_ℕ 0;
    bull_alloc_max = of_ℕ 0;
    bull_signal_floor = of_ℕ 0;
    range_base_alloc = of_ℕ 0;
    range_trend_alloc_boost = of_ℕ 0;
    range_exit_ema_buffer_atr = of_ℕ 0;
    range_cost_guard_atr = of_ℕ 0;
    bear_signal_floor = of_ℕ 0;
    bear_momentum_floor = of_ℕ 0;
    bear_leverage_cap = of_ℕ 0;
    bear_require_quality = false;
    cost_per_side_pct = of_ℕ 0;
    short_funding_apr = of_ℕ 0;
  }

  abbrev pub default_config : Config F
  default_config = v3_config
