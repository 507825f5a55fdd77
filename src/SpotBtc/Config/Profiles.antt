-- ===== src/SpotBtc/Config/Profiles.antt =====
-- strategies/spot_btc_conservative_v1/config.go: the profiles that change another one.
use cryptotips.Base.{true}
use cryptotips.SpotBtc.Config.{
  mean_reversion, momentum_factor, trend_breakout, regime_router_v10, regime_router_v11,
  regime_router_v12, regime_router_v13, regime_router_v6, regime_router_v7, regime_router_v8,
  regime_router_v9, v3_config, v4_config, Config,
}
use cryptotips.Float.{of_ℕ, dec, Float}

module _ {F : Type 0} ⦃fl : Float F⦄ where
  unfoldable pub v5_trend_breakout_config : Config F
  v5_trend_breakout_config = record v4_config {
    strategy_id = "btc_trend_breakout_v5";
    strategy_style = trend_breakout;
    core_allocation_pct = of_ℕ 0;
    secondary_breakout_lookback = 12;
    secondary_breakout_buffer_pct = dec 15 4;
    volume_min_ratio = of_ℕ 1;
    atr_min_pct = dec 6 3;
    max_hold_bars = 24;
  }

  unfoldable pub v5_mean_reversion_config : Config F
  v5_mean_reversion_config = record v3_config {
    strategy_id = "btc_mean_reversion_v5";
    strategy_style = mean_reversion;
    ema_filter_period = 120;
    ema_pullback = 20;
    trail_atr_multiplier = of_ℕ 1;
    max_hold_bars = 18;
    atr_min_pct = dec 4 3;
    atr_max_pct = dec 4 2;
    volume_min_ratio = dec 85 2;
  }

  unfoldable pub v5_momentum_factor_config : Config F
  v5_momentum_factor_config = record v4_config {
    strategy_id = "btc_momentum_factor_v5";
    strategy_style = momentum_factor;
    core_allocation_pct = of_ℕ 0;
    ema_filter_period = 100;
    ema_pullback = 21;
    ema200_min_slope = dec 3 4;
    volume_min_ratio = dec 9 1;
    secondary_breakout_lookback = 10;
    secondary_breakout_buffer_pct = dec 8 4;
    max_hold_bars = 26;
  }

  unfoldable pub v6_regime_config : Config F
  v6_regime_config = record v5_mean_reversion_config {
    strategy_id = "btc_regime_router_v6";
    strategy_style = regime_router_v6;
    ema_filter_period = 200;
    ema200_slope_lookback = 7;
    ema200_min_slope = dec 4 4;
    regime_vol_period = 20;
    regime_vol_converge_pct = dec 18 3;
    regime_min_confirm_bars = 2;
    bear_leverage = of_ℕ 1;
    switch_tp1_pct = dec 5 1;
    switch_tp2_pct = dec 3 1;
    switch_tp3_pct = dec 2 1;
    switch_trail_atr_multiplier = of_ℕ 1;
    max_hold_bars = 28;
    regime_timeframe = "1d";
  }

  unfoldable pub v7_regime_config : Config F
  v7_regime_config = record v6_regime_config {
    strategy_id = "btc_regime_router_v7_calibrated";
    strategy_style = regime_router_v7;
    regime_timeframe = "auto";
  }

  unfoldable pub v8_config : Config F
  v8_config = record v7_regime_config {
    strategy_id = "btc_regime_router_v8_weekly";
    strategy_style = regime_router_v8;
    regime_timeframe = "1w";
    regime_min_confirm_bars = 2;
    regime_min_stay_bars = 3;
    regime_hysteresis = dec 12 2;
    cooldown_bars = 4;
    max_entries_per_week = 2;
    min_signal_strength = dec 58 2;
    bear_leverage = of_ℕ 1;
    switch_tp1_pct = dec 25 2;
    switch_tp2_pct = of_ℕ 0;
    switch_tp3_pct = dec 75 2;
    trail_atr_multiplier = dec 135 2;
    switch_trail_atr_multiplier = dec 11 1;
    max_hold_bars = 0;
    cost_per_side_pct = dec 1 3;
    short_funding_apr = dec 5 2;
  }

  unfoldable pub v9_config : Config F
  v9_config = record v8_config {
    strategy_id = "btc_regime_router_v9_range_active";
    strategy_style = regime_router_v9;
    cooldown_bars = 6;
    max_entries_per_week = 3;
    min_signal_strength = dec 6 1;
    range_lookback_days = 20;
    range_entry_atr_buffer = dec 6 1;
    range_breakout_atr_buffer = dec 55 2;
    range_mid_exit_ratio = dec 6 1;
    range_max_hold_bars = 18;
    range_min_width_atr = dec 24 1;
    range_min_signal_strength = dec 62 2;
  }

  unfoldable pub v10_config : Config F
  v10_config = record v9_config {
    strategy_id = "btc_regime_router_v10_startpoint_only";
    strategy_style = regime_router_v10;
    bear_leverage = of_ℕ 2;
  }

  unfoldable pub v11a_config : Config F
  v11a_config = record v10_config {
    strategy_id = "btc_regime_router_v11_sprint";
    strategy_style = regime_router_v11;
    bull_alloc_min = dec 7 1;
    bull_alloc_max = dec 95 2;
    bull_signal_floor = dec 5 1;
    range_base_alloc = dec 22 2;
    range_trend_alloc_boost = dec 1 1;
    range_exit_ema_buffer_atr = dec 55 2;
    range_cost_guard_atr = of_ℕ 1;
    bear_signal_floor = dec 78 2;
    bear_momentum_floor = fl.neg (dec 28 3);
    bear_leverage = dec 18 1;
    bear_leverage_cap = dec 18 1;
    bear_require_quality = true;
    cooldown_bars = 2;
    max_entries_per_week = 4;
    regime_min_stay_bars = 1;
    regime_hysteresis = of_ℕ 0;
  }

  unfoldable pub v11b_config : Config F
  v11b_config = record v11a_config {
    bull_alloc_max = dec 85 2;
    bull_signal_floor = dec 58 2;
    range_base_alloc = dec 16 2;
    range_trend_alloc_boost = dec 6 2;
    range_exit_ema_buffer_atr = dec 45 2;
    bear_signal_floor = dec 84 2;
    bear_momentum_floor = fl.neg (dec 35 3);
    bear_leverage = dec 12 1;
    bear_leverage_cap = dec 12 1;
    cooldown_bars = 4;
    max_entries_per_week = 3;
  }

  unfoldable pub v11_config : Config F
  v11_config = record v11a_config { bear_signal_floor = dec 74 2 }

  unfoldable pub v12a_config : Config F
  v12a_config = record v11b_config {
    strategy_id = "btc_regime_router_v12_cost_robust";
    strategy_style = regime_router_v12;
    cooldown_bars = 10;
    max_entries_per_week = 2;
    regime_min_confirm_bars = 2;
    regime_min_stay_bars = 3;
    regime_hysteresis = dec 56 2;
    bull_alloc_min = dec 6 1;
    bull_alloc_max = dec 8 1;
    bull_signal_floor = dec 62 2;
    range_base_alloc = dec 8 2;
    range_trend_alloc_boost = dec 2 2;
    range_exit_ema_buffer_atr = dec 48 2;
    range_cost_guard_atr = dec 135 2;
    bear_signal_floor = dec 9 1;
    bear_momentum_floor = fl.neg (dec 45 3);
    bear_leverage = of_ℕ 1;
    bear_leverage_cap = of_ℕ 1;
    bear_require_quality = true;
  }

  unfoldable pub v12b_config : Config F
  v12b_config = record v12a_config {
    bull_alloc_max = dec 76 2;
    range_base_alloc = dec 6 2;
    range_trend_alloc_boost = dec 1 2;
    bear_signal_floor = dec 92 2;
    cooldown_bars = 12;
    max_entries_per_week = 1;
    regime_min_confirm_bars = 3;
    regime_hysteresis = dec 6 1;
    range_cost_guard_atr = dec 155 2;
  }

  unfoldable pub v12_config : Config F
  v12_config = record v12a_config {
    bull_alloc_max = dec 79 2;
    range_base_alloc = dec 7 2;
    bear_signal_floor = dec 91 2;
    cooldown_bars = 11;
    regime_min_confirm_bars = 2;
    regime_min_stay_bars = 3;
    regime_hysteresis = dec 58 2;
    range_cost_guard_atr = dec 145 2;
  }

  unfoldable pub v13a_config : Config F
  v13a_config = record v12_config {
    strategy_id = "btc_regime_router_v13_bull_core";
    strategy_style = regime_router_v13;
    bull_alloc_min = dec 68 2;
    bull_alloc_max = dec 9 1;
    bull_signal_floor = dec 54 2;
    min_signal_strength = dec 74 2;
    range_base_alloc = dec 1 1;
    range_trend_alloc_boost = dec 3 2;
    range_cost_guard_atr = dec 16 1;
    regime_min_confirm_bars = 3;
    regime_min_stay_bars = 4;
    regime_hysteresis = dec 62 2;
    cooldown_bars = 12;
    max_entries_per_week = 2;
    bear_signal_floor = dec 92 2;
    bear_momentum_floor = fl.neg (dec 45 3);
  }

  unfoldable pub v13b_config : Config F
  v13b_config = record v13a_config {
    bull_alloc_min = dec 72 2;
    bull_alloc_max = dec 94 2;
    bull_signal_floor = dec 56 2;
    min_signal_strength = dec 76 2;
    range_base_alloc = dec 8 2;
    range_trend_alloc_boost = dec 2 2;
    regime_min_confirm_bars = 3;
    regime_min_stay_bars = 5;
    regime_hysteresis = dec 64 2;
    cooldown_bars = 13;
    max_entries_per_week = 1;
    bear_signal_floor = dec 93 2;
  }

  unfoldable pub v13_config : Config F
  v13_config = record v13a_config {
    bull_alloc_min = dec 7 1;
    bull_alloc_max = dec 92 2;
    bull_signal_floor = dec 55 2;
    min_signal_strength = dec 75 2;
    range_base_alloc = dec 9 2;
    range_trend_alloc_boost = dec 25 3;
    regime_min_confirm_bars = 3;
    regime_min_stay_bars = 4;
    regime_hysteresis = dec 63 2;
    cooldown_bars = 12;
    max_entries_per_week = 2;
    bear_signal_floor = dec 92 2;
  }
