-- ===== src/SpotBtc/Config/Periods.antt =====
-- Every profile has periods that the indicators can be called with.
-- The profiles of config.go.
use cryptotips.Base.{arith}
use cryptotips.SpotBtc.Signal.Safe.{HasPeriods}
use cryptotips.SpotBtc.Config.Profiles.{
  v13_config, v13b_config, v13a_config, v12_config, v12b_config, v12a_config, v11_config,
  v11b_config, v11a_config, v10_config, v9_config, v8_config, v7_regime_config, v6_regime_config,
  v5_momentum_factor_config, v5_mean_reversion_config, v5_trend_breakout_config,
}
use cryptotips.SpotBtc.Config.{v4_config, v3_config, legacy_optimized_config, Config}
use cryptotips.Float.{Float}

pub data Profile : Type 0 where
  legacy_optimized v3 v4 v5_trend_breakout v5_mean_reversion v5_momentum_factor v6_regime v7_regime
        v8 v9 v10 v11a v11b v11 v12a v12b v12 v13a v13b v13 :
      Profile

module _ {F : Type 0} ⦃fl : Float F⦄ where
  abbrev pub config_of : Profile → Config F
  config_of legacy_optimized = legacy_optimized_config
  config_of v3 = v3_config
  config_of v4 = v4_config
  config_of v5_trend_breakout = v5_trend_breakout_config
  config_of v5_mean_reversion = v5_mean_reversion_config
  config_of v5_momentum_factor = v5_momentum_factor_config
  config_of v6_regime = v6_regime_config
  config_of v7_regime = v7_regime_config
  config_of v8 = v8_config
  config_of v9 = v9_config
  config_of v10 = v10_config
  config_of v11a = v11a_config
  config_of v11b = v11b_config
  config_of v11 = v11_config
  config_of v12a = v12a_config
  config_of v12b = v12b_config
  config_of v12 = v12_config
  config_of v13a = v13a_config
  config_of v13b = v13b_config
  config_of v13 = v13_config

  -- In every profile the periods of the averages, of the volume and of the range are at least 1.
  pub config_of-HasPeriods : (p : Profile) → HasPeriods (config_of p)
  unfolding legacy_optimized_config v3_config v4_config v5_trend_breakout_config
      v5_mean_reversion_config v5_momentum_factor_config v6_regime_config v7_regime_config v8_config
      v9_config v10_config v11a_config v11b_config v11_config v12a_config v12b_config v12_config
      v13a_config v13b_config v13_config
  config_of-HasPeriods p = record {
    filter_period = ground arith;
    pullback_period = ground arith;
    volume_period = ground arith;
    range_period = ground arith;
  }
