-- ===== src/SpotBtc/Replay/Answers/Profiles.antt =====
-- The replays, with the profiles of config.go.
use cryptotips.SpotBtc.Replay.Answers.Loops.{last_kline-Total, same_periods}
use cryptotips.SpotBtc.Replay.V11.{has_regime, defaults_v11}
use cryptotips.SpotBtc.Replay.V11.Bars.{bars_v11-IsSound}
use cryptotips.SpotBtc.Signal.Safe.{Total, HasPeriods}
use cryptotips.SpotBtc.Replay.V8.Answer.{Answers}
use cryptotips.SpotBtc.Config.Profiles.{
  v13_config, v13b_config, v13a_config, v12_config, v12b_config, v12a_config, v11_config,
  v11b_config, v11a_config, v10_config, v9_config, v8_config, v7_regime_config, v6_regime_config,
  v5_momentum_factor_config, v5_mean_reversion_config, v5_trend_breakout_config,
}
use cryptotips.Models.{KlineRecord}
use cryptotips.SpotBtc.Replay.Ledger.{ReplayResult}
use Prim.Native.String.{String}
use cryptotips.Base.Outcome.{Returns-bind, value, Returns-if, Returns-map, Returns, Run}
use cryptotips.Base.{arith, refl, ◌<◌, [], ◌∷◌, ◌+◌, ◌≤◌, List, ℕ}
use cryptotips.SpotBtc.Replay.V11.Loop.{is_v13_name, run_v11_replay}
use cryptotips.SpotBtc.Config.{Config, v4_config, v3_config, legacy_optimized_config}
use cryptotips.SpotBtc.Config.Periods.{config_of, Profile}
use cryptotips.Float.{of_ℕ, ◌≤?◌, Float}

module _ {F : Type 0} ⦃fl : Float F⦄ where
  -- What the filters and the regime need besides the periods of the rules.
  pub record HasDays (cfg : Config F) : Type 0 where
    pub bear_days : 3 ≤ cfg.ema_filter_period + cfg.ema200_slope_lookback
    pub vol_period : 0 < cfg.regime_vol_period

  pub profile_days : (p : Profile) → HasDays (config_of p)
  unfolding legacy_optimized_config v3_config v4_config v5_trend_breakout_config
      v5_mean_reversion_config v5_momentum_factor_config v6_regime_config v7_regime_config v8_config
      v9_config v10_config v11a_config v11b_config v11_config v12a_config v12b_config v12_config
      v13a_config v13b_config v13_config
  profile_days p = record { bear_days = ground arith; vol_period = ground arith }

  pub Total-of_answer : (n : ℕ) (m : Run (ReplayResult F)) → Returns (Answers n) m → Total m
  Total-of_answer n m h = Returns-map h λ _ _. tt

  pub run_v11_replay-Total :
      (in_order : List F → List F) (cfg : Config F) (name : String)
      (day_data h4_data : List (KlineRecord F)) (start end : ℕ)
      → HasPeriods cfg
      → 3 ≤ cfg.ema_filter_period + cfg.ema200_slope_lookback
      → Total (run_v11_replay in_order cfg name day_data h4_data start end)
  unfolding run_v11_replay
  run_v11_replay-Total in_order cfg name day_data [] start end p three =
      Returns-if (cfg.risk_capital_usdt ≤? of_ℕ 0) (λ _. value tt) λ _. value tt
  run_v11_replay-Total in_order cfg name day_data (k ∷ ks) start end p three =
      Returns-if (cfg.risk_capital_usdt ≤? of_ℕ 0) (λ _. value tt)
        λ _.
          Returns-bind
            (bars_v11-IsSound (is_v13_name name) (defaults_v11 cfg) start end day_data (k ∷ ks)
              (same_periods cfg (defaults_v11 cfg) p refl refl refl refl) three)
            λ s _.
              Returns-bind
                (Returns-if {Good = λ _. Unit {0}} (has_regime s.pos_regime)
                  (λ _. Returns-bind (last_kline-Total k ks) λ _ _. value tt) λ _. value tt)
                λ _ _. value tt
