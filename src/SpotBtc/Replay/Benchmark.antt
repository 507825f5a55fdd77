-- ===== src/SpotBtc/Replay/Benchmark.antt =====
-- strategies/spot_btc_conservative_v1/replay.go: calcBuyHoldBenchmark.
pub mod Drawdown
use cryptotips.SpotBtc.Replay.Maps.{update_at}
use cryptotips.SpotBtc.Replay.Times.{month_key}
use cryptotips.SpotBtc.Replay.Candles.{out_of_window}
use cryptotips.Indicator.Series.{last_or}
use cryptotips.Models.{KlineRecord}
use cryptotips.SpotBtc.Replay.Ledger.{deeper, peak_of, sharpe_of}
use Prim.Native.String.{String}
use cryptotips.Float.{◌≤?◌, ◌⊖◌, of_ℕ, ◌⊗◌, ◌⊘◌, Float}
use cryptotips.Base.{◌||◌, false, ◌==◌, Bool, [], foldl, if◌then◌else◌, ◌∷◌, ℕ, List}

pub record ReplayBenchmark (F : Type 0) : Type 0 where
  pub name : String
  pub initial_capital : F
  pub final_equity : F
  pub bench_net_pnl : F
  pub bench_max_drawdown : F
  pub bench_sharpe : F
  pub bench_monthly : List (ℕ × F)

-- The variables of the loop.
pub record HoldState (F : Type 0) : Type 0 where
  pub hold_peak : F
  pub hold_max_dd : F
  pub month_returns : List (ℕ × F)
  pub month_start : List (ℕ × F)

module _ {F : Type 0} ⦃fl : Float F⦄ where
  abbrev pub in_window : ℕ → ℕ → List (KlineRecord F) → List (KlineRecord F)
  in_window start end [] = []
  in_window start end (k ∷ ks) =
      let rest = in_window start end ks in
      if out_of_window start end k.open_time then rest else k ∷ rest

  -- The equity at which a month began, if it is known.
  abbrev pub month_base : ℕ → F → List (ℕ × F) → F
  month_base m eq [] = eq
  month_base m eq ((j, v) ∷ ms) = if j == m then v else month_base m eq ms

  abbrev pub has_month : ℕ → List (ℕ × F) → Bool
  has_month m [] = false
  has_month m ((j, v) ∷ ms) = j == m || has_month m ms

  unfoldable pub hold_step : F → F → HoldState F → KlineRecord F → HoldState F
  hold_step capital qty s k =
      let eq = qty ⊗ k.close in
      let peak = peak_of s.hold_peak eq in
      let m = month_key k.open_time in
      let base = month_base m eq s.month_start in
      record {
        hold_peak = peak;
        hold_max_dd = deeper s.hold_max_dd (peak ⊖ eq);
        month_returns = update_at (of_ℕ 0) m (λ _. (eq ⊖ base) ⊘ capital) s.month_returns;
        month_start = if has_month m s.month_start then s.month_start else (m, eq) ∷ s.month_start;
      }

  abbrev pub hold_start : F → HoldState F
  hold_start capital = record {
    hold_peak = capital;
    hold_max_dd = of_ℕ 0;
    month_returns = [];
    month_start = [];
  }

  -- The quantity that is held; a price that is not positive counts as 1.
  abbrev pub hold_qty : F → F → F
  hold_qty capital entry = capital ⊘ (if entry ≤? of_ℕ 0 then of_ℕ 1 else entry)

  unfoldable pub hold_over : F → F → List (KlineRecord F) → HoldState F
  unfolding hold_step
  hold_over capital qty series = foldl (hold_step capital qty) (hold_start capital) series

  -- The results, for two candles or more.
  abbrev pub held_result : (List F → List F) → F → F → F → HoldState F → ReplayBenchmark F
  held_result in_order capital qty last s =
      let final = qty ⊗ last in
      record {
        name = "buy_and_hold_10k";
        initial_capital = capital;
        final_equity = final;
        bench_net_pnl = final ⊖ capital;
        bench_max_drawdown = s.hold_max_dd;
        bench_sharpe = sharpe_of in_order s.month_returns;
        bench_monthly = s.month_returns;
      }

  abbrev pub nothing_held : F → ReplayBenchmark F
  nothing_held capital = record {
    name = "buy_and_hold_10k";
    initial_capital = capital;
    final_equity = capital;
    bench_net_pnl = of_ℕ 0;
    bench_max_drawdown = of_ℕ 0;
    bench_sharpe = of_ℕ 0;
    bench_monthly = [];
  }

  abbrev pub hold_series : (List F → List F) → F → List (KlineRecord F) → ReplayBenchmark F
  hold_series in_order capital (first ∷ second ∷ ks) =
      let series = first ∷ second ∷ ks in
      let qty = hold_qty capital first.close in
      held_result in_order capital qty (last_or first series).close (hold_over capital qty series)
  hold_series in_order capital _ = nothing_held capital

  unfoldable pub calc_buy_hold_benchmark :
      (List F → List F) → F → List (KlineRecord F) → ℕ → ℕ → ReplayBenchmark F
  unfolding hold_over sharpe_of
  calc_buy_hold_benchmark in_order capital h4 start end =
      hold_series in_order capital (in_window start end h4)
