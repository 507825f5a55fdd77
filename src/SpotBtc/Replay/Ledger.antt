-- ===== src/SpotBtc/Replay/Ledger.antt =====
-- strategies/spot_btc_conservative_v1/replay.go: the counters of the loops, and the summary of a replay.
use cryptotips.Indicator.Series.{sum}
use cryptotips.SpotBtc.Replay.Maps.{lookup_or, update_at}
use cryptotips.SpotBtc.Config.{Config}
use cryptotips.SpotBtc.Replay.{short, long, open_value, ReplayShortPosition, ReplayPosition}
use cryptotips.Float.{◌≤?◌, ◌⊗◌, ◌<?◌, ◌⊘◌, of_ℕ, ◌⊕◌, ◌⊖◌, Float}
use cryptotips.Base.{
  ◌||◌, foldl, map, ◌==◌, Bool, [], leb, length, ltb, List, if◌then◌else◌, ◌+◌, ◌-◌, ℕ,
}
use Prim.Native.String.{String}

-- The variables that the loops of v6 to v9 share.
pub record Ledger (F : Type 0) : Type 0 where
  pub wins : ℕ
  pub profits : F
  pub losses_abs : F
  pub net : F
  pub peak : F
  pub max_dd : F
  pub monthly : List (ℕ × F)
  pub trade_count : ℕ
  pub pause_bars : ℕ
  pub consecutive_losses : ℕ
  pub daily_pnl : List (ℕ × F)
  pub weekly_pnl : List (ℕ × F)

-- The keys of a bar's day, week and month.
pub record BarKeys : Type 0 where
  pub day : ℕ
  pub week : ℕ
  pub month : ℕ

pub record ReplaySummary (F : Type 0) : Type 0 where
  pub profile : String
  pub trades : ℕ
  pub win_rate : F
  pub profit_factor : F
  pub max_drawdown : F
  pub net_pnl : F
  pub monthly_returns : List (ℕ × F)
  pub sharpe : F
  pub calmar : F
  pub core_pnl : F
  pub tactical_pnl : F
  pub regime_switches : List (ℕ × ℕ)
  pub switch_profit : F
  pub timeframe : String

-- The errors of the replays.
pub data ReplayResult (F : Type 0) : Type 0 where
  summary : ReplaySummary F → ReplayResult F
  insufficient_bars : ℕ → ReplayResult F
  no_points : ReplayResult F
  invalid_capital : ReplayResult F

module _ {F : Type 0} ⦃fl : Float F⦄ where
  abbrev pub empty_ledger : Ledger F
  empty_ledger = record {
    wins = 0;
    profits = of_ℕ 0;
    losses_abs = of_ℕ 0;
    net = of_ℕ 0;
    peak = of_ℕ 0;
    max_dd = of_ℕ 0;
    monthly = [];
    trade_count = 0;
    pause_bars = 0;
    consecutive_losses = 0;
    daily_pnl = [];
    weekly_pnl = [];
  }

  -- `m[k] += x`
  abbrev pub add_at : ℕ → F → List (ℕ × F) → List (ℕ × F)
  add_at k x m = update_at (of_ℕ 0) k (λ v. v ⊕ x) m

  -- A third loss in a row pauses for six bars.
  abbrev pub paused : Ledger F → Ledger F
  paused l =
      if leb 3 l.consecutive_losses then record l { pause_bars = 6; consecutive_losses = 0 } else l

  abbrev pub won : F → Ledger F → Ledger F
  won pnl l = record l { wins = l.wins + 1; profits = l.profits ⊕ pnl; consecutive_losses = 0 }

  abbrev pub lost : F → Ledger F → Ledger F
  lost pnl l = record l {
    losses_abs = l.losses_abs ⊕ fl.neg pnl;
    consecutive_losses = l.consecutive_losses + 1;
  }

  abbrev pub scored : F → Ledger F → Ledger F
  scored pnl l =
      if of_ℕ 0 <? pnl then won pnl l else if pnl <? of_ℕ 0 then paused (lost pnl l) else l

  -- `net` and `monthly`
  abbrev pub earned : F → ℕ → F → Ledger F → Ledger F
  earned capital month pnl l = record l {
    net = l.net ⊕ pnl;
    monthly = add_at month (pnl ⊘ capital) l.monthly;
  }

  abbrev pub in_limits : BarKeys → F → Ledger F → Ledger F
  in_limits keys pnl l = record l {
    daily_pnl = add_at keys.day pnl l.daily_pnl;
    weekly_pnl = add_at keys.week pnl l.weekly_pnl;
  }

  abbrev pub counted : Ledger F → Ledger F
  counted l = record l { trade_count = l.trade_count + 1 }

  -- v10 and v11 do not count losses in a row.
  abbrev pub tallied : F → Ledger F → Ledger F
  tallied pnl l =
      if of_ℕ 0 <? pnl
      then record l { wins = l.wins + 1; profits = l.profits ⊕ pnl }
      else if pnl <? of_ℕ 0
      then record l { losses_abs = l.losses_abs ⊕ fl.neg pnl }
      else l

  -- The block `if closed { … }`.
  unfoldable pub booked : F → BarKeys → F → Ledger F → Ledger F
  booked capital keys pnl l =
      counted (scored pnl (in_limits keys pnl (earned capital keys.month pnl l)))

  abbrev pub pause_less : Ledger F → Ledger F
  pause_less l = record l { pause_bars = l.pause_bars - 1 }

  abbrev pub risk_blocked : Config F → BarKeys → Ledger F → Bool
  risk_blocked cfg keys l =
      (cfg.risk_capital_usdt ⊗ cfg.max_daily_loss_pct
        ≤? fl.neg (lookup_or (of_ℕ 0) keys.day l.daily_pnl))
      || (cfg.risk_capital_usdt ⊗ cfg.max_weekly_loss_pct
          ≤? fl.neg (lookup_or (of_ℕ 0) keys.week l.weekly_pnl))
      || ltb 0 l.pause_bars

  -- `if equity > peak { peak = equity }`, and the fall from it.
  abbrev pub peak_of : F → F → F
  peak_of peak equity = if peak <? equity then equity else peak

  abbrev pub deeper : F → F → F
  deeper max_dd dd = if max_dd <? dd then dd else max_dd

  abbrev pub equity_of : Ledger F → ReplayPosition F → ReplayShortPosition F → F → F
  equity_of l long_pos short_pos price =
      let with_long = if long_pos.active then l.net ⊕ open_value long long_pos price else l.net in
      if short_pos.active then with_long ⊕ open_value short short_pos price else with_long

  unfoldable pub marked : F → Ledger F → Ledger F
  marked equity l =
      let peak = peak_of l.peak equity in
      record l { peak = peak; max_dd = deeper l.max_dd (peak ⊖ equity) }

  unfoldable pub mean_std : List F → F × F
  mean_std vals =
      if length vals == 0
      then (of_ℕ 0, of_ℕ 0)
      else (let mean = sum vals ⊘ of_ℕ (length vals) in
          if ltb (length vals) 2
          then (mean, of_ℕ 0)
          else (let squares = foldl (λ acc v. acc ⊕ (v ⊖ mean) ⊗ (v ⊖ mean)) (of_ℕ 0) vals in
              (mean, fl.sqrt (squares ⊘ of_ℕ (length vals - 1)))))

  abbrev pub ratio_of : F × F → F
  ratio_of (mean, std) = if of_ℕ 0 <? std then mean ⊘ std ⊗ fl.sqrt (of_ℕ 12) else of_ℕ 0

  -- `range` over a map has no fixed order: `in_order` is the one that it takes.
  unfoldable pub sharpe_of : (List F → List F) → List (ℕ × F) → F
  unfolding mean_std
  sharpe_of in_order monthly =
      if leb 2 (length monthly)
      then ratio_of (mean_std (in_order (map (λ e. e.1) monthly)))
      else of_ℕ 0

  -- The end of each replay, with the fields that all fill in.
  unfoldable pub summarise : (List F → List F) → String → Ledger F → ReplaySummary F
  unfolding sharpe_of
  summarise in_order name l = record {
    profile = name;
    trades = l.trade_count;
    win_rate = if ltb 0 l.trade_count then of_ℕ l.wins ⊘ of_ℕ l.trade_count else of_ℕ 0;
    profit_factor = if of_ℕ 0 <? l.losses_abs then l.profits ⊘ l.losses_abs else of_ℕ 0;
    max_drawdown = l.max_dd;
    net_pnl = l.net;
    monthly_returns = l.monthly;
    sharpe = sharpe_of in_order l.monthly;
    calmar = if of_ℕ 0 <? l.max_dd then l.net ⊘ l.max_dd else of_ℕ 0;
    core_pnl = of_ℕ 0;
    tactical_pnl = of_ℕ 0;
    regime_switches = [];
    switch_profit = of_ℕ 0;
    timeframe = "";
  }
