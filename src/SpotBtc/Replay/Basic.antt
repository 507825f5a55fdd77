-- ===== src/SpotBtc/Replay/Basic.antt =====
-- strategies/spot_btc_conservative_v1/replay.go: runProfileReplayInRange, the loop of the other profiles.
use cryptotips.SpotBtc.Signal.Rules.{evaluate_signal}
use cryptotips.SpotBtc.Replay.V7.{keys_by_year}
use cryptotips.Base.Texts.{same_text}
use cryptotips.SpotBtc.Replay.V6.{scored_only}
use cryptotips.SpotBtc.Replay.Candles.{out_of_window, days_until, last_kline}
use cryptotips.SpotBtc.Position.{build_position}
use cryptotips.Models.{KlineRecord}
use Prim.Native.String.{String}
use cryptotips.SpotBtc.Signal.{Ohlc, SignalResult}
use cryptotips.SpotBtc.Replay.Steps.{step_position}
use cryptotips.SpotBtc.Config.{Config}
use cryptotips.SpotBtc.Replay.{long, opened_at, no_position, ReplayPosition}
use cryptotips.SpotBtc.Replay.Strength.{evaluate_trend_only}
use cryptotips.SpotBtc.Replay.Book.{bars_to, each_bar}
use cryptotips.SpotBtc.Replay.Times.{month_key, year_week_key, day_key}
use cryptotips.Base.{[], true, not, false, ◌&&◌, if◌then◌else◌, ℕ, Bool, List}
use cryptotips.Float.{dec, ◌≤?◌, ◌⊕◌, ◌⊘◌, of_ℕ, ◌<?◌, ◌⊗◌, ◌⊖◌, Float}
use cryptotips.SpotBtc.Replay.Ledger.{
  pause_less, in_limits, risk_blocked, summary, ReplayResult, counted, earned, scored, BarKeys,
  marked, summarise, empty_ledger, Ledger,
}
use cryptotips.Base.Outcome.{ok, Run, ◌>>=◌}

-- The position trades by EvaluateSignal; v4 holds a core beside it.
pub record StateBasic (F : Type 0) : Type 0 where
  pub ledger_basic : Ledger F
  pub pos : ReplayPosition F
  pub core_active : Bool
  pub core_qty : F
  pub core_entry : F
  pub core_sum : F
  pub tactical_sum : F

module _ {F : Type 0} ⦃fl : Float F⦄ where
  abbrev pub core_alloc_of : Config F → F
  core_alloc_of cfg =
      let floor = if cfg.core_allocation_pct <? of_ℕ 0 then of_ℕ 0 else cfg.core_allocation_pct in
      if dec 9 1 <? floor then dec 9 1 else floor

  abbrev pub tactical_capital_of : Config F → F
  tactical_capital_of cfg =
      let tactical = cfg.risk_capital_usdt ⊗ (of_ℕ 1 ⊖ core_alloc_of cfg) in
      if tactical ≤? of_ℕ 0 then cfg.risk_capital_usdt else tactical

  abbrev pub core_bought : Config F → F → StateBasic F → StateBasic F
  core_bought cfg price s =
      if of_ℕ 0 <? price
      then record s {
        core_qty = cfg.risk_capital_usdt ⊗ core_alloc_of cfg ⊘ price;
        core_entry = price;
        core_active = true;
      }
      else s

  abbrev pub core_gain : F → StateBasic F → F
  core_gain price s = (price ⊖ s.core_entry) ⊗ s.core_qty

  -- The profit of the core goes to the sums.
  abbrev pub core_booked : Config F → ℕ → F → StateBasic F → StateBasic F
  core_booked cfg month price s =
      let pnl = core_gain price s in
      record s {
        ledger_basic = earned cfg.risk_capital_usdt month pnl s.ledger_basic;
        core_sum = s.core_sum ⊕ pnl;
      }

  abbrev pub core_sold : Config F → ℕ → F → StateBasic F → StateBasic F
  core_sold cfg month price s = record (core_booked cfg month price s) {
    core_active = false;
    core_qty = of_ℕ 0;
    core_entry = of_ℕ 0;
  }

  abbrev pub core_by_trend : Config F → ℕ → F → Bool → StateBasic F → StateBasic F
  core_by_trend cfg month price trend_on s =
      if trend_on && not s.core_active
      then core_bought cfg price s
      else if not trend_on && s.core_active
      then core_sold cfg month price s
      else s

  -- The block of the core, for v4 with an allocation.
  unfoldable pub step_core :
      Bool → Config F → ℕ → F → List (Ohlc F) → List (Ohlc F) → StateBasic F → Run (StateBasic F)
  unfolding evaluate_trend_only
  step_core is_v4 cfg month price day h4 s =
      if is_v4 && (of_ℕ 0 <? core_alloc_of cfg)
      then evaluate_trend_only cfg day h4
        >>= (λ trend_on. ok (core_by_trend cfg month price trend_on s))
      else ok s

  abbrev pub trade_config : Bool → Config F → Config F
  trade_config is_v4 cfg =
      if is_v4 then record cfg { risk_capital_usdt = tactical_capital_of cfg } else cfg

  abbrev pub open_basic : Bool → Config F → SignalResult F → StateBasic F → StateBasic F
  open_basic is_v4 cfg sig s =
      let plan = build_position (trade_config is_v4 cfg) sig.entry_price sig.stop_loss in
      if sig.should_enter && not (plan.qty ≤? of_ℕ 0)
      then record s { pos = opened_at sig.entry_price sig.stop_loss plan }
      else s

  -- Three losses in a row pause v4 only.
  abbrev pub scored_basic : Bool → F → Ledger F → Ledger F
  scored_basic is_v4 pnl l = if is_v4 then scored pnl l else scored_only pnl l

  -- A closed position: the sums, the drawdown, and for v4 the limits.
  abbrev pub close_basic : Bool → Config F → BarKeys → F → F → StateBasic F → StateBasic F
  close_basic is_v4 cfg keys price pnl s =
      let l =
        counted
          (scored_basic is_v4 pnl (earned cfg.risk_capital_usdt keys.month pnl s.ledger_basic)) in
      let equity = if s.core_active then l.net ⊕ core_gain price s else l.net in
      let after = marked equity l in
      record s {
        ledger_basic = if is_v4 then in_limits keys pnl after else after;
        pos = no_position;
        tactical_sum = s.tactical_sum ⊕ pnl;
      }

  abbrev pub after_step :
      Bool → Config F → BarKeys → F → ReplayPosition F × F × Bool → StateBasic F → StateBasic F
  after_step is_v4 cfg keys price (pos', pnl, closed) s =
      if closed then close_basic is_v4 cfg keys price pnl s else record s { pos = pos' }

  -- The bar behind the core: one of entry and step.
  unfoldable pub trade_basic :
      Bool
      → Config F
      → BarKeys
      → F
      → List (Ohlc F)
      → List (Ohlc F)
      → StateBasic F
      → Run (StateBasic F)
  unfolding step_position marked
  trade_basic is_v4 cfg keys price day h4 s =
      let blocked = is_v4 && risk_blocked cfg keys s.ledger_basic in
      if s.pos.active
      then step_position long cfg s.pos price h4 >>= (λ r. ok (after_step is_v4 cfg keys price r s))
      else if blocked
      then ok s
      else evaluate_signal cfg day h4 >>= (λ sig. ok (open_basic is_v4 cfg sig s))

  unfoldable pub bar_basic :
      Bool
      → Config F
      → List (KlineRecord F)
      → List (KlineRecord F)
      → KlineRecord F
      → StateBasic F
      → Run (StateBasic F)
  unfolding step_core trade_basic day_key year_week_key month_key
  bar_basic is_v4 cfg day_data seen k s =
      let t = k.open_time in
      let day = days_until t day_data in
      let h4 = bars_to seen k in
      step_core is_v4 cfg (month_key t) k.close day h4 s >>= λ s1.
      trade_basic is_v4 cfg (keys_by_year t) k.close day h4
        (record s1 { ledger_basic = pause_less s1.ledger_basic })

  abbrev pub state_basic : StateBasic F
  state_basic = record {
    ledger_basic = empty_ledger;
    pos = no_position;
    core_active = false;
    core_qty = of_ℕ 0;
    core_entry = of_ℕ 0;
    core_sum = of_ℕ 0;
    tactical_sum = of_ℕ 0;
  }

  -- A core that is left is valued at the last candle of all.
  abbrev pub core_at_end :
      Bool → Config F → List (KlineRecord F) → StateBasic F → Run (StateBasic F)
  core_at_end is_v4 cfg h4_data s =
      if is_v4 && s.core_active
      then last_kline h4_data >>= (λ k. ok (core_booked cfg (month_key k.open_time) k.close s))
      else ok s

  abbrev pub summary_basic : (List F → List F) → String → StateBasic F → ReplayResult F
  summary_basic in_order name s = summary (record (summarise in_order name s.ledger_basic) {
    core_pnl = s.core_sum;
    tactical_pnl = s.tactical_sum;
  })

  unfoldable pub run_basic_replay :
      (List F → List F)
      → Config F
      → String
      → List (KlineRecord F)
      → List (KlineRecord F)
      → ℕ
      → ℕ
      → Run (ReplayResult F)
  unfolding bar_basic each_bar summarise month_key
  run_basic_replay in_order cfg name day_data h4_data start end =
      let is_v4 = same_text name "v4" in
      (do
        s ← each_bar (out_of_window start end) (bar_basic is_v4 cfg day_data) state_basic [] h4_data
        s' ← core_at_end is_v4 cfg h4_data s
        ok (summary_basic in_order name s'))
