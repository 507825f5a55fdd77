-- ===== src/SpotBtc/Replay/Answers/Basic.antt =====
-- The loop of the other profiles does not panic.
use cryptotips.SpotBtc.Replay.Total.Steps.{step_position-Total}
use cryptotips.SpotBtc.Replay.Total.Scores.{evaluate_trend_only-Total}
use cryptotips.SpotBtc.Replay.V7.{keys_by_year}
use cryptotips.SpotBtc.Replay.Answers.Loops.{last_kline-Total, each_bar-Total}
use cryptotips.SpotBtc.Replay.Ledger.{pause_less, risk_blocked}
use cryptotips.SpotBtc.Replay.{long}
use cryptotips.SpotBtc.Replay.Times.{month_key}
use cryptotips.Base.Texts.{same_text}
use cryptotips.SpotBtc.Replay.Book.{bars_to}
use cryptotips.Base.Outcome.{value, Returns-bind, Returns-if}
use cryptotips.SpotBtc.Replay.Candles.{out_of_window, days_until}
use cryptotips.SpotBtc.Signal.{Ohlc}
use cryptotips.SpotBtc.Signal.Safe.{evaluate_signal-IsGuarded, Total, HasPeriods}
use cryptotips.Models.{KlineRecord}
use Prim.Native.String.{String}
use cryptotips.SpotBtc.Config.{Config}
use cryptotips.Base.{[], ◌∷◌, arith, false, ◌&&◌, ℕ, Bool, List}
use cryptotips.SpotBtc.Replay.Basic.{
  state_basic, core_alloc_of, StateBasic, trade_basic, bar_basic, run_basic_replay, step_core,
}
use cryptotips.Float.{◌<?◌, of_ℕ, Float}

module _ {F : Type 0} ⦃fl : Float F⦄ where
  pub step_core-Total :
      (is_v4 : Bool) (cfg : Config F) (month : ℕ) (price : F) (day h4 : List (Ohlc F))
      (s : StateBasic F)
      → HasPeriods cfg
      → Total (step_core is_v4 cfg month price day h4 s)
  unfolding step_core
  step_core-Total is_v4 cfg month price day h4 s p =
      Returns-if (is_v4 && (of_ℕ 0 <? core_alloc_of cfg))
        (λ _. Returns-bind (evaluate_trend_only-Total cfg day h4 p) λ _ _. value tt) λ _. value tt

  pub bar_basic-Total :
      (is_v4 : Bool) (cfg : Config F) (day_data seen : List (KlineRecord F)) (k : KlineRecord F)
      (s : StateBasic F)
      → HasPeriods cfg
      → Total (bar_basic is_v4 cfg day_data seen k s)
  unfolding bar_basic trade_basic
  bar_basic-Total is_v4 cfg day_data seen k s p =
      let t = k.open_time in
      let day = days_until t day_data in
      let h4 = bars_to seen k in
      Returns-bind (step_core-Total is_v4 cfg (month_key t) k.close day h4 s p) λ s1 _.
        Returns-if s1.pos.active
          (λ _. Returns-bind (step_position-Total long cfg s1.pos k.close h4 p) λ _ _. value tt)
          λ _.
            Returns-if (is_v4 && risk_blocked cfg (keys_by_year t) (pause_less s1.ledger_basic))
              (λ _. value tt)
              λ _. Returns-bind (evaluate_signal-IsGuarded cfg day h4 p) λ _ _. value tt

  pub run_basic_replay-Total :
      (in_order : List F → List F) (cfg : Config F) (name : String)
      (day_data h4_data : List (KlineRecord F)) (start end : ℕ)
      → HasPeriods cfg
      → Total (run_basic_replay in_order cfg name day_data h4_data start end)
  unfolding run_basic_replay
  run_basic_replay-Total in_order cfg name day_data [] start end p =
      Returns-bind
        (Returns-if {Good = λ _. Unit {0}} (same_text name "v4" && false)
          (λ e. absurd (ground arith)) λ _. value tt)
        λ _ _. value tt
  run_basic_replay-Total in_order cfg name day_data (k ∷ ks) start end p =
      let is_v4 = same_text name "v4" in
      Returns-bind
        (each_bar-Total (out_of_window start end) (bar_basic is_v4 cfg day_data)
          (λ seen k s. bar_basic-Total is_v4 cfg day_data seen k s p) state_basic (k ∷ ks))
        λ s _.
          Returns-bind
            (Returns-if {Good = λ _. Unit {0}} (is_v4 && s.core_active)
              (λ _. Returns-bind (last_kline-Total k ks) λ _ _. value tt) λ _. value tt)
            λ _ _. value tt
