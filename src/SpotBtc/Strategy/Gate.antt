-- ===== src/SpotBtc/Strategy/Gate.antt =====
-- The risk gate keeps a run from trading.
use cryptotips.Base.Texts.{same_text}
use cryptotips.SpotBtc.Strategy.Reads.{load-Ends, klines-Ends}
use cryptotips.SpotBtc.Signal.{Ohlc}
use Prim.Native.String.{String}
use cryptotips.SpotBtc.Strategy.OneOpen.{mine}
use cryptotips.SpotBtc.Strategy.Runs.{
  ohlc_of, enter, recover_position_state, run, run_paper, save, refresh_risk_state,
}
use cryptotips.Models.Trades.{
  streak_of, is_closed_sale, is_open_trade, latest_loss_streak, sum_closed_pnl_by_range,
}
use cryptotips.SpotBtc.Strategy.{recovered, week_start, day_ns, gated, day_start, risk_state}
use cryptotips.Base.{map, refl, ◌∙◌, arith, ◌*◌, [], ltb, false, true, ◌+◌, ◌≡◌, List, ℕ}
use cryptotips.SpotBtc.Config.{Config}
use cryptotips.SpotBtc.State.{StrategyState, IsSeparate, Services}
use cryptotips.Models.{spot, select, TradeRecord, IsLawful, Database}
use cryptotips.Float.{Float}
use cryptotips.Base.Act.{
  crashed, stopped, broken, failed, Ends-world, give, Ends-if, after, Ends-any, Result, ended,
  Ends-after, Ends-reads, done, Ends,
}

module _ {F : Type 0} ⦃fl : Float F⦄ (db : Database F) (sv : Services F db) (laws : IsLawful db)
    (apart : IsSeparate laws sv) (cfg : Config F) (now : ℕ) where
  -- Whatever the database answers for the day, the week and the last sales, a gate is closed.
  abbrev pub IsGated : db.State → Type 0
  IsGated s =
      (daily weekly : F) (streak : ℕ)
      → (sum_closed_pnl_by_range db cfg.strategy_id (day_start now) (day_start now + day_ns) s).0
        ≡ done daily
      → (sum_closed_pnl_by_range db cfg.strategy_id (week_start now) (week_start now + 7 * day_ns)
          s).0
        ≡ done weekly
      → (latest_loss_streak db cfg.strategy_id 50 s).0 ≡ done streak
      → gated cfg daily weekly streak ≡ true

  risk_state-paused :
      (daily weekly : F) (streak : ℕ) (st : StrategyState F)
      → gated cfg daily weekly streak ≡ true
      → ltb now (risk_state cfg now daily weekly streak st).pause_until ≡ true
  unfolding risk_state
  risk_state-paused daily weekly streak st h = rw h (ground arith)

  sum-Same :
      {P E : db.State → Type 0} (start finish : ℕ) (s : db.State)
      → P s
      → E s
      → Ends
          (λ d s'. P s' × ((sum_closed_pnl_by_range db cfg.strategy_id start finish s').0 ≡ done d))
          E
          (sum_closed_pnl_by_range db cfg.strategy_id start finish s)
  sum-Same start finish s p e = Ends-reads _ (λ _ eq. (p, eq)) e

  streak-Same :
      {P E : db.State → Type 0} (s : db.State)
      → P s
      → E s
      → Ends
          (λ k s'. P s' × ((latest_loss_streak db cfg.strategy_id 50 s').0 ≡ done k))
          E
          (latest_loss_streak db cfg.strategy_id 50 s)
  streak-Same {P} {E} s p e = from (db.latest_trades s (is_closed_sale cfg.strategy_id) 50) refl
    where
      from :
          (r : Result (List (TradeRecord F)))
          → db.latest_trades s (is_closed_sale cfg.strategy_id) 50 ≡ r
          → Ends
              (λ k s'. P s' × ((latest_loss_streak db cfg.strategy_id 50 s').0 ≡ done k))
              E
              (after (r, s) (λ rs. give (streak_of rs)))
      from (done rs) eq = ended (p, rw eq refl)
      from (failed x) eq = broken e
      from crashed eq = stopped e

  module _ (table : List (TradeRecord F)) where
    -- Nothing is traded: the table is the one from before.
    abbrev Untraded : db.State → Type 0
    Untraded s = laws.rows s ≡ table

    abbrev Barred : db.State → Type 0
    Barred s = Untraded s × (select (mine db sv laws apart cfg now) (laws.rows s) ≡ []) × IsGated s

    refresh-Paused :
        (st : StrategyState F) (s : db.State)
        → st.has_position ≡ false
        → Barred s
        → Ends
            (λ st' s'. Untraded s' × (st'.has_position ≡ false) × (ltb now st'.pause_until ≡ true))
            Untraded
            (refresh_risk_state db sv cfg now st s)
    unfolding refresh_risk_state
    refresh-Paused st s none b = Ends-after (sum-Same {P = Barred} _ _ s b b.0) λ daily s1 (b1, e1).
        Ends-after
          (sum-Same
            {P = λ s'.
              Barred s'
              × ((sum_closed_pnl_by_range db cfg.strategy_id (day_start now)
                    (day_start now + day_ns) s').0
                  ≡ done daily)}
            _ _ s1 (b1, e1) b1.0)
          λ weekly s2 ((b2, e2), e3).
            Ends-after
              (streak-Same
                {P = λ s'.
                  Barred s'
                  × ((sum_closed_pnl_by_range db cfg.strategy_id (day_start now)
                        (day_start now + day_ns) s').0
                      ≡ done daily)
                  × ((sum_closed_pnl_by_range db cfg.strategy_id (week_start now)
                        (week_start now + 7 * day_ns) s').0
                      ≡ done weekly)}
                s2 (b2, e2, e3) b2.0)
              λ streak s3 ((b3, e4, e5), e6). ended (
                b3.0,
                none,
                risk_state-paused daily weekly streak st (b3.2 daily weekly streak e4 e5 e6),
              )

    save-Untraded :
        (st : StrategyState F) (s : db.State)
        → Untraded s
        → Ends (λ _. Untraded) Untraded (save db sv cfg now st s)
    save-Untraded st s u =
        Ends-any Untraded (save db sv cfg now st s)
          (apart.save_state-rows s (record st { updated_at = now }) ∙ u)

    enter-Untraded :
        (day h4 : List (Ohlc F)) (st : StrategyState F) (s : db.State)
        → Untraded s
        → ltb now st.pause_until ≡ true
        → Ends (λ _. Untraded) Untraded (enter db sv cfg now day h4 st s)
    unfolding enter
    enter-Untraded day h4 st s u h =
        Ends-if _ _ s (ltb now st.pause_until) (λ _. save-Untraded st s u)
          λ e. absurd (ground arith)

    recover-Barred :
        (st : StrategyState F) (s : db.State)
        → Barred s
        → Ends
            (λ st' s'. Barred s' × (st'.has_position ≡ false))
            Untraded
            (recover_position_state db sv cfg now st s)
    unfolding recover_position_state recovered
    recover-Barred st s b =
        Ends-after
          (Ends-reads {Q = λ trades s'. Barred s' × (trades ≡ [])}
            (db.find_trades s (mine db sv laws apart cfg now))
            (λ trades e. (b, laws.find-rows s _ trades e ∙ b.1)) b.0)
          λ trades s' (b', e). ended (b', rw e refl)

    run_paper-Untraded :
        (s : db.State) → Barred s → Ends (λ _. Untraded) Untraded (run_paper db sv cfg now s)
    unfolding run_paper
    run_paper-Untraded s b =
        Ends-after (klines-Ends db {P = Barred} cfg.symbol "1d" 0 0 s b b.0) λ day s1 b1.
          Ends-after (klines-Ends db {P = Barred} cfg.symbol "4h" 0 0 s1 b1 b1.0) λ h4 s2 b2.
            Ends-after
              (Ends-after
                (Ends-after (load-Ends db {P = Barred} sv cfg now s2 b2 b2.0)
                  λ st s3 b3. recover-Barred st s3 b3)
                λ st s4 (b4, none). refresh-Paused st s4 none b4)
              λ st s5 (u, none, paused).
                Ends-if _ _ s5 st.has_position (λ held. absurd (ground arith))
                  λ _. enter-Untraded (map ohlc_of day) (map ohlc_of h4) st s5 u paused

  -- Without an open trade, and with a gate closed by the losses of the day, of the week or by three
  -- losses in a row, a run leaves the table of trades as it is, however it ends.
  pub run-Untraded :
      (mode : String) (s : db.State)
      → select (is_open_trade cfg.strategy_id cfg.symbol spot) (laws.rows s) ≡ []
      → IsGated s
      → laws.rows (run db sv cfg now mode s).1 ≡ laws.rows s
  unfolding run
  run-Untraded mode s n g = Ends-world (Untraded (laws.rows s)) _ (
      Ends-if _ _ s (same_text mode "paper") (λ _. run_paper-Untraded (laws.rows s) s (refl, n, g))
        λ _. broken refl)
