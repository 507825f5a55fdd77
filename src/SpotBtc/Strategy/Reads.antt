-- ===== src/SpotBtc/Strategy/Reads.antt =====
-- The reads of a run leave the world as it is.
use cryptotips.SpotBtc.Strategy.Runs.{load}
use cryptotips.Models.Klines.{get_klines}
use cryptotips.Models.Trades.{
  streak_of, is_closed_sale, latest_loss_streak, sum_closed_pnl_by_range,
}
use cryptotips.SpotBtc.Config.{Config}
use cryptotips.Base.{◌==◌, if◌then◌else◌, ℕ}
use Prim.Native.String.{String}
use cryptotips.SpotBtc.State.{or_zero, Services}
use cryptotips.Models.{Database}
use cryptotips.Float.{Float}
use cryptotips.Base.Act.{ended, give, Ends-after, Ends-reads, Ends}

module _ {F : Type 0} ⦃fl : Float F⦄ (db : Database F) {P E : db.State → Type 0} where
  pub sum-Ends :
      (strategy : String) (start finish : ℕ) (s : db.State)
      → P s
      → E s
      → Ends (λ _. P) E (sum_closed_pnl_by_range db strategy start finish s)
  sum-Ends strategy start finish s p e = Ends-reads _ (λ _ _. p) e

  pub streak-Ends :
      (strategy : String) (limit : ℕ) (s : db.State)
      → P s
      → E s
      → Ends (λ _. P) E (latest_loss_streak db strategy limit s)
  streak-Ends strategy limit s p e =
      let find = db.latest_trades s (is_closed_sale strategy) (if limit == 0 then 50 else limit) in
      Ends-after {f = λ rs. give (streak_of rs)} (Ends-reads {Q = λ _. P} find (λ _ _. p) e)
        λ rs s' p'. ended p'

  pub klines-Ends :
      (symbol interval : String) (start finish : ℕ) (s : db.State)
      → P s
      → E s
      → Ends (λ _. P) E (get_klines db symbol interval start finish s)
  klines-Ends symbol interval start finish s p e = Ends-reads _ (λ _ _. p) e

  pub load-Ends :
      (sv : Services F db) (cfg : Config F) (now : ℕ) (s : db.State)
      → P s
      → E s
      → Ends (λ _. P) E (load db sv cfg now s)
  load-Ends sv cfg now s p e =
      Ends-after {f = λ stored. give (or_zero stored)}
        (Ends-reads {Q = λ _. P} (sv.load_state s) (λ _ _. p) e) λ stored s' p'. ended p'
