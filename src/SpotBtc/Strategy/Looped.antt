-- ===== src/SpotBtc/Strategy/Looped.antt =====
-- The strategy under the runner of the engine.
use cryptotips.Engine.Runner.Loop.{run_loop-keeps}
use cryptotips.SpotBtc.Strategy.OneOpen.{run-OneOpen, OneOpen}
use cryptotips.Engine.Runner.{run_loop, Event}
use cryptotips.Base.{List, ℕ}
use Prim.Native.String.{String}
use cryptotips.SpotBtc.Strategy.Runs.{run}
use cryptotips.SpotBtc.Config.{Config}
use cryptotips.SpotBtc.State.{IsSeparate, Services}
use cryptotips.Models.{IsLawful, Database}
use cryptotips.Float.{Float}
use cryptotips.Engine.{Strategy}

module _ {F : Type 0} ⦃fl : Float F⦄ (db : Database F) (sv : Services F db) (laws : IsLawful db)
    (apart : IsSeparate laws sv) (cfg : Config F) where
  -- What init registers.
  abbrev pub spot_strategy : Strategy db.State
  spot_strategy = record { id = cfg.strategy_id; run = λ mode now. run db sv cfg now mode }

  -- Under the runner's loop the table never has two open spot trades of the strategy and its symbol, if
  -- it has none or one at the start: for every first time, every sequence of ticks and a cancellation,
  -- and whichever runs fail.
  pub run_loop-OneOpen :
      (mode : String) (now : ℕ) (events : List Event) (s : db.State)
      → OneOpen db sv laws apart cfg now s
      → OneOpen db sv laws apart cfg now (run_loop spot_strategy mode now events s).1
  run_loop-OneOpen mode now events s o =
      run_loop-keeps spot_strategy mode (OneOpen db sv laws apart cfg now)
        (λ later s' o'. run-OneOpen db sv laws apart cfg later mode s' o') now events s o
