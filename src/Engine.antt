-- ===== src/Engine.antt =====
-- strategies/engine/interfaces.go: what a strategy is to the engine. The methods that only describe it
-- (Description, Status) are left out.
pub mod Registry
pub mod StateStore
pub mod Runner
mod Tests
use cryptotips.Base.Act.{Act}
use cryptotips.Base.{ℕ}
use Prim.Native.String.{String}

-- A strategy over the states of the world. `run` has the mode and the time of the context.
pub record Strategy (S : Type 0) : Type 0 where
  pub id : String
  pub run : String → ℕ → Act S Unit
