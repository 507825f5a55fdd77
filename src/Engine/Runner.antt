-- ===== src/Engine/Runner.antt =====
-- strategies/engine/runner.go: one run, and the loop that a clock drives.
use Prim.Native.String.{String}
use cryptotips.Engine.{Strategy}
pub mod Loop
use cryptotips.Base.{◌∷◌, [], List, ℕ}
use cryptotips.Base.Act.{crashed, failed, done, Act, Result, ◌>>=◌}

-- What wakes the loop up: every order of ticks and of the cancellation is a list of events.
pub data Event : Type 0 where
  tick : (now : ℕ) → Event
  cancelled : Event

-- Whether RunLoop has returned, or waits for the next event.
pub data LoopState : Type 0 where
  returned waiting : LoopState

-- What the loop does with the end of a run: an error is logged, and the loop goes on.
abbrev pub keep_going :
    {S : Type 0} → Result Unit × S → (S → Result LoopState × S) → Result LoopState × S
keep_going (done tt, s) next = next s
keep_going (failed e, s) next = next s
keep_going (crashed, s) next = (crashed, s)

module _ {S : Type 0} (strategy : Strategy S) (mode : String) where
  unfoldable pub run_once : ℕ → Act S Unit
  run_once now = strategy.run mode now

  unfoldable pub wait_loop : List Event → Act S LoopState
  unfolding run_once
  wait_loop [] s = (done waiting, s)
  wait_loop (cancelled ∷ events) s = (done returned, s)
  wait_loop (tick now ∷ events) s = keep_going (run_once now s) (wait_loop events)

  -- The first run comes before the clock starts; its error is returned.
  unfoldable pub run_loop : ℕ → List Event → Act S LoopState
  unfolding run_once wait_loop
  run_loop now events = run_once now >>= λ _. wait_loop events
