-- ===== src/Engine/Runner/Loop.antt =====
-- The loop keeps what each run keeps, and only the first run's error ends it.
use cryptotips.Base.Act.{Failure, crashed, failed, done, after, Result}
use cryptotips.Engine.Runner.{
  LoopState, cancelled, keep_going, tick, Event, run_once, run_loop, wait_loop,
}
use cryptotips.Base.{ap, arith, refl, false, true, Bool, ◌≡◌, [], ◌∷◌, List, ℕ}
use Prim.Native.String.{String}
use cryptotips.Engine.{Strategy}

abbrev is_failed : {A : Type 0} → Result A → Bool
is_failed (failed e) = true
is_failed _ = false

-- The end of the loop, seen as the end of a run.
abbrev run_part : Result LoopState → Result Unit
run_part (done _) = done tt
run_part (failed e) = failed e
run_part crashed = crashed

module _ {S : Type 0} (strategy : Strategy S) (mode : String) where
  module _ (I : S → Type 0) (keeps : (now : ℕ) (s : S) → I s → I (strategy.run mode now s).1) where
    wait_loop-keeps : (events : List Event) (s : S) → I s → I (wait_loop strategy mode events s).1
    unfolding wait_loop run_once
    wait_loop-keeps [] s i = i
    wait_loop-keeps (cancelled ∷ events) s i = i
    wait_loop-keeps (tick now ∷ events) s i =
        from (strategy.run mode now s) (keeps now s i) λ s'. wait_loop-keeps events s'
      where
        from :
            (x : Result Unit × S)
            → I x.1
            → ((s' : S) → I s' → I (wait_loop strategy mode events s').1)
            → I (keep_going x (wait_loop strategy mode events)).1
        from (done tt, s') j next = next s' j
        from (failed e, s') j next = next s' j
        from (crashed, s') j next = j

    -- What every run keeps is true after the loop, whatever the order of ticks and cancellation, and
    -- whichever runs end with an error or a panic.
    pub run_loop-keeps :
        (now : ℕ) (events : List Event) (s : S) → I s → I (run_loop strategy mode now events s).1
    unfolding run_loop run_once
    run_loop-keeps now events s i = from (strategy.run mode now s) (keeps now s i)
      where
        from : (x : Result Unit × S) → I x.1 → I (after x (λ _. wait_loop strategy mode events)).1
        from (done tt, s') j = wait_loop-keeps events s' j
        from (failed e, s') j = j
        from (crashed, s') j = j

  wait_loop-goes_on :
      (events : List Event) (s : S) → is_failed (wait_loop strategy mode events s).0 ≡ false
  unfolding wait_loop run_once
  wait_loop-goes_on [] s = refl
  wait_loop-goes_on (cancelled ∷ events) s = refl
  wait_loop-goes_on (tick now ∷ events) s =
      from (strategy.run mode now s) (λ s'. wait_loop-goes_on events s')
    where
      from :
          (x : Result Unit × S)
          → ((s' : S) → is_failed (wait_loop strategy mode events s').0 ≡ false)
          → is_failed (keep_going x (wait_loop strategy mode events)).0 ≡ false
      from (done tt, s') next = next s'
      from (failed e, s') next = next s'
      from (crashed, s') next = refl

  -- RunLoop ends with an error only if the first run does, with the same one: an error of a later run is
  -- logged and passed over.
  pub run_loop-failed :
      (now : ℕ) (events : List Event) (s : S) (e : Failure)
      → (run_loop strategy mode now events s).0 ≡ failed e
      → (strategy.run mode now s).0 ≡ failed e
  unfolding run_loop run_once
  run_loop-failed now events s e = from (strategy.run mode now s)
    where
      from :
          (x : Result Unit × S)
          → (after x (λ _. wait_loop strategy mode events)).0 ≡ failed e
          → x.0 ≡ failed e
      from (done tt, s') h = absurd (ground (arith, ap is_failed h, wait_loop-goes_on events s'))
      from (failed e', s') h = ap run_part h
      from (crashed, s') h = ap run_part h
