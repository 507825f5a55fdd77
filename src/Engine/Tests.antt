-- ===== src/Engine/Tests.antt =====
-- Runs and examples.
use cryptotips.Engine.Registry.{identifiers, assign, register}
use cryptotips.Base.Texts.{same_text}
use cryptotips.Engine.Runner.Loop.{run_loop-failed}
use Prim.Native.String.{String}
use cryptotips.Engine.{Strategy}
use cryptotips.Base.{
  none, suc, [], refl, true, Option, false, if◌then◌else◌, ◌∷◌, Bool, some, ℕ, List, ◌≡◌,
}
use cryptotips.Base.Act.{only_paper_mode, done, failed}
use cryptotips.Engine.Runner.{returned, tick, Event, run_loop, cancelled}
use cryptotips.Engine.StateStore.{Json, Redis, load, save}

-- A strategy that counts its runs, and fails in live mode.
abbrev counter : Strategy ℕ
counter = record {
  id = "counter";
  run =
      λ mode now n. if same_text mode "live" then (failed only_paper_mode, n) else (done tt, suc n);
}

abbrev other : Strategy ℕ
other = record counter { id = "other" }

registry_keeps_one :
    identifiers (register counter (register other (register counter []))) ≡ "counter" ∷ "other" ∷ []
unfolding register assign identifiers
registry_keeps_one = refl

abbrev events : List Event
events = tick 1 ∷ tick 2 ∷ cancelled ∷ tick 3 ∷ []

loop-counts : run_loop counter "paper" 0 events 0 ≡ (done returned, 3)
unfolding run_loop
loop-counts = refl

live_fails : (run_loop counter "live" 0 events 5).0 ≡ failed only_paper_mode
unfolding run_loop
live_fails = refl

run_loop-failed_example : (counter.run "live" 0 5).0 ≡ failed only_paper_mode
run_loop-failed_example = run_loop-failed counter "live" 0 events 5 only_paper_mode live_fails

abbrev memory : Redis (String → Option String)
memory = record {
  get = λ k s. (done (s k), s);
  set = λ k v s. (done tt, λ j. if same_text k j then some v else s j);
  del = λ k s. (done tt, λ j. if same_text k j then none else s j);
}

abbrev bool_json : Json Bool
bool_json = record {
  marshal = λ b. done (if b then "true" else "false");
  unmarshal = λ text target. done (same_text text "true");
}

saved-loaded :
    (load bool_json "counter"
      (some memory)
      "runtime"
      false
      (save bool_json "counter" (some memory) "runtime" true (λ _. none)).1).0
    ≡ done true
unfolding load save
saved-loaded = refl
