-- ===== src/MemoryQueue/Tests.antt =====
-- Runs and examples.
use cryptotips.Base.{index, mod_int, store, none, refl, ◌≡◌, [], List, arith, ◌∷◌}
use cryptotips.Base.Outcome.{ok, Returns, ◌>>=◌}
use cryptotips.MemoryQueue.{copy_loop, to_int, resize, put, MemoryQueue, new_memory_queue}
use cryptotips.MemoryQueue.Inv.{IsValid, contents}
use cryptotips.MemoryQueue.Fifo.{Call, Reply, run, run-Trace, Trace, Holds}
use cryptotips.MemoryQueue.Setup.{new_memory_queue-IsValid}
use Prim.Native.String.{String}

abbrev small : MemoryQueue String
small = record {
  items = "" ∷ "a" ∷ [];
  default_size = 2;
  max_capacity = 8;
  head = 1;
  tail = 0;
  size = 2;
  count = 1;
}

small-Holds : Holds "" 8 small
small-Holds = omega arith

abbrev calls : List (Call String)
calls =
    Call.push "b"
    ∷ Call.push "c"
    ∷ Call.pull
    ∷ Call.count
    ∷ Call.push "d"
    ∷ Call.push "e"
    ∷ Call.push "f"
    ∷ Call.pull
    ∷ []

run-calls :
    (run "" small calls >>= λ (rs, _). ok rs)
    ≡ ok (
        Reply.done
        ∷ Reply.done
        ∷ Reply.item "a"
        ∷ Reply.number 2
        ∷ Reply.done
        ∷ Reply.done
        ∷ Reply.refused
        ∷ Reply.item "b"
        ∷ [])
unfolding run put store mod_int resize to_int copy_loop index
run-calls = refl

run-Trace_example :
    Returns
      (λ (rs, q'). Holds "" 8 q' × Trace 8 ("a" ∷ []) calls rs (contents "" q'))
      (run "" small calls)
run-Trace_example = run-Trace "" 8 small calls small-Holds

new_memory_queue-IsValid_example :
    IsValid (new_memory_queue {A = String} "" none)
    × (contents "" (new_memory_queue {A = String} "" none) ≡ [])
new_memory_queue-IsValid_example = new_memory_queue-IsValid "" none

abbrev unused : MemoryQueue String
unused = record small { head = 0; tail = 0; count = 0 }
