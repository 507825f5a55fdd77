-- ===== src/MemoryQueue/Fifo.antt =====
-- A client's calls in order, against a list that is served first in, first out.
use cryptotips.Base.Outcome.{Returns-bind, value, Returns, ok, ◌>>=◌, Run}
use cryptotips.Base.{
  ◌⊎◌, ap, arith, true, ◌*◌, length, ltb, length-tabulate, ◌≤◌, sym, ◌^◌, none, ◌∷◌, [], false,
  some, ◌++◌, ◌∙◌, ◌≡◌, Bool, List, Option, ℕ,
}
use cryptotips.MemoryQueue.{MemoryQueue, QueueError, add, get, len, has_more, reset}
use cryptotips.MemoryQueue.Inv.{IsValid, slot, contents}
use cryptotips.MemoryQueue.Methods.{
  AddResult, GetResult, add-AddResult, get-GetResult, reset-Cleared,
}

pub data Call (A : Type 0) : Type 0 where
  push : A → Call A
  pull count more clear : Call A

pub data Reply (A : Type 0) : Type 0 where
  done refused nothing : Reply A
  item : A → Reply A
  number : ℕ → Reply A
  flag : Bool → Reply A

module _ {A : Type 0} where
  abbrev reply_of_add : Option QueueError × MemoryQueue A → Reply A × MemoryQueue A
  reply_of_add (none, q) = (done, q)
  reply_of_add (some e, q) = (refused, q)

  abbrev reply_of_get : A × Bool × MemoryQueue A → Reply A × MemoryQueue A
  reply_of_get (x, false, q) = (nothing, q)
  reply_of_get (x, true, q) = (item x, q)

  pub serve : A → MemoryQueue A → Call A → Run (Reply A × MemoryQueue A)
  serve blank q (push x) = add blank q x >>= λ r. ok (reply_of_add r)
  serve blank q pull = get blank q >>= λ r. ok (reply_of_get r)
  serve blank q count = ok (number (len q), q)
  serve blank q more = ok (flag (has_more q), q)
  serve blank q clear = reset blank q >>= λ q'. ok (done, q')

  unfoldable pub run : A → MemoryQueue A → List (Call A) → Run (List (Reply A) × MemoryQueue A)
  unfolding serve add get len has_more reset
  run blank q [] = ok ([], q)
  run blank q (c ∷ cs) = do (r, q') ← serve blank q c; (rs, q'') ← run blank q' cs; ok (r ∷ rs, q'')

  -- What a queue with capacity `cap` that holds the items may answer, and what it holds then.
  pub data Serves (cap : ℕ) : List A → Call A → Reply A → List A → Type 0 where
    pushed : (xs : List A) (x : A) → Serves cap xs (push x) done (xs ++ x ∷ [])
    full :
        (xs : List A) (x : A)
        → (2 ^ 63 ≤ length xs * 2) ⊎ (cap ≤ length xs * 2)
        → Serves cap xs (push x) refused xs
    pulled : (x : A) (xs : List A) → Serves cap (x ∷ xs) pull (item x) xs
    empty : Serves cap [] pull nothing []
    counted : (xs : List A) (n : ℕ) → n ≡ length xs → Serves cap xs count (number n) xs
    some_more : (xs : List A) (b : Bool) → b ≡ ltb 0 (length xs) → Serves cap xs more (flag b) xs
    cleared : (xs : List A) → Serves cap xs clear done []

  pub data Trace (cap : ℕ) : List A → List (Call A) → List (Reply A) → List A → Type 0 where
    stop : (xs : List A) → Trace cap xs [] [] xs
    step :
        (xs ys zs : List A) (c : Call A) (cs : List (Call A)) (r : Reply A) (rs : List (Reply A))
        → Serves cap xs c r ys
        → Trace cap ys cs rs zs
        → Trace cap xs (c ∷ cs) (r ∷ rs) zs

  module _ (blank : A) (cap : ℕ) where
    -- The ring is sound, has the capacity, and stands for the items.
    abbrev pub Holds : MemoryQueue A → Type 0
    Holds q = IsValid q × (q.max_capacity ≡ cap)

    abbrev Served : MemoryQueue A → Call A → Reply A × MemoryQueue A → Type 0
    Served q c (r, q') = Holds q' × Serves cap (contents blank q) c r (contents blank q')

    add-Served :
        (q : MemoryQueue A) (x : A) (holds : Holds q) (r : Option QueueError × MemoryQueue A)
        → AddResult blank q holds.0 x r
        → Served q (push x) (reply_of_add r)
    add-Served q x holds (none, q') (v, e, c) =
        ((v, c ∙ holds.1), rw e (pushed (contents blank q) x))
    add-Served q x holds (some _, q') (same, at_size, why) = rw same (
      holds,
      full (contents blank q) x (rw (length-tabulate q.count (slot blank q)) (ground (arith, why))),
    )

    get-Served :
        (q : MemoryQueue A) (holds : Holds q) (r : A × Bool × MemoryQueue A)
        → GetResult blank q holds.0 r
        → Served q pull (reply_of_get r)
    get-Served q holds (x, true, q') (v, e, c) =
        ((v, c ∙ holds.1), rw e (pulled x (contents blank q')))
    get-Served q holds (x, false, q') (_, same, e) = rw (same, e) (holds, empty)

    serve-Served :
        (q : MemoryQueue A) (c : Call A) → Holds q → Returns (Served q c) (serve blank q c)
    unfolding serve len has_more
    serve-Served q (push x) holds =
        Returns-bind (add-AddResult blank q holds.0 x) λ r a. value (add-Served q x holds r a)
    serve-Served q pull holds =
        Returns-bind (get-GetResult blank q holds.0) λ r g. value (get-Served q holds r g)
    serve-Served q count holds =
        value
          (holds, counted (contents blank q) q.count (sym (length-tabulate q.count (slot blank q))))
    serve-Served q more holds = value (
      holds,
      some_more (contents blank q) (ltb 0 q.count)
          (ap (ltb 0) (sym (length-tabulate q.count (slot blank q)))),
    )
    serve-Served q clear holds =
        Returns-bind (reset-Cleared blank q holds.0)
          λ q' (v, e, c). value ((v, c ∙ holds.1), rw e (cleared (contents blank q)))

    -- No sequence of calls on a sound queue panics, and the replies are those of a first-in-first-out
    -- list: `Add` puts its item behind the others, `Get` takes the oldest, `Len` and `HasMore` tell the
    -- number, `Reset` empties. `Add` is refused only when twice the number of items overflows an `int`
    -- or reaches the capacity, and a refused call changes nothing.
    pub run-Trace :
        (q : MemoryQueue A) (cs : List (Call A))
        → Holds q
        → Returns
            (λ (rs, q'). Holds q' × Trace cap (contents blank q) cs rs (contents blank q'))
            (run blank q cs)
    unfolding run
    run-Trace q [] holds = value (holds, stop (contents blank q))
    run-Trace q (c ∷ cs) holds = Returns-bind (serve-Served q c holds) λ (r, q') (h, s).
        Returns-bind (run-Trace q' cs h) λ (rs, q'') (h', t). value (h', step _ _ _ c cs r rs s t)
