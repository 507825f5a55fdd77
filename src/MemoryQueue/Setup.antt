-- ===== src/MemoryQueue/Setup.antt =====
-- NewMemoryQueue and the two setters.
use cryptotips.Base.Int.{pos, ltb_ℤ, ℤ}
use cryptotips.Base.{
  refl, tabulate, ◌%◌, sym, length-replicate, ◌∙◌, length, none, ap, ◌⊎◌, arith, replicate, some,
  true, [], false, ◌^◌, ◌<◌, ◌≡◌, Option, ℕ,
}
use native.Mathlib.Nat.{mod-eq_of_lt}
use cryptotips.MemoryQueue.{
  SetReply, returned, panicked, MemoryQueue, initial_size, new_memory_queue, is_used,
}
use cryptotips.MemoryQueue.Inv.{IsValid, slot, contents}

module _ {A : Type 0} (blank : A) where
  -- A queue with nothing in it, at any size.
  fresh-IsValid :
      (q : MemoryQueue A) (n : ℕ)
      → 0 < n
      → n < 2 ^ 63
      → q.items ≡ replicate n blank
      → q.size ≡ n
      → q.head ≡ 0
      → q.tail ≡ 0
      → q.count ≡ 0
      → IsValid q × (contents blank q ≡ [])
  fresh-IsValid q n pos_n small items size head tail count = (
    record {
      full_length = ap length items ∙ length-replicate n blank ∙ sym size;
      size_pos = omega arith;
      size_lt = omega arith;
      count_le = omega arith;
      head_lt = omega arith;
      tail_eq = tail ∙ sym (mod-eq_of_lt (omega arith)) ∙ ap (λ k. k % q.size) (omega arith);
    },
    ap (λ k. tabulate k (slot blank q)) count,
  )

  -- Whatever package mem replies, NewMemoryQueue returns a sound and empty queue.
  pub new_memory_queue-IsValid :
      (memory : Option ℕ)
      → IsValid (new_memory_queue blank memory)
        × (contents blank (new_memory_queue blank memory) ≡ [])
  unfolding new_memory_queue
  new_memory_queue-IsValid memory =
      fresh-IsValid (new_memory_queue blank memory) initial_size (omega arith) (omega arith) refl
        refl refl refl refl

  abbrev resized : MemoryQueue A → ℕ → MemoryQueue A
  resized q n = record q { size = n; items = replicate n blank }

  abbrev pub SetSizeResult : MemoryQueue A → ℤ → SetReply × MemoryQueue A → Type 0
  SetSizeResult q n (returned none, q') =
      (is_used q ≡ false)
      × (n ≡ pos q'.size)
      × IsValid q'
      × (contents blank q' ≡ [])
      × (q'.max_capacity ≡ q.max_capacity)
  SetSizeResult q n (returned (some e), q') =
      (q' ≡ q) × ((ltb_ℤ n (pos 1) ≡ true) ⊎ (is_used q ≡ true))
  SetSizeResult q n (panicked, q') =
      (is_used q ≡ false)
      × (n ≡ pos q'.size)
      × (2 ^ 44 < q'.size)
      × (q' ≡ record q { size = q'.size })
