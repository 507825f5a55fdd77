-- ===== src/MemoryQueue/Inv.antt =====
-- The invariant of the ring, and the list of items that it stands for.
use cryptotips.Base.{ℕ, ◌+◌, ◌%◌, ◌^◌, ◌≤◌, ◌<◌, ◌≡◌, List, length, get_or, tabulate}
use cryptotips.MemoryQueue.{MemoryQueue}

module _ {ℓ} {A : Type ℓ} where
  pub record IsValid (q : MemoryQueue A) : Type ℓ where
    pub full_length : length q.items ≡ q.size
    pub size_pos : 0 < q.size
    pub size_lt : q.size < 2 ^ 63
    pub count_le : q.count ≤ q.size
    pub head_lt : q.head < q.size
    pub tail_eq : q.tail ≡ (q.head + q.count) % q.size

  -- The item `j` places behind the head.
  abbrev pub slot : A → MemoryQueue A → ℕ → A
  slot blank q j = get_or q.items ((q.head + j) % q.size) blank

  -- The items, oldest first.
  abbrev pub contents : A → MemoryQueue A → List A
  contents blank q = tabulate q.count (slot blank q)
