-- ===== src/MemoryQueue/Resize.antt =====
-- What `resize` does on a full queue.
use cryptotips.Base.{
  true, leb→le, ◌⊎◌, inl, inr, ℕ, zero, suc, ◌+◌, ◌*◌, ◌%◌, ◌^◌, ◌≤◌, ◌<◌, ◌≡◌, refl, sym, false,
  Option, none, some, List, arith, leb, length, get_or, set, replicate, length-replicate,
  length-set, index-ok, store-ok, get_or-set, tabulate_congr, mod_int,
}
use native.Mathlib.Nat.{mod-eq_of_lt, zero-add}
use cryptotips.Base.Int.{pos, pos_part, ltb_ℤ}
use cryptotips.Base.Outcome.{ok, Returns, value, Returns-bind, Returns-if, Returns-map}
use cryptotips.MemoryQueue.{MemoryQueue, QueueError, to_int, copy_loop, resize}
use cryptotips.MemoryQueue.Inv.{IsValid, slot, contents}

-- The test for overflow passes exactly where twice the size is an `int`.
pub to_int_double :
    (s : ℕ)
    → s < 2 ^ 63
    → ltb_ℤ (to_int (s * 2)) (pos s) ≡ false
    → (to_int (s * 2) ≡ pos (s * 2)) × (s * 2 < 2 ^ 63)
unfolding to_int
to_int_double s h e = ground arith

to_int_over : (s : ℕ) → s < 2 ^ 63 → ltb_ℤ (to_int (s * 2)) (pos s) ≡ true → 2 ^ 63 ≤ s * 2
unfolding to_int
to_int_over s h e = ground arith

pub mod_int-ok : (a b : ℕ) → 0 < b → mod_int a b ≡ ok (a % b)
unfolding mod_int
mod_int-ok a b h = ground arith

mod_small : (a s : ℕ) → a < s → (0 + a) % s ≡ a
mod_small a s h = rw zero-add (mod-eq_of_lt h)

module _ {A : Type 0} (blank : A) (q : MemoryQueue A) (valid : IsValid q) where
  -- `r` is `new_data` with the items at `[i, i + left)` copied to their places.
  record Copied (left i : ℕ) (new_data r : List A) : Type 0 where
    same_length : length r ≡ length new_data
    copied : (j : ℕ) → i ≤ j → j < i + left → get_or r j blank ≡ slot blank q j
    kept : (j : ℕ) → j < i → get_or r j blank ≡ get_or new_data j blank

  copy_loop-Copied :
      (left i : ℕ) (new_data : List A)
      → i + left ≤ length new_data
      → Returns (Copied left i new_data) (copy_loop q left i new_data)
  unfolding copy_loop
  copy_loop-Copied zero i new_data room =
      value
        (record { same_length = refl; copied = λ j p r. absurd (omega arith); kept = λ j p. refl })
  copy_loop-Copied (suc left) i new_data room =
      let at_j = (q.head + i) % q.size in
      let inside : at_j < length q.items = omega (arith, valid.full_length, valid.size_pos) in
      rw
        (
          mod_int-ok (q.head + i) q.size valid.size_pos,
          index-ok q.items at_j blank inside,
          store-ok new_data i (slot blank q i) (omega arith),
        )
        (Returns-map
          (copy_loop-Copied left (i + 1) (set new_data i (slot blank q i))
            (omega (arith, length-set new_data i (slot blank q i))))
          λ r c. extend r c)
    where
      extend :
          (r : List A)
          → Copied left (i + 1) (set new_data i (slot blank q i)) r
          → Copied (suc left) i new_data r
      extend r c =
          let written = λ (j : ℕ). get_or-set new_data i j (slot blank q i) blank in
          record {
            same_length = omega (arith, c.same_length, length-set new_data i (slot blank q i));
            copied = λ j p b. ground (arith, c.copied j, c.kept j, written j);
            kept = λ j p. ground (arith, c.kept j, written j);
          }

  -- A queue that has grown holds the same items and has room; one that has not is as before, and
  -- twice its size is no `int` or reaches the capacity.
  abbrev pub Resized : Option QueueError × MemoryQueue A → Type 0
  Resized (none, q') =
      IsValid q'
      × (contents blank q' ≡ contents blank q)
      × (q'.count < q'.size)
      × (q'.max_capacity ≡ q.max_capacity)
  Resized (some e, q') = (q' ≡ q) × ((2 ^ 63 ≤ q.size * 2) ⊎ (q.max_capacity ≤ q.size * 2))

  grown-Resized :
      (m : ℕ) (r : List A)
      → q.count ≡ q.size
      → m ≡ q.size * 2
      → m < 2 ^ 63
      → Copied q.count 0 (replicate m blank) r
      → Resized (none, record q { items = r; head = 0; tail = q.count; size = m })
  grown-Resized m r full double small c = (
    record {
      full_length = omega (arith, c.same_length, length-replicate m blank);
      size_pos = omega (arith, valid.size_pos);
      size_lt = small;
      count_le = omega arith;
      head_lt = omega (arith, valid.size_pos);
      tail_eq = sym (mod_small q.count m (omega (arith, valid.size_pos)));
    },
    tabulate_congr q.count _ _ at,
    omega (arith, valid.size_pos),
    refl,
  )
    where
      at : (j : ℕ) → j < q.count → get_or r ((0 + j) % m) blank ≡ slot blank q j
      at j p = rw (mod_small j m (omega arith)) (c.copied j (omega arith) (omega arith))

  pub resize-Resized : q.count ≡ q.size → Returns Resized (resize blank q)
  unfolding resize
  resize-Resized full =
      Returns-if (ltb_ℤ (to_int (q.size * 2)) (pos q.size))
        (λ over. value (refl, inl (to_int_over q.size valid.size_lt over)))
        λ fits.
          let (e, small) = to_int_double q.size valid.size_lt fits in
          Returns-if (leb q.max_capacity (pos_part (to_int (q.size * 2))))
            (λ big. value (refl, inr (leb→le _ _ (rw e at big))))
            λ room. rw e (
              Returns-bind
                (copy_loop-Copied q.count 0 (replicate (q.size * 2) blank)
                  (omega (arith, length-replicate (q.size * 2) blank)))
                λ r c. value (grown-Resized (q.size * 2) r full refl small c))
