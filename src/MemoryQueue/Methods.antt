-- ===== src/MemoryQueue/Methods.antt =====
-- `Add`, `Get` and `Reset` against the list of items.
use native.Mathlib.Nat.{mod-add-mod, add_assoc, add-zero, mod-eq_of_lt}
use native.Mathlib.Numerals.{add-one}
use mathlib.Core.Path.{ap₂}
use cryptotips.Base.{
  true, index-ok, ltb, zero, ◌==◌, List, false, ◌⊎◌, ◌*◌, ◌≤◌, Bool, suc, sym, ◌-◌, ◌^◌, ℕ, ◌+◌,
  ◌%◌, ◌<◌, ◌≡◌, ◌≢◌, refl, ap, ◌∙◌, Option, none, some, [], ◌∷◌, ◌++◌, arith, length, get_or, set,
  length-set, store-ok, get_or-set, tabulate, tabulate_congr, tabulate_snoc, mod_cases,
}
use cryptotips.Base.Outcome.{Returns-map, Returns-bind, Returns-if, Returns, value}
use cryptotips.MemoryQueue.{put_unless, add, clear_loop, get, reset, MemoryQueue, QueueError, put}
use cryptotips.MemoryQueue.Inv.{IsValid, slot, contents}
use cryptotips.MemoryQueue.Resize.{resize-Resized, Resized, mod_int-ok}

-- Two places of a ring that lie less than a turn apart differ.
slots_differ : (h j k s : ℕ) → h < s → j < k → k < s → (h + j) % s ≢ (h + k) % s
slots_differ h j k s p q r e = grind (arith, mod_cases (h + j) s, mod_cases (h + k) s)

head_differs : (h k s : ℕ) → h < s → 0 < k → k < s → h ≢ (h + k) % s
head_differs h k s p r l e = grind (arith, mod_cases (h + k) s)

-- One step further round the ring.
mod_step : (h k s : ℕ) → ((h + k) % s + 1) % s ≡ (h + (k + 1)) % s
mod_step h k s = rw (mod-add-mod, add_assoc)

module _ {A : Type 0} (blank : A) (q : MemoryQueue A) (valid : IsValid q) where
  inside : (a : ℕ) → a % q.size < length q.items
  inside a = omega (arith, valid.full_length, valid.size_pos)

  -- The call added `item` behind the others.
  abbrev pub Added : A → Option QueueError × MemoryQueue A → Type 0
  Added item (e, q') =
      (e ≡ none)
      × IsValid q'
      × (contents blank q' ≡ contents blank q ++ item ∷ [])
      × (q'.max_capacity ≡ q.max_capacity)

  -- The ring after `put` has written `item` at the tail.
  written : A → MemoryQueue A
  written item = record q {
    items = set q.items q.tail item;
    tail = (q.tail + 1) % q.size;
    count = q.count + 1;
  }

  written-slot_old :
      (item : A) (j : ℕ)
      → j < q.count
      → q.count < q.size
      → slot blank (written item) j ≡ slot blank q j
  unfolding written
  written-slot_old item j p room =
      let t = (q.head + q.count) % q.size in
      let i = (q.head + j) % q.size in
      ap (λ k. get_or (set q.items k item) i blank) valid.tail_eq
      ∙ get_or-set q.items t i item blank (inside (q.head + q.count))
      ∙ ground (arith, slots_differ q.head j q.count q.size valid.head_lt p room)

  written-slot_new : (item : A) → slot blank (written item) q.count ≡ item
  unfolding written
  written-slot_new item =
      let t = (q.head + q.count) % q.size in
      ap (λ k. get_or (set q.items k item) t blank) valid.tail_eq
      ∙ get_or-set q.items t t item blank (inside (q.head + q.count))
      ∙ ground arith

  written-IsValid : (item : A) → q.count < q.size → IsValid (written item)
  unfolding written
  written-IsValid item room = record {
    full_length = length-set q.items q.tail item ∙ valid.full_length;
    size_pos = valid.size_pos;
    size_lt = valid.size_lt;
    count_le = omega arith;
    head_lt = valid.head_lt;
    tail_eq = ap (λ t. (t + 1) % q.size) valid.tail_eq ∙ mod_step q.head q.count q.size;
  }

  written-contents :
      (item : A) → q.count < q.size → contents blank (written item) ≡ contents blank q ++ item ∷ []
  unfolding written
  written-contents item room =
      ap (λ k. tabulate k (slot blank (written item))) (add-one q.count)
      ∙ tabulate_snoc q.count (slot blank (written item))
      ∙ ap₂ (λ xs x. xs ++ x ∷ [])
          (tabulate_congr q.count _ _ (λ j p. written-slot_old item j p room))
          (written-slot_new item)

  put-Added : (item : A) → q.count < q.size → Returns (Added item) (put q item)
  unfolding put written
  put-Added item room =
      rw
        (
          store-ok q.items q.tail item (rw valid.tail_eq (inside (q.head + q.count))),
          mod_int-ok (q.tail + 1) q.size valid.size_pos,
        )
        (value (refl, written-IsValid item room, written-contents item room, refl))

  -- An item was added, or the ring was full and could not grow, and nothing changed.
  abbrev pub AddResult : A → Option QueueError × MemoryQueue A → Type 0
  AddResult item (none, q') =
      IsValid q'
      × (contents blank q' ≡ contents blank q ++ item ∷ [])
      × (q'.max_capacity ≡ q.max_capacity)
  AddResult item (some e, q') =
      (q' ≡ q) × (q.count ≡ q.size) × ((2 ^ 63 ≤ q.size * 2) ⊎ (q.max_capacity ≤ q.size * 2))

  -- There was no item, and nothing changed, or the oldest one was taken.
  abbrev pub GetResult : A × Bool × MemoryQueue A → Type 0
  GetResult (x, false, q') = (x ≡ blank) × (q' ≡ q) × (contents blank q ≡ [])
  GetResult (x, true, q') =
      IsValid q' × (contents blank q ≡ x ∷ contents blank q') × (q'.max_capacity ≡ q.max_capacity)

  -- The ring after `get` has cleared the head.
  taken : MemoryQueue A
  taken = record q {
    items = set q.items q.head blank;
    head = (q.head + 1) % q.size;
    count = q.count - 1;
  }

  taken-index : (j : ℕ) → ((q.head + 1) % q.size + j) % q.size ≡ (q.head + suc j) % q.size
  taken-index j = rw (mod-add-mod, add_assoc) (ap (λ k. (q.head + k) % q.size) (omega arith))

  taken-slot : (j : ℕ) → suc j < q.count → slot blank taken j ≡ slot blank q (suc j)
  unfolding taken
  taken-slot j p =
      let here = q.head in
      let next = (q.head + suc j) % q.size in
      ap (λ k. get_or (set q.items here blank) k blank) (taken-index j)
      ∙ get_or-set q.items here next blank blank (rw valid.full_length valid.head_lt)
      ∙ ground (arith, head_differs here (suc j) q.size valid.head_lt)

  taken-IsValid : 0 < q.count → IsValid taken
  unfolding taken
  taken-IsValid some_item = record {
    full_length = length-set q.items q.head blank ∙ valid.full_length;
    size_pos = valid.size_pos;
    size_lt = valid.size_lt;
    count_le = omega (arith, valid.count_le);
    head_lt = omega (arith, valid.size_pos);
    tail_eq =
        valid.tail_eq
        ∙ ap (λ k. (q.head + k) % q.size) (omega arith)
        ∙ sym (taken-index (q.count - 1));
  }

  taken-contents :
      (k : ℕ)
      → q.count ≡ suc k
      → contents blank q ≡ get_or q.items q.head blank ∷ contents blank taken
  unfolding taken
  taken-contents k e =
      ap (λ c. tabulate c (slot blank q)) e
      ∙ ap₂ ◌∷◌ (ap (λ i. get_or q.items i blank) head_here) (
          tabulate_congr k _ _ (λ j p. sym (taken-slot j (omega arith)))
          ∙ ap (λ c. tabulate c (slot blank taken)) (omega arith))
    where
      head_here : (q.head + 0) % q.size ≡ q.head
      head_here = rw add-zero (mod-eq_of_lt valid.head_lt)

  contents-nil : q.count ≡ 0 → contents blank q ≡ []
  contents-nil e = ap (λ c. tabulate c (slot blank q)) e

  pub get-GetResult : Returns GetResult (get blank q)
  unfolding get taken
  get-GetResult =
      Returns-if (q.count == 0) (λ empty. value (refl, refl, contents-nil (ground arith)))
        λ some_item.
          let here : q.head < length q.items = rw valid.full_length valid.head_lt in
          rw
            (
              index-ok q.items q.head blank here,
              store-ok q.items q.head blank here,
              mod_int-ok (q.head + 1) q.size valid.size_pos,
            )
            (value
              (taken-IsValid (ground arith), taken-contents (q.count - 1) (ground arith), refl))

  -- `clear_loop` does not panic and keeps the length.
  clear_loop-length :
      (left i : ℕ) (items : List A)
      → length items ≡ q.size
      → Returns (λ r. length r ≡ q.size) (clear_loop blank q left i items)
  unfolding clear_loop
  clear_loop-length zero i items e = value e
  clear_loop-length (suc left) i items e =
      let j = (q.head + i) % q.size in
      rw
        (
          mod_int-ok (q.head + i) q.size valid.size_pos,
          store-ok items j blank (omega (arith, valid.size_pos)),
        )
        (clear_loop-length left (i + 1) (set items j blank) (length-set items j blank ∙ e))

  abbrev pub Cleared : MemoryQueue A → Type 0
  Cleared q' = IsValid q' × (contents blank q' ≡ []) × (q'.max_capacity ≡ q.max_capacity)

  pub reset-Cleared : Returns Cleared (reset blank q)
  unfolding reset
  reset-Cleared =
      Returns-bind (clear_loop-length q.count 0 q.items valid.full_length)
        λ r e. value (cleared r e, refl, refl)
    where
      cleared :
          (r : List A)
          → length r ≡ q.size
          → IsValid (record q { items = r; head = 0; tail = 0; count = 0 })
      cleared r e = record {
        full_length = e;
        size_pos = valid.size_pos;
        size_lt = valid.size_lt;
        count_le = omega arith;
        head_lt = valid.size_pos;
        tail_eq = sym (mod-eq_of_lt (omega (arith, valid.size_pos)));
      }

module _ {A : Type 0} (blank : A) (q : MemoryQueue A) (valid : IsValid q) (item : A) where
  Added-AddResult :
      (q' : MemoryQueue A) (valid' : IsValid q')
      → contents blank q' ≡ contents blank q
      → q'.max_capacity ≡ q.max_capacity
      → (r : Option QueueError × MemoryQueue A) → Added blank q' valid' item r
      → AddResult blank q valid item r
  Added-AddResult q' valid' same cap (none, q'') (_, v, e, c) =
      (v, e ∙ ap (λ xs. xs ++ item ∷ []) same, c ∙ cap)
  Added-AddResult q' valid' same cap (some _, q'') (impossible, _, _, _) = cc

  put_grown :
      (r : Option QueueError × MemoryQueue A)
      → q.count ≡ q.size
      → Resized blank q valid r
      → Returns (AddResult blank q valid item) (put_unless item r)
  put_grown (none, q') full (v, same, room, cap) =
      Returns-map (put-Added blank q' v item room) (Added-AddResult q' v same cap)
  put_grown (some e, q') full (same, why) = value (same, full, why)

  pub add-AddResult : Returns (AddResult blank q valid item) (add blank q item)
  unfolding add
  add-AddResult =
      Returns-if (ltb q.size 1) (λ small. absurd (ground (arith, valid.size_pos)))
        λ sized.
          Returns-if (q.count == q.size)
            (λ full.
              Returns-bind (resize-Resized blank q valid (ground arith))
                λ r s. put_grown r (ground arith) s)
            λ room.
              Returns-map (put-Added blank q valid item (ground (arith, valid.count_le)))
                (Added-AddResult q valid refl refl)
