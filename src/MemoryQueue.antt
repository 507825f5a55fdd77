-- ===== src/MemoryQueue.antt =====
-- lib/memoryqueue.go: a ring of strings that grows. A method returns the new queue; an error comes
-- beside it. The mutex makes each call one step, so it has no counterpart here.
pub mod Inv
pub mod Resize
pub mod Methods
pub mod Fifo
pub mod Setup
mod Tests
use cryptotips.Base.{
  ℕ, zero, suc, ◌+◌, ◌-◌, ◌*◌, ◌/◌, ◌%◌, ◌^◌, Bool, true, false, ◌||◌, Option, none, some, List, [],
  ◌∷◌, ltb, leb, ◌==◌, if◌then◌else◌, replicate, index, store, mod_int,
}
use cryptotips.Base.Int.{ℤ, pos, negsuc, pos_part, ltb_ℤ}
use cryptotips.Base.Outcome.{Run, ok, panic, ◌>>=◌}

pub data QueueError : Type 0 where
  bad_size not_empty bad_capacity int_limit capacity_limit : QueueError

-- SetSize returns, or `make` panics.
pub data SetReply : Type 0 where
  returned : Option QueueError → SetReply
  panicked : SetReply

pub record MemoryQueue {ℓ} (A : Type ℓ) : Type ℓ where
  pub items : List A
  pub default_size : ℕ
  pub max_capacity : ℕ
  pub head : ℕ
  pub tail : ℕ
  pub size : ℕ
  pub count : ℕ

-- An `int` from the bits of a sum or product of two of them.
unfoldable pub to_int : ℕ → ℤ
to_int n =
    let bits = n % 2 ^ 64 in if ltb bits (2 ^ 63) then pos bits else negsuc (2 ^ 64 - 1 - bits)

-- The longest slice of strings that `make` does not refuse, on amd64: 2^48 bytes, 16 for a string. That
-- there is memory for a shorter one is taken for granted: Go ends the process if there is none.
abbrev pub make_limit : ℕ
make_limit = 2 ^ 44

abbrev pub initial_size : ℕ
initial_size = 1024 * 1024

-- The reply of package mem, `none` for an error.
pub mem_available : Option ℕ → ℕ
mem_available none = 102_400
mem_available (some available) = available

module _ {ℓ} {A : Type ℓ} where
  -- `blank` is the empty string.
  pub new_memory_queue : A → Option ℕ → MemoryQueue A
  unfolding mem_available
  new_memory_queue blank memory = record {
    items = replicate initial_size blank;
    default_size = initial_size;
    max_capacity = mem_available memory / 3 / 200;
    head = 0;
    tail = 0;
    size = initial_size;
    count = 0;
  }

  -- `q.head > 0 || q.tail > 0 || q.count > 0`
  abbrev pub is_used : MemoryQueue A → Bool
  is_used q = ltb 0 q.head || ltb 0 q.tail || ltb 0 q.count

  -- The size is assigned before the slice is made.
  pub set_size : A → MemoryQueue A → ℤ → SetReply × MemoryQueue A
  set_size blank q new_size =
      if ltb_ℤ new_size (pos 1)
      then (returned (some bad_size), q)
      else if is_used q
      then (returned (some not_empty), q)
      else if ltb make_limit (pos_part new_size)
      then (panicked, record q { size = pos_part new_size })
      else (
        returned none,
        record q { size = pos_part new_size; items = replicate (pos_part new_size) blank },
      )

  pub set_max_capacity : MemoryQueue A → ℤ → Option QueueError × MemoryQueue A
  set_max_capacity q new_max =
      if ltb_ℤ new_max (pos q.size)
      then (some bad_capacity, q)
      else if is_used q
      then (some not_empty, q)
      else (none, record q { max_capacity = pos_part new_max })

  -- The loop of `resize`, from index `i` with `left` rounds to go.
  pub copy_loop : MemoryQueue A → ℕ → ℕ → List A → Run (List A)
  copy_loop q zero i new_data = ok new_data
  copy_loop q (suc left) i new_data = do
    j ← mod_int (q.head + i) q.size
    item ← index q.items j
    next ← store new_data i item
    copy_loop q left (i + 1) next

  -- A size at which `make` panics is out of reach here: half of it would be the length of a slice that
  -- there is, of more bytes than an amd64 process can address.
  pub resize : A → MemoryQueue A → Run (Option QueueError × MemoryQueue A)
  resize blank q =
      let new_size = to_int (q.size * 2) in
      if ltb_ℤ new_size (pos q.size)
      then ok (some int_limit, q)
      else if leb q.max_capacity (pos_part new_size)
      then ok (some capacity_limit, q)
      else do
        new_data ← copy_loop q q.count 0 (replicate (pos_part new_size) blank)
        ok (none, record q { items = new_data; head = 0; tail = q.count; size = pos_part new_size })

  -- The end of `Add`, where there is room.
  pub put : MemoryQueue A → A → Run (Option QueueError × MemoryQueue A)
  put q item = do
    items ← store q.items q.tail item
    tail ← mod_int (q.tail + 1) q.size
    ok (none, record q { items = items; tail = tail; count = q.count + 1 })

  abbrev put_unless :
      A → Option QueueError × MemoryQueue A → Run (Option QueueError × MemoryQueue A)
  put_unless item (none, q) = put q item
  put_unless item (some e, q) = ok (some e, q)

  pub add : A → MemoryQueue A → A → Run (Option QueueError × MemoryQueue A)
  add blank q item =
      if ltb q.size 1
      then ok (some bad_size, q)
      else if q.count == q.size
      then resize blank q >>= put_unless item
      else put q item

  -- The item and whether there was one.
  pub get : A → MemoryQueue A → Run (A × Bool × MemoryQueue A)
  get blank q = if q.count == 0 then ok (blank, false, q) else do
    item ← index q.items q.head
    items ← store q.items q.head blank
    head ← mod_int (q.head + 1) q.size
    ok (item, true, record q { items = items; head = head; count = q.count - 1 })

  pub has_more : MemoryQueue A → Bool
  has_more q = ltb 0 q.count

  pub len : MemoryQueue A → ℕ
  len q = q.count

  pub get_queue_size : MemoryQueue A → ℕ
  get_queue_size q = q.size

  -- The loop of `Reset`, from index `i` with `left` rounds to go.
  pub clear_loop : A → MemoryQueue A → ℕ → ℕ → List A → Run (List A)
  clear_loop blank q zero i items = ok items
  clear_loop blank q (suc left) i items = do
    j ← mod_int (q.head + i) q.size
    next ← store items j blank
    clear_loop blank q left (i + 1) next

  pub reset : A → MemoryQueue A → Run (MemoryQueue A)
  reset blank q = do
    items ← clear_loop blank q q.count 0 q.items
    ok (record q { items = items; head = 0; tail = 0; count = 0 })
