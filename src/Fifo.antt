-- ===== src/Fifo.antt =====
-- lib/util/utilFifo.c: a queue of copied data between threads, with a fixed pool of items or with
-- items from `malloc`.
-- An item is its pointer: the number of an object of its own, or the place in the array `itemPool`,
-- whose place 0 is also the array's own pointer. `live` has the objects that are allocated.
pub mod Contents
pub mod Trace
pub mod Destroy
mod Tests
use pi_frame.Prelude.{
  ℕ, zero, suc, ◌+◌, Bool, true, false, not, Option, none, some, List, [], ◌∷◌, ◌++◌, Outcome, ret,
  fault, ◌>>=◌, ◌==◌, if◌then◌else◌,
}

pub data Ptr : Type 0 where
  heap : ℕ → Ptr
  pool : ℕ → Ptr

-- `struct QItem`.
pub record Item : Type 0 where
  pub at : Ptr
  pub data_copy : List ℕ

-- `struct PFQueue`.
pub record Fifo : Type 0 where
  pub queue : List Item
  pub empty : List Ptr
  pub pool_count : ℕ
  pub live : List ℕ
  pub pool_live : Bool
  pub next : ℕ

-- The loop of `PFU_createFIFO` from the item `i` on.
pub pool_items : ℕ → ℕ → List Ptr
pool_items i zero = []
pool_items i (suc left) = pool i ∷ pool_items (suc i) left

-- `PFU_createFIFO`.
pub create : ℕ → Fifo
create n = record {
  queue = [];
  empty = pool_items 0 n;
  pool_count = n;
  live = [];
  pool_live = not (n == 0);
  next = 0;
}

-- `allocQItem`: `none` where the pool has no item left. `given` is `malloc`, whose result is used
-- without a test.
pub alloc_item : Bool → Fifo → Outcome (Option Ptr × Fifo)
alloc_item given q =
    if q.pool_count == 0
    then (if given
        then ret (some (heap q.next), record q { live = q.next ∷ q.live; next = suc q.next })
        else fault)
    else elim q.empty [ [] ↦ ret (none, q) | p ∷ ps ↦ ret (some p, record q { empty = ps }) ]

-- `free`: only of the pointer of an object that is allocated.
pub drop_live : ℕ → List ℕ → Option (List ℕ)
drop_live n [] = none
drop_live n (m ∷ ms) =
    if m == n then some ms else elim (drop_live n ms) [ none ↦ none | some r ↦ some (m ∷ r) ]

pub free_ptr : Ptr → Fifo → Outcome Fifo
free_ptr (heap n) q = elim (drop_live n q.live) [
  | none ↦ fault
  | some l ↦ ret (record q { live = l })
]
free_ptr (pool zero) q = if q.pool_live then ret (record q { pool_live = false }) else fault
free_ptr (pool (suc i)) q = fault

-- `freeQItem`.
pub free_item : Ptr → Fifo → Outcome Fifo
free_item p q =
    if q.pool_count == 0 then free_ptr p q else ret (record q { empty = q.empty ++ p ∷ [] })

-- A round of the loop of `PFU_enqueueFIFO`, and what follows the loop: false where there is no item and
-- the caller waits, still with its data; it makes another round when it wakes. `given` is what `malloc`
-- says to the item, and `copied` to the copy of the data, which is asserted.
pub enqueue_round : Bool → Bool → List ℕ → Fifo → Outcome (Bool × Fifo)
enqueue_round given copied bytes q = alloc_item given q >>= λ r. elim r.0 [
  | none ↦ ret (false, r.1)
  | some p ↦
      if copied
      then ret
          (true, record (r.1) { queue = r.1.queue ++ record { at = p; data_copy = bytes } ∷ [] })
      else fault
]

-- `PFU_dequeueFIFO`: `none` is the null pointer.
pub dequeue : Fifo → Outcome (Option (List ℕ) × Fifo)
dequeue q = elim q.queue [
  | [] ↦ ret (none, q)
  | x ∷ xs ↦ free_item x.at (record q { queue = xs }) >>= λ q'. ret (some x.data_copy, q')
]

-- The loop of `PFU_destroyFIFO`: it gives each item of the queue to `free`.
pub free_all : List Item → Fifo → Outcome Fifo
free_all [] q = ret q
free_all (x ∷ xs) q = free_ptr x.at q >>= λ q'. free_all xs q'

-- `PFU_destroyFIFO`.
pub destroy : Fifo → Outcome Fifo
destroy q = free_all q.queue (record q { queue = [] }) >>= λ q'.
    if q'.pool_count == 0 then ret q' else free_ptr (pool 0) q'

-- A queue with the callers of `PFU_enqueueFIFO` that wait for an item, by their data, as threads are apart.
pub record Threads : Type 0 where
  pub fifo : Fifo
  pub waiting : List (List ℕ)

-- What the threads do, each a step: a call of `PFU_enqueueFIFO` up to its end or its first wait, the next
-- round of a caller that waits, and a call of `PFU_dequeueFIFO`.
pub data Step : Type 0 where
  call : List ℕ → Step
  wake : ℕ → Step
  get : Step

pub data Event : Type 0 where
  entered : Event
  waits : Event
  nobody : Event
  given : Option (List ℕ) → Event

-- The data of a caller that waits, and the others.
pub pick {ℓ} : {A : Type ℓ} → ℕ → List A → Option (A × List A)
pick k [] = none
pick zero (x ∷ xs) = some (x, xs)
pick (suc k) (x ∷ xs) = elim (pick k xs) [ none ↦ none | some (y, ys) ↦ some (y, x ∷ ys) ]

-- A round for some data, with the callers that wait if it ends the call, and if not.
pub try_round : List ℕ → List (List ℕ) → List (List ℕ) → Fifo → Outcome (Event × Threads)
try_round bytes ended asleep q = enqueue_round true true bytes q >>= λ r. ret (
    if r.0
    then (entered, record { fifo = r.1; waiting = ended })
    else (waits, record { fifo = r.1; waiting = asleep }))

pub wake_picked : Option (List ℕ × List (List ℕ)) → Threads → Outcome (Event × Threads)
wake_picked none t = ret (nobody, t)
wake_picked (some (bytes, others)) t = try_round bytes others t.waiting t.fifo

pub step : Step → Threads → Outcome (Event × Threads)
step (call bytes) t = try_round bytes t.waiting (t.waiting ++ bytes ∷ []) t.fifo
step (wake k) t = wake_picked (pick k t.waiting) t
step get t = dequeue t.fifo >>= λ r. ret (given r.0, record t { fifo = r.1 })

pub run : List Step → Threads → Outcome (List Event × Threads)
run [] t = ret ([], t)
run (o ∷ os) t = step o t >>= λ r. run os r.1 >>= λ s. ret (r.0 ∷ s.0, s.1)
