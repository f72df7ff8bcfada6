-- ===== src/Fifo/Tests.antt =====
-- Queues of utilFifo.c with few items, and the theorems at these inputs.
use pi_frame.Prelude.{◌≡◌, refl, true, false, some, [], ◌∷◌, arith, ret, fault}
use pi_frame.Fifo.{
  heap, pool, Fifo, create, destroy, Threads, call, wake, get, entered, waits, given, run, pick,
}
use pi_frame.Fifo.Contents.{Inv, Fixed}
use pi_frame.Fifo.Trace.{ideal, create-run}
use pi_frame.Fifo.Destroy.{destroy-Fixed}

-- One of the two items of the pool is in the queue.
abbrev half_used : Fifo
half_used = record {
  queue = record { at = pool 0; data_copy = 1 ∷ 2 ∷ [] } ∷ [];
  empty = pool 1 ∷ [];
  pool_count = 2;
  live = [];
  pool_live = true;
  next = 0;
}

half_used-Fixed : Fixed half_used
half_used-Fixed = record {
  has_pool = omega arith;
  pooled = ((0, refl), tt);
  spare = ((1, refl), tt);
  shared = refl;
  alive = refl;
}

create-run_example :
    (t : Threads) × (run
        (call (7 ∷ []) ∷ call (8 ∷ []) ∷ wake 0 ∷ get ∷ wake 0 ∷ get ∷ [])
        (record { fifo = create 1; waiting = [] })
      ≡ ret (
        entered ∷ waits ∷ waits ∷ given (some (7 ∷ [])) ∷ entered ∷ given (some (8 ∷ [])) ∷ [],
        t,
      ))
    × (ideal t ≡ ([], []))
    × Inv t.fifo
unfolding pick
create-run_example = create-run 1 (call (7 ∷ []) ∷ call (8 ∷ []) ∷ wake 0 ∷ get ∷ wake 0 ∷ get ∷ [])

-- A queue without a pool, with one object in it.
abbrev loose_one : Fifo
loose_one = record {
  queue = record { at = heap 4; data_copy = 9 ∷ [] } ∷ [];
  empty = [];
  pool_count = 0;
  live = 4 ∷ [];
  pool_live = false;
  next = 5;
}

destroy-Fixed_example : destroy half_used ≡ fault
destroy-Fixed_example =
    destroy-Fixed half_used (record { at = pool 0; data_copy = 1 ∷ 2 ∷ [] }) [] half_used-Fixed refl
