-- ===== src/Vmq/Tests.antt =====
-- The calls of the queue driver on an arena of eight pages, and the theorems at these inputs.
use pi_frame.Prelude.{
  ℕ, ◌<◌, ◌≢◌, ◌≡◌, refl, sym, ap, Bool, true, false, none, some, List, [], ◌∷◌, arith, ret,
}
use pi_frame.Balloc.{order_of}
use pi_frame.Balloc.Create.{create_lem}
use pi_frame.Balloc.Chain.{free_block}
use pi_frame.Balloc.Alloc.{used_block}
use pi_frame.Balloc.Arena.{count}
use pi_frame.Balloc.Sample.{half_arena, half_arena-Inv, order_512}
use pi_frame.Vmq.{Producer, Consumer, Manager, find_buffer}
use pi_frame.Vmq.Calls.{
  Reply, done, info, find_consumer, find_producer, getitem, putitem, getbuf, putbuf,
  release_consumer, release_producer, setup_producer, setup_consumer, drop_producer,
}
use pi_frame.Vmq.State.{Heap, Safe, marks}
use pi_frame.Vmq.Items.{Inv}
use pi_frame.Vmq.New.{create_manager}
use pi_frame.Vmq.Keys.{key_at, keys-differ}
use pi_frame.Vmq.GiveUp.{Put, Released, putitem-Inv, release_consumer-Inv}
use pi_frame.Vmq.Produce.{putbuf-Inv}
use pi_frame.Vmq.Deliver.{putbuf-getitem}
use pi_frame.Vmq.Reach.{
  Reach, here, next, sets_producer, sets_consumer, releases_producer, create_manager-Reach,
}
use pi_frame.Vmq.Getbuf.{own, Took, getbuf-Took}

-- One buffer of four pages, with `r` references.
abbrev queue : ℕ → List Consumer → List Producer → Manager
queue r consumers producers = record {
  size = 1024;
  page_size = 128;
  ba = half_arena (used_block 2) (free_block 2);
  buffers = record { id = 0; size = 512; offset = 0; refcnt = r } ∷ [];
  next = 1;
  refcnt = 2;
  consumers = consumers;
  producers = producers;
  item_count = 1;
  alloc_count = 1;
  remove_count = 0;
  full_count = 0;
  max_item_count = 0;
}

queue-Heap :
    (r : ℕ) (consumers : List Consumer) (producers : List Producer)
    → Heap (queue r consumers producers) []
queue-Heap r consumers producers = record {
  arena = record {
    blocks = used_block 2 ∷ free_block 2 ∷ [];
    inv = half_arena-Inv true false;
    bag = λ u. ap (λ o. count u ((0, o) ∷ [])) (sym order_512);
  };
  page = refl;
  page_pos = omega arith;
  below = (omega arith, tt);
  counted = refl;
  balance = refl;
}

abbrev waiting : Consumer
waiting = record { file = 2; items = 0 ∷ []; item = none }

abbrev holding : Consumer
holding = record { file = 2; items = []; item = some 0 }

abbrev resting : Consumer
resting = record { file = 2; items = []; item = none }

abbrev owning : Producer
owning = record { file = 1; buffer = some 0 }

abbrev idle : Producer
idle = record { file = 1; buffer = none }

waiting-Inv : Inv (queue 1 (waiting ∷ []) (idle ∷ [])) []
unfolding find_buffer
waiting-Inv = record {
  state = record { heap = queue-Heap 1 (waiting ∷ []) (idle ∷ []); counts = λ i. ground arith };
  few = omega arith;
  fits = omega arith;
}

holding-Inv : Inv (queue 1 (holding ∷ []) (idle ∷ [])) []
unfolding find_buffer
holding-Inv = record {
  state = record { heap = queue-Heap 1 (holding ∷ []) (idle ∷ []); counts = λ i. ground arith };
  few = omega arith;
  fits = omega arith;
}

owning-Inv : Inv (queue 0 (resting ∷ []) (owning ∷ [])) []
unfolding find_buffer
owning-Inv = record {
  state = record { heap = queue-Heap 0 (resting ∷ []) (owning ∷ []); counts = λ i. ground arith };
  few = omega arith;
  fits = omega arith;
}

putitem-Inv_example :
    Safe 8
      (marks (queue 1 (holding ∷ []) (idle ∷ [])) [])
      (λ (r : Reply × Manager).
        Inv r.1 [] × Put 2 (queue 1 (holding ∷ []) (idle ∷ [])) holding (some 0) r)
      (putitem 2 (queue 1 (holding ∷ []) (idle ∷ [])))
unfolding find_consumer
putitem-Inv_example = putitem-Inv 2 (queue 1 (holding ∷ []) (idle ∷ [])) [] holding holding-Inv refl

release_consumer-Inv_example :
    Safe 8
      (marks (queue 1 (waiting ∷ []) (idle ∷ [])) [])
      (λ (r : Bool × Manager). Released 2 (queue 1 (waiting ∷ []) (idle ∷ [])) [] waiting r.1)
      (release_consumer 2 (queue 1 (waiting ∷ []) (idle ∷ [])))
unfolding find_consumer
release_consumer-Inv_example =
    release_consumer-Inv 2 (queue 1 (waiting ∷ []) (idle ∷ [])) [] waiting waiting-Inv refl

getbuf-Took_example :
    (page : ℕ) × Safe 8
      (own true (page, order_of 100 128))
      (Took true [])
      (getbuf 1 (some 100) false true true (queue 1 (waiting ∷ []) (idle ∷ [])))
unfolding find_producer
getbuf-Took_example =
    getbuf-Took 1 (queue 1 (waiting ∷ []) (idle ∷ [])) [] idle 100 false true true waiting-Inv refl
      (omega arith)

putbuf-Inv_example :
    Safe 8
      (marks (queue 0 (resting ∷ []) (owning ∷ [])) [])
      (λ (r : Reply × Manager). Inv r.1 [])
      (putbuf 1 (some 0) [] (queue 0 (resting ∷ []) (owning ∷ [])))
unfolding find_producer
putbuf-Inv_example =
    putbuf-Inv 1 (some 0) [] (queue 0 (resting ∷ []) (owning ∷ [])) [] owning 0 owning-Inv refl refl

-- A consumer before it.
abbrev other_file : Consumer
other_file = record { file = 3; items = []; item = none }

putbuf-getitem_example :
    (m' : Manager) × (m'' : Manager) × (putbuf 1
        (some 0)
        (false ∷ true ∷ [])
        (queue 0 (other_file ∷ resting ∷ []) (owning ∷ []))
      ≡ ret (done, m'))
    × (getitem 2 false true m' ≡ ret (info 512 0, m''))
    × (find_consumer 2 m''.consumers ≡ some holding)
unfolding find_producer find_consumer find_buffer
putbuf-getitem_example =
    putbuf-getitem 1 2 0 (false ∷ true ∷ []) false
      (queue 0 (other_file ∷ resting ∷ []) (owning ∷ [])) owning
      (record { id = 0; size = 512; offset = 0; refcnt = 0 }) resting refl refl refl refl refl refl
      refl

keys-differ_example : (key_at 134291477 0 ≢ key_at 134291477 2) × (0 < key_at 134291477 2)
keys-differ_example =
    keys-differ 134291477 0 2 (omega arith) (omega arith) (omega arith) (omega arith)

-- A new queue; the kernel gave memory for all objects.
abbrev new_queue : Manager
new_queue = record {
  size = 1024;
  page_size = 128;
  ba = (create_lem 1024 128 refl (omega arith) (omega arith) (omega arith)).0;
  buffers = [];
  next = 0;
  refcnt = 0;
  consumers = [];
  producers = [];
  item_count = 0;
  alloc_count = 0;
  remove_count = 0;
  full_count = 0;
  max_item_count = 0;
}

new_queue_run : create_manager true true true 1024 128 0 ≡ ret (some new_queue)
unfolding create_manager
new_queue_run =
    let (ba, xs, run, sized, paged, inv, idle) =
      create_lem 1024 128 refl (omega arith) (omega arith) (omega arith) in
    rw run refl

abbrev closed_queue : Manager
closed_queue = record new_queue {
  refcnt = 1;
  consumers = record { file = 2; items = []; item = none } ∷ [];
}

closed-Reach : Reach new_queue closed_queue
unfolding setup_producer setup_consumer release_producer find_producer drop_producer
closed-Reach =
    next (next (next here (sets_producer 1 refl)) (sets_consumer 2 (omega arith) refl))
      (releases_producer 1 (record { file = 1; buffer = none }) refl refl)

create_manager-Reach_example : (lost : List (ℕ × ℕ)) × Inv closed_queue lost
create_manager-Reach_example =
    create_manager-Reach 1024 128 0 new_queue closed_queue refl (omega arith) (omega arith)
      (omega arith) new_queue_run closed-Reach
