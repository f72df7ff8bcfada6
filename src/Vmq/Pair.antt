-- ===== src/Vmq/Pair.antt =====
-- A new queue of eight pages, on which two producers ask for a buffer of four pages each.
use pi_frame.Prelude.{
  ◌+◌, ◌^◌, ◌≤◌, ◌≡◌, ◌⊎◌, refl, true, false, Option, some, none, [], Outcome, ret, arith,
}
use pi_frame.Balloc
use pi_frame.Balloc.{
  order_of, create_loop, set_order, set_allocated, read, order_loop, pages_less_one, visit,
  search_loop, halve, split_loop, take_block, alloc,
}
use pi_frame.Vmq.{Manager, find_buffer, get_buffer, try_pages, wait_pages, finish_buffer}
use pi_frame.Vmq.Calls.{
  Reply, info, getbuf, getbuf_from, find_producer, set_producer, setup_producer,
}
use pi_frame.Vmq.New.{create_manager}
use pi_frame.Vmq.Disjoint.{Behind}
use pi_frame.Vmq.Reach.{Reach, here, next, sets_producer, gets_buffer}
use pi_frame.Vmq.Separate.{create_manager-Behind}

-- The queue of a run; the other cases do not come up.
abbrev nothing : Manager
nothing = record {
  size = 0;
  page_size = 0;
  ba = record { size = 0; page_size = 0; nr_pages = 0; max_order = 0; bitmap = λ i. none };
  buffers = [];
  next = 0;
  refcnt = 0;
  consumers = [];
  producers = [];
  item_count = 0;
  alloc_count = 0;
  remove_count = 0;
  full_count = 0;
  max_item_count = 0;
}

left : Outcome (Reply × Manager) → Manager
left (ret (r, m)) = m
left o = nothing

made_of : Outcome (Option Manager) → Manager
made_of (ret (some m)) = m
made_of o = nothing

abbrev made : Manager
made = made_of (create_manager true true true 1024 128 0)

abbrev opened : Manager
opened = setup_producer 2 (setup_producer 1 made)

abbrev first_taken : Manager
first_taken = left (getbuf 1 (some 512) false true true opened)

abbrev both_taken : Manager
both_taken = left (getbuf 2 (some 512) false true true first_taken)

made_run : create_manager true true true 1024 128 0 ≡ ret (some made)
unfolding made_of create_manager Balloc.create create_loop set_order read order_of order_loop
    pages_less_one
made_run = refl

both-Reach : Reach made both_taken
unfolding made_of left create_manager Balloc.create create_loop set_order set_allocated read
    order_of order_loop pages_less_one visit search_loop halve split_loop take_block alloc
    get_buffer try_pages wait_pages finish_buffer getbuf getbuf_from find_producer set_producer
    setup_producer
both-Reach =
    next
      (next (next (next here (sets_producer 1 refl)) (sets_producer 2 refl)) (
        gets_buffer 1 512 false true true (record { file = 1; buffer = none }) (info 512 0) refl
          (omega arith) refl))
      (gets_buffer 2 512 false true true (record { file = 2; buffer = none }) (info 512 512) refl
        (omega arith) refl)

create_manager-Behind_example :
    (Behind (4, order_of 512 128) (0, order_of 512 128)
      ⊎ Behind (0, order_of 512 128) (4, order_of 512 128))
    × (4 + 2 ^ order_of 512 128 ≤ 8)
unfolding made_of left create_manager Balloc.create create_loop set_order set_allocated read
    order_of order_loop pages_less_one visit search_loop halve split_loop take_block alloc
    get_buffer try_pages wait_pages finish_buffer getbuf getbuf_from find_producer set_producer
    setup_producer find_buffer
create_manager-Behind_example =
    create_manager-Behind 1024 128 0 made both_taken 1 0
      (record { id = 1; size = 512; offset = 512; refcnt = 0 })
      (record { id = 0; size = 512; offset = 0; refcnt = 0 }) refl (omega arith) (omega arith)
      (omega arith) made_run both-Reach refl refl (λ e. omega (arith, e))
