-- ===== src/Vmq/Separate.antt =====
-- drivers/vmq/main.c: the buffers of a queue that is in use.
use pi_frame.Prelude.{ℕ, ◌+◌, ◌/◌, ◌%◌, ◌^◌, ◌≤◌, ◌<◌, ◌≡◌, ◌≢◌, ◌⊎◌, true, some, ret}
use pi_frame.Balloc.{order_of}
use pi_frame.Vmq.{Buffer, Manager, find_buffer}
use pi_frame.Vmq.Heap.{block}
use pi_frame.Vmq.New.{create_manager}
use pi_frame.Vmq.Disjoint.{Behind, buffers-Behind}
use pi_frame.Vmq.Reach.{Reach, create_manager-Reach}

-- After any sequence of calls that return, in any order, on a new queue with a page size that is a multiple
-- of 128 and numbers below 2 ^ 31, two buffers that are allocated at the same time, whoever asked for them and whoever
-- reads them, have blocks of pages that do not overlap and lie within the memory of the queue.
pub create_manager-Behind :
    (size page_size max_item_count : ℕ) (m m' : Manager) (i j : ℕ) (b c : Buffer)
    → page_size % 2 ^ 7 ≡ 0
    → 0 < page_size
    → page_size < 2 ^ 31
    → size < 2 ^ 31
    → create_manager true true true size page_size max_item_count ≡ ret (some m)
    → Reach m m'
    → find_buffer i m'.buffers ≡ some b
    → find_buffer j m'.buffers ≡ some c
    → i ≢ j
    → (Behind (block m'.page_size b) (block m'.page_size c)
        ⊎ Behind (block m'.page_size c) (block m'.page_size b))
      × (b.offset / m'.page_size + 2 ^ order_of b.size m'.page_size ≤ m'.ba.nr_pages)
create_manager-Behind size page_size max_item_count m m' i j b c whole pos fits small made reach
      here there apart =
    let (lost, v) =
      create_manager-Reach size page_size max_item_count m m' whole pos fits small made reach in
    buffers-Behind m' lost i j b c v here there apart
