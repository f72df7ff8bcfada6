-- ===== src/Vmq/New.antt =====
-- drivers/vmq/main.c: `create_buffer_manager`, a new queue.
use pi_frame.Prelude.{
  ℕ, ◌*◌, ◌%◌, ◌^◌, ◌≤◌, ◌<◌, ◌≡◌, refl, ap, subst, Bool, true, not, Option, none, some, [], arith,
  Outcome, ret, ◌>>=◌, if◌then◌else◌,
}
use pi_frame.Balloc
use pi_frame.Balloc.Create.{create_lem}
use pi_frame.Balloc.Arena.{count}
use pi_frame.Vmq.{Manager, find_buffer}
use pi_frame.Vmq.Items.{Inv}

-- `create_buffer_manager`: `none` is the null pointer, with ENOMEM. `given` is `kzalloc`.
unfoldable pub create_manager : Bool → Bool → Bool → ℕ → ℕ → ℕ → Outcome (Option Manager)
create_manager given ba_given bitmap_given size page_size max_item_count =
    if not given
    then ret none
    else (Balloc.create ba_given bitmap_given size page_size >>= λ r. elim r [
      | none ↦ ret none
      | some ba ↦ ret (
          some (record {
            size = size;
            page_size = page_size;
            ba = ba;
            buffers = [];
            next = 0;
            refcnt = 0;
            consumers = [];
            producers = [];
            item_count = 0;
            alloc_count = 0;
            remove_count = 0;
            full_count = 0;
            max_item_count = max_item_count;
          }))
    ])

pub create_manager-Started :
    (size page_size max_item_count : ℕ)
    → page_size % 2 ^ 7 ≡ 0
    → 0 < page_size
    → page_size < 2 ^ 31
    → size < 2 ^ 31
    → (m : Manager) × (create_manager true true true size page_size max_item_count ≡ ret (some m))
      × (m.size ≡ size)
      × (m.buffers ≡ [])
      × Inv m []
      × (m.refcnt ≡ 0)
      × (m.consumers ≡ [])
      × (m.producers ≡ [])
unfolding create_manager find_buffer
create_manager-Started size page_size max_item_count whole pos fits small =
    let (ba, xs, run, sized, paged, inv, free) = create_lem size page_size whole pos fits small in
    let m : Manager = record {
      size = size;
      page_size = page_size;
      ba = ba;
      buffers = [];
      next = 0;
      refcnt = 0;
      consumers = [];
      producers = [];
      item_count = 0;
      alloc_count = 0;
      remove_count = 0;
      full_count = 0;
      max_item_count = max_item_count;
    } in
    let inside : ba.nr_pages * page_size ≤ ba.size =
      subst (λ n. ba.nr_pages * n ≤ ba.size) paged inv.pages_fit in
    (
      m,
      rw run refl,
      refl,
      refl,
      record {
        state = record {
          heap = record {
            arena = record { blocks = xs; inv = inv; bag = λ u. ap (count u) free };
            page = paged;
            page_pos = pos;
            below = tt;
            counted = refl;
            balance = refl;
          };
          counts = λ i. (refl, refl);
        };
        few = omega arith;
        fits = omega (arith, inside, sized, small);
      },
      refl,
      refl,
      refl,
    )

-- With a page size that `ba_create` takes, and memory for all objects, a new queue is well formed: no
-- buffer is allocated, no block is marked, and the size is the one that is asked for.
pub create_manager-Inv :
    (size page_size max_item_count : ℕ)
    → page_size % 2 ^ 7 ≡ 0
    → 0 < page_size
    → page_size < 2 ^ 31
    → size < 2 ^ 31
    → (m : Manager) × (create_manager true true true size page_size max_item_count ≡ ret (some m))
      × (m.size ≡ size)
      × (m.buffers ≡ [])
      × Inv m []
create_manager-Inv size page_size max_item_count whole pos fits small =
    let (m, run, sized, none_yet, inv, idle, no_consumer, no_producer) =
      create_manager-Started size page_size max_item_count whole pos fits small in
    (m, run, sized, none_yet, inv)
