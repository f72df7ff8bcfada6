-- ===== src/Balloc/Tests.antt =====
-- Runs of balloc.c on an arena of eight pages, and the theorems at these inputs.
use pi_frame.Prelude.{
  ℕ, suc, ◌*◌, ◌^◌, ◌≤◌, ◌<◌, ◌≡◌, refl, ◌⊎◌, true, false, Option, none, some, List, [], ◌∷◌, arith,
  Outcome, ret, fault, ◌>>=◌,
}
use pi_frame.Balloc.{
  Entry, BuddyAllocator, write, read, set_order, set_allocated, create_loop, create, order_loop,
  pages_less_one, order_of, visit, search_loop, halve, split_loop, take_block, alloc, free,
}
use pi_frame.Balloc.Sample.{layout, arena, arena-Inv}
use pi_frame.Balloc.Chain.{free_block, used}
use pi_frame.Balloc.Inv.{Inv}
use pi_frame.Balloc.Order.{order_of_lem}
use pi_frame.Balloc.Create.{create_lem}
use pi_frame.Balloc.Alloc.{used_block, AllocDone, alloc_lem}
use pi_frame.Balloc.Free.{FreeDone, free_lem}
use pi_frame.Balloc.Contract.{Granted, alloc_grants}
use pi_frame.Balloc.GiveBack.{alloc-free, free_last_faults}

-- Three blocks come from one: two pages of order 1 at 0, one page at 2, and -1 for a whole arena.
abbrev script : Outcome (Option ℕ × Option ℕ × Option ℕ)
script = do
  created ← create true true 1024 128
  elim created [
    | none ↦ fault
    | some ba ↦ do
      first ← alloc ba 200
      second ← alloc first.1 100
      third ← alloc second.1 1024
      ret (first.0, second.0, third.0)
  ]

script_runs : script ≡ ret (some 0, some 2, none)
unfolding create create_loop order_of order_loop pages_less_one alloc search_loop visit take_block
    split_loop halve read set_order set_allocated
script_runs = refl

order_of_lem_example :
    (order_of 300 128 ≤ 32)
    × (300 ≤ 2 ^ order_of 300 128 * 128)
    × ((order_of 300 128 ≡ 0) ⊎ ((p : ℕ) × (order_of 300 128 ≡ suc p) × (2 ^ p * 128 < 300)))
order_of_lem_example = order_of_lem 300 128 (omega arith) (omega arith) (omega arith)

create_lem_example :
    (ba : BuddyAllocator) × (xs : List Entry) × (create true true 1024 128 ≡ ret (some ba))
    × (ba.size ≡ 1024)
    × (ba.page_size ≡ 128)
    × Inv ba xs
    × (used 0 xs ≡ [])
create_lem_example = create_lem 1024 128 refl (omega arith) (omega arith) (omega arith)

alloc_lem_example :
    AllocDone
      (arena (free_block 3))
      (free_block 3 ∷ [])
      (order_of 200 128)
      (alloc (arena (free_block 3)) 200)
alloc_lem_example =
    alloc_lem (arena (free_block 3)) (free_block 3 ∷ []) 200 (arena-Inv false) (omega arith)
      (omega arith)

free_lem_example : FreeDone (arena (used_block 3)) 0 3 [] (free (arena (used_block 3)) 0)
free_lem_example = free_lem (arena (used_block 3)) [] 3 [] (arena-Inv true)

free_last_faults_example : free (arena (used_block 3)) 0 ≡ fault
free_last_faults_example = free_last_faults (arena (used_block 3)) [] 3 0 (arena-Inv true) refl

alloc_grants_example :
    (alloc (arena (free_block 3)) 200 ≡ ret (none, arena (free_block 3)))
    ⊎ ((i : ℕ) × (o : ℕ) × (ba' : BuddyAllocator) × (alloc (arena (free_block 3)) 200
          ≡ ret (some i, ba'))
        × (200 ≤ 2 ^ o * 128)
        × Granted (arena (free_block 3)) [] o i ba')
alloc_grants_example =
    alloc_grants (arena (free_block 3)) (free_block 3 ∷ []) 200 (arena-Inv false) (omega arith)
      (omega arith)

-- Half of the arena is taken.
abbrev halved_arena : BuddyAllocator
halved_arena = record {
  size = 1024;
  page_size = 128;
  nr_pages = 8;
  max_order = 3;
  bitmap =
      write (write (write (layout (free_block 3)) 0 (free_block 2)) 4 (free_block 2)) 0
        (used_block 2);
}

alloc-free_example : FreeDone halved_arena 0 (order_of 512 128) [] (free halved_arena 0)
unfolding alloc order_of order_loop pages_less_one search_loop visit take_block split_loop halve
    read set_order set_allocated
alloc-free_example =
    alloc-free (arena (free_block 3)) (free_block 3 ∷ []) 512 0 halved_arena (arena-Inv false)
      (omega arith) (omega arith) refl
