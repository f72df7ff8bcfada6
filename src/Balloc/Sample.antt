-- ===== src/Balloc/Sample.antt =====
-- Arenas of eight pages for the tests.
use pi_frame.Prelude.{◌≡◌, refl, Bool, none, some, [], ◌∷◌, arith, ◌==◌, if◌then◌else◌, ltb}
use pi_frame.Balloc.{Entry, Bitmap, BuddyAllocator, order_loop, pages_less_one, order_of}
use pi_frame.Balloc.Chain.{free_block}
use pi_frame.Balloc.Inv.{Inv}

-- Eight pages of 128 bytes in one block.
abbrev pub layout : Entry → Bitmap
layout e j = if j == 0 then some e else if ltb j 8 then some (free_block 0) else none

abbrev pub arena : Entry → BuddyAllocator
arena e = record { size = 1024; page_size = 128; nr_pages = 8; max_order = 3; bitmap = layout e }

pub arena-Inv :
    (flag : Bool)
    → Inv
        (arena (record { allocated = flag; order = 3 }))
        (record { allocated = flag; order = 3 } ∷ [])
unfolding order_of pages_less_one order_loop
arena-Inv flag = record {
  chain = (
    record {
      entry = refl;
      aligned = (0, refl);
      small = omega arith;
      quiet = λ j p q. (0, ground arith);
    },
    refl,
  );
  bounded = λ j p. ground arith;
  size_fits = omega arith;
  page_fits = omega arith;
  page_pos = omega arith;
  pages_fit = omega arith;
  pages_max = omega arith;
  top = refl;
}

-- The same in two blocks of four pages.
abbrev pub half_layout : Entry → Entry → Bitmap
half_layout e f j =
    if j == 0
    then some e
    else if j == 4
    then some f
    else if ltb j 8
    then some (free_block 0)
    else none

abbrev pub half_arena : Entry → Entry → BuddyAllocator
half_arena e f = record {
  size = 1024;
  page_size = 128;
  nr_pages = 8;
  max_order = 3;
  bitmap = half_layout e f;
}

pub half_arena-Inv :
    (flag flag' : Bool)
    → Inv
        (half_arena
          (record { allocated = flag; order = 2 })
          (record { allocated = flag'; order = 2 }))
        (record { allocated = flag; order = 2 } ∷ record { allocated = flag'; order = 2 } ∷ [])
unfolding order_of pages_less_one order_loop
half_arena-Inv flag flag' = record {
  chain = (
    record {
      entry = refl;
      aligned = (0, refl);
      small = omega arith;
      quiet = λ j p q. (0, ground arith);
    },
    (
      record {
        entry = refl;
        aligned = (1, refl);
        small = omega arith;
        quiet = λ j p q. (0, ground arith);
      },
      refl,
    ),
  );
  bounded = λ j p. ground arith;
  size_fits = omega arith;
  page_fits = omega arith;
  page_pos = omega arith;
  pages_fit = omega arith;
  pages_max = omega arith;
  top = refl;
}

pub order_512 : order_of 512 128 ≡ 2
unfolding order_of pages_less_one order_loop
order_512 = refl
