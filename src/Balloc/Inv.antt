-- ===== src/Balloc/Inv.antt =====
-- The representation invariant of `struct BuddyAllocator`.
use pi_frame.Prelude.{ℕ, ◌+◌, ◌*◌, ◌^◌, ◌≤◌, ◌<◌, ◌≡◌, none, List}
use pi_frame.Balloc.{Entry, BuddyAllocator, order_of}
use pi_frame.Balloc.Chain.{Chain}

-- The chain of blocks `xs` covers the pages exactly, and the bitmap has an entry for no other page.
pub record Inv (ba : BuddyAllocator) (xs : List Entry) : Type 0 where
  pub chain : Chain ba.bitmap 0 ba.nr_pages xs
  pub bounded : (j : ℕ) → ba.nr_pages ≤ j → ba.bitmap j ≡ none
  pub size_fits : ba.size < 2 ^ 31
  pub page_fits : ba.page_size < 2 ^ 31
  pub page_pos : 0 < ba.page_size
  pub pages_fit : ba.nr_pages * ba.page_size ≤ ba.size
  pub pages_max : ba.size < ba.nr_pages * ba.page_size + ba.page_size
  pub top : ba.max_order ≡ order_of ba.size ba.page_size

-- What no operation changes.
pub record Kept (ba ba' : BuddyAllocator) : Type 0 where
  pub size : ba'.size ≡ ba.size
  pub page : ba'.page_size ≡ ba.page_size
  pub nr : ba'.nr_pages ≡ ba.nr_pages
