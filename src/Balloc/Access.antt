-- ===== src/Balloc/Access.antt =====
-- Reads and writes of the bitmap of balloc.c at an entry that is there, and at one that is not.
use pi_frame.Prelude.{ℕ, ◌%◌, ◌^◌, ◌≡◌, ◌≢◌, Bool, none, some, ret, fault, arith}
use pi_frame.Balloc.{Entry, Bitmap, write, read, set_order, set_allocated}

pub write_self : (b : Bitmap) (i : ℕ) (e : Entry) → write b i e i ≡ some e
write_self b i e = ground arith

pub write_ne : (b : Bitmap) (i j : ℕ) (e : Entry) → i ≢ j → write b i e j ≡ b j
write_ne b i j e h = ground arith

module _ (b : Bitmap) (i : ℕ) (e : Entry) (entry : b i ≡ some e) where
  pub read_lem : read b i ≡ ret e
  unfolding read
  read_lem = rw (entry, read)

  pub set_order_lem : (o : ℕ) → set_order b i o ≡ ret (write b i (record e { order = o % 2 ^ 7 }))
  unfolding set_order
  set_order_lem o = rw (entry, set_order)

  pub set_allocated_lem :
      (flag : Bool) → set_allocated b i flag ≡ ret (write b i (record e { allocated = flag }))
  unfolding set_allocated
  set_allocated_lem flag = rw (entry, set_allocated)

pub read_outside : (b : Bitmap) (i : ℕ) → b i ≡ none → read b i ≡ fault
unfolding read
read_outside b i h = rw (h, read)
