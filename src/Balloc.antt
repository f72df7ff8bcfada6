-- ===== src/Balloc.antt =====
-- drivers/vmq/balloc.c: the buddy allocator of the message queue driver.
-- `int` and `unsigned` are 32 bits; the page size is a positive `int`. The bitmap that `kmalloc`
-- gives is a function from page numbers to entries, `none` outside of it: an access there is a
-- fault. Whether `kmalloc` gives the two objects is an argument of `create`.
pub mod Access
pub mod Chain
pub mod Buddy
pub mod Order
pub mod Inv
pub mod Create
pub mod Halve
pub mod Search
pub mod Find
pub mod Alloc
pub mod Locate
pub mod Join
pub mod Merge
pub mod Free
pub mod Contract
pub mod GiveBack
pub mod Arena
pub mod Sample
mod Tests
use pi_frame.Prelude.{
  ℕ, zero, suc, ◌+◌, ◌-◌, ◌/◌, ◌%◌, ◌^◌, min, Bool, true, false, not, ◌&&◌, Option, none, some,
  Outcome, ret, fault, hang, ◌>>=◌, ltb, ◌==◌, if◌then◌else◌,
}
use Prim.Native.Nat.{bit_xor}

-- `struct bitmap`: one bit and seven bits.
pub record Entry : Type 0 where
  pub allocated : Bool
  pub order : ℕ

abbrev pub Bitmap : Type 0
Bitmap = ℕ → Option Entry

-- `struct BuddyAllocator`.
pub record BuddyAllocator : Type 0 where
  pub size : ℕ
  pub page_size : ℕ
  pub nr_pages : ℕ
  pub max_order : ℕ
  pub bitmap : Bitmap

abbrev pub u32 : ℕ
u32 = 2 ^ 32

abbrev pub write : Bitmap → ℕ → Entry → Bitmap
write b i e j = if i == j then some e else b j

-- `BA_ORDER(ba, index) = order`: seven bits are kept.
unfoldable pub set_order : Bitmap → ℕ → ℕ → Outcome Bitmap
set_order b i o = elim (b i) [
  | none ↦ fault
  | some e ↦ ret (write b i (record e { order = o % 2 ^ 7 }))
]

-- `ba->bitmap[index].allocated = flag`.
unfoldable pub set_allocated : Bitmap → ℕ → Bool → Outcome Bitmap
set_allocated b i flag = elim (b i) [
  | none ↦ fault
  | some e ↦ ret (write b i (record e { allocated = flag }))
]

unfoldable pub read : Bitmap → ℕ → Outcome Entry
read b i = elim (b i) [ none ↦ fault | some e ↦ ret e ]

-- `BA_NEXT_INDEX`.
abbrev pub next_index : ℕ → Entry → ℕ
next_index i e = i + 2 ^ e.order

-- `BA_BUDDY_INDEX`.
abbrev pub buddy_index : ℕ → ℕ → ℕ
buddy_index i order = bit_xor i (2 ^ order)

-- `for(i = 0; i < 32; i++) if(len >> i == 0) break;` with `left` rounds to go.
unfoldable pub order_loop : ℕ → ℕ → ℕ → ℕ
order_loop zero i len = i
order_loop (suc left) i len =
    let rest = order_loop left (i + 1) len in if len / 2 ^ i == 0 then i else rest

-- `len` pages less one, in `unsigned` arithmetic: zero bytes wrap to 2^32 - 1.
unfoldable pub pages_less_one : ℕ → ℕ → ℕ
pages_less_one len page_size = ((len + page_size + u32 - 1) % u32 / page_size + u32 - 1) % u32

-- `ba_order`.
unfoldable pub order_of : ℕ → ℕ → ℕ
unfolding pages_less_one
order_of len page_size = order_loop 32 0 (pages_less_one len page_size)

-- The loop of `ba_create`, from `i = left - 1` down to 0.
unfoldable pub create_loop : ℕ → ℕ → ℕ → Bitmap → Outcome Bitmap
create_loop zero nr index b = ret b
create_loop (suc i) nr index b =
    let hit = (do b' ← set_order b index i; create_loop i nr (index + 2 ^ (i % 2 ^ 7)) b') in
    let miss = create_loop i nr index b in if nr / 2 ^ i % 2 == 1 then hit else miss

abbrev pub zeroed : ℕ → Bitmap
zeroed nr i = if ltb i nr then some (record { allocated = false; order = 0 }) else none

-- `ba_create`: `none` is the null pointer. A bitmap that was refused is cleared all the same.
unfoldable pub create : Bool → Bool → ℕ → ℕ → Outcome (Option BuddyAllocator)
create ba_given bitmap_given size page_size =
    if not (page_size % 2 ^ 7 == 0)
    then ret none
    else if not ba_given
    then ret none
    else if page_size == 0
    then fault
    else if not bitmap_given
    then fault
    else (do
      b ← create_loop 32 (size / page_size) 0 (zeroed (size / page_size))
      ret (
          some (record {
            size = size;
            page_size = page_size;
            nr_pages = size / page_size;
            max_order = order_of size page_size;
            bitmap = b;
          })))

-- The first loop of `ba_alloc`: `best` is `none` for -1. Every round moves `curr` on, so `end`
-- rounds are enough.
abbrev better : Bitmap → Option ℕ → Entry → Outcome Bool
better b none e = ret true
better b (some i) e = do c ← read b i; ret (ltb e.order c.order)

-- What the body of the loop does with the block at `curr`.
pub data Visit : Type 0 where
  stop : Visit
  next : Option ℕ → Visit

unfoldable pub visit : Bitmap → ℕ → ℕ → Option ℕ → Entry → Outcome Visit
visit b order curr best e =
    if e.allocated
    then ret (next best)
    else if e.order == order % 2 ^ 8
    then ret stop
    else if ltb (order % 2 ^ 8) e.order
    then (better b best e >>= λ c. ret (next (if c then some curr else best)))
    else ret (next best)

unfoldable pub search_loop : ℕ → Bitmap → ℕ → ℕ → ℕ → Option ℕ → Outcome (Option ℕ)
search_loop zero b end order curr best = hang
search_loop (suc fuel) b end order curr best = elim (ltb curr end) [
  | false ↦ ret best
  | true ↦ read b curr >>= λ e. visit b order curr best e >>= elim [
    | stop ↦ ret (some curr)
    | next best' ↦ search_loop fuel b end order (next_index curr e) best'
  ]
]

-- The second loop of `ba_alloc`: the block at `best` is halved until its order is `order`.
unfoldable pub halve : Bitmap → ℕ → Entry → Outcome Bitmap
halve b best e = do
  b₁ ← set_order b best (e.order + 2 ^ 7 - 1)
  e₁ ← read b₁ best
  set_order b₁ (buddy_index best e₁.order) e₁.order

unfoldable pub split_loop : ℕ → Bitmap → ℕ → ℕ → Outcome Bitmap
split_loop zero b order best = hang
split_loop (suc fuel) b order best = read b best >>= λ e. elim (ltb (order % 2 ^ 8) e.order) [
  | true ↦ halve b best e >>= λ b'. split_loop fuel b' order best
  | false ↦ ret b
]

-- The end of `ba_alloc`: the block at `best` is cut to the order and marked. An order has seven bits,
-- so 128 rounds of halving are enough.
unfoldable pub take_block : BuddyAllocator → ℕ → ℕ → Outcome BuddyAllocator
take_block ba order best = do
  b ← split_loop (2 ^ 7) ba.bitmap order best
  b' ← set_allocated b best true
  ret (record ba { bitmap = b' })

-- `ba_alloc`: the index of the first page, `none` for -1.
unfoldable pub alloc : BuddyAllocator → ℕ → Outcome (Option ℕ × BuddyAllocator)
alloc ba len =
    let order = order_of len ba.page_size in
    if ltb ba.max_order order
    then ret (none, ba)
    else search_loop (suc ba.nr_pages) ba.bitmap ba.nr_pages order 0 none >>= elim [
      | none ↦ ret (none, ba)
      | some i ↦ take_block ba order i >>= λ ba'. ret (some i, ba')
    ]

-- The body of the loop of `ba_free`: `none` for `break`, else the bitmap and the new `curr`.
pub join : Bitmap → ℕ → Outcome (Option (Bitmap × ℕ))
join b curr = do
  c ← read b curr
  let buddy = buddy_index curr c.order
  e ← read b buddy
  if not e.allocated && e.order == c.order
      then (do
        b₁ ← set_order b buddy (e.order + 1)
        c₁ ← read b₁ curr
        b₂ ← set_order b₁ curr (c₁.order + 1)
        ret (some (b₂, min buddy curr)))
      else ret none

-- Its bound is never missed, since `curr` only falls; each round raises an order of seven bits, so
-- 128 rounds are enough.
pub merge_loop : ℕ → Bitmap → ℕ → ℕ → Outcome Bitmap
merge_loop zero b nr curr = hang
merge_loop (suc fuel) b nr curr = join b curr >>= elim [
  | none ↦ ret b
  | some (b', curr') ↦ elim (ltb curr' nr) [ true ↦ merge_loop fuel b' nr curr' | false ↦ ret b' ]
]

pub free : BuddyAllocator → ℕ → Outcome BuddyAllocator
free ba index = do
  b ← set_allocated ba.bitmap index false
  b' ← merge_loop (2 ^ 7) b ba.nr_pages index
  ret (record ba { bitmap = b' })
