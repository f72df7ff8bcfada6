-- ===== src/Vmq.antt =====
-- drivers/vmq/main.c: the message queue driver, one queue (`struct VMQBufferManager`) with the
-- producers and consumers that have set it up.
-- A pointer to a `struct VMQBuffer` is the number of the buffer; the list `buffers` holds the ones
-- that are allocated, newest first. A `struct VMQItem` only points to its buffer, and is that number.
-- `int` is a 32-bit word. What the kernel decides is an argument: whether an allocation succeeds,
-- whether a copy from or to user space does, whether a signal is pending.
pub mod Calls
pub mod Heap
pub mod State
pub mod Unref
pub mod Counts
pub mod Items
pub mod Consume
pub mod GiveUp
pub mod Take
pub mod Own
pub mod Handing
pub mod Produce
pub mod Owner
pub mod Getbuf
pub mod Deliver
pub mod Disjoint
pub mod Keys
pub mod New
pub mod Reach
pub mod Separate
mod Tests
mod Pair
use pi_frame.Prelude.{
  ℕ, zero, suc, ◌+◌, ◌-◌, ◌*◌, ◌/◌, ◌%◌, ◌^◌, Bool, true, false, not, ◌&&◌, Option, none, some,
  List, [], ◌∷◌, ◌++◌, Outcome, ret, fault, ◌>>=◌, ltb, ◌==◌, if◌then◌else◌,
}
use pi_frame.Balloc
use pi_frame.Balloc.{BuddyAllocator}

abbrev pub u32 : ℕ
u32 = 2 ^ 32

-- `a < b` of two `int`.
abbrev pub slt : ℕ → ℕ → Bool
slt a b = ltb ((a + 2 ^ 31) % u32) ((b + 2 ^ 31) % u32)

-- `x++` and `x--` of an `int`.
abbrev pub inc : ℕ → ℕ
inc x = (x + 1) % u32

abbrev pub dec : ℕ → ℕ
dec x = (x + u32 - 1) % u32

pub record Buffer : Type 0 where
  pub id : ℕ
  pub size : ℕ
  pub offset : ℕ
  pub refcnt : ℕ

-- `file` is the open file whose context this is.
pub record Producer : Type 0 where
  pub file : ℕ
  pub buffer : Option ℕ

pub record Consumer : Type 0 where
  pub file : ℕ
  pub items : List ℕ
  pub item : Option ℕ

pub record Manager : Type 0 where
  pub size : ℕ
  pub page_size : ℕ
  pub ba : BuddyAllocator
  pub buffers : List Buffer
  pub next : ℕ
  pub refcnt : ℕ
  pub consumers : List Consumer
  pub producers : List Producer
  pub item_count : ℕ
  pub alloc_count : ℕ
  pub remove_count : ℕ
  pub full_count : ℕ
  pub max_item_count : ℕ

pub data Errno : Type 0 where
  efault einval ebusy enomem enoent eexist erestartsys : Errno

-- The memory behind a buffer's pointer.
unfoldable pub find_buffer : ℕ → List Buffer → Option Buffer
find_buffer i [] = none
find_buffer i (b ∷ bs) = if b.id == i then some b else find_buffer i bs

pub set_refcnt : ℕ → ℕ → List Buffer → List Buffer
set_refcnt i r [] = []
set_refcnt i r (b ∷ bs) = if b.id == i then record b { refcnt = r } ∷ bs else b ∷ set_refcnt i r bs

pub erase_buffer : ℕ → List Buffer → List Buffer
erase_buffer i [] = []
erase_buffer i (b ∷ bs) = if b.id == i then bs else b ∷ erase_buffer i bs

-- `remove_buffer_item`, with `free_shared_memory` and `free_buffer_item`.
pub remove_buffer : Manager → Buffer → Outcome Manager
remove_buffer m b =
    if m.page_size == 0
    then fault
    else Balloc.free m.ba (b.offset / m.page_size) >>= λ ba'. ret (record m {
      ba = ba';
      buffers = erase_buffer b.id m.buffers;
      item_count = dec m.item_count;
      remove_count = inc m.remove_count;
    })

-- `unref_buffer`: true if that was the last reference.
pub unref_buffer : Manager → ℕ → Outcome (Bool × Manager)
unref_buffer m i = elim (find_buffer i m.buffers) [
  | none ↦ fault
  | some b ↦
      if dec b.refcnt == 0
      then (remove_buffer (record m { buffers = set_refcnt i 0 m.buffers })
            (record b { refcnt = 0 })
          >>= λ m'. ret (true, m'))
      else ret (false, record m { buffers = set_refcnt i (dec b.refcnt) m.buffers })
]

-- Where a call of `get_buffer_item` stands: at its beginning, or asleep on one of its two conditions.
pub data Phase : Type 0 where
  enter count_wait page_wait : Phase

pub data Got : Type 0 where
  got : Buffer → Got
  failed : Errno → Got
  blocked : Phase → Got

-- The end of `get_buffer_item`, from `mutex_lock(&mgr->mutex)` on. `given` is `alloc_buffer_item`.
unfoldable pub finish_buffer : Bool → ℕ → ℕ → Manager → Got × Manager
finish_buffer given size page m =
    let buffer : Buffer = record {
      id = m.next;
      size = size;
      offset = page * m.page_size % u32;
      refcnt = 0;
    } in
    if given
    then (
      got buffer,
      record m {
        buffers = buffer ∷ m.buffers;
        next = suc m.next;
        item_count = inc m.item_count;
        alloc_count = inc m.alloc_count;
      },
    )
    else (failed enomem, m)

-- `wait_event_interruptible(mgr->b_wq, (page = alloc_shared_memory(mgr, size)) >= 0)`.
unfoldable pub wait_pages : Bool → Bool → ℕ → Manager → Outcome (Got × Manager)
wait_pages signal given size m = Balloc.alloc m.ba size >>= λ r. elim r.0 [
  | none ↦ ret (if signal then failed erestartsys else blocked page_wait, record m { ba = r.1 })
  | some page ↦ ret (finish_buffer given size page (record m { ba = r.1 }))
]

-- The first call of `alloc_shared_memory`.
unfoldable pub try_pages : Bool → Bool → ℕ → Manager → Outcome (Got × Manager)
try_pages signal given size m = Balloc.alloc m.ba size >>= λ r. elim r.0 [
  | none ↦ wait_pages signal given size (record m { ba = r.1; full_count = inc m.full_count })
  | some page ↦ ret (finish_buffer given size page (record m { ba = r.1 }))
]

-- `mgr->maxItemCount > 0 && mgr->bufItemCount >= mgr->maxItemCount`.
abbrev pub over_limit : Manager → Bool
over_limit m = slt 0 m.max_item_count && not (slt m.item_count m.max_item_count)

-- `get_buffer_item`.
unfoldable pub get_buffer : Phase → Bool → Bool → ℕ → Manager → Outcome (Got × Manager)
get_buffer page_wait signal given size m = wait_pages signal given size m
get_buffer phase signal given size m =
    if over_limit m
    then ret (if signal then failed erestartsys else blocked count_wait, m)
    else try_pages signal given size m

-- The loop of `put_buffer_item` over the consumers: `grants` says for each whether the item can be
-- allocated. It returns the consumers and how many of them have the item.
pub hand_out : ℕ → List Bool → List Consumer → List Consumer × ℕ
hand_out i grants [] = ([], 0)
hand_out i (false ∷ grants) (c ∷ cs) = let (cs', n) = hand_out i grants cs in (c ∷ cs', n)
hand_out i (true ∷ grants) (c ∷ cs) =
    let (cs', n) = hand_out i grants cs in (record c { items = c.items ++ i ∷ [] } ∷ cs', n + 1)
hand_out i [] (c ∷ cs) =
    let (cs', n) = hand_out i [] cs in (record c { items = c.items ++ i ∷ [] } ∷ cs', n + 1)

-- `put_buffer_item`: true if the consumers are woken.
pub put_buffer : List Bool → Manager → ℕ → Outcome (Bool × Manager)
put_buffer grants m i = elim (find_buffer i m.buffers) [
  | none ↦ fault
  | some b ↦
      let (consumers, count) = hand_out i grants m.consumers in
      if count == 0
      then (remove_buffer m b >>= λ m'. ret (false, m'))
      else ret (
        true,
        record m {
          consumers = consumers;
          buffers = set_refcnt i ((b.refcnt + count) % u32) m.buffers;
        },
      )
]
