-- ===== src/Queues.antt =====
-- drivers/vmq/main.c: the list of queues, on the shared memory driver, and the files that have set one up.
-- A pointer to a `struct VMQBufferManager` is the number of the queue. A name is its bytes up to the zero,
-- shorter than the arrays; the printing under /proc is left out, but for the entry that may be refused.
pub mod Inv
pub mod Lookup
pub mod Memory
pub mod Added
pub mod Selected
pub mod Create
pub mod Remove
pub mod Setup
pub mod Guard
pub mod Undo
mod Tests
use pi_frame.Prelude.{
  ℕ, zero, suc, ◌+◌, ◌-◌, ◌%◌, Bool, true, false, Option, none, some, List, [], ◌∷◌, ◌++◌, Outcome,
  ret, fault, ◌>>=◌, ◌==◌, if◌then◌else◌, same_name, Place, find, after,
}
use pi_frame.Vmshm
use pi_frame.Vmshm.{SharedMemory, Driver, find_mem, select, unselect, name_from_user, is_empty}
use pi_frame.Vmq.{Manager}
use pi_frame.Vmq.Calls.{setup_producer, setup_consumer, release_producer, release_consumer}
use pi_frame.Vmq.New.{create_manager}

-- `struct VMQBufferManager` with its `mem`.
pub record Queue : Type 0 where
  pub id : ℕ
  pub mem : ℕ
  pub manager : Manager

pub data Role : Type 0 where
  producer consumer : Role

-- `struct VMQContext` of an open file.
pub record Context : Type 0 where
  pub file : ℕ
  pub queue : ℕ
  pub role : Role

pub record Queues : Type 0 where
  pub shm : Driver
  pub queues : List Queue
  pub next : ℕ
  pub contexts : List Context
  pub modules : ℕ

pub data Error : Type 0 where
  efault einval ebusy enomem enoent : Error
  memory : Vmshm.Error → Error

pub data Answer : Type 0 where
  done : Answer
  error : Error → Answer

-- What the kernel grants to `vmq_create`.
pub record Grants : Type 0 where
  pub module_ref : Bool
  pub shm : Vmshm.Grants
  pub manager : Bool
  pub ba : Bool
  pub bitmap : Bool
  pub proc : Bool

-- `vmshm_remove` of a pointer; its result is not read.
unfoldable pub remove_mem : ℕ → Driver → Outcome Driver
remove_mem i d = elim (find_mem i d.mems) [ none ↦ fault | some m ↦ ret (Vmshm.remove m d).1 ]

-- `err3` and `err2` of `vmq_create`; `remove_buffer_manager` without the memory of the manager.
unfoldable pub give_up_mem : ℕ → Driver → Outcome Driver
give_up_mem i d = unselect i d >>= remove_mem i

-- The end of `vmq_create`, from `create_buffer_manager` on. At `err4` the memory is given up by
-- `remove_buffer_manager`, and again at `err3`.
unfoldable pub with_manager : Grants → ℕ → Option Manager → Queues → Outcome (Answer × Queues)
with_manager g mem none q = give_up_mem mem q.shm >>= λ d. ret (error enomem, record q { shm = d })
with_manager g mem (some m) q =
    if g.proc
    then ret (
      done,
      record q {
        queues = q.queues ++ record { id = q.next; mem = mem; manager = m } ∷ [];
        next = suc q.next;
        modules = suc q.modules;
      },
    )
    else give_up_mem mem q.shm >>= give_up_mem mem >>= λ d. ret (error efault, record q { shm = d })

-- `vmshm_select` in `vmq_create`, with the test of its result against the new memory.
unfoldable pub with_selected :
    Grants → ℕ → ℕ → ℕ → ℕ → Queues → Option SharedMemory × Driver → Outcome (Answer × Queues)
with_selected g mem size page_size max_item_count q (none, d) =
    remove_mem mem d >>= λ d'. ret (error efault, record q { shm = d' })
with_selected g mem size page_size max_item_count q (some m, d) =
    if m.id == mem
    then (create_manager g.manager g.ba g.bitmap size page_size max_item_count >>= λ o.
        with_manager g mem o (record q { shm = d }))
    else (remove_mem mem d >>= λ d'. ret (error efault, record q { shm = d' }))

-- `struct VMQCreateParam`; the name is `none` where it cannot be read.
pub record CreateParam : Type 0 where
  pub name : Option (List ℕ)
  pub size : ℕ
  pub page_size : ℕ
  pub perm : ℕ
  pub flags : ℕ
  pub max_item_count : ℕ

-- What `vmshm_create` returned: the new memory has the next number.
unfoldable pub with_memory :
    Grants → CreateParam → List ℕ → Queues → Option Vmshm.Error × Driver → Outcome (Answer × Queues)
with_memory g p name q (some e, d) = ret (error (memory e), record q { shm = d })
with_memory g p name q (none, d) =
    select name d >>= with_selected g q.shm.next p.size p.page_size p.max_item_count q

-- The name of a call, which is not empty.
unfoldable pub named :
    Option (List ℕ) → Queues → (List ℕ → Outcome (Answer × Queues)) → Outcome (Answer × Queues)
named arg q f = name_from_user arg >>= λ r. elim r [
  | none ↦ ret (error efault, q)
  | some name ↦ if is_empty name then ret (error einval, q) else f name
]

-- `vmq_create`; `page` is the size of a page of memory.
unfoldable pub create_queue : ℕ → Grants → Option CreateParam → Queues → Outcome (Answer × Queues)
create_queue page g arg q =
    if g.module_ref
    then elim arg [
      | none ↦ ret (error efault, q)
      | some p ↦ named p.name q (λ name.
          Vmshm.create page g.shm name p.size p.perm p.flags q.shm >>= with_memory g p name q)
    ]
    else ret (error einval, q)

-- `lookup_buffer_manager`, with the place of the queue in the list.
unfoldable pub at_mem :
    Option SharedMemory
    → (SharedMemory → Outcome (Option (Place Queue)))
    → Outcome (Option (Place Queue))
at_mem none f = fault
at_mem (some m) f = if m.freed then fault else f m

unfoldable pub lookup_queue : List ℕ → Driver → List Queue → Outcome (Option (Place Queue))
lookup_queue name d [] = ret none
lookup_queue name d (q ∷ qs) =
    let rest = lookup_queue name d qs in
    at_mem (find_mem q.mem d.mems) (λ m.
      if same_name m.name name then ret (some ([], q, qs)) else (rest >>= λ r. ret (after q r)))

-- `vmq_remove`.
unfoldable pub remove_found : Queues → Option (Place Queue) → Outcome (Answer × Queues)
remove_found q none = ret (error enoent, q)
remove_found q (some (b, x, a)) =
    if x.manager.refcnt == 0
    then (give_up_mem x.mem q.shm >>= λ d.
        ret (done, record q { shm = d; queues = b ++ a; modules = q.modules - 1 }))
    else ret (error ebusy, q)

unfoldable pub remove_queue : Option (List ℕ) → Queues → Outcome (Answer × Queues)
remove_queue arg q = named arg q (λ name. lookup_queue name q.shm q.queues >>= remove_found q)

-- The `private_data` of a file.
unfoldable pub find_context : ℕ → List Context → Option Context
find_context f [] = none
find_context f (c ∷ cs) = if c.file == f then some c else find_context f cs

unfoldable pub drop_context : ℕ → List Context → List Context
drop_context f [] = []
drop_context f (c ∷ cs) = let rest = drop_context f cs in if c.file == f then cs else c ∷ rest

-- The two arms of `vmq_setup`, by `setup.type`.
unfoldable pub role_of : ℕ → Option Role
role_of zero = some producer
role_of (suc zero) = some consumer
role_of (suc (suc n)) = none

unfoldable pub attach : Role → ℕ → Manager → Manager
attach producer file m = setup_producer file m
attach consumer file m = setup_consumer file m

unfoldable pub setup_found :
    ℕ → Bool → ℕ → Queues → Option (Place Queue) → Outcome (Answer × Queues)
setup_found file given type q none = ret (error einval, q)
setup_found file given type q (some (b, x, a)) =
    if given
    then elim (role_of type) [
      | none ↦ ret (error einval, q)
      | some role ↦ ret (
        done,
        record q {
          queues = b ++ record x { manager = attach role file x.manager } ∷ a;
          contexts = record { file = file; queue = x.id; role = role } ∷ q.contexts;
        },
      )
    ]
    else ret (error enomem, q)

-- `vmq_setup`; `arg` is `struct VMQSetupParam`, and `given` is `kzalloc`.
unfoldable pub setup : ℕ → Bool → Option (Option (List ℕ) × ℕ) → Queues → Outcome (Answer × Queues)
setup file given arg q = elim (find_context file q.contexts) [
  | some c ↦ ret (error einval, q)
  | none ↦ elim arg [
    | none ↦ ret (error efault, q)
    | some r ↦
        named r.0 q (λ name. lookup_queue name q.shm q.queues >>= setup_found file given r.1 q)
  ]
]

-- `vmq_release`: the context is given up.
unfoldable pub detach : Role → ℕ → Manager → Outcome Manager
detach producer file m = release_producer file m
detach consumer file m = release_consumer file m >>= λ r. ret r.1

unfoldable pub release_found : ℕ → Role → Queues → Option (Place Queue) → Outcome Queues
release_found file role q none = fault
release_found file role q (some (b, x, a)) = detach role file x.manager >>= λ m. ret (record q {
  queues = b ++ record x { manager = m } ∷ a;
  contexts = drop_context file q.contexts;
})

unfoldable pub release : ℕ → Queues → Outcome Queues
release file q = elim (find_context file q.contexts) [
  | none ↦ ret q
  | some c ↦ release_found file c.role q (find (λ (x : Queue). x.id == c.queue) q.queues)
]
