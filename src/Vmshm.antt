-- ===== src/Vmshm.antt =====
-- drivers/vmshm/main.c: the shared memory driver. A pointer to a `struct VMSharedMemory` is the number
-- of the memory; `mems` is the list `vmshm_list`, whose entries may be dangling. `files` has the
-- `private_data` of each open file that has selected a memory. A name is its bytes up to the zero.
-- What the kernel decides is an argument: the size of a page, and whether memory is given.
pub mod Mems
pub mod Good
pub mod Inv
pub mod Create
pub mod Ioctl
pub mod Users
mod Tests
use pi_frame.Prelude.{
  ℕ, zero, suc, ◌+◌, ◌-◌, ◌*◌, ◌/◌, ◌%◌, ◌^◌, Bool, true, false, not, ◌&&◌, Option, none, some,
  List, [], ◌∷◌, ◌++◌, Outcome, ret, fault, ◌>>=◌, ltb, ◌==◌, if◌then◌else◌, length, same_name,
}
use Prim.Native.Nat.{bit_and}

abbrev pub u32 : ℕ
u32 = 2 ^ 32

-- `VMSHM_MAX_NAME_LENGTH`.
abbrev pub max_name_length : ℕ
max_name_length = 64

-- `VMSHM_PERM_MASK`, 0666 in octal.
abbrev pub perm_mask : ℕ
perm_mask = 438

-- `struct VMSharedMemory`; `freed` where `kfree` has taken it.
pub record SharedMemory : Type 0 where
  pub id : ℕ
  pub size : ℕ
  pub perm : ℕ
  pub flags : ℕ
  pub name : List ℕ
  pub refcnt : ℕ
  pub freed : Bool

pub record Driver : Type 0 where
  pub mems : List SharedMemory
  pub next : ℕ
  pub files : List (ℕ × ℕ)
  pub modules : ℕ

pub data Error : Type 0 where
  efault einval eexist enomem ebusy enoent : Error

-- What a call returns: zero, a size or an error.
pub data Reply : Type 0 where
  done : Reply
  size_of : ℕ → Reply
  error : Error → Reply

-- `lookup`: a read of a name in memory that is freed is a fault.
unfoldable pub lookup : List ℕ → List SharedMemory → Outcome (Option SharedMemory)
lookup name [] = ret none
lookup name (m ∷ ms) =
    let rest = lookup name ms in
    if m.freed then fault else if same_name m.name name then ret (some m) else rest

-- The memory behind a pointer, the write of its counter, and `list_del`.
unfoldable pub find_mem : ℕ → List SharedMemory → Option SharedMemory
find_mem i [] = none
find_mem i (m ∷ ms) = if m.id == i then some m else find_mem i ms

pub set_refs : ℕ → ℕ → List SharedMemory → List SharedMemory
set_refs i r [] = []
set_refs i r (m ∷ ms) = if m.id == i then record m { refcnt = r } ∷ ms else m ∷ set_refs i r ms

pub erase_mem : ℕ → List SharedMemory → List SharedMemory
erase_mem i [] = []
erase_mem i (m ∷ ms) = if m.id == i then ms else m ∷ erase_mem i ms

-- `(size + PAGE_SIZE - 1) & PAGE_MASK`.
abbrev pub whole_pages : ℕ → ℕ → ℕ
whole_pages page size = (size + page + u32 - 1) % u32 / page * page

-- What the kernel grants to `vmshm_create`.
pub record Grants : Type 0 where
  pub mem : Bool
  pub base : Bool
  pub module_ref : Bool

abbrev pub new_mem : ℕ → Driver → List ℕ → ℕ → ℕ → ℕ → SharedMemory
new_mem page d name size perm flags = record {
  id = d.next;
  size = whole_pages page size;
  perm = bit_and perm perm_mask;
  flags = flags % 2;
  name = name;
  refcnt = 0;
  freed = false;
}

-- `vmshm_create`: the pointer, or the error. Where the module is going away the new memory is freed
-- and stays in the list.
unfoldable pub create : ℕ → Grants → List ℕ → ℕ → ℕ → ℕ → Driver → Outcome (Option Error × Driver)
create page grants name size perm flags d = lookup name d.mems >>= λ r. elim r [
  | some _ ↦ ret (some eexist, d)
  | none ↦
      if not (ltb 0 size && ltb size (2 ^ 31))
      then ret (some einval, d)
      else if not grants.mem
      then ret (some enomem, d)
      else if not grants.base
      then ret (some enomem, d)
      else (let new = new_mem page d name size perm flags in
          if grants.module_ref
          then ret (
            none,
            record d { mems = d.mems ++ new ∷ []; next = suc d.next; modules = suc d.modules },
          )
          else ret (
            some einval,
            record d { mems = d.mems ++ record new { freed = true } ∷ []; next = suc d.next },
          ))
]

-- `vmshm_remove`, with `remove`.
pub remove : SharedMemory → Driver → Option Error × Driver
remove m d =
    if m.refcnt == 0
    then (none, record d { mems = erase_mem m.id d.mems; modules = d.modules - 1 })
    else (some ebusy, d)

-- `vmshm_select` and `vmshm_unselect`.
pub select : List ℕ → Driver → Outcome (Option SharedMemory × Driver)
select name d = lookup name d.mems >>= λ r. elim r [
  | none ↦ ret (none, d)
  | some m ↦ ret (some m, record d { mems = set_refs m.id ((m.refcnt + 1) % u32) d.mems })
]

pub unselect : ℕ → Driver → Outcome Driver
unselect i d = elim (find_mem i d.mems) [
  | none ↦ fault
  | some m ↦ ret (record d { mems = set_refs i ((m.refcnt + u32 - 1) % u32) d.mems })
]

-- The `private_data` of a file.
pub find_file : ℕ → List (ℕ × ℕ) → Option ℕ
find_file f [] = none
find_file f ((g, i) ∷ fs) = if g == f then some i else find_file f fs

pub drop_file : ℕ → List (ℕ × ℕ) → List (ℕ × ℕ)
drop_file f [] = []
drop_file f ((g, i) ∷ fs) = if g == f then fs else (g, i) ∷ drop_file f fs

-- `strncpy_from_user` and `name[ret] = 0`: a name that does not fit is cut, and the zero is written
-- behind the array.
abbrev pub Named : Type 0
Named = Outcome (Option (List ℕ))

pub name_from_user : Option (List ℕ) → Named
name_from_user none = ret none
name_from_user (some name) = if ltb (length name) max_name_length then ret (some name) else fault

abbrev pub is_empty : List ℕ → Bool
is_empty [] = true
is_empty (c ∷ cs) = false

abbrev pub result : Option Error → Reply
result none = done
result (some e) = error e

-- The commands of `vmshm_ioctl`. `arg` is what is read from user space: the structure of
-- `VMSHM_CREATE`, or the name, where they can be read.
pub data Command : Type 0 where
  create_cmd : Option (Option (List ℕ) × ℕ × ℕ × ℕ) → Command
  remove_cmd : Option (List ℕ) → Command
  select_cmd : Option (List ℕ) → Command
  unselect_cmd : Command
  other : Command

-- The commands that take a name that must not be empty.
abbrev pub with_name :
    Option (List ℕ) → Driver → (List ℕ → Outcome (Reply × Driver)) → Outcome (Reply × Driver)
with_name arg d f = name_from_user arg >>= λ r. elim r [
  | none ↦ ret (error efault, d)
  | some name ↦ if is_empty name then ret (error einval, d) else f name
]

-- `vmshm_ioctl`.
pub ioctl : ℕ → Grants → ℕ → Command → Driver → Outcome (Reply × Driver)
ioctl page grants file (create_cmd none) d = ret (error efault, d)
ioctl page grants file (create_cmd (some (arg, size, perm, flags))) d =
    with_name arg d
      (λ name. create page grants name size perm flags d >>= λ r. ret (result r.0, r.1))
ioctl page grants file (remove_cmd arg) d = with_name arg d (λ name. lookup name d.mems >>= λ r.
    elim r [
      | none ↦ ret (error enoent, d)
      | some m ↦ let (e, d') = remove m d in ret (result e, d')
    ])
ioctl page grants file (select_cmd arg) d = elim (find_file file d.files) [
  | some _ ↦ ret (error ebusy, d)
  | none ↦ name_from_user arg >>= λ r. elim r [
    | none ↦ ret (error efault, d)
    | some name ↦ select name d >>= λ r. elim r.0 [
      | none ↦ ret (error enoent, r.1)
      | some m ↦ ret (size_of m.size, record (r.1) { files = (file, m.id) ∷ r.1.files })
    ]
  ]
]
ioctl page grants file unselect_cmd d = elim (find_file file d.files) [
  | none ↦ ret (error einval, d)
  | some i ↦ unselect i d >>= λ d'. ret (done, record d' { files = drop_file file d'.files })
]
ioctl page grants file other d = ret (error einval, d)

-- `vmshm_release`.
pub release : ℕ → Driver → Outcome Driver
release file d = elim (find_file file d.files) [
  | none ↦ ret d
  | some i ↦ unselect i d >>= λ d'. ret (record d' { files = drop_file file d'.files })
]
