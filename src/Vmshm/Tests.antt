-- ===== src/Vmshm/Tests.antt =====
-- The calls of the shared memory driver with one memory, and the theorems at these inputs.
use pi_frame.Prelude.{
  ℕ, suc, ◌+◌, ◌^◌, ◌<◌, ◌≡◌, refl, true, false, ◌⊎◌, none, some, [], ◌∷◌, arith, ret, fault,
}
use pi_frame.Vmshm.{
  SharedMemory, Driver, Error, einval, ebusy, Reply, size_of, error, lookup, find_mem, Grants,
  create, find_file, remove_cmd, select_cmd, ioctl,
}
use pi_frame.Vmshm.Inv.{Inv, held}
use pi_frame.Vmshm.Create.{create-dangles}
use pi_frame.Vmshm.Ioctl.{ioctl-Returns}
use pi_frame.Vmshm.Users.{remove_cmd-busy, create-select}

abbrev video : SharedMemory
video = record {
  id = 0;
  size = 4096;
  perm = 438;
  flags = 0;
  name = 118 ∷ [];
  refcnt = 1;
  freed = false;
}

-- The file 5 has selected the memory "v".
abbrev driver : Driver
driver = record { mems = video ∷ []; next = 1; files = (5, 0) ∷ []; modules = 1 }

abbrev nobody : ℕ → ℕ
nobody i = 0

abbrev all : Grants
all = record { mem = true; base = true; module_ref = true }

abbrev leaving : Grants
leaving = record { mem = true; base = true; module_ref = false }

driver-Inv : Inv driver nobody
unfolding find_mem
driver-Inv = record { good = (refl, omega arith, refl, refl, tt); counts = λ i. ground arith }

room : (i : ℕ) → suc (held i driver.files + nobody i) < 2 ^ 32
room i = ground arith

create-dangles_example :
    (d' : Driver) × (create 4096 leaving (97 ∷ []) 5000 438 0 driver ≡ ret (some einval, d'))
    × (lookup (98 ∷ []) d'.mems ≡ fault)
create-dangles_example =
    create-dangles 4096 driver nobody (97 ∷ []) 5000 438 0 leaving (98 ∷ []) driver-Inv refl refl
      refl refl refl (omega arith) (omega arith)

ioctl-Returns_example :
    (v : Reply × Driver) × (ioctl 4096 all 6 (select_cmd (some (118 ∷ []))) driver ≡ ret v)
    × Inv v.1 nobody
ioctl-Returns_example =
    ioctl-Returns 4096 all 6 driver nobody (select_cmd (some (118 ∷ []))) driver-Inv refl
      (omega arith) room

remove_cmd-busy_example :
    ioctl 4096 all 6 (remove_cmd (some (118 ∷ []))) driver ≡ ret (error ebusy, driver)
unfolding find_file find_mem
remove_cmd-busy_example =
    remove_cmd-busy 4096 all 5 6 driver nobody video driver-Inv refl refl refl (omega arith)

create-select_example :
    ((e : Error) × (create 4096 all (97 ∷ []) 5000 438 0 driver ≡ ret (some e, driver)))
    ⊎ ((d' : Driver) × (d'' : Driver) × (create 4096 all (97 ∷ []) 5000 438 0 driver
          ≡ ret (none, d'))
        × (ioctl 4096 all 6 (select_cmd (some (97 ∷ []))) d' ≡ ret (size_of 8192, d''))
        × Inv d'' nobody)
unfolding find_file
create-select_example =
    create-select 4096 all 6 5000 438 0 (97 ∷ []) driver nobody driver-Inv refl (omega arith) refl
      room
