-- ===== src/Queues/Tests.antt =====
-- The calls on the list of queues with one queue, and the theorems at these inputs.
use pi_frame.Prelude.{
  suc, ◌<◌, ◌^◌, ◌≡◌, refl, sym, ap, subst, Bool, true, false, ◌⊎◌, none, some, List, [], ◌∷◌, ◌++◌,
  arith, All, ret, fault, length,
}
use pi_frame.Vmshm
use pi_frame.Vmshm.{SharedMemory, Driver, find_mem, lookup}
use pi_frame.Vmshm.Inv.{Inv as ShmInv, held}
use pi_frame.Vmq.{Manager}
use pi_frame.Vmq.Calls.{find_producer, find_consumer}
use pi_frame.Vmq.New.{create_manager-Started}
use pi_frame.Queues.{
  Queue, Queues, Error, ebusy, enoent, done, error, Grants, CreateParam, create_queue, remove_queue,
  setup, release, find_context,
}
use pi_frame.Queues.Inv.{Inv, users, attached}
use pi_frame.Queues.Lookup.{Called}
use pi_frame.Queues.Added.{with_new}
use pi_frame.Queues.Create.{create_queue-Inv, create_queue_faults}
use pi_frame.Queues.Remove.{without, remove_queue-Inv}
use pi_frame.Queues.Guard.{setup-remove_queue}
use pi_frame.Queues.Undo.{setup-release}

abbrev video : SharedMemory
video = record {
  id = 0;
  size = 4096;
  perm = 438;
  flags = 0;
  name = 118 ∷ [];
  refcnt = 1;
  freed = false;
}

-- A new manager of eight pages.
abbrev manager : Manager
manager = (create_manager-Started 1024 128 0 refl (omega arith) (omega arith) (omega arith)).0

-- The queue "v", and no file.
abbrev one_queue : Queues
one_queue = record {
  shm = record { mems = video ∷ []; next = 1; files = []; modules = 1 };
  queues = record { id = 0; mem = 0; manager = manager } ∷ [];
  next = 1;
  contexts = [];
  modules = 1;
}

one_queue_shm : ShmInv one_queue.shm (λ i. users i one_queue.queues)
unfolding find_mem
one_queue_shm = record { good = (refl, omega arith, refl, refl, tt); counts = λ i. ground arith }

one_queue-Inv : Inv one_queue
one_queue-Inv =
    let (m, run, sized, none_yet, inv, idle, no_consumer, no_producer) =
      create_manager-Started 1024 128 0 refl (omega arith) (omega arith) (omega arith) in
    record {
      shm = one_queue_shm;
      sound = (
        record { manager = ([], inv); counted = idle; few = omega arith; below = omega arith },
        tt,
      );
      ids = λ i. ground arith;
      mems = λ i. ground arith;
      known = tt;
    }

abbrev grants : Bool → Grants
grants proc = record {
  module_ref = true;
  shm = record { mem = true; base = true; module_ref = true };
  manager = true;
  ba = true;
  bitmap = true;
  proc = proc;
}

abbrev audio : CreateParam
audio = record {
  name = some (97 ∷ []);
  size = 1024;
  page_size = 128;
  perm = 438;
  flags = 0;
  max_item_count = 0;
}

create_queue-Inv_example :
    ((e : Error) × (q' : Queues) × (create_queue 4096 (grants true) (some audio) one_queue
        ≡ ret (error e, q'))
      × (q'.queues ≡ one_queue.queues)
      × (find_mem 1 q'.shm.mems ≡ none)
      × Inv q')
    ⊎ ((d : Driver) × (m : Manager) × (create_queue 4096 (grants true) (some audio) one_queue
          ≡ ret (done, with_new one_queue d m))
        × (m.size ≡ 1024)
        × Inv (with_new one_queue d m))
create_queue-Inv_example =
    create_queue-Inv 4096 (grants true) audio (97 ∷ []) one_queue one_queue-Inv refl refl refl refl
      refl (omega arith) refl (omega arith) (omega arith) (omega arith) (λ i. omega arith)

remove_queue-Inv_example :
    (remove_queue (some (118 ∷ [])) one_queue ≡ ret (error enoent, one_queue))
      × All (Called (118 ∷ []) one_queue.shm false) one_queue.queues
    ⊎ ((b : List Queue) × (x : Queue) × (a : List Queue) × (one_queue.queues ≡ b ++ x ∷ a)
        × Called (118 ∷ []) one_queue.shm true x
        × ((remove_queue (some (118 ∷ [])) one_queue ≡ ret (error ebusy, one_queue))
              × (0 < attached x.id [])
            ⊎ ((d : Driver) × (remove_queue (some (118 ∷ [])) one_queue
                  ≡ ret (done, without one_queue d b a))
                × (attached x.id [] ≡ 0)
                × Inv (without one_queue d b a)
                × ((find_mem x.mem d.mems ≡ none) × (held x.mem [] ≡ 0) ⊎ (0 < held x.mem [])))))
remove_queue-Inv_example = remove_queue-Inv (118 ∷ []) one_queue one_queue-Inv (omega arith) refl

abbrev audio_mem : Driver
audio_mem = record one_queue.shm {
  mems =
      video
      ∷ record {
        id = 1;
        size = 4096;
        perm = 438;
        flags = 0;
        name = 97 ∷ [];
        refcnt = 0;
        freed = false;
      }
      ∷ [];
  next = 2;
  modules = 2;
}

audio_made :
    Vmshm.create 4096 (grants false).shm (97 ∷ []) 1024 438 0 one_queue.shm ≡ ret (none, audio_mem)
unfolding Vmshm.create lookup
audio_made = refl

create_queue_faults_example : create_queue 4096 (grants false) (some audio) one_queue ≡ fault
create_queue_faults_example =
    create_queue_faults 4096 (grants false) audio (97 ∷ []) one_queue audio_mem manager
      one_queue-Inv refl refl refl refl (omega arith) refl (λ i. omega arith) audio_made
      (create_manager-Started 1024 128 0 refl (omega arith) (omega arith) (omega arith)).1

few_consumers : All (λ (x : Queue). suc (length x.manager.consumers) < 2 ^ 31) one_queue.queues
few_consumers =
    let (m, run, sized, none_yet, inv, idle, no_consumer, no_producer) =
      create_manager-Started 1024 128 0 refl (omega arith) (omega arith) (omega arith) in
    (subst (λ l. suc (length l) < 2 ^ 31) (sym no_consumer) (omega arith), tt)

nobody_known :
    All
      (λ (x : Queue).
        (find_producer 5 x.manager.producers ≡ none) × (find_consumer 5 x.manager.consumers ≡ none))
      one_queue.queues
unfolding find_producer find_consumer
nobody_known =
    let (m, run, sized, none_yet, inv, idle, no_consumer, no_producer) =
      create_manager-Started 1024 128 0 refl (omega arith) (omega arith) (omega arith) in
    ((ap (find_producer 5) no_producer, ap (find_consumer 5) no_consumer), tt)

setup-remove_queue_example :
    ((e : Error) × (setup 5 true (some (some (118 ∷ []), 1)) one_queue ≡ ret (error e, one_queue)))
    ⊎ ((q' : Queues) × (setup 5 true (some (some (118 ∷ []), 1)) one_queue ≡ ret (done, q'))
        × (remove_queue (some (118 ∷ [])) q' ≡ ret (error ebusy, q'))
        × Inv q')
unfolding find_context
setup-remove_queue_example =
    setup-remove_queue 5 true (118 ∷ []) 1 one_queue one_queue-Inv refl (omega arith) refl
      few_consumers (λ i. omega arith)

setup-release_example :
    ((e : Error) × (setup 5 true (some (some (118 ∷ []), 1)) one_queue ≡ ret (error e, one_queue)))
    ⊎ ((q' : Queues) × (setup 5 true (some (some (118 ∷ []), 1)) one_queue ≡ ret (done, q'))
        × (release 5 q' ≡ ret one_queue))
unfolding find_context
setup-release_example =
    setup-release 5 true (118 ∷ []) 1 one_queue one_queue-Inv refl (omega arith) refl nobody_known
