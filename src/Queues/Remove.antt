-- ===== src/Queues/Remove.antt =====
-- drivers/vmq/main.c: `vmq_remove`.
use pi_frame.Prelude.{
  ℕ, ◌+◌, ◌-◌, ◌≤◌, ◌<◌, ◌≡◌, refl, ap, ◌∙◌, subst, true, false, Bool-cases, ◌⊎◌, inl, inr, none,
  some, List, [], ◌∷◌, ◌++◌, arith, All, ret, ◌>>=◌, ◌==◌, length,
}
use pi_frame.Vmshm.{Driver, find_mem, is_empty, max_name_length}
use pi_frame.Vmshm.Mems.{find_mem-alive}
use pi_frame.Vmshm.Inv.{Inv as ShmInv, one, held, Counted-there}
use pi_frame.Queues.{
  Queue, Context, Queues, ebusy, enoent, done, error, remove_queue, remove_found, lookup_queue,
}
use pi_frame.Queues.Inv.{Inv, Sound, users, attached, same_id, users-append, same_id-append}
use pi_frame.Queues.Lookup.{Called, There, lookup_queue_lem}
use pi_frame.Queues.Memory.{give_up_lem}
use pi_frame.Queues.Added.{one_cases}
use pi_frame.Queues.Selected.{named_run}

-- The memory of a queue is there.
all_There :
    (d : Driver) (all qs : List Queue)
    → ShmInv d (λ i. users i all)
    → ((i : ℕ) → users i qs ≤ users i all)
    → All (There d) qs
all_There d all [] v h = tt
all_There d all (q ∷ qs) v h =
    let self : one q.mem q.mem ≡ 1 = ground arith in
    let (m, there) =
      Counted-there (find_mem q.mem d.mems) (held q.mem d.files + users q.mem all)
        (omega (arith, h q.mem, self)) (v.counts q.mem) in
    let (alive, at) = find_mem-alive d.next q.mem d.mems m v.good there in
    ((m, there, alive), all_There d all qs v (λ i. omega (arith, h i)))

pub Inv-There : (q : Queues) → Inv q → All (There q.shm) q.queues
Inv-There q v = all_There q.shm q.queues q.queues v.shm (λ i. omega arith)

pub All-take {ℓ κ} :
    {A : Type ℓ} (P : A → Type κ) (b : List A) (x : A) (a : List A)
    → All P (b ++ x ∷ a)
    → P x × All P (b ++ a)
All-take P [] x a h = h
All-take P (y ∷ b) x a h = let (p, t) = All-take P b x a h.1 in (p, (h.0, t))

still_known :
    (b a : List Queue) (x : Queue) (cs : List Context)
    → attached x.id cs ≡ 0
    → All (λ (c : Context). 0 < same_id c.queue (b ++ x ∷ a)) cs
    → All (λ (c : Context). 0 < same_id c.queue (b ++ a)) cs
still_known b a x [] e h = tt
still_known b a x (c ∷ cs) e h =
    let other : one x.id c.queue ≡ 0 = elim (one_cases x.id c.queue) [
      | inl (same, _) ↦
          let self : one c.queue x.id ≡ 1 = ground arith in absurd (omega (arith, e, self))
      | inr other ↦ other
    ] in
    (
      omega (arith, h.0, same_id-append c.queue b a, same_id-append c.queue b (x ∷ a), other),
      still_known b a x cs (omega (arith, e)) h.1,
    )

abbrev pub without : Queues → Driver → List Queue → List Queue → Queues
without q d b a = record q { shm = d; queues = b ++ a; modules = q.modules - 1 }

without-Inv :
    (q : Queues) (d : Driver) (b : List Queue) (x : Queue) (a : List Queue)
    → Inv q
    → q.queues ≡ b ++ x ∷ a
    → attached x.id q.contexts ≡ 0
    → ShmInv d (λ i. users i (b ++ a))
    → Inv (without q d b a)
without-Inv q d b x a v place idle shm = record {
  shm = shm;
  sound =
      (All-take (Sound q.next q.contexts) b x a
        (subst (All (Sound q.next q.contexts)) place v.sound)).1;
  ids = λ i.
      omega
        (arith, v.ids i, ap (same_id i) place, same_id-append i b a, same_id-append i b (x ∷ a));
  mems = λ i.
      omega (arith, v.mems i, ap (users i) place, users-append i b a, users-append i b (x ∷ a));
  known =
      still_known b a x q.contexts idle
        (subst (λ qs. All (λ (c : Context). 0 < same_id c.queue qs) q.contexts) place v.known);
}

-- `vmq_remove` of a name that is not empty and fits returns, and keeps the invariant. No queue has the
-- name; or the first that has it is set up by an open file, and nothing is changed; or none has set it up, it is
-- taken out of the list, and its memory goes with it, unless a file has selected that memory.
pub remove_queue-Inv :
    (name : List ℕ) (q : Queues)
    → Inv q
    → length name < max_name_length
    → is_empty name ≡ false
    → (remove_queue (some name) q ≡ ret (error enoent, q)) × All (Called name q.shm false) q.queues
      ⊎ ((b : List Queue) × (x : Queue) × (a : List Queue) × (q.queues ≡ b ++ x ∷ a)
          × Called name q.shm true x
          × ((remove_queue (some name) q ≡ ret (error ebusy, q)) × (0 < attached x.id q.contexts)
              ⊎ ((d : Driver) × (remove_queue (some name) q ≡ ret (done, without q d b a))
                  × (attached x.id q.contexts ≡ 0)
                  × Inv (without q d b a)
                  × ((find_mem x.mem d.mems ≡ none) × (held x.mem q.shm.files ≡ 0)
                      ⊎ (0 < held x.mem q.shm.files)))))
unfolding remove_queue remove_found
remove_queue-Inv name q v short full =
    let start =
      named_run name q (λ n. lookup_queue n q.shm q.queues >>= remove_found q) short full in
    elim (lookup_queue_lem name q.shm q.queues (Inv-There q v)) [
      | inl (nothing, others) ↦ inl (start ∙ rw nothing refl, others)
      | inr (b, x, a, run, place, hit, before) ↦
          let (sound, rest) =
            All-take (Sound q.next q.contexts) b x a
              (subst (All (Sound q.next q.contexts)) place v.sound) in
          let go : remove_queue (some name) q ≡ remove_found q (some (b, x, a)) =
            start ∙ ap (λ o. o >>= remove_found q) run in
          inr (
            b,
            x,
            a,
            place,
            hit,
            elim (Bool-cases (x.manager.refcnt == 0)) [
              | inr used ↦ inl (go ∙ rw used refl, ground (arith, sound.counted))
              | inl free ↦
                  let idle : attached x.id q.contexts ≡ 0 = ground (arith, sound.counted) in
                  let fewer : (j : ℕ) → users j q.queues ≡ users j (b ++ a) + one x.mem j = λ j.
                    omega
                      (arith, ap (users j) place, users-append j b a, users-append j b (x ∷ a)) in
                  let self : one x.mem x.mem ≡ 1 = ground arith in
                  let alone : users x.mem (b ++ a) ≡ 0 =
                    omega (arith, v.mems x.mem, fewer x.mem, self) in
                  let (d, given_up, files, shm, end) =
                    give_up_lem q.shm (λ i. users i q.queues) x.mem (λ i. users i (b ++ a)) v.shm
                      fewer in
                  inr (
                    d,
                    go ∙ rw free (rw given_up refl),
                    idle,
                    without-Inv q d b x a v place idle shm,
                    elim end [
                      | inl (gone, nobody) ↦ inl (gone, omega (arith, nobody, alone))
                      | inr selected ↦ inr (omega (arith, selected, alone))
                    ],
                  )
            ],
          )
    ]
