-- ===== src/Queues/Guard.antt =====
-- drivers/vmq/main.c: a file that has set up a queue, and the removal of that queue.
use pi_frame.Prelude.{
  ℕ, suc, ◌<◌, ◌^◌, ◌≡◌, refl, ap, ◌∙◌, subst, Bool, true, false, Bool-cases, Option-cases, ◌⊎◌,
  inl, inr, none, some, List, [], ◌∷◌, ◌++◌, arith, All, ret, ◌>>=◌, ◌==◌, length,
}
use pi_frame.Vmshm.{Driver, is_empty, max_name_length}
use pi_frame.Vmshm.Inv.{one}
use pi_frame.Queues.{
  Queue, Role, Queues, Error, einval, ebusy, enomem, done, error, find_context, setup, setup_found,
  role_of, lookup_queue, at_mem, remove_queue, remove_found,
}
use pi_frame.Queues.Inv.{Inv, Sound, attached}
use pi_frame.Queues.Lookup.{Called, lookup_queue_lem}
use pi_frame.Queues.Remove.{Inv-There, All-take}
use pi_frame.Queues.Setup.{attached_queue, with_context, attached-Sound, with_context-Inv}
use pi_frame.Queues.Selected.{named_run}

-- The first queue with the name is found.
lookup_queue_first :
    (name : List ℕ) (d : Driver) (b : List Queue) (x : Queue) (a : List Queue)
    → All (Called name d false) b
    → Called name d true x
    → lookup_queue name d (b ++ x ∷ a) ≡ ret (some (b, x, a))
unfolding lookup_queue at_mem
lookup_queue_first name d [] x a h (m, there, alive, hit) = rw there (simp alive (simp hit refl))
lookup_queue_first name d (y ∷ b) x a ((m, there, alive, miss), h) hit =
    rw there (simp alive (simp miss (rw (lookup_queue_first name d b x a h hit) refl)))

-- `vmq_setup` of a file that has no context, with a name that is not empty and fits, fails and changes nothing,
-- or gives the file a context on the first queue with that name.
pub setup_cases :
    (file : ℕ) (given : Bool) (name : List ℕ) (type : ℕ) (q : Queues)
    → Inv q
    → find_context file q.contexts ≡ none
    → length name < max_name_length
    → is_empty name ≡ false
    → ((e : Error) × (setup file given (some (some name, type)) q ≡ ret (error e, q)))
      ⊎ ((role : Role) × (b : List Queue) × (x : Queue) × (a : List Queue) × (setup file given
              (some (some name, type))
              q
            ≡ ret (done, with_context file role q b x a))
          × (q.queues ≡ b ++ x ∷ a)
          × All (Called name q.shm false) b
          × Called name q.shm true x)
unfolding setup setup_found
setup_cases file given name type q v idle short full =
    let start : setup file given (some (some name, type)) q
        ≡ (lookup_queue name q.shm q.queues >>= setup_found file given type q) =
      rw (idle, setup)
        (named_run name q (λ n. lookup_queue n q.shm q.queues >>= setup_found file given type q)
          short full) in
    elim (lookup_queue_lem name q.shm q.queues (Inv-There q v)) [
      | inl (nothing, _) ↦ inl (einval, start ∙ rw nothing refl)
      | inr (b, x, a, run, place, hit, before) ↦
          let go = start ∙ ap (λ o. o >>= setup_found file given type q) run in
          elim (Bool-cases given) [
            | inr refused ↦ inl (enomem, go ∙ rw refused refl)
            | inl has ↦ elim (Option-cases (role_of type)) [
              | inl other ↦ inl (einval, go ∙ rw has (rw other refl))
              | inr (role, known) ↦
                  inr (role, b, x, a, go ∙ rw has (rw known refl), place, before, hit)
            ]
          ]
    ]

-- A queue that a file has just set up stays: `vmq_remove` of the name is refused and changes nothing, and the
-- invariant holds. The queue has fewer than 2 ^ 31 users.
pub setup-remove_queue :
    (file : ℕ) (given : Bool) (name : List ℕ) (type : ℕ) (q : Queues)
    → Inv q
    → find_context file q.contexts ≡ none
    → length name < max_name_length
    → is_empty name ≡ false
    → All (λ (x : Queue). suc (length x.manager.consumers) < 2 ^ 31) q.queues
    → ((i : ℕ) → suc (attached i q.contexts) < 2 ^ 31)
    → ((e : Error) × (setup file given (some (some name, type)) q ≡ ret (error e, q)))
      ⊎ ((q' : Queues) × (setup file given (some (some name, type)) q ≡ ret (done, q'))
          × (remove_queue (some name) q' ≡ ret (error ebusy, q'))
          × Inv q')
unfolding remove_queue remove_found
setup-remove_queue file given name type q v idle short full few room =
    elim (setup_cases file given name type q v idle short full) [
      | inl failed ↦ inl failed
      | inr (role, b, x, a, run, place, before, hit) ↦
          let q' = with_context file role q b x a in
          let (sound, _) =
            All-take (Sound q.next q.contexts) b x a
              (subst (All (Sound q.next q.contexts)) place v.sound) in
          let (small, _) =
            All-take (λ (y : Queue). suc (length y.manager.consumers) < 2 ^ 31) b x a
              (subst (All (λ (y : Queue). suc (length y.manager.consumers) < 2 ^ 31)) place few) in
          let s = attached-Sound file role q b x a sound small (room x.id) in
          let self : one x.id x.id ≡ 1 = ground arith in
          let used : ((attached_queue role file x).manager.refcnt == 0) ≡ false =
            ground (arith, s.counted, self) in
          inr (
            q',
            run,
            named_run name q' (λ n. lookup_queue n q'.shm q'.queues >>= remove_found q') short full
                ∙ ap (λ o. o >>= remove_found q')
                    (lookup_queue_first name q.shm b (attached_queue role file x) a before hit)
                ∙ rw used refl,
            with_context-Inv file role q b x a v place small (room x.id),
          )
    ]
