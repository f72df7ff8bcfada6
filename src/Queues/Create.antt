-- ===== src/Queues/Create.antt =====
-- drivers/vmq/main.c: `vmq_create`, with the memory that it takes from drivers/vmshm/main.c.
use pi_frame.Prelude.{
  ℕ, ◌+◌, ◌^◌, ◌<◌, ◌≡◌, refl, sym, ap, ◌∙◌, subst, true, false, ◌⊎◌, inl, inr, Option, none, some,
  List, arith, Outcome, ret, fault, ◌>>=◌, length,
}
use pi_frame.Vmshm
use pi_frame.Vmshm.{
  Driver, SharedMemory, find_mem, select, is_empty, max_name_length, name_from_user,
}
use pi_frame.Vmshm.Good.{find_mem-above}
use pi_frame.Vmshm.Inv.{one, held, Counted}
use pi_frame.Vmq.{Manager}
use pi_frame.Vmq.New.{create_manager}
use pi_frame.Queues.{
  Queues, Error, memory, enomem, done, error, efault, Grants, CreateParam, create_queue,
  with_manager,
}
use pi_frame.Queues.Inv.{Inv, users}
use pi_frame.Queues.Memory.{give_up_lem, give_up_faults}
use pi_frame.Queues.Added.{added-Inv, with_new}
use pi_frame.Queues.Selected.{manager_cases, Selected, Selected-cases}

module _ (page : ℕ) (g : Grants) (p : CreateParam) (name : List ℕ) (q : Queues) where
  -- `vmq_create` with a name that can be read, is not empty and fits, a page size above 0 and below 2 ^ 31, and a
  -- size below 2 ^ 31, where both modules stay, the bitmap of the allocator is given if it is asked for, the
  -- entry in /proc can be made, and each memory is selected by fewer than 2 ^ 31 files: it returns. Either it fails, and the queues are as they were, the
  -- memory that was made for it is gone and the counts of all memories are right again; or there is one queue more,
  -- at the end of the list, with the size that was asked for, well formed and with a memory of its own.
  pub create_queue-Inv :
      Inv q
      → g.module_ref ≡ true
      → g.shm.module_ref ≡ true
      → g.bitmap ≡ true
      → g.proc ≡ true
      → p.name ≡ some name
      → length name < max_name_length
      → is_empty name ≡ false
      → 0 < p.page_size
      → p.page_size < 2 ^ 31
      → p.size < 2 ^ 31
      → ((i : ℕ) → held i q.shm.files < 2 ^ 31)
      → ((e : Error) × (q' : Queues) × (create_queue page g (some p) q ≡ ret (error e, q'))
          × (q'.queues ≡ q.queues)
          × (find_mem q.shm.next q'.shm.mems ≡ none)
          × Inv q')
        ⊎ ((d : Driver) × (m : Manager) × (create_queue page g (some p) q
              ≡ ret (done, with_new q d m))
            × (m.size ≡ p.size)
            × Inv (with_new q d m))
  unfolding Selected with_manager
  create_queue-Inv v stays stays' bitmap proc has short full pos fits small room =
      let above : find_mem q.shm.next q.shm.mems ≡ none =
        find_mem-above q.shm.next q.shm.next q.shm.mems v.shm.good (omega arith) in
      let unused : held q.shm.next q.shm.files + users q.shm.next q.queues ≡ 0 =
        subst (λ o. Counted o (held q.shm.next q.shm.files + users q.shm.next q.queues)) above
          (v.shm.counts q.shm.next) in
      elim (Selected-cases page g p name q v stays stays' has short full room) [
        | inl (e, failed, _) ↦ inl (memory e, q, failed, refl, above, v)
        | inr (d, (begin, shm, files)) ↦
            elim (manager_cases g.manager g.ba p.size p.page_size p.max_item_count pos fits small) [
              | inl refused ↦
                  let idle : held q.shm.next d.files + users q.shm.next q.queues ≡ 0 =
                    ap (λ fs. held q.shm.next fs + users q.shm.next q.queues) files ∙ unused in
                  let (d', given_up, files', v', end) =
                    give_up_lem d (λ i. users i q.queues + one q.shm.next i) q.shm.next
                      (λ i. users i q.queues) shm (λ j. refl) in
                  inl (
                    enomem,
                    record q { shm = d' },
                    begin ∙ rw bitmap (rw refused (rw given_up refl)),
                    refl,
                    elim end [
                      | inl (gone, _) ↦ gone
                      | inr used ↦ absurd (omega (arith, used, idle))
                    ],
                    record {
                      shm = v';
                      sound = v.sound;
                      ids = v.ids;
                      mems = v.mems;
                      known = v.known;
                    },
                  )
              | inr (m, made, sized, inv, idle) ↦ inr (
                d,
                m,
                begin ∙ rw bitmap (rw made (rw proc refl)),
                sized,
                added-Inv q d m v shm inv idle (omega (arith, unused)),
              )
            ]
      ]

  -- Where the entry in /proc is refused, after the memory and the manager are made, `vmq_create` gives the
  -- memory up twice: it uses a memory that is freed.
  pub create_queue_faults :
      (d : Driver) (m : Manager)
      → Inv q
      → g.module_ref ≡ true
      → g.shm.module_ref ≡ true
      → g.proc ≡ false
      → p.name ≡ some name
      → length name < max_name_length
      → is_empty name ≡ false
      → ((i : ℕ) → held i q.shm.files < 2 ^ 31)
      → Vmshm.create page g.shm name p.size p.perm p.flags q.shm ≡ ret (none, d)
      → create_manager g.manager g.ba g.bitmap p.size p.page_size p.max_item_count ≡ ret (some m)
      → create_queue page g (some p) q ≡ fault
  unfolding Selected with_manager
  create_queue_faults d m v stays stays' proc has short full room made managed =
      let above : find_mem q.shm.next q.shm.mems ≡ none =
        find_mem-above q.shm.next q.shm.next q.shm.mems v.shm.good (omega arith) in
      let unused : held q.shm.next q.shm.files + users q.shm.next q.queues ≡ 0 =
        subst (λ o. Counted o (held q.shm.next q.shm.files + users q.shm.next q.queues)) above
          (v.shm.counts q.shm.next) in
      elim (Selected-cases page g p name q v stays stays' has short full room) [
        | inl (e, failed, failed') ↦ absurd (
            let c : ◌≡◌ {A = Outcome (Option Vmshm.Error × Driver)} (ret (some e, q.shm))
                (ret (none, d)) =
              sym failed' ∙ made in
            cc)
        | inr (d, (begin, shm, files)) ↦
            let idle : held q.shm.next d.files + users q.shm.next q.queues ≡ 0 =
              ap (λ fs. held q.shm.next fs + users q.shm.next q.queues) files ∙ unused in
            let (d', given_up, files', v', end) =
              give_up_lem d (λ i. users i q.queues + one q.shm.next i) q.shm.next
                (λ i. users i q.queues) shm (λ j. refl) in
            let gone : find_mem q.shm.next d'.mems ≡ none = elim end [
              | inl (gone, _) ↦ gone
              | inr used ↦ absurd (omega (arith, used, idle))
            ] in
            begin
            ∙ rw managed (
                rw proc (
                  rw given_up (
                    ap (λ o. o >>= λ n. ret (error efault, record q { shm = n }))
                      (give_up_faults q.shm.next d' gone))))
      ]
