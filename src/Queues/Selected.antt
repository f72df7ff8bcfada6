-- ===== src/Queues/Selected.antt =====
-- drivers/vmq/main.c: `vmq_create` up to the manager, on the memory from drivers/vmshm/main.c.
use pi_frame.Prelude.{
  ℕ, ◌+◌, ◌%◌, ◌^◌, ◌<◌, ◌≡◌, refl, sym, ap, ◌∙◌, subst, Bool, true, false, Bool-cases, ◌⊎◌, inl,
  inr, none, some, some-none, List, [], arith, Outcome, ret, ◌>>=◌, ◌==◌, length,
}
use pi_frame.Vmshm
use pi_frame.Vmshm.{
  Driver, SharedMemory, find_mem, select, is_empty, max_name_length, name_from_user,
}
use pi_frame.Vmshm.Inv.{Inv as ShmInv, one, held, select-Inv}
use pi_frame.Vmshm.Create.{create-Added}
use pi_frame.Vmshm.Ioctl.{name_from_user-short}
use pi_frame.Balloc.Create.{create-none}
use pi_frame.Vmq.{Manager}
use pi_frame.Vmq.Items.{Inv as QueueInv}
use pi_frame.Vmq.New.{create_manager, create_manager-Started}
use pi_frame.Queues.{
  Queues, memory, Answer, error, Grants, CreateParam, create_queue, with_memory, with_selected,
  with_manager, named,
}
use pi_frame.Queues.Inv.{Inv, users}

pub named_run :
    (name : List ℕ) (q : Queues) (f : List ℕ → Outcome (Answer × Queues))
    → length name < max_name_length
    → is_empty name ≡ false
    → named (some name) q f ≡ f name
unfolding named
named_run name q f short full = rw (name_from_user-short name short, named) (rw full refl)

-- The manager of a new queue, or none; the bitmap is given.
pub manager_cases :
    (given ba : Bool) (size page_size max_item_count : ℕ)
    → 0 < page_size
    → page_size < 2 ^ 31
    → size < 2 ^ 31
    → (create_manager given ba true size page_size max_item_count ≡ ret none)
      ⊎ (m : Manager) × (create_manager given ba true size page_size max_item_count ≡ ret (some m))
        × (m.size ≡ size)
        × QueueInv m []
        × (m.refcnt ≡ 0)
unfolding create_manager
manager_cases false ba size page_size max pos fits small = inl refl
manager_cases true false size page_size max pos fits small =
    inl (rw (create-none false size page_size (inr refl)) refl)
manager_cases true true size page_size max pos fits small =
    elim (Bool-cases (page_size % 2 ^ 7 == 0)) [
      | inr unfit ↦ inl (rw (create-none true size page_size (inl unfit)) refl)
      | inl whole ↦
          let (m, run, sized, none_yet, inv, idle, no_consumer, no_producer) =
            create_manager-Started size page_size max (ground arith) pos fits small in
          inr (m, run, sized, inv, idle)
    ]

with_selected_run :
    (g : Grants) (mem size page_size max_item_count : ℕ) (q : Queues) (m : SharedMemory)
    (d : Driver)
    → m.id ≡ mem
    → with_selected g mem size page_size max_item_count q (some m, d) ≡ (
        create_manager g.manager g.ba g.bitmap size page_size max_item_count >>= λ o.
        with_manager g mem o (record q { shm = d }))
unfolding with_selected
with_selected_run g mem size page_size max_item_count q m d e =
    let same : (m.id == mem) ≡ true = ground arith in rw same refl

module _ (page : ℕ) (g : Grants) (p : CreateParam) (name : List ℕ) (q : Queues) where
  abbrev run : Outcome (Answer × Queues)
  run = create_queue page g (some p) q

  -- The memory is made and selected.
  unfoldable pub Selected : Driver → Type 0
  Selected d =
      (run ≡ (
        create_manager g.manager g.ba g.bitmap p.size p.page_size p.max_item_count >>= λ o.
        with_manager g q.shm.next o (record q { shm = d })))
      × ShmInv d (λ i. users i q.queues + one q.shm.next i)
      × (d.files ≡ q.shm.files)

  pub Selected-cases :
      Inv q
      → g.module_ref ≡ true
      → g.shm.module_ref ≡ true
      → p.name ≡ some name
      → length name < max_name_length
      → is_empty name ≡ false
      → ((i : ℕ) → held i q.shm.files < 2 ^ 31)
      → ((e : Vmshm.Error) × (run ≡ ret (error (memory e), q))
          × (Vmshm.create page g.shm name p.size p.perm p.flags q.shm ≡ ret (some e, q.shm)))
        ⊎ (d : Driver) × Selected d
  unfolding create_queue with_memory Selected with_selected with_manager
  Selected-cases v stays stays' has short full room =
      let begin : run
          ≡ (Vmshm.create page g.shm name p.size p.perm p.flags q.shm >>= with_memory g p name q) =
        rw (stays, create_queue)
          (rw has (
            named_run name q
              (λ name.
                Vmshm.create page g.shm name p.size p.perm p.flags q.shm >>= with_memory g p name q)
              short full)) in
      elim (create-Added page q.shm (λ i. users i q.queues) name p.size p.perm p.flags g.shm v.shm
        stays') [
          | inl (e, failed) ↦ inl (e, begin ∙ ap (λ o. o >>= with_memory g p name q) failed, failed)
          | inr (d₁, m, made, missing, found, sized, files, v₁, at, next) ↦
              elim (select-Inv d₁ (λ i. users i q.queues) name (λ i. d₁.files)
                (λ i j. users j q.queues + one i j) v₁ (λ i j. omega arith)
                (λ i. omega (arith, room i, v.mems i, ap (held i) files))) [
                  | inl (absent, _) ↦ absurd (some-none (sym found ∙ absent))
                  | inr (k, d₂, found', chosen, files', v₂) ↦
                      let e : k ≡ m = ground (arith, found, found') in
                      let at' : k.id ≡ q.shm.next = ap (λ (x : SharedMemory). x.id) e ∙ at in
                      let v₃ : ShmInv d₂ (λ j. users j q.queues + one k.id j) =
                        subst
                          (λ fs.
                            ShmInv (record d₂ { files = fs }) (λ j. users j q.queues + one k.id j))
                          (sym files') v₂ in
                      inr (
                        d₂,
                        (
                          begin
                              ∙ ap (λ o. o >>= with_memory g p name q) made
                              ∙ ap
                                  (λ o.
                                    o
                                    >>= with_selected g q.shm.next p.size p.page_size
                                        p.max_item_count q)
                                  chosen
                              ∙ with_selected_run g q.shm.next p.size p.page_size p.max_item_count q
                                  k d₂ at',
                          subst (λ n. ShmInv d₂ (λ j. users j q.queues + one n j)) at' v₃,
                          files' ∙ files,
                        ),
                      )
                ]
        ]
