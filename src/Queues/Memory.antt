-- ===== src/Queues/Memory.antt =====
-- drivers/vmq/main.c: how a queue gives up its memory, by the calls of drivers/vmshm/main.c.
use pi_frame.Prelude.{
  ℕ, ◌+◌, ◌-◌, ◌%◌, ◌<◌, ◌≡◌, refl, sym, ap, ◌∙◌, subst, true, ◌⊎◌, inl, inr, none, some, arith,
  Outcome, ret, fault, ◌>>=◌, ◌==◌,
}
use pi_frame.Vmshm.{u32, SharedMemory, Driver, find_mem, set_refs, unselect, remove}
use pi_frame.Vmshm.Mems.{find_mem-set_refs, find_mem-alive}
use pi_frame.Vmshm.Inv.{
  Inv, held, one, unselect-Inv, remove-Inv, Counted-there, unselect_run, unselect_faults,
  remove_files,
}
use pi_frame.Queues.{give_up_mem, remove_mem}

-- What holds of a run that returns.
abbrev Ends : (Driver → Type 0) → Outcome Driver → Type 0
Ends P (ret d) = P d
Ends P o = Unit {0}

pub remove_mem_run :
    (i : ℕ) (d : Driver) (m : SharedMemory)
    → find_mem i d.mems ≡ some m
    → remove_mem i d ≡ ret (remove m d).1
unfolding remove_mem
remove_mem_run i d m there = rw (there, remove_mem) refl

pub give_up_faults : (i : ℕ) (d : Driver) → find_mem i d.mems ≡ none → give_up_mem i d ≡ fault
unfolding give_up_mem
give_up_faults i d gone = ap (λ o. o >>= remove_mem i) (unselect_faults i d gone)

module _ (d : Driver) (others : ℕ → ℕ) (i : ℕ) where
  -- The memory is still in the list after `vmshm_unselect`.
  unselect-stay :
      (d' : Driver)
      → Inv d others
      → 0 < held i d.files + others i
      → unselect i d ≡ ret d'
      → (m : SharedMemory) × (find_mem i d'.mems ≡ some m)
  unselect-stay d' v used e =
      let (m, there) =
        Counted-there (find_mem i d.mems) (held i d.files + others i) used (v.counts i) in
      let r = (m.refcnt + u32 - 1) % u32 in
      let self : (i == i) ≡ true = ground arith in
      let here : find_mem i (set_refs i r d.mems) ≡ some (record m { refcnt = r }) =
        find_mem-set_refs i i r d.mems ∙ rw self (rw there refl) in
      subst (Ends (λ n. (x : SharedMemory) × (find_mem i n.mems ≡ some x)))
        (sym (unselect_run i d m there) ∙ e) (record m { refcnt = r }, here)

  -- A queue unselects its memory and removes it: the memory goes if no file and no other queue has
  -- selected it, and else stays.
  pub give_up_lem :
      (others' : ℕ → ℕ)
      → Inv d others
      → ((j : ℕ) → others j ≡ others' j + one i j)
      → (d' : Driver) × (give_up_mem i d ≡ ret d')
        × (d'.files ≡ d.files)
        × Inv d' others'
        × ((find_mem i d'.mems ≡ none) × (held i d.files + others' i ≡ 0)
            ⊎ (0 < held i d.files + others' i))
  unfolding give_up_mem
  give_up_lem others' v fewer =
      let self : one i i ≡ 1 = ground arith in
      let (d₁, run, files, v₁) =
        unselect-Inv d others i d.files others' v (λ j. omega (arith, fewer j)) in
      let v₂ : Inv d₁ others' =
        subst (λ fs. Inv (record d₁ { files = fs }) others') (sym files) v₁ in
      let (m, there) = unselect-stay d₁ v (omega (arith, fewer i, self)) run in
      let (alive, e) = find_mem-alive d₁.next i d₁.mems m v₂.good there in
      let known : find_mem m.id d₁.mems ≡ some m =
        subst (λ k. find_mem k d₁.mems ≡ some m) (sym e) there in
      let users : held m.id d₁.files + others' m.id ≡ held i d.files + others' i =
        ap (λ fs. held m.id fs + others' m.id) files ∙ ap (λ k. held k d.files + others' k) e in
      let files' : (remove m d₁).1.files ≡ d.files = remove_files m d₁ ∙ files in
      let go : give_up_mem i d ≡ ret (remove m d₁).1 =
        ap (λ o. o >>= remove_mem i) run ∙ remove_mem_run i d₁ m there in
      elim (remove-Inv d₁ others' m v₂ known) [
        | inl (busy, used) ↦
            (d₁, go ∙ ap (λ r. ret r.1) busy, files, v₂, inr (omega (arith, used, users)))
        | inr (d', gone, nobody, missing, v') ↦ (
          d',
          go ∙ ap (λ r. ret r.1) gone,
          ap (λ r. r.1.files) (sym gone) ∙ files',
          v',
          inl (subst (λ k. find_mem k d'.mems ≡ none) e missing, sym users ∙ nobody),
        )
      ]
