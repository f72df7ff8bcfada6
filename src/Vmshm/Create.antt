-- ===== src/Vmshm/Create.antt =====
-- `vmshm_create`.
use pi_frame.Prelude.{
  some-none, ℕ, suc, ◌+◌, ◌^◌, ◌<◌, ◌≡◌, refl, sym, ◌∙◌, subst, true, false, ◌&&◌, Bool-cases,
  Option-cases, ◌⊎◌, inl, inr, none, some, List, [], ◌∷◌, ◌++◌, arith, ret, fault, ltb, ◌==◌,
  same_name, same_name_refl,
}
use pi_frame.Vmshm.{
  SharedMemory, Driver, Error, einval, eexist, enomem, lookup, find_mem, whole_pages, Grants,
  new_mem, create,
}
use pi_frame.Vmshm.Mems.{by_name, Good, lookup-by_name, find_mem-append}
use pi_frame.Vmshm.Good.{Good-append}
use pi_frame.Vmshm.Inv.{Inv, held, Counted}

-- The list with a new memory at its end.
abbrev added : ℕ → Driver → List ℕ → ℕ → ℕ → ℕ → Driver
added page d name size perm flags = record d {
  mems = d.mems ++ new_mem page d name size perm flags ∷ [];
  next = suc d.next;
  modules = suc d.modules;
}

by_name-found :
    (name : List ℕ) (ms : List SharedMemory) (m : SharedMemory)
    → by_name name ms ≡ none
    → same_name m.name name ≡ true
    → by_name name (ms ++ m ∷ []) ≡ some m
by_name-found name [] m h e = simp e
by_name-found name (x ∷ ms) m h e = elim (Bool-cases (same_name x.name name)) [
  | inl hit ↦ absurd (some-none (simp hit at h))
  | inr miss ↦ simp miss (by_name-found name ms m (simp miss at h) e)
]

lookup_freed :
    (n : ℕ) (name : List ℕ) (ms : List SharedMemory) (m : SharedMemory)
    → Good n ms
    → by_name name ms ≡ none
    → m.freed ≡ true
    → lookup name (ms ++ m ∷ []) ≡ fault
unfolding lookup
lookup_freed n name [] m g h e = simp e
lookup_freed n name (x ∷ ms) m g h e = elim (Bool-cases (same_name x.name name)) [
  | inl hit ↦ absurd (some-none (simp hit at h))
  | inr miss ↦ simp (g.0, miss) (lookup_freed n name ms m g.4 (simp miss at h) e)
]

module _ (page : ℕ) (d : Driver) (others : ℕ → ℕ) (name : List ℕ) (size perm flags : ℕ) where
  added-Inv :
      Inv d others → by_name name d.mems ≡ none → Inv (added page d name size perm flags) others
  added-Inv v missing = record {
    good = Good-append d.next d.mems (new_mem page d name size perm flags) v.good refl refl missing;
    counts = counts';
  }
    where
      counts' :
          (i : ℕ)
          → Counted
              (find_mem i (d.mems ++ new_mem page d name size perm flags ∷ []))
              (held i d.files + others i)
      counts' i = elim (Option-cases (find_mem i d.mems)) [
        | inr (m, there) ↦
            let same : find_mem i (d.mems ++ new_mem page d name size perm flags ∷ [])
                ≡ find_mem i d.mems =
              find_mem-append i d.mems (new_mem page d name size perm flags) ∙ rw there refl in
            subst (λ o. Counted o (held i d.files + others i)) (sym same) (v.counts i)
        | inl absent ↦
            let unused : held i d.files + others i ≡ 0 =
              subst (λ o. Counted o (held i d.files + others i)) absent (v.counts i) in
            let at_end = find_mem-append i d.mems (new_mem page d name size perm flags) in
            elim (Bool-cases (d.next == i)) [
              | inl hit ↦
                  let now : find_mem i (d.mems ++ new_mem page d name size perm flags ∷ [])
                      ≡ some (new_mem page d name size perm flags) =
                    at_end ∙ rw (absent, hit) refl in
                  subst (λ o. Counted o (held i d.files + others i)) (sym now)
                    (sym unused, omega (arith, unused))
              | inr miss ↦
                  let still : find_mem i (d.mems ++ new_mem page d name size perm flags ∷ [])
                      ≡ none =
                    at_end ∙ rw (absent, miss) refl in
                  subst (λ o. Counted o (held i d.files + others i)) (sym still) unused
            ]
      ]

  pub create-Added :
      (grants : Grants)
      → Inv d others
      → grants.module_ref ≡ true
      → ((e : Error) × (create page grants name size perm flags d ≡ ret (some e, d)))
        ⊎ ((d' : Driver) × (m : SharedMemory) × (create page grants name size perm flags d
              ≡ ret (none, d'))
            × (by_name name d.mems ≡ none)
            × (by_name name d'.mems ≡ some m)
            × (m.size ≡ whole_pages page size)
            × (d'.files ≡ d.files)
            × Inv d' others
            × (m.id ≡ d.next)
            × (d'.next ≡ suc d.next))
  unfolding create
  create-Added grants v stays =
      let run = lookup-by_name d.next name d.mems v.good in
      elim (Option-cases (by_name name d.mems)) [
        | inr (m, found) ↦ inl (eexist, rw (run, found) refl)
        | inl missing ↦ elim (Bool-cases (ltb 0 size && ltb size (2 ^ 31))) [
          | inr bad ↦ inl (einval, rw (run, missing) (rw bad refl))
          | inl good ↦ elim (Bool-cases grants.mem) [
            | inr no_mem ↦ inl (enomem, rw (run, missing) (rw (good, no_mem) refl))
            | inl mem ↦ elim (Bool-cases grants.base) [
              | inr no_base ↦ inl (enomem, rw (run, missing) (rw (good, mem, no_base) refl))
              | inl base ↦ inr (
                added page d name size perm flags,
                new_mem page d name size perm flags,
                rw (run, missing) (rw (good, mem, base, stays) refl),
                missing,
                by_name-found name d.mems (new_mem page d name size perm flags) missing
                    (same_name_refl name),
                refl,
                refl,
                added-Inv v missing,
                refl,
                refl,
              )
            ]
          ]
        ]
      ]

  -- `vmshm_create`, called while the module stays, keeps the invariant and returns: with no error
  -- just where the name is new, the size is positive and both allocations succeed, and then a memory
  -- with the name and the size rounded up to whole pages is in the list; else nothing is changed.
  pub create-Inv :
      (grants : Grants)
      → Inv d others
      → grants.module_ref ≡ true
      → ((e : Error) × (create page grants name size perm flags d ≡ ret (some e, d)))
        ⊎ ((d' : Driver) × (m : SharedMemory) × (create page grants name size perm flags d
              ≡ ret (none, d'))
            × (by_name name d.mems ≡ none)
            × (by_name name d'.mems ≡ some m)
            × (m.size ≡ whole_pages page size)
            × (d'.files ≡ d.files)
            × Inv d' others)
  create-Inv grants v stays = elim (create-Added grants v stays) [
    | inl failed ↦ inl failed
    | inr (d', m, run, missing, found, sized, files, v', at, next) ↦
        inr (d', m, run, missing, found, sized, files, v')
  ]

  -- Where the module is going away, `vmshm_create` frees the memory that it has put into the list: the
  -- call fails, and a later search for any other name that is not there reads freed memory.
  pub create-dangles :
      (grants : Grants) (other : List ℕ)
      → Inv d others
      → grants.mem ≡ true
      → grants.base ≡ true
      → grants.module_ref ≡ false
      → by_name name d.mems ≡ none
      → by_name other d.mems ≡ none
      → 0 < size
      → size < 2 ^ 31
      → (d' : Driver) × (create page grants name size perm flags d ≡ ret (some einval, d'))
        × (lookup other d'.mems ≡ fault)
  unfolding create
  create-dangles grants other v mem base leaves missing absent pos small =
      let run = lookup-by_name d.next name d.mems v.good in
      let good : (ltb 0 size && ltb size (2 ^ 31)) ≡ true = ground arith in
      let dead : SharedMemory = record (new_mem page d name size perm flags) { freed = true } in
      let d' : Driver = record d { mems = d.mems ++ dead ∷ []; next = suc d.next } in
      (
        d',
        rw (run, missing) (rw (good, mem, base, leaves) refl),
        lookup_freed d.next other d.mems dead v.good absent refl,
      )
