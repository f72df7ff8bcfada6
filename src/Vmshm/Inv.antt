-- ===== src/Vmshm/Inv.antt =====
-- The invariant of the shared memory driver, and its calls: create, remove, select, unselect.
use pi_frame.Prelude.{
  ℕ, suc, ◌+◌, ◌-◌, ◌%◌, ◌^◌, ◌<◌, ◌≡◌, refl, sym, ap, ◌∙◌, subst, true, false, Bool-cases,
  Option-cases, ◌⊎◌, inl, inr, Option, none, some, List, [], ◌∷◌, arith, ret, fault, ◌==◌,
  if◌then◌else◌,
}
use pi_frame.Vmshm.{
  u32, SharedMemory, Driver, ebusy, find_mem, set_refs, erase_mem, remove, select, unselect,
  find_file, drop_file,
}
use pi_frame.Vmshm.Mems.{
  by_name, Good, with_refs, lookup-by_name, find_mem-by_name, find_mem-set_refs, find_mem-erase,
}
use pi_frame.Vmshm.Good.{Good-set_refs, Good-erase}

-- How many files have selected a memory.
abbrev pub held : ℕ → List (ℕ × ℕ) → ℕ
held i [] = 0
held i ((g, j) ∷ fs) = (if j == i then 1 else 0) + held i fs

-- A memory that is there is counted, and none is used that is not.
abbrev pub Counted : Option SharedMemory → ℕ → Type 0
Counted none r = r ≡ 0
Counted (some m) r = (m.refcnt ≡ r) × (r < 2 ^ 32)

-- The memories are alive, with numbers and names of their own; the counter of each is how many files
-- and other users, `others`, have selected it.
pub record Inv (d : Driver) (others : ℕ → ℕ) : Type 0 where
  pub good : Good d.next d.mems
  pub counts : (i : ℕ) → Counted (find_mem i d.mems) (held i d.files + others i)

abbrev pub one : ℕ → ℕ → ℕ
one i j = if i == j then 1 else 0

pub held-drop_file :
    (i f j : ℕ) (fs : List (ℕ × ℕ))
    → find_file f fs ≡ some j
    → held i fs ≡ held i (drop_file f fs) + one j i
unfolding find_file drop_file
held-drop_file i f j [] h = cc
held-drop_file i f j ((g, k) ∷ fs) h = elim (Bool-cases (g == f)) [
  | inl hit ↦ let e : k ≡ j = ground arith in simp hit (omega (arith, ap (λ n. one n i) e))
  | inr miss ↦ simp miss (omega (arith, held-drop_file i f j fs (simp miss at h)))
]

-- A counter that is written with the number of users it has.
pub set_refs-Counted :
    (i r : ℕ) (ms : List SharedMemory) (users users' : ℕ → ℕ) (m : SharedMemory)
    → ((j : ℕ) → Counted (find_mem j ms) (users j))
    → find_mem i ms ≡ some m
    → r ≡ users' i
    → users' i < 2 ^ 32
    → ((j : ℕ) → (i == j) ≡ false → users' j ≡ users j)
    → (j : ℕ) → Counted (find_mem j (set_refs i r ms)) (users' j)
set_refs-Counted i r ms users users' m counts there e small others j = elim (Bool-cases (i == j)) [
  | inl hit ↦
      let same : i ≡ j = ground arith in
      let now : find_mem j (set_refs i r ms) ≡ some (record m { refcnt = r }) =
        find_mem-set_refs i j r ms
        ∙ rw hit (
            subst (λ k. with_refs r (find_mem k ms) ≡ some (record m { refcnt = r })) same
              (rw there refl)) in
      subst (λ o. Counted o (users' j)) (sym now)
        (e ∙ ap users' same, subst (λ k. users' k < 2 ^ 32) same small)
  | inr miss ↦
      let still : find_mem j (set_refs i r ms) ≡ find_mem j ms =
        find_mem-set_refs i j r ms ∙ rw miss refl in
      subst (λ o. Counted o (users' j)) (sym still)
        (subst (Counted (find_mem j ms)) (sym (others j miss)) (counts j))
]

pub Counted-there :
    (o : Option SharedMemory) (r : ℕ) → 0 < r → Counted o r → (m : SharedMemory) × (o ≡ some m)
Counted-there none r p c = absurd (omega (arith, c))
Counted-there (some m) r p c = (m, refl)

Counted-refcnt :
    (o : Option SharedMemory) (r : ℕ) (m : SharedMemory)
    → o ≡ some m
    → Counted o r
    → (m.refcnt ≡ r) × (r < 2 ^ 32)
Counted-refcnt o r m e c = subst (λ x. Counted x r) e c

pub unselect_run :
    (i : ℕ) (d : Driver) (m : SharedMemory)
    → find_mem i d.mems ≡ some m
    → unselect i d ≡ ret (record d { mems = set_refs i ((m.refcnt + u32 - 1) % u32) d.mems })
unfolding unselect
unselect_run i d m there = rw (there, unselect) refl

pub unselect_faults : (i : ℕ) (d : Driver) → find_mem i d.mems ≡ none → unselect i d ≡ fault
unfolding unselect
unselect_faults i d gone = rw (gone, unselect) refl

pub remove_files : (m : SharedMemory) (d : Driver) → (remove m d).1.files ≡ d.files
unfolding remove
remove_files m d = elim (Bool-cases (m.refcnt == 0)) [
  | inl free ↦ rw free refl
  | inr used ↦ rw used refl
]

module _ (d : Driver) (others : ℕ → ℕ) where
  -- `vmshm_unselect` of a memory that a file or another user holds.
  pub unselect-Inv :
      (i : ℕ) (files' : List (ℕ × ℕ)) (others' : ℕ → ℕ)
      → Inv d others
      → ((j : ℕ) → held j d.files + others j ≡ held j files' + others' j + one i j)
      → (d' : Driver) × (unselect i d ≡ ret d')
        × (d'.files ≡ d.files)
        × Inv (record d' { files = files' }) others'
  unfolding unselect
  unselect-Inv i files' others' v minus =
      let self : one i i ≡ 1 = ground arith in
      let (m, there) =
        Counted-there (find_mem i d.mems) (held i d.files + others i) (omega (arith, minus i, self))
          (v.counts i) in
      let (e, small) =
        Counted-refcnt (find_mem i d.mems) (held i d.files + others i) m there (v.counts i) in
      let r = (m.refcnt + u32 - 1) % u32 in
      (
        record d { mems = set_refs i r d.mems },
        rw (there, unselect) refl,
        refl,
        record {
          good = Good-set_refs d.next i r d.mems v.good;
          counts =
              set_refs-Counted i r d.mems (λ j. held j d.files + others j)
                (λ j. held j files' + others' j) m v.counts there
                (omega (arith, e, small, minus i, self)) (omega (arith, small, minus i, self))
                (λ j miss. let other : one i j ≡ 0 = rw miss refl in omega (arith, minus j, other));
        },
      )

  -- `vmshm_select`: the memory with the name, if there is one, has a user more.
  pub select-Inv :
      (name : List ℕ) (files' : ℕ → List (ℕ × ℕ)) (others' : ℕ → ℕ → ℕ)
      → Inv d others
      → ((i j : ℕ) → held j (files' i) + others' i j ≡ held j d.files + others j + one i j)
      → ((i : ℕ) → suc (held i d.files + others i) < 2 ^ 32)
      → (by_name name d.mems ≡ none) × (select name d ≡ ret (none, d))
        ⊎ ((m : SharedMemory) × (d' : Driver) × (by_name name d.mems ≡ some m)
            × (select name d ≡ ret (some m, d'))
            × (d'.files ≡ d.files)
            × Inv (record d' { files = files' m.id }) (others' m.id))
  unfolding select
  select-Inv name files' others' v plus room =
      let run = lookup-by_name d.next name d.mems v.good in
      elim (Option-cases (by_name name d.mems)) [
        | inl missing ↦ inl (missing, rw (run, missing) refl)
        | inr (m, found) ↦
            let i = m.id in
            let there = find_mem-by_name d.next name d.mems m v.good found in
            let (e, small) =
              Counted-refcnt (find_mem i d.mems) (held i d.files + others i) m there (v.counts i) in
            let r = (m.refcnt + 1) % u32 in
            let self : one i i ≡ 1 = ground arith in
            inr (
              m,
              record d { mems = set_refs i r d.mems },
              found,
              rw (run, found) refl,
              refl,
              record {
                good = Good-set_refs d.next i r d.mems v.good;
                counts =
                    set_refs-Counted i r d.mems (λ j. held j d.files + others j)
                      (λ j. held j (files' i) + others' i j) m v.counts there
                      (omega (arith, e, room i, plus i i, self))
                      (omega (arith, room i, plus i i, self))
                      (λ j miss.
                        let other : one i j ≡ 0 = rw miss refl in omega (arith, plus i j, other));
              },
            )
      ]

  -- `vmshm_remove` of a memory in the list: it goes when nobody uses it, and only then.
  pub remove-Inv :
      (m : SharedMemory)
      → Inv d others
      → find_mem m.id d.mems ≡ some m
      → (remove m d ≡ (some ebusy, d)) × (0 < held m.id d.files + others m.id)
        ⊎ ((d' : Driver) × (remove m d ≡ (none, d'))
            × (held m.id d.files + others m.id ≡ 0)
            × (find_mem m.id d'.mems ≡ none)
            × Inv d' others)
  unfolding remove
  remove-Inv m v there =
      let (e, small) =
        Counted-refcnt (find_mem m.id d.mems) (held m.id d.files + others m.id) m there
          (v.counts m.id) in
      elim (Bool-cases (m.refcnt == 0)) [
        | inr used ↦ inl (rw used refl, ground arith)
        | inl free ↦
            let none_left : held m.id d.files + others m.id ≡ 0 = ground arith in
            let self : (m.id == m.id) ≡ true = ground arith in
            inr (
              record d { mems = erase_mem m.id d.mems; modules = d.modules - 1 },
              rw free refl,
              none_left,
              find_mem-erase d.next m.id m.id d.mems v.good ∙ rw self refl,
              record {
                good = Good-erase d.next m.id d.mems v.good;
                counts = λ j. erased j none_left;
              },
            )
      ]
    where
      erased :
          (j : ℕ)
          → held m.id d.files + others m.id ≡ 0
          → Counted (find_mem j (erase_mem m.id d.mems)) (held j d.files + others j)
      erased j nobody = elim (Bool-cases (m.id == j)) [
        | inl hit ↦
            let same : m.id ≡ j = ground arith in
            let gone : find_mem j (erase_mem m.id d.mems) ≡ none =
              find_mem-erase d.next m.id j d.mems v.good ∙ rw hit refl in
            subst (λ o. Counted o (held j d.files + others j)) (sym gone)
              (subst (λ k. held k d.files + others k ≡ 0) same nobody)
        | inr miss ↦
            let still : find_mem j (erase_mem m.id d.mems) ≡ find_mem j d.mems =
              find_mem-erase d.next m.id j d.mems v.good ∙ rw miss refl in
            subst (λ o. Counted o (held j d.files + others j)) (sym still) (v.counts j)
      ]
