-- ===== src/Vmshm/Good.antt =====
-- What the operations of the shared memory driver do to its list keeps it good.
use pi_frame.Prelude.{
  some-none, ℕ, suc, ◌≤◌, ◌≡◌, refl, ◌∙◌, false, Bool-cases, inl, inr, none, List, [], ◌∷◌, ◌++◌,
  arith, ◌==◌, same_name, same_name_comm,
}
use pi_frame.Vmshm.{SharedMemory, find_mem, set_refs, erase_mem}
use pi_frame.Vmshm.Mems.{
  by_name, Good, find_mem-set_refs, find_mem-erase, find_mem-append, by_name-append,
}

by_name-set_refs :
    (i r : ℕ) (name : List ℕ) (ms : List SharedMemory)
    → by_name name ms ≡ none
    → by_name name (set_refs i r ms) ≡ none
unfolding set_refs
by_name-set_refs i r name [] h = refl
by_name-set_refs i r name (m ∷ ms) h = ground (arith, by_name-set_refs i r name ms)

by_name-erase :
    (i : ℕ) (name : List ℕ) (ms : List SharedMemory)
    → by_name name ms ≡ none
    → by_name name (erase_mem i ms) ≡ none
unfolding erase_mem
by_name-erase i name [] h = refl
by_name-erase i name (m ∷ ms) h = ground (arith, by_name-erase i name ms)

absent-set_refs :
    (i j r : ℕ) (ms : List SharedMemory)
    → find_mem j ms ≡ none
    → find_mem j (set_refs i r ms) ≡ none
absent-set_refs i j r ms h =
    find_mem-set_refs i j r ms
    ∙ (elim (Bool-cases (i == j)) [ inl hit ↦ rw (hit, h) refl | inr miss ↦ rw miss h ])

absent-erase :
    (n i j : ℕ) (ms : List SharedMemory)
    → Good n ms
    → find_mem j ms ≡ none
    → find_mem j (erase_mem i ms) ≡ none
absent-erase n i j ms g h =
    find_mem-erase n i j ms g
    ∙ (elim (Bool-cases (i == j)) [ inl hit ↦ rw hit refl | inr miss ↦ rw miss h ])

pub Good-set_refs : (n i r : ℕ) (ms : List SharedMemory) → Good n ms → Good n (set_refs i r ms)
unfolding set_refs
Good-set_refs n i r [] g = tt
Good-set_refs n i r (m ∷ ms) g = elim (Bool-cases (m.id == i)) [
  | inl hit ↦ simp hit g
  | inr miss ↦ simp miss (
    g.0,
    g.1,
    absent-set_refs i m.id r ms g.2,
    by_name-set_refs i r m.name ms g.3,
    Good-set_refs n i r ms g.4,
  )
]

pub Good-erase : (n i : ℕ) (ms : List SharedMemory) → Good n ms → Good n (erase_mem i ms)
unfolding erase_mem
Good-erase n i [] g = tt
Good-erase n i (m ∷ ms) g = elim (Bool-cases (m.id == i)) [
  | inl hit ↦ simp hit g.4
  | inr miss ↦ simp miss (
    g.0,
    g.1,
    absent-erase n i m.id ms g.4 g.2,
    by_name-erase i m.name ms g.3,
    Good-erase n i ms g.4,
  )
]

pub find_mem-above : (n i : ℕ) (ms : List SharedMemory) → Good n ms → n ≤ i → find_mem i ms ≡ none
unfolding find_mem
find_mem-above n i [] g h = refl
find_mem-above n i (m ∷ ms) g h = ground (arith, g.1, find_mem-above n i ms g.4)

-- A new memory with the next number and a name that is not there.
pub Good-append :
    (n : ℕ) (ms : List SharedMemory) (new : SharedMemory)
    → Good n ms
    → new.freed ≡ false
    → new.id ≡ n
    → by_name new.name ms ≡ none
    → Good (suc n) (ms ++ new ∷ [])
unfolding find_mem
Good-append n [] new g alive id h = (alive, omega (arith, id), refl, refl, tt)
Good-append n (m ∷ ms) new g alive id h = elim (Bool-cases (same_name m.name new.name)) [
  | inl hit ↦ absurd (some-none (simp hit at h))
  | inr miss ↦
      let other : (new.id == m.id) ≡ false = ground (arith, g.1, id) in
      let apart : same_name new.name m.name ≡ false = same_name_comm new.name m.name ∙ miss in
      (
        g.0,
        omega (arith, g.1),
        find_mem-append m.id ms new ∙ rw (g.2, other) refl,
        by_name-append m.name ms new g.3 apart,
        Good-append n ms new g.4 alive id (simp miss at h),
      )
]
