-- ===== src/Vmshm/Mems.antt =====
-- The list of memories of the shared memory driver: each alive, with a number and a name of its own.
use pi_frame.Prelude.{
  some-none, ℕ, ◌<◌, ◌≡◌, refl, sym, ◌∙◌, ap, subst, true, false, Bool-cases, inl, inr, Option,
  none, some, List, [], ◌∷◌, ◌++◌, arith, ret, ◌==◌, if◌then◌else◌, same_name,
}
use pi_frame.Vmshm.{SharedMemory, lookup, find_mem, set_refs, erase_mem}

-- The memory with a name.
abbrev pub by_name : List ℕ → List SharedMemory → Option SharedMemory
by_name name [] = none
by_name name (m ∷ ms) = if same_name m.name name then some m else by_name name ms

abbrev pub Good : ℕ → List SharedMemory → Type 0
Good n [] = Unit {0}
Good n (m ∷ ms) =
    (m.freed ≡ false)
    × (m.id < n)
    × (find_mem m.id ms ≡ none)
    × (by_name m.name ms ≡ none)
    × Good n ms

pub lookup-by_name :
    (n : ℕ) (name : List ℕ) (ms : List SharedMemory)
    → Good n ms
    → lookup name ms ≡ ret (by_name name ms)
unfolding lookup
lookup-by_name n name [] g = refl
lookup-by_name n name (m ∷ ms) g = elim (Bool-cases (same_name m.name name)) [
  | inl hit ↦ simp (g.0, hit)
  | inr miss ↦ simp (g.0, miss) (lookup-by_name n name ms g.4)
]

pub find_mem-by_name :
    (n : ℕ) (name : List ℕ) (ms : List SharedMemory) (m : SharedMemory)
    → Good n ms
    → by_name name ms ≡ some m
    → find_mem m.id ms ≡ some m
unfolding find_mem
find_mem-by_name n name [] m g h = cc
find_mem-by_name n name (x ∷ ms) m g h = elim (Bool-cases (same_name x.name name)) [
  | inl hit ↦
      let e : x ≡ m = ground arith in
      let t : (x.id == m.id) ≡ true = ground arith in simp t (ap some e)
  | inr miss ↦
      let h' : by_name name ms ≡ some m = simp miss at h in
      let there : find_mem m.id ms ≡ some m = find_mem-by_name n name ms m g.4 h' in
      let t : (x.id == m.id) ≡ false = ground (arith, g.2, there) in simp t there
]

abbrev pub with_refs : ℕ → Option SharedMemory → Option SharedMemory
with_refs r none = none
with_refs r (some m) = some (record m { refcnt = r })

pub find_mem-set_refs :
    (i j r : ℕ) (ms : List SharedMemory)
    → find_mem j (set_refs i r ms) ≡ (if i == j then with_refs r (find_mem j ms) else find_mem j ms)
unfolding find_mem set_refs
find_mem-set_refs i j r [] = ground arith
find_mem-set_refs i j r (m ∷ ms) = ground (arith, find_mem-set_refs i j r ms)

pub find_mem-erase :
    (n i j : ℕ) (ms : List SharedMemory)
    → Good n ms
    → find_mem j (erase_mem i ms) ≡ (if i == j then none else find_mem j ms)
unfolding find_mem erase_mem
find_mem-erase n i j [] g = ground arith
find_mem-erase n i j (m ∷ ms) g = elim (Bool-cases (m.id == i)) [
  | inl hit ↦ elim (Bool-cases (i == j)) [
    | inl e ↦
        let same : m.id ≡ j = ground arith in
        simp (hit, e) (subst (λ k. find_mem k ms ≡ none) same g.2)
    | inr e ↦ let other : (m.id == j) ≡ false = ground arith in simp (hit, e, other)
  ]
  | inr miss ↦ ground (arith, find_mem-erase n i j ms g.4)
]

pub find_mem-append :
    (i : ℕ) (ms : List SharedMemory) (m : SharedMemory)
    → find_mem i (ms ++ m ∷ [])
      ≡ elim (find_mem i ms) [ some x ↦ some x | none ↦ if m.id == i then some m else none ]
unfolding find_mem
find_mem-append i [] m = refl
find_mem-append i (x ∷ ms) m = elim (Bool-cases (x.id == i)) [
  | inl hit ↦ simp hit
  | inr miss ↦ simp miss (find_mem-append i ms m)
]

pub by_name-append :
    (name : List ℕ) (ms : List SharedMemory) (m : SharedMemory)
    → by_name name ms ≡ none
    → same_name m.name name ≡ false
    → by_name name (ms ++ m ∷ []) ≡ none
by_name-append name [] m h e = simp e
by_name-append name (x ∷ ms) m h e = elim (Bool-cases (same_name x.name name)) [
  | inl hit ↦ absurd (some-none (simp hit at h))
  | inr miss ↦ simp miss (by_name-append name ms m (simp miss at h) e)
]

-- A memory in the list is alive, and has the number by which it is found.
pub find_mem-alive :
    (n i : ℕ) (ms : List SharedMemory) (m : SharedMemory)
    → Good n ms
    → find_mem i ms ≡ some m
    → (m.freed ≡ false) × (m.id ≡ i)
unfolding find_mem
find_mem-alive n i [] m g h = cc
find_mem-alive n i (x ∷ ms) m g h = elim (Bool-cases (x.id == i)) [
  | inl hit ↦
      let e : x ≡ m = ground arith in
      (
        ap (λ (y : SharedMemory). y.freed) (sym e) ∙ g.0,
        ap (λ (y : SharedMemory). y.id) (sym e) ∙ ground arith,
      )
  | inr miss ↦ find_mem-alive n i ms m g.4 (simp miss at h)
]
