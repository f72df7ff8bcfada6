-- ===== src/Queues/Lookup.antt =====
-- drivers/vmq/main.c: `lookup_buffer_manager` finds the queue by the name of its memory.
use pi_frame.Prelude.{
  ℕ, ◌≡◌, refl, ap, Bool, true, false, Bool-cases, ◌⊎◌, inl, inr, none, some, List, [], ◌∷◌, ◌++◌,
  All, ret, same_name,
}
use pi_frame.Vmshm.{SharedMemory, Driver, find_mem}
use pi_frame.Queues.{Queue, lookup_queue, at_mem}

-- The memory of a queue, by its name or not.
abbrev pub Called : List ℕ → Driver → Bool → Queue → Type 0
Called name d t x =
    (m : SharedMemory) × (find_mem x.mem d.mems ≡ some m)
    × (m.freed ≡ false)
    × (same_name m.name name ≡ t)

abbrev pub There : Driver → Queue → Type 0
There d x = (m : SharedMemory) × (find_mem x.mem d.mems ≡ some m) × (m.freed ≡ false)

module _ (name : List ℕ) (d : Driver) where
  pub lookup_queue_lem :
      (qs : List Queue)
      → All (There d) qs
      → (lookup_queue name d qs ≡ ret none) × All (Called name d false) qs
        ⊎ (b : List Queue) × (x : Queue) × (a : List Queue) × (lookup_queue name d qs
            ≡ ret (some (b, x, a)))
          × (qs ≡ b ++ x ∷ a)
          × Called name d true x
          × All (Called name d false) b
  unfolding lookup_queue at_mem
  lookup_queue_lem [] h = inl (refl, tt)
  lookup_queue_lem (x ∷ qs) ((m, there, alive), h) = elim (Bool-cases (same_name m.name name)) [
    | inl hit ↦
        inr ([], x, qs, rw there (simp alive (simp hit refl)), refl, (m, there, alive, hit), tt)
    | inr miss ↦ elim (lookup_queue_lem qs h) [
      | inl (nothing, others) ↦
          inl
            (rw there (simp alive (simp miss (rw nothing refl))), ((m, there, alive, miss), others))
      | inr (b, y, a, run, place, hit, others) ↦ inr (
        x ∷ b,
        y,
        a,
        rw there (simp alive (simp miss (rw run refl))),
        ap (λ l. x ∷ l) place,
        hit,
        ((m, there, alive, miss), others),
      )
    ]
  ]
