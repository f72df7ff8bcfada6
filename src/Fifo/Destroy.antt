-- ===== src/Fifo/Destroy.antt =====
-- `PFU_destroyFIFO`.
use pi_frame.Prelude.{
  ℕ, zero, suc, ◌+◌, ◌≡◌, refl, ap, ◌∙◌, subst, true, false, ◌⊎◌, inl, inr, List, [], ◌∷◌, arith,
  ret, fault, ◌>>=◌, ◌==◌, if◌then◌else◌,
}
use pi_frame.Fifo.{heap, pool, Item, Fifo, free_ptr, free_all, destroy}
use pi_frame.Fifo.Contents.{
  times, uses, is_heap, Heaped, Pooled, AllItems, Loose, Fixed, drop_live-times, free_ptr-heap,
}

none_left : (live : List ℕ) → ((n : ℕ) → times n live ≡ 0) → live ≡ []
none_left [] h = refl
none_left (m ∷ ms) h = absurd (let now : times m (m ∷ ms) ≡ 0 = h m in ground (arith, now))

free_all_lem :
    (xs : List Item) (q : Fifo)
    → AllItems Heaped xs
    → ((n : ℕ) → times n q.live ≡ uses n xs)
    → (q' : Fifo) × (free_all xs q ≡ ret q') × (q'.live ≡ []) × (q'.pool_count ≡ q.pool_count)
unfolding free_all
free_all_lem [] q a h = (q, refl, none_left q.live h, refl)
free_all_lem (x ∷ xs) q a h =
    let (k, place) = a.0 in
    let self : is_heap k (heap k) ≡ 1 = ground arith in
    let mine : (n : ℕ) → times n q.live ≡ is_heap n (heap k) + uses n xs =
      λ n. h n ∙ ap (λ p. is_heap n p + uses n xs) place in
    let (live', dropped, fewer) = drop_live-times k q.live (omega (arith, mine k, self)) in
    let (q', run, empty, same) =
      free_all_lem xs (record q { live = live' }) a.1 (λ n. omega (arith, mine n, fewer n)) in
    let first : free_ptr x.at q ≡ ret (record q { live = live' }) =
      ap (λ p. free_ptr p q) place ∙ free_ptr-heap k q live' dropped in
    (q', rw first run, empty, same)

-- A queue without a pool is destroyed with all its items: no object is left.
pub destroy-Loose : (q : Fifo) → Loose q → (q' : Fifo) × (destroy q ≡ ret q') × (q'.live ≡ [])
unfolding destroy
destroy-Loose q v =
    let (q', run, empty, same) = free_all_lem q.queue (record q { queue = [] }) v.heaped v.owned in
    let at_zero : (q'.pool_count == 0) ≡ true = ground (arith, same, v.no_pool) in
    (q', rw run (rw at_zero refl), empty)

-- Places of a pool: the first one that is freed takes the array with it, and any other faults.
free_pool :
    (xs : List Item) (q : Fifo)
    → AllItems Pooled xs
    → q.pool_live ≡ false
    → (free_all xs q ≡ fault)
      ⊎ ((q' : Fifo) × (free_all xs q ≡ ret q')
          × (q'.pool_live ≡ false)
          × (q'.pool_count ≡ q.pool_count))
unfolding free_all free_ptr
free_pool [] q a dead = inr (q, refl, dead, refl)
free_pool (x ∷ xs) q a dead = inl (stuck a.0.0 a.0.1)
  where
    stuck : (k : ℕ) → x.at ≡ pool k → (free_ptr x.at q >>= λ q'. free_all xs q') ≡ fault
    stuck zero place = rw place (rw dead refl)
    stuck (suc k) place = rw place refl

-- A queue with a pool that is destroyed while there is an item in it gives `free` a pointer into the
-- array of the items, or the array twice.
pub destroy-Fixed :
    (q : Fifo) (x : Item) (xs : List Item) → Fixed q → q.queue ≡ x ∷ xs → destroy q ≡ fault
unfolding destroy free_all free_ptr
destroy-Fixed q x xs v first =
    let pooled : AllItems Pooled (x ∷ xs) = subst (AllItems Pooled) first v.pooled in
    simp first (start pooled.0.0 pooled.0.1 pooled.1)
  where
    start :
        (k : ℕ)
        → x.at ≡ pool k
        → AllItems Pooled xs
        → (free_ptr x.at (record q { queue = [] }) >>= (λ q'. free_all xs q') >>= λ q'.
            if q'.pool_count == 0 then ret q' else free_ptr (pool 0) q')
          ≡ fault
    start zero place rest = rw place (
        rw v.alive (elim (free_pool xs (record q { queue = []; pool_live = false }) rest refl) [
          | inl stuck ↦ rw stuck refl
          | inr (q', run, dead, same) ↦
              let no_zero : (q'.pool_count == 0) ≡ false = ground (arith, same, v.has_pool) in
              rw run (rw no_zero (rw dead refl))
        ]))
    start (suc k) place rest = rw place refl
