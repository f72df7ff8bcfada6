-- ===== src/Fifo/Contents.antt =====
-- The invariant of a queue of utilFifo.c, and what is put and taken.
use pi_frame.Prelude.{
  ℕ, zero, suc, ◌+◌, ◌<◌, ◌≡◌, refl, sym, ap, ◌∙◌, subst, true, false, Bool-cases, ◌⊎◌, inl, inr,
  Option, none, some, List, [], ◌∷◌, ◌++◌, arith, Outcome, ret, ◌>>=◌, ◌==◌, if◌then◌else◌, length,
  length-append,
}
use pi_frame.Fifo.{
  Ptr, heap, pool, Item, Fifo, pool_items, create, alloc_item, drop_live, free_ptr, free_item,
  enqueue_round, dequeue,
}

abbrev pub contents : List Item → List (List ℕ)
contents [] = []
contents (x ∷ xs) = x.data_copy ∷ contents xs

abbrev pub times : ℕ → List ℕ → ℕ
times n [] = 0
times n (m ∷ ms) = (if m == n then 1 else 0) + times n ms

-- How often an object is the item of a queue.
abbrev pub is_heap : ℕ → Ptr → ℕ
is_heap n (heap m) = if m == n then 1 else 0
is_heap n (pool i) = 0

abbrev pub uses : ℕ → List Item → ℕ
uses n [] = 0
uses n (x ∷ xs) = is_heap n x.at + uses n xs

abbrev pub Heaped : Ptr → Type 0
Heaped p = (k : ℕ) × (p ≡ heap k)

abbrev pub Pooled : Ptr → Type 0
Pooled p = (k : ℕ) × (p ≡ pool k)

abbrev pub AllItems : (Ptr → Type 0) → List Item → Type 0
AllItems P [] = Unit {0}
AllItems P (x ∷ xs) = P x.at × AllItems P xs

abbrev pub AllPtrs : (Ptr → Type 0) → List Ptr → Type 0
AllPtrs P [] = Unit {0}
AllPtrs P (p ∷ ps) = P p × AllPtrs P ps

-- The items are objects, just those that are allocated.
pub record Loose (q : Fifo) : Type 0 where
  pub no_pool : q.pool_count ≡ 0
  pub heaped : AllItems Heaped q.queue
  pub owned : (n : ℕ) → times n q.live ≡ uses n q.queue

-- The items are places of the pool, in the queue or in the list of empty ones.
pub record Fixed (q : Fifo) : Type 0 where
  pub has_pool : 0 < q.pool_count
  pub pooled : AllItems Pooled q.queue
  pub spare : AllPtrs Pooled q.empty
  pub shared : length q.queue + length q.empty ≡ q.pool_count
  pub alive : q.pool_live ≡ true

abbrev pub Inv : Fifo → Type 0
Inv q = Loose q ⊎ Fixed q

pub AllItems-append :
    (P : Ptr → Type 0) (xs : List Item) (x : Item)
    → AllItems P xs
    → P x.at
    → AllItems P (xs ++ x ∷ [])
AllItems-append P [] x a p = (p, tt)
AllItems-append P (y ∷ xs) x a p = (a.0, AllItems-append P xs x a.1 p)

AllPtrs-append :
    (P : Ptr → Type 0) (ps : List Ptr) (p : Ptr) → AllPtrs P ps → P p → AllPtrs P (ps ++ p ∷ [])
AllPtrs-append P [] p a h = (h, tt)
AllPtrs-append P (y ∷ ps) p a h = (a.0, AllPtrs-append P ps p a.1 h)

uses-append :
    (n : ℕ) (xs : List Item) (x : Item) → uses n (xs ++ x ∷ []) ≡ uses n xs + is_heap n x.at
uses-append n [] x = omega arith
uses-append n (y ∷ xs) x = omega (arith, uses-append n xs x)

contents-append :
    (xs : List Item) (x : Item) → contents (xs ++ x ∷ []) ≡ contents xs ++ x.data_copy ∷ []
contents-append [] x = refl
contents-append (y ∷ xs) x = ap (λ l. y.data_copy ∷ l) (contents-append xs x)

pub length-contents : (xs : List Item) → length (contents xs) ≡ length xs
length-contents [] = refl
length-contents (x ∷ xs) = ap suc (length-contents xs)

-- An object that is allocated can be freed.
pub drop_live-times :
    (k : ℕ) (live : List ℕ)
    → 0 < times k live
    → (live' : List ℕ) × (drop_live k live ≡ some live')
      × ((n : ℕ) → times n live ≡ times n live' + is_heap n (heap k))
unfolding drop_live
drop_live-times k [] h = absurd (omega (arith, h))
drop_live-times k (m ∷ ms) h = elim (Bool-cases (m == k)) [
  | inl hit ↦
      let e : m ≡ k = ground arith in
      (ms, rw hit refl, λ n. omega (arith, ap (λ j. is_heap n (heap j)) e))
  | inr miss ↦
      let other : 0 < times k ms = ground (arith, h, miss) in
      let (rest, run, fewer) = drop_live-times k ms other in
      (m ∷ rest, rw miss (rw run refl), λ n. omega (arith, fewer n))
]

pub free_ptr-heap :
    (k : ℕ) (q : Fifo) (live' : List ℕ)
    → drop_live k q.live ≡ some live'
    → free_ptr (heap k) q ≡ ret (record q { live = live' })
unfolding free_ptr
free_ptr-heap k q live' h = rw (h, free_ptr) refl

pool_items-length : (i n : ℕ) → length (pool_items i n) ≡ n
unfolding pool_items
pool_items-length i zero = refl
pool_items-length i (suc n) = ap suc (pool_items-length (suc i) n)

pool_items-Pooled : (i n : ℕ) → AllPtrs Pooled (pool_items i n)
unfolding pool_items
pool_items-Pooled i zero = tt
pool_items-Pooled i (suc n) = ((i, refl), pool_items-Pooled (suc i) n)

-- `PFU_createFIFO` with any number of items gives a queue that is well formed and empty.
pub create-Inv :
    (n : ℕ) → Inv (create n) × (contents (create n).queue ≡ []) × ((create n).pool_count ≡ n)
unfolding create
create-Inv n = elim (Bool-cases (n == 0)) [
  | inl none_asked ↦
      (inl (record { no_pool = ground arith; heaped = tt; owned = λ k. refl }), refl, refl)
  | inr some_asked ↦ (
    inr (record {
      has_pool = ground arith;
      pooled = tt;
      spare = pool_items-Pooled 0 n;
      shared = omega (arith, pool_items-length 0 n);
      alive = rw some_asked refl;
    }),
    refl,
    refl,
  )
]

abbrev pub Full : Fifo → Type 0
Full q = (0 < q.pool_count) × (length (contents q.queue) ≡ q.pool_count)

-- `PFU_enqueueFIFO`, where memory is given, waits if the queue has a pool and all of it is in use, and
-- then nothing is changed; else a copy of the data is the last of the contents.
pub enqueue_round_lem :
    (bytes : List ℕ) (q : Fifo)
    → Inv q
    → Full q × (enqueue_round true true bytes q ≡ ret (false, q))
      ⊎ ((q' : Fifo) × (enqueue_round true true bytes q ≡ ret (true, q'))
          × (¬ (Full q))
          × (contents q'.queue ≡ contents q.queue ++ bytes ∷ [])
          × (q'.pool_count ≡ q.pool_count)
          × Inv q')
unfolding enqueue_round alloc_item
enqueue_round_lem bytes q (inl v) =
    let at_zero : (q.pool_count == 0) ≡ true = ground (arith, v.no_pool) in
    let x : Item = record { at = heap q.next; data_copy = bytes } in
    inr (
      record q { live = q.next ∷ q.live; next = suc q.next; queue = q.queue ++ x ∷ [] },
      rw (at_zero, alloc_item) refl,
      λ f. omega (arith, f.0, v.no_pool),
      contents-append q.queue x,
      refl,
      inl (record {
        no_pool = v.no_pool;
        heaped = AllItems-append Heaped q.queue x v.heaped (q.next, refl);
        owned = λ n. omega (arith, v.owned n, uses-append n q.queue x);
      }),
    )
enqueue_round_lem bytes q (inr v) =
    let no_zero : (q.pool_count == 0) ≡ false = ground (arith, v.has_pool) in
    elim (list_cases q.empty) [
      | inl used ↦ inl (
        (v.has_pool, omega (arith, length-contents q.queue, v.shared, ap length used)),
        rw (no_zero, alloc_item) (simp used),
      )
      | inr (p, ps, more) ↦
          let x : Item = record { at = p; data_copy = bytes } in
          let spare : AllPtrs Pooled (p ∷ ps) = subst (AllPtrs Pooled) more v.spare in
          inr (
            record q { empty = ps; queue = q.queue ++ x ∷ [] },
            rw (no_zero, alloc_item) (rw more refl),
            λ f. omega (arith, f.1, length-contents q.queue, v.shared, ap length more),
            contents-append q.queue x,
            refl,
            inr (record {
              has_pool = v.has_pool;
              pooled = AllItems-append Pooled q.queue x v.pooled spare.0;
              spare = spare.1;
              shared = omega (arith, v.shared, ap length more, length-append q.queue (x ∷ []));
              alive = v.alive;
            }),
          )
    ]
  where
    list_cases : (l : List Ptr) → (l ≡ []) ⊎ ((p : Ptr) × (ps : List Ptr) × (l ≡ p ∷ ps))
    list_cases [] = inl refl
    list_cases (p ∷ ps) = inr (p, ps, refl)

-- What `PFU_dequeueFIFO` does with the items that it finds.
taking : Fifo → List Item → Outcome (Option (List ℕ) × Fifo)
taking q [] = ret (none, q)
taking q (x ∷ xs) = free_item x.at (record q { queue = xs }) >>= λ q'. ret (some x.data_copy, q')

dequeue-taking : (q : Fifo) (l : List Item) → q.queue ≡ l → dequeue q ≡ taking q l
unfolding dequeue taking
dequeue-taking q l h = ap (taking q) h

-- `PFU_dequeueFIFO` returns the first of the contents and takes it off, or the null pointer of a queue
-- that is empty.
pub dequeue_lem :
    (q : Fifo)
    → Inv q
    → (contents q.queue ≡ []) × (dequeue q ≡ ret (none, q))
      ⊎ ((bytes : List ℕ) × (q' : Fifo) × (contents q.queue ≡ bytes ∷ contents q'.queue)
          × (dequeue q ≡ ret (some bytes, q'))
          × (q'.pool_count ≡ q.pool_count)
          × Inv q')
unfolding free_item taking
dequeue_lem q v = elim (items_cases q.queue) [
  | inl nothing ↦ inl (ap contents nothing, dequeue-taking q [] nothing)
  | inr (x, xs, first) ↦
      let (q', run, same, count, v') = freed x xs first v in
      inr (
        x.data_copy,
        q',
        ap contents first ∙ ap (λ l. x.data_copy ∷ contents l) (sym same),
        dequeue-taking q (x ∷ xs) first ∙ rw run refl,
        count,
        v',
      )
]
  where
    freed :
        (x : Item) (xs : List Item)
        → q.queue ≡ x ∷ xs
        → Inv q
        → (q' : Fifo) × (free_item x.at (record q { queue = xs }) ≡ ret q')
          × (q'.queue ≡ xs)
          × (q'.pool_count ≡ q.pool_count)
          × Inv q'
    freed x xs first (inl w) =
        let at_zero : (q.pool_count == 0) ≡ true = ground (arith, w.no_pool) in
        let heaped : AllItems Heaped (x ∷ xs) = subst (AllItems Heaped) first w.heaped in
        let (k, place) = heaped.0 in
        let self : is_heap k (heap k) ≡ 1 = ground arith in
        let mine : (n : ℕ) → times n q.live ≡ is_heap n (heap k) + uses n xs =
          λ n. w.owned n ∙ ap (uses n) first ∙ ap (λ p. is_heap n p + uses n xs) place in
        let (live', dropped, fewer) = drop_live-times k q.live (omega (arith, mine k, self)) in
        let run : free_ptr x.at (record q { queue = xs })
            ≡ ret (record q { queue = xs; live = live' }) =
          ap (λ p. free_ptr p (record q { queue = xs })) place
          ∙ free_ptr-heap k (record q { queue = xs }) live' dropped in
        (
          record q { queue = xs; live = live' },
          rw at_zero run,
          refl,
          refl,
          inl (record {
            no_pool = w.no_pool;
            heaped = heaped.1;
            owned = λ n. omega (arith, mine n, fewer n);
          }),
        )
    freed x xs first (inr w) =
        let no_zero : (q.pool_count == 0) ≡ false = ground (arith, w.has_pool) in
        let pooled : AllItems Pooled (x ∷ xs) = subst (AllItems Pooled) first w.pooled in
        (
          record q { queue = xs; empty = q.empty ++ x.at ∷ [] },
          rw no_zero refl,
          refl,
          refl,
          inr (record {
            has_pool = w.has_pool;
            pooled = pooled.1;
            spare = AllPtrs-append Pooled q.empty x.at w.spare pooled.0;
            shared = omega (arith, w.shared, ap length first, length-append q.empty (x.at ∷ []));
            alive = w.alive;
          }),
        )

    items_cases : (l : List Item) → (l ≡ []) ⊎ ((x : Item) × (xs : List Item) × (l ≡ x ∷ xs))
    items_cases [] = inl refl
    items_cases (x ∷ xs) = inr (x, xs, refl)
