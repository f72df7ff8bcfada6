-- ===== src/Vmq/Take.antt =====
-- `get_buffer_item`: a producer takes a buffer, fails or falls asleep.
use pi_frame.Prelude.{
  ℕ, suc, ◌+◌, ◌*◌, ◌/◌, ◌%◌, ◌^◌, ◌≤◌, ◌<◌, ◌≡◌, refl, sym, ap, ap₂, ◌∙◌, subst, Bool, true, false,
  Bool-cases, ◌⊎◌, inl, inr, List, ◌∷◌, arith, Outcome, ret, ◌>>=◌, if◌then◌else◌, map,
}
use native.Mathlib.Nat.{mul-le-mul_right, mul-div_cancel}
use pi_frame.Balloc.{BuddyAllocator, order_of}
use pi_frame.Balloc.Inv.{Kept}
use pi_frame.Balloc.Arena.{Arena, count-middle, alloc-Took}
use pi_frame.Vmq.{
  Buffer, Manager, Errno, enomem, erestartsys, u32, inc, Phase, enter, count_wait, page_wait, Got,
  got, failed, blocked, finish_buffer, wait_pages, try_pages, over_limit, get_buffer,
}
use pi_frame.Vmq.Heap.{block}
use pi_frame.Vmq.State.{marks, Heap, Same}

-- The buffer `b` is new, and only it is added.
pub record Given (m : Manager) (lost : List (ℕ × ℕ)) (size : ℕ) (b : Buffer) (m' : Manager)
    : Type 0 where
  pub heap : Heap m' lost
  pub id : b.id ≡ m.next
  pub unused : b.refcnt ≡ 0
  pub asked : b.size ≡ size
  pub buffers : m'.buffers ≡ b ∷ m.buffers
  pub consumers : m'.consumers ≡ m.consumers
  pub producers : m'.producers ≡ m.producers
  pub nr : m'.ba.nr_pages ≡ m.ba.nr_pages
  pub page_size : m'.page_size ≡ m.page_size

-- Nothing is taken, but pages may be lost.
pub record Refused (m : Manager) (lost' : List (ℕ × ℕ)) (m' : Manager) : Type 0 where
  pub heap : Heap m' lost'
  pub buffers : m'.buffers ≡ m.buffers
  pub same : Same m m'

-- Pages are lost where the buffer that should own them cannot be allocated.
abbrev pub Leak : Bool → Errno → List (ℕ × ℕ) → List (ℕ × ℕ) → Type 0
Leak given e lost lost' =
    (lost' ≡ lost) ⊎ (given ≡ false) × (e ≡ enomem) × ((u : ℕ × ℕ) × (lost' ≡ u ∷ lost))

abbrev pub Gives : Manager → List (ℕ × ℕ) → ℕ → Bool → Got × Manager → Type 0
Gives m lost size given (got b, m') = Given m lost size b m'
Gives m lost size given (failed e, m') =
    (lost' : List (ℕ × ℕ)) × Leak given e lost lost' × Refused m lost' m'
Gives m lost size given (blocked ph, m') = Refused m lost m'

Refused-refl : (m : Manager) (lost : List (ℕ × ℕ)) → Heap m lost → Refused m lost m
Refused-refl m lost h = record {
  heap = h;
  buffers = refl;
  same = record {
    consumers = refl;
    producers = refl;
    size = refl;
    page_size = refl;
    refcnt = refl;
    next = refl;
    nr = refl;
  };
}

-- The offset of a page of the arena does not wrap.
page_of :
    (page nr page_size : ℕ)
    → page < nr
    → 0 < page_size
    → nr * page_size ≤ 2 ^ 32
    → page * page_size % u32 / page_size ≡ page
page_of page nr page_size h pos fits =
    let next : suc page * page_size ≤ nr * page_size = mul-le-mul_right page_size h in
    let inside : page * page_size + page_size ≤ nr * page_size = omega (arith, next) in
    let whole : page * page_size % u32 ≡ page * page_size = omega (arith, inside, fits, pos) in
    ap (λ n. n / page_size) whole ∙ mul-div_cancel page pos

module _ (m : Manager) (lost : List (ℕ × ℕ)) (size : ℕ) where
  finish_buffer-Gives :
      (given : Bool) (page : ℕ) (ba' : BuddyAllocator)
      → Heap m lost
      → m.ba.nr_pages * m.page_size ≤ 2 ^ 32
      → Arena ba' ((page, order_of size m.ba.page_size) ∷ marks m lost)
      → Kept m.ba ba'
      → page < m.ba.nr_pages
      → Gives m lost size given (finish_buffer given size page (record m { ba = ba' }))
  unfolding finish_buffer
  finish_buffer-Gives true page ba' h fits a k lt =
      let at : (page * m.page_size % u32 / m.page_size, order_of size m.page_size)
          ≡ (page, order_of size m.ba.page_size) =
        ap₂ (λ (x : ℕ) (y : ℕ). (x, y)) (page_of page m.ba.nr_pages m.page_size lt h.page_pos fits)
          (ap (order_of size) (sym h.page)) in
      record {
        heap = record {
          arena = subst (λ u. Arena ba' (u ∷ marks m lost)) (sym at) a;
          page = k.page ∙ h.page;
          page_pos = h.page_pos;
          below = (omega arith, h.below);
          counted = omega (arith, h.counted);
          balance = omega (arith, h.balance);
        };
        id = refl;
        unused = refl;
        asked = refl;
        buffers = refl;
        consumers = refl;
        producers = refl;
        nr = k.nr;
        page_size = refl;
      }
  finish_buffer-Gives false page ba' h fits a k lt =
      let u : ℕ × ℕ = (page, order_of size m.ba.page_size) in
      (
        u ∷ lost,
        inr (refl, refl, (u, refl)),
        record {
          heap = record {
            arena = record {
              blocks = a.blocks;
              inv = a.inv;
              bag = λ v. a.bag v ∙ sym (count-middle v u (map (block m.page_size) m.buffers) lost);
            };
            page = k.page ∙ h.page;
            page_pos = h.page_pos;
            below = h.below;
            counted = h.counted;
            balance = h.balance;
          };
          buffers = refl;
          same = record {
            consumers = refl;
            producers = refl;
            size = refl;
            page_size = refl;
            refcnt = refl;
            next = refl;
            nr = k.nr;
          };
        },
      )

abbrev Returns : Manager → List (ℕ × ℕ) → ℕ → Bool → Outcome (Got × Manager) → Type 0
Returns m lost size given r = (v : Got × Manager) × (r ≡ ret v) × Gives m lost size given v

module _ (m : Manager) (lost : List (ℕ × ℕ)) (size : ℕ) (signal given : Bool) where
  wait_pages-Returns :
      Heap m lost
      → m.ba.nr_pages * m.page_size ≤ 2 ^ 32
      → 0 < size
      → size < 2 ^ 31
      → Returns m lost size given (wait_pages signal given size m)
  unfolding wait_pages
  wait_pages-Returns h fits pos small =
      elim (alloc-Took m.ba (marks m lost) size h.arena pos small) [
        | inl run ↦
            rw (run, ◌>>=◌)
              (elim (Bool-cases signal) [
                | inl hit ↦ rw hit (_, refl, (lost, inl refl, Refused-refl m lost h))
                | inr miss ↦ rw miss (_, refl, Refused-refl m lost h)
              ])
        | inr (page, ba', run, a, k, lt) ↦
            rw (run, ◌>>=◌) (_, refl, finish_buffer-Gives m lost size given page ba' h fits a k lt)
      ]

-- Nothing that is said reads the counter of the waits.
full : Manager → ℕ → Manager
full m n = record m { full_count = n }

abbrev full_heap : (m : Manager) (lost : List (ℕ × ℕ)) (n : ℕ) → Heap m lost → Heap (full m n) lost
unfolding full
full_heap m lost n h = record {
  arena = h.arena;
  page = h.page;
  page_pos = h.page_pos;
  below = h.below;
  counted = h.counted;
  balance = h.balance;
}

Refused-full :
    (m m' : Manager) (lost : List (ℕ × ℕ)) (n : ℕ) → Refused (full m n) lost m' → Refused m lost m'
unfolding full
Refused-full m m' lost n r = record {
  heap = r.heap;
  buffers = r.buffers;
  same = record {
    consumers = r.same.consumers;
    producers = r.same.producers;
    size = r.same.size;
    page_size = r.same.page_size;
    refcnt = r.same.refcnt;
    next = r.same.next;
    nr = r.same.nr;
  };
}

Gives-full :
    (m : Manager) (lost : List (ℕ × ℕ)) (size n : ℕ) (given : Bool) (v : Got × Manager)
    → Gives (full m n) lost size given v
    → Gives m lost size given v
unfolding full
Gives-full m lost size n given (got b, m') g = record {
  heap = g.heap;
  id = g.id;
  unused = g.unused;
  asked = g.asked;
  buffers = g.buffers;
  consumers = g.consumers;
  producers = g.producers;
  nr = g.nr;
  page_size = g.page_size;
}
Gives-full m lost size n given (failed e, m') (lost', leak, r) =
    (lost', leak, Refused-full m m' lost' n r)
Gives-full m lost size n given (blocked ph, m') r = Refused-full m m' lost n r

module _ (m : Manager) (lost : List (ℕ × ℕ)) (size : ℕ) (signal given : Bool) where
  try_pages-Returns :
      Heap m lost
      → m.ba.nr_pages * m.page_size ≤ 2 ^ 32
      → 0 < size
      → size < 2 ^ 31
      → Returns m lost size given (try_pages signal given size m)
  unfolding try_pages full
  try_pages-Returns h fits pos small =
      elim (alloc-Took m.ba (marks m lost) size h.arena pos small) [
        | inl run ↦
            let n = inc m.full_count in
            let (v, again, gives) =
              wait_pages-Returns (full m n) lost size signal given (full_heap m lost n h) fits pos
                small in
            rw (run, ◌>>=◌) (v, again, Gives-full m lost size n given v gives)
        | inr (page, ba', run, a, k, lt) ↦
            rw (run, ◌>>=◌) (_, refl, finish_buffer-Gives m lost size given page ba' h fits a k lt)
      ]

  gated :
      Heap m lost
      → m.ba.nr_pages * m.page_size ≤ 2 ^ 32
      → 0 < size
      → size < 2 ^ 31
      → Returns m lost size given (
          if over_limit m
          then ret (if signal then failed erestartsys else blocked count_wait, m)
          else try_pages signal given size m)
  gated h fits pos small = elim (Bool-cases (over_limit m)) [
    | inl many ↦ rw many (elim (Bool-cases signal) [
      | inl hit ↦ rw hit (_, refl, (lost, inl refl, Refused-refl m lost h))
      | inr miss ↦ rw miss (_, refl, Refused-refl m lost h)
    ])
    | inr few ↦ rw few (try_pages-Returns h fits pos small)
  ]

  -- `get_buffer_item` always returns: with a buffer that is new and has pages of its own, or with an
  -- error or a sleeper and nothing taken, where pages may be lost only by `enomem`.
  pub get_buffer-Returns :
      (phase : Phase)
      → Heap m lost
      → m.ba.nr_pages * m.page_size ≤ 2 ^ 32
      → 0 < size
      → size < 2 ^ 31
      → Returns m lost size given (get_buffer phase signal given size m)
  unfolding get_buffer
  get_buffer-Returns page_wait h fits pos small =
      wait_pages-Returns m lost size signal given h fits pos small
  get_buffer-Returns enter h fits pos small = gated h fits pos small
  get_buffer-Returns count_wait h fits pos small = gated h fits pos small
