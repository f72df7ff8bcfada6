-- ===== src/Vmq/State.antt =====
-- The invariant of a queue, over given numbers of references: `held i` by the consumers to the
-- buffer `i`, and `owned i` by the producers.
use pi_frame.Prelude.{
  ℕ, ◌+◌, ◌/◌, ◌%◌, ◌^◌, ◌≤◌, ◌<◌, ◌≡◌, refl, sym, ap, ◌∙◌, subst, false, ◌⊎◌, inl, inr, Option,
  none, some, List, [], ◌∷◌, ◌++◌, arith, Outcome, ret, fault, hang, ◌>>=◌, ◌==◌, if◌then◌else◌,
  length, map,
}
use pi_frame.Balloc
use pi_frame.Balloc.{BuddyAllocator, order_of}
use pi_frame.Balloc.Inv.{Kept}
use pi_frame.Balloc.Free.{AtEdge}
use pi_frame.Balloc.Arena.{Arena, count, count-append, free-Gave}
use pi_frame.Vmq.{Buffer, Manager, u32, inc, dec, find_buffer, erase_buffer, remove_buffer}
use pi_frame.Vmq.Heap.{Below, block, find_buffer-erase, Below-erase, length-erase, count-erase}

-- A buffer that is allocated has one owner and no reference, or no owner and as many references as
-- its counter says; of one that is not there is neither.
abbrev pub Owned : Option Buffer → ℕ → ℕ → Type 0
Owned none r o = (r ≡ 0) × (o ≡ 0)
Owned (some b) r o = (b.refcnt ≡ r) × (r < 2 ^ 31) × ((r ≡ 0) × (o ≡ 1) ⊎ (0 < r) × (o ≡ 0))

-- The blocks of the allocator: those of the buffers, and those that are lost.
abbrev pub marks : Manager → List (ℕ × ℕ) → List (ℕ × ℕ)
marks m lost = map (block m.page_size) m.buffers ++ lost

pub record Heap (m : Manager) (lost : List (ℕ × ℕ)) : Type 0 where
  pub arena : Arena m.ba (marks m lost)
  pub page : m.ba.page_size ≡ m.page_size
  pub page_pos : 0 < m.page_size
  pub below : Below m.next m.buffers
  pub counted : m.item_count ≡ length m.buffers % u32
  pub balance : (m.item_count + m.remove_count) % u32 ≡ m.alloc_count % u32

pub record State (m : Manager) (lost : List (ℕ × ℕ)) (held owned : ℕ → ℕ) : Type 0 where
  pub heap : Heap m lost
  pub counts : (i : ℕ) → Owned (find_buffer i m.buffers) (held i) (owned i)

-- The page number of `ba_free` leads past the bitmap: the block lies at the end of the arena.
abbrev pub Overrun : ℕ → List (ℕ × ℕ) → Type 0
Overrun nr us = (i : ℕ) × (o : ℕ) × (0 < count (i, o) us) × AtEdge nr i o

-- A run that ends well, or reads past the allocator's bitmap; nothing else.
abbrev pub Safe {ℓ} : {A : Type ℓ} → ℕ → List (ℕ × ℕ) → (A → Type 0) → Outcome A → Type 0
Safe nr us P (ret a) = P a
Safe nr us P fault = Overrun nr us
Safe nr us P hang = ⊥

pub Safe-weaken {ℓ} :
    {A : Type ℓ} (nr nr' : ℕ) (us vs : List (ℕ × ℕ)) (P : A → Type 0) (r : Outcome A)
    → nr' ≡ nr
    → ((u : ℕ × ℕ) → count u us ≤ count u vs)
    → Safe nr' us P r
    → Safe nr vs P r
Safe-weaken nr nr' us vs P (ret a) e h s = s
Safe-weaken nr nr' us vs P fault e h (i, o, c, at) =
    (i, o, omega (arith, h (i, o), c), (at.0, at.1, at.2, at.3, at.4 ∙ e))
Safe-weaken nr nr' us vs P hang e h s = s

count_one :
    (u v : ℕ × ℕ) (us vs : List (ℕ × ℕ))
    → count u vs ≡ count u (v ∷ us)
    → count u (v ∷ []) ≤ count u vs
count_one u v us vs h = ground arith

-- Only these fields of a queue are changed when a buffer goes.
pub record Same (m m' : Manager) : Type 0 where
  pub consumers : m'.consumers ≡ m.consumers
  pub producers : m'.producers ≡ m.producers
  pub size : m'.size ≡ m.size
  pub page_size : m'.page_size ≡ m.page_size
  pub refcnt : m'.refcnt ≡ m.refcnt
  pub next : m'.next ≡ m.next
  pub nr : m'.ba.nr_pages ≡ m.ba.nr_pages

-- What `remove_buffer_item` leaves.
pub record Removed (m : Manager) (b : Buffer) (lost : List (ℕ × ℕ)) (m' : Manager) : Type 0 where
  pub heap : Heap m' lost
  pub gone :
      (j : ℕ) → find_buffer j m'.buffers ≡ (if b.id == j then none else find_buffer j m.buffers)
  pub same : Same m m'
  pub fewer : (u : ℕ × ℕ) → count u (marks m' lost) ≤ count u (marks m lost)

count_less :
    (u v : ℕ × ℕ) (us vs : List (ℕ × ℕ)) → count u vs ≡ count u (v ∷ us) → count u us ≤ count u vs
count_less u v us vs h = ground arith

count_pos : (u : ℕ × ℕ) (us vs : List (ℕ × ℕ)) → count u vs ≡ count u (u ∷ us) → 0 < count u vs
count_pos (i, o) us vs h = ground arith

module _ (m : Manager) (b : Buffer) (lost : List (ℕ × ℕ)) where
  without : List (ℕ × ℕ)
  without = map (block m.page_size) (erase_buffer b.id m.buffers) ++ lost

  removed : BuddyAllocator → Manager
  removed ba' = record m {
    ba = ba';
    buffers = erase_buffer b.id m.buffers;
    item_count = dec m.item_count;
    remove_count = inc m.remove_count;
  }

  remove_buffer_run :
      {r : Outcome BuddyAllocator}
      → 0 < m.page_size
      → Balloc.free m.ba (b.offset / m.page_size) ≡ r
      → remove_buffer m b ≡ (r >>= λ ba'. ret (removed ba'))
  unfolding remove_buffer removed
  remove_buffer_run {r} pos run =
      let divisor : (m.page_size == 0) ≡ false = ground arith in rw (divisor, run)

  one_block :
      find_buffer b.id m.buffers ≡ some b
      → (u : ℕ × ℕ) → count u (marks m lost) ≡ count u (block m.page_size b ∷ without)
  unfolding without
  one_block there u =
      count-append u (map (block m.page_size) m.buffers) lost
      ∙ ap (λ n. n + count u lost) (count-erase m.page_size u b.id m.buffers b there)
      ∙ sym (
          count-append u
            (block m.page_size b ∷ map (block m.page_size) (erase_buffer b.id m.buffers)) lost)

  removed-Removed :
      (ba' : BuddyAllocator)
      → Heap m lost
      → find_buffer b.id m.buffers ≡ some b
      → Arena ba' without
      → Kept m.ba ba'
      → Removed m b lost (removed ba')
  unfolding removed without
  removed-Removed ba' h there a k = record {
    heap = record {
      arena = a;
      page = k.page ∙ h.page;
      page_pos = h.page_pos;
      below = Below-erase b.id m.next m.buffers h.below;
      counted = omega (arith, h.counted, length-erase b.id m.buffers b there);
      balance = omega (arith, h.balance);
    };
    gone = λ j. find_buffer-erase b.id j m.next m.buffers h.below;
    same = record {
      consumers = refl;
      producers = refl;
      size = refl;
      page_size = refl;
      refcnt = refl;
      next = refl;
      nr = k.nr;
    };
    fewer = λ u. unfold without in count_less u (block m.page_size b) _ _ (one_block there u);
  }

  -- The page allocator fails, if it does, at the buffer's own block.
  pub remove_buffer-own :
      Heap m lost
      → find_buffer b.id m.buffers ≡ some b
      → Safe m.ba.nr_pages (block m.page_size b ∷ []) (Removed m b lost) (remove_buffer m b)
  remove_buffer-own h there =
      let i = b.offset / m.page_size in
      let o = order_of b.size m.page_size in
      elim (free-Gave m.ba i o (marks m lost) without h.arena (one_block there)) [
        | inl (run, at) ↦
            subst (Safe m.ba.nr_pages (block m.page_size b ∷ []) (Removed m b lost))
              (sym (remove_buffer_run h.page_pos run))
              (i, o, count_pos (i, o) [] (block m.page_size b ∷ []) refl, at)
        | inr (ba', run, a, k) ↦
            subst (Safe m.ba.nr_pages (block m.page_size b ∷ []) (Removed m b lost))
              (sym (remove_buffer_run h.page_pos run)) (removed-Removed ba' h there a k)
      ]

  pub own_block :
      find_buffer b.id m.buffers ≡ some b
      → (u : ℕ × ℕ) → count u (block m.page_size b ∷ []) ≤ count u (marks m lost)
  own_block there u = count_one u (block m.page_size b) without (marks m lost) (one_block there u)

  pub remove_buffer-Removed :
      Heap m lost
      → find_buffer b.id m.buffers ≡ some b
      → Safe m.ba.nr_pages (marks m lost) (Removed m b lost) (remove_buffer m b)
  remove_buffer-Removed h there =
      Safe-weaken m.ba.nr_pages m.ba.nr_pages (block m.page_size b ∷ []) (marks m lost)
        (Removed m b lost) (remove_buffer m b) refl (own_block there) (remove_buffer-own h there)
