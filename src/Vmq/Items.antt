-- ===== src/Vmq/Items.antt =====
-- The invariant of a queue, and the loop over the references of a consumer that is released.
use pi_frame.Prelude.{
  ℕ, ◌+◌, ◌*◌, ◌^◌, ◌≤◌, ◌<◌, ◌≡◌, refl, ◌∙◌, subst, Bool, List, [], ◌∷◌, arith, ret, ◌>>=◌,
  if◌then◌else◌, length,
}
use pi_frame.Vmq.{Producer, Consumer, Manager, find_buffer, unref_buffer}
use pi_frame.Vmq.Calls.{unref_all}
use pi_frame.Vmq.State.{Owned, marks, State, Safe, Safe-weaken, Same}
use pi_frame.Vmq.Unref.{Safe-bind, Dropped, unref_buffer-Dropped}
use pi_frame.Vmq.Counts.{times, refs, owns}

-- The counters of the buffers agree with the references that the consumers hold, and each buffer
-- without a reference has one owner among the producers; the blocks of the buffers, and the lost
-- ones, are what is marked in the allocator.
pub record Inv (m : Manager) (lost : List (ℕ × ℕ)) : Type 0 where
  pub state : State m lost (λ i. refs i m.consumers) (λ i. owns i m.producers)
  pub few : length m.consumers < 2 ^ 31
  pub fits : m.ba.nr_pages * m.page_size ≤ 2 ^ 32

-- Only the lists of contexts and their counter differ.
abbrev pub with_rest : Manager → List Consumer → List Producer → ℕ → Manager
with_rest m cs ps r = record m { consumers = cs; producers = ps; refcnt = r }

pub State-with_rest :
    (m : Manager) (lost : List (ℕ × ℕ)) (held owned : ℕ → ℕ) (cs : List Consumer)
    (ps : List Producer) (r : ℕ)
    → State m lost held owned
    → State (with_rest m cs ps r) lost held owned
State-with_rest m lost held owned cs ps r s = record {
  heap = record {
    arena = s.heap.arena;
    page = s.heap.page;
    page_pos = s.heap.page_pos;
    below = s.heap.below;
    counted = s.heap.counted;
    balance = s.heap.balance;
  };
  counts = s.counts;
}

pub State-held :
    (m : Manager) (lost : List (ℕ × ℕ)) (held held' owned owned' : ℕ → ℕ)
    → ((j : ℕ) → held j ≡ held' j)
    → ((j : ℕ) → owned j ≡ owned' j)
    → State m lost held owned
    → State m lost held' owned'
State-held m lost held held' owned owned' e f s = record {
  heap = s.heap;
  counts = λ j.
      subst (λ n. Owned (find_buffer j m.buffers) n (owned' j)) (e j)
        (subst (λ n. Owned (find_buffer j m.buffers) (held j) n) (f j) (s.counts j));
}

pub Same_trans : {m m' m'' : Manager} → Same m m' → Same m' m'' → Same m m''
Same_trans s t = record {
  consumers = t.consumers ∙ s.consumers;
  producers = t.producers ∙ s.producers;
  size = t.size ∙ s.size;
  page_size = t.page_size ∙ s.page_size;
  refcnt = t.refcnt ∙ s.refcnt;
  next = t.next ∙ s.next;
  nr = t.nr ∙ s.nr;
}

-- Giving up references one by one.
pub unref_all-Dropped :
    (is : List ℕ) (m : Manager) (lost : List (ℕ × ℕ)) (held held' owned : ℕ → ℕ)
    → State m lost held owned
    → ((j : ℕ) → held j ≡ held' j + times j is)
    → Safe m.ba.nr_pages (marks m lost) (λ r. Dropped m lost held' owned r.1) (unref_all is m)
unfolding unref_all
unref_all-Dropped [] m lost held held' owned s minus = record {
  state = State-held m lost held held' owned owned (λ j. omega (arith, minus j)) (λ j. refl) s;
  same = record {
    consumers = refl;
    producers = refl;
    size = refl;
    page_size = refl;
    refcnt = refl;
    next = refl;
    nr = refl;
  };
  fewer = λ u. omega arith;
}
unref_all-Dropped (i ∷ is) m lost held held' owned s minus =
    Safe-bind m.ba.nr_pages (marks m lost)
      (λ (r : Bool × Manager). Dropped m lost (λ j. held' j + times j is) owned r.1)
      (λ (r : ℕ × Manager). Dropped m lost held' owned r.1) (unref_buffer m i)
      (λ r. unref_all is r.1 >>= λ s'. ret (if r.0 then s'.0 + 1 else s'.0, s'.1))
      (unref_buffer-Dropped m lost held (λ j. held' j + times j is) owned i s
        (λ j. omega (arith, minus j)))
      (λ r d.
        Safe-bind m.ba.nr_pages (marks m lost)
          (λ (t : ℕ × Manager). Dropped r.1 lost held' owned t.1)
          (λ (t : ℕ × Manager). Dropped m lost held' owned t.1) (unref_all is r.1)
          (λ s'. ret (if r.0 then s'.0 + 1 else s'.0, s'.1))
          (Safe-weaken m.ba.nr_pages r.1.ba.nr_pages (marks r.1 lost) (marks m lost)
            (λ (t : ℕ × Manager). Dropped r.1 lost held' owned t.1) (unref_all is r.1) d.same.nr
            d.fewer
            (unref_all-Dropped is r.1 lost (λ j. held' j + times j is) held' owned d.state
              (λ j. refl)))
          (λ t e. record {
            state = e.state;
            same = Same_trans d.same e.same;
            fewer = λ u. omega (arith, d.fewer u, e.fewer u);
          }))
