-- ===== src/Vmq/Unref.antt =====
-- `unref_buffer` and the loop of `vmq_release` over a consumer's references.
use pi_frame.Prelude.{
  ℕ, ◌+◌, ◌≤◌, ◌<◌, ◌≡◌, refl, sym, ap, ◌∙◌, subst, Bool, true, false, Bool-cases, inl, inr, Option,
  none, some, List, ◌++◌, arith, Outcome, ret, fault, hang, ◌>>=◌, ◌==◌, if◌then◌else◌,
}
use pi_frame.Balloc.Arena.{count}
use pi_frame.Vmq.{Buffer, Manager, dec, find_buffer, set_refcnt, remove_buffer, unref_buffer}
use pi_frame.Vmq.Heap.{
  find_buffer-id, find_buffer-set_refcnt, Below-set_refcnt, length-set_refcnt, map-block-set_refcnt,
}
use pi_frame.Vmq.State.{Owned, marks, Heap, State, Safe, Same, Removed, remove_buffer-Removed}

pub Safe-bind {ℓ κ} :
    {A : Type ℓ} {B : Type κ} (nr : ℕ) (us : List (ℕ × ℕ)) (P : A → Type 0) (Q : B → Type 0)
    (r : Outcome A) (f : A → Outcome B)
    → Safe nr us P r
    → ((a : A) → P a → Safe nr us Q (f a))
    → Safe nr us Q (r >>= f)
Safe-bind nr us P Q (ret a) f s h = h a s
Safe-bind nr us P Q fault f s h = s
Safe-bind nr us P Q hang f s h = absurd s

-- One for the buffer `i`, and nothing for the others.
abbrev pub one : ℕ → ℕ → ℕ
one i j = if i == j then 1 else 0

abbrev pub set : Manager → ℕ → ℕ → Manager
set m i r = record m { buffers = set_refcnt i r m.buffers }

pub marks-set :
    (m : Manager) (lost : List (ℕ × ℕ)) (i r : ℕ) → marks (set m i r) lost ≡ marks m lost
marks-set m lost i r = ap (λ us. us ++ lost) (map-block-set_refcnt m.page_size i r m.buffers)

pub set-Heap : (m : Manager) (lost : List (ℕ × ℕ)) (i r : ℕ) → Heap m lost → Heap (set m i r) lost
set-Heap m lost i r h = record {
  arena = rw (marks-set m lost i r) h.arena;
  page = h.page;
  page_pos = h.page_pos;
  below = Below-set_refcnt i r m.next m.buffers h.below;
  counted = rw (length-set_refcnt i r m.buffers) h.counted;
  balance = h.balance;
}

-- What giving up a reference, or several, leaves.
pub record Dropped (m : Manager) (lost : List (ℕ × ℕ)) (held owned : ℕ → ℕ) (m' : Manager)
    : Type 0 where
  pub state : State m' lost held owned
  pub same : Same m m'
  pub fewer : (u : ℕ × ℕ) → count u (marks m' lost) ≤ count u (marks m lost)

Owned-other :
    (i j : ℕ) (held held' : ℕ → ℕ) (o : Option Buffer) (w : ℕ)
    → (i == j) ≡ false
    → held j ≡ held' j + one i j
    → Owned o (held j) w
    → Owned o (held' j) w
Owned-other i j held held' none w h e k = ground arith
Owned-other i j held held' (some b) w h e k = ground arith

Owned-last :
    (b : Buffer) (r r' o : ℕ) → Owned (some b) r o → b.refcnt ≡ 1 → r ≡ r' + 1 → Owned none r' o
Owned-last b r r' o w h e = ground arith

Owned-less :
    (b : Buffer) (r r' o : ℕ)
    → Owned (some b) r o
    → r ≡ r' + 1
    → 0 < r'
    → Owned (some (record b { refcnt = r' })) r' o
Owned-less b r r' o w h p = ground arith

Owned-refcnt : (b : Buffer) (r o : ℕ) → Owned (some b) r o → b.refcnt ≡ r
Owned-refcnt b r o w = w.0

-- A reference is to a buffer that is there.
pub held_buffer : (o : Option Buffer) (r w : ℕ) → 0 < r → Owned o r w → (b : Buffer) × (o ≡ some b)
held_buffer none r w p k = absurd (omega (arith, k.0))
held_buffer (some b) r w p k = (b, refl)

module _ (m : Manager) (lost : List (ℕ × ℕ)) (held held' owned : ℕ → ℕ) (i : ℕ) (b : Buffer) where
  last_lem :
      State m lost held owned
      → find_buffer i m.buffers ≡ some b
      → b.refcnt ≡ 1
      → ((j : ℕ) → held j ≡ held' j + one i j)
      → (m' : Manager) → Removed (set m i 0) (record b { refcnt = 0 }) lost m'
      → Dropped m lost held' owned m'
  last_lem s there last minus m' k = record {
    state = record { heap = k.heap; counts = counts' };
    same = record {
      consumers = k.same.consumers;
      producers = k.same.producers;
      size = k.same.size;
      page_size = k.same.page_size;
      refcnt = k.same.refcnt;
      next = k.same.next;
      nr = k.same.nr;
    };
    fewer =
        λ u. subst (λ us. count u (marks m' lost) ≤ count u us) (marks-set m lost i 0) (k.fewer u);
  }
    where
      counts' : (j : ℕ) → Owned (find_buffer j m'.buffers) (held' j) (owned j)
      counts' j = elim (Bool-cases (i == j)) [
        | inl hit ↦
            let e : i ≡ j = ground arith in
            let id : b.id ≡ i = find_buffer-id i m.buffers b there in
            let gone : find_buffer j m'.buffers ≡ none =
              k.gone j ∙ (let t : (b.id == j) ≡ true = ground arith in rw t) in
            let at : Owned (some b) (held j) (owned j) =
              subst (λ n. Owned (some b) (held n) (owned n)) e
                (subst (λ o. Owned o (held i) (owned i)) there (s.counts i)) in
            let less : held j ≡ held' j + 1 = minus j ∙ rw hit in
            subst (λ o. Owned o (held' j) (owned j)) (sym gone)
              (Owned-last b (held j) (held' j) (owned j) at last less)
        | inr miss ↦
            let id : b.id ≡ i = find_buffer-id i m.buffers b there in
            let still : find_buffer j m'.buffers ≡ find_buffer j m.buffers =
              k.gone j
              ∙ (let t : (b.id == j) ≡ false = rw id miss in rw t)
              ∙ find_buffer-set_refcnt i j 0 m.buffers
              ∙ rw miss in
            subst (λ o. Owned o (held' j) (owned j)) (sym still)
              (Owned-other i j held held' (find_buffer j m.buffers) (owned j) miss (minus j)
                (s.counts j))
      ]

  less_lem :
      State m lost held owned
      → find_buffer i m.buffers ≡ some b
      → 0 < held' i
      → ((j : ℕ) → held j ≡ held' j + one i j)
      → Dropped m lost held' owned (set m i (held' i))
  less_lem s there more minus = record {
    state = record { heap = set-Heap m lost i (held' i) s.heap; counts = counts' };
    same = record {
      consumers = refl;
      producers = refl;
      size = refl;
      page_size = refl;
      refcnt = refl;
      next = refl;
      nr = refl;
    };
    fewer = λ u.
        subst (λ us. count u us ≤ count u (marks m lost)) (sym (marks-set m lost i (held' i)))
          (omega arith);
  }
    where
      counts' : (j : ℕ) → Owned (find_buffer j (set m i (held' i)).buffers) (held' j) (owned j)
      counts' j = elim (Bool-cases (i == j)) [
        | inl hit ↦
            let e : i ≡ j = ground arith in
            let now : find_buffer i (set_refcnt i (held' i) m.buffers)
                ≡ some (record b { refcnt = held' i }) =
              find_buffer-set_refcnt i i (held' i) m.buffers
              ∙ (let t : (i == i) ≡ true = ground arith in rw (t, there)) in
            let at : Owned (some b) (held i) (owned i) =
              subst (λ o. Owned o (held i) (owned i)) there (s.counts i) in
            let less : held i ≡ held' i + 1 =
              minus i ∙ (let t : (i == i) ≡ true = ground arith in rw t) in
            subst
              (λ n. Owned (find_buffer n (set_refcnt i (held' i) m.buffers)) (held' n) (owned n)) e
              (subst (λ o. Owned o (held' i) (owned i)) (sym now)
                (Owned-less b (held i) (held' i) (owned i) at less more))
        | inr miss ↦
            let still : find_buffer j (set_refcnt i (held' i) m.buffers) ≡ find_buffer j m.buffers =
              find_buffer-set_refcnt i j (held' i) m.buffers ∙ rw miss in
            subst (λ o. Owned o (held' j) (owned j)) (sym still)
              (Owned-other i j held held' (find_buffer j m.buffers) (owned j) miss (minus j)
                (s.counts j))
      ]

-- Giving up one of the references to `i` is safe, and leaves the others.
pub unref_buffer-Dropped :
    (m : Manager) (lost : List (ℕ × ℕ)) (held held' owned : ℕ → ℕ) (i : ℕ)
    → State m lost held owned
    → ((j : ℕ) → held j ≡ held' j + one i j)
    → Safe m.ba.nr_pages (marks m lost) (λ r. Dropped m lost held' owned r.1) (unref_buffer m i)
unfolding unref_buffer
unref_buffer-Dropped m lost held held' owned i s minus =
    let self : (i == i) ≡ true = ground arith in
    let at : held i ≡ held' i + 1 = minus i ∙ rw self in
    let (b, there) =
      held_buffer (find_buffer i m.buffers) (held i) (owned i) (omega (arith, at)) (s.counts i) in
    let known = subst (λ o. Owned o (held i) (owned i)) there (s.counts i) in
    let less : dec b.refcnt ≡ held' i = omega (arith, known.0, known.1, at) in
    elim (Bool-cases (held' i == 0)) [
      | inl last ↦
          let b₀ : Buffer = record b { refcnt = 0 } in
          let m₀ : Manager = set m i 0 in
          let id : b.id ≡ i = find_buffer-id i m.buffers b there in
          let found : find_buffer b.id m₀.buffers ≡ some b₀ =
            ap (λ n. find_buffer n m₀.buffers) id
            ∙ find_buffer-set_refcnt i i 0 m.buffers
            ∙ rw (self, there) in
          let one_left : b.refcnt ≡ 1 = ground arith in
          let run =
            Safe-bind m₀.ba.nr_pages (marks m₀ lost) (Removed m₀ b₀ lost)
              (λ (r : Bool × Manager). Dropped m lost held' owned r.1) (remove_buffer m₀ b₀)
              (λ m'. ret (true, m'))
              (remove_buffer-Removed m₀ b₀ lost (set-Heap m lost i 0 s.heap) found)
              (λ m' k. last_lem m lost held held' owned i b s there one_left minus m' k) in
          rw (there, unref_buffer) (rw (less, last) (rw (marks-set m lost i 0) at run))
      | inr more ↦
          rw (there, unref_buffer)
            (rw (less, more) (less_lem m lost held held' owned i b s there (ground arith) minus))
    ]
