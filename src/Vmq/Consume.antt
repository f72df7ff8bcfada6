-- ===== src/Vmq/Consume.antt =====
-- The calls of a consumer: `vmq_getitem`.
use pi_frame.Prelude.{
  ℕ, ◌+◌, ◌^◌, ◌≤◌, ◌<◌, ◌≡◌, refl, sym, ap, Bool, Bool-cases, Option-cases, ◌⊎◌, inl, inr, none,
  some, List, [], ◌∷◌, arith, ret, ◌>>=◌, length,
}
use pi_frame.Vmq.{Buffer, Consumer, Manager, efault, find_buffer, unref_buffer}
use pi_frame.Vmq.Calls.{Reply, error, find_consumer, set_consumer, references, put_item, getitem}
use pi_frame.Vmq.State.{marks, State, Safe, Same}
use pi_frame.Vmq.Unref.{Safe-bind, Dropped, unref_buffer-Dropped, one, held_buffer}
use pi_frame.Vmq.Counts.{
  times, refs, owns, refs-set_consumer, refs-drop_consumer, length-set_consumer,
}
use pi_frame.Vmq.Items.{Inv, with_rest, State-with_rest, State-held}

list_cases : (is : List ℕ) → (is ≡ []) ⊎ ((i : ℕ) × (rest : List ℕ) × (is ≡ i ∷ rest))
list_cases [] = inl refl
list_cases (i ∷ rest) = inr (i, rest, refl)

-- The invariant with the references and owners of other lists.
pub restore :
    (m m' : Manager) (lost : List (ℕ × ℕ)) (held : ℕ → ℕ) (cs : List Consumer) (r : ℕ)
    → Inv m lost
    → Same m m'
    → State m' lost held (λ i. owns i m.producers)
    → ((j : ℕ) → held j ≡ refs j cs)
    → length cs < 2 ^ 31
    → Inv (with_rest m' cs m'.producers r) lost
restore m m' lost held cs r v same s e le = record {
  state =
      State-with_rest m' lost (λ i. refs i cs) (λ i. owns i m'.producers) cs m'.producers r
        (State-held m' lost held (λ i. refs i cs) (λ i. owns i m.producers)
          (λ i. owns i m'.producers) e (λ j. ap (owns j) (sym same.producers)) s);
  few = le;
  fits = rw (same.nr, same.page_size) v.fits;
}

pub reflexive : (m : Manager) → Same m m
reflexive m = record {
  consumers = refl;
  producers = refl;
  size = refl;
  page_size = refl;
  refcnt = refl;
  next = refl;
  nr = refl;
}

-- `put_queue_item` gives one reference up.
pub put_item-Dropped :
    (m : Manager) (lost : List (ℕ × ℕ)) (held held' owned : ℕ → ℕ) (i : ℕ)
    → State m lost held owned
    → ((j : ℕ) → held j ≡ held' j + one i j)
    → Safe m.ba.nr_pages (marks m lost) (Dropped m lost held' owned) (put_item m i)
unfolding put_item
put_item-Dropped m lost held held' owned i s minus =
    Safe-bind m.ba.nr_pages (marks m lost) (λ (r : Bool × Manager). Dropped m lost held' owned r.1)
      (Dropped m lost held' owned) (unref_buffer m i) (λ r. ret r.1)
      (unref_buffer-Dropped m lost held held' owned i s minus) (λ r d. d)

module _ (file : ℕ) (m : Manager) (lost : List (ℕ × ℕ)) (c : Consumer) where
  -- A consumer's references are among those of all.
  mine :
      find_consumer file m.consumers ≡ some c
      → (i : ℕ) → times i (references c) ≤ refs i m.consumers
  mine here i = omega (arith, refs-drop_consumer i file m.consumers c here)

  first_buffer :
      Inv m lost
      → find_consumer file m.consumers ≡ some c
      → (i : ℕ) (rest : List ℕ) → c.item ≡ none
      → c.items ≡ i ∷ rest
      → (b : Buffer) × (find_buffer i m.buffers ≡ some b)
  first_buffer v here i rest none_yet list =
      let self : one i i ≡ 1 = ground arith in
      let more : times i (references c) ≡ one i i + times i rest = rw (none_yet, list) refl in
      held_buffer (find_buffer i m.buffers) (refs i m.consumers) (owns i m.producers)
        (omega (arith, mine here i, more, self)) (v.state.counts i)

  getitem_took :
      Inv m lost
      → find_consumer file m.consumers ≡ some c
      → (i : ℕ) (rest : List ℕ) → c.item ≡ none
      → c.items ≡ i ∷ rest
      → Inv (with_rest m (set_consumer file rest (some i) m.consumers) m.producers m.refcnt) lost
  getitem_took v here i rest none_yet list =
      let cs = set_consumer file rest (some i) m.consumers in
      restore m m lost (λ j. refs j m.consumers) cs m.refcnt v (reflexive m) v.state
        (λ j.
          let before : times j (references c) ≡ one i j + times j rest = rw (none_yet, list) refl in
          omega (arith, refs-set_consumer j file rest (some i) m.consumers c here, before))
        (omega (arith, v.few, length-set_consumer file rest (some i) m.consumers))

  getitem_failed :
      Inv m lost
      → find_consumer file m.consumers ≡ some c
      → (i : ℕ) (rest : List ℕ) → c.item ≡ none
      → c.items ≡ i ∷ rest
      → Safe m.ba.nr_pages
          (marks m lost)
          (λ (r : Reply × Manager). Inv r.1 lost)
          (put_item (with_rest m (set_consumer file rest none m.consumers) m.producers m.refcnt) i
            >>= λ m'. ret (error efault, m'))
  getitem_failed v here i rest none_yet list =
      let cs = set_consumer file rest none m.consumers in
      let taken = with_rest m cs m.producers m.refcnt in
      Safe-bind m.ba.nr_pages (marks m lost)
        (Dropped taken lost (λ j. refs j cs) (λ j. owns j m.producers))
        (λ (r : Reply × Manager). Inv r.1 lost) (put_item taken i) (λ m'. ret (error efault, m'))
        (put_item-Dropped taken lost (λ j. refs j m.consumers) (λ j. refs j cs)
          (λ j. owns j m.producers) i
          (State-with_rest m lost (λ j. refs j m.consumers) (λ j. owns j m.producers) cs m.producers
            m.refcnt v.state)
          (λ j.
            let before : times j (references c) ≡ one i j + times j rest =
              rw (none_yet, list) refl in
            omega (arith, refs-set_consumer j file rest none m.consumers c here, before)))
        (λ m' d. record {
          state =
              State-held m' lost (λ j. refs j cs) (λ j. refs j m'.consumers)
                (λ j. owns j m.producers) (λ j. owns j m'.producers)
                (λ j. ap (refs j) (sym d.same.consumers)) (λ j. ap (owns j) (sym d.same.producers))
                d.state;
          few = omega (
            arith,
            v.few,
            length-set_consumer file rest none m.consumers,
            ap length d.same.consumers,
          );
          fits = rw (d.same.nr, d.same.page_size) v.fits;
        })

-- `vmq_getitem`, called on a file whose context is a consumer of the queue, keeps the invariant. It
-- fails only where the page allocator reads past its bitmap to free a marked block: it follows no
-- pointer to a buffer that is gone.
pub getitem-Inv :
    (file : ℕ) (signal copied : Bool) (m : Manager) (lost : List (ℕ × ℕ)) (c : Consumer)
    → Inv m lost
    → find_consumer file m.consumers ≡ some c
    → Safe m.ba.nr_pages
        (marks m lost)
        (λ (r : Reply × Manager). Inv r.1 lost)
        (getitem file signal copied m)
unfolding getitem
getitem-Inv file signal copied m lost c v here =
    rw (here, getitem)
      (elim (Option-cases c.item) [
        | inr (i, has) ↦ rw (has, getitem) v
        | inl none_yet ↦ elim (list_cases c.items) [
          | inl empty ↦ rw (none_yet, getitem) (rw (empty, getitem) v)
          | inr (i, rest, list) ↦
              let (b, there) = first_buffer file m lost c v here i rest none_yet list in
              rw (none_yet, getitem)
                (rw (list, getitem)
                  (rw (there, getitem)
                    (elim (Bool-cases copied) [
                      | inl good ↦ rw good (getitem_took file m lost c v here i rest none_yet list)
                      | inr bad ↦ rw bad (getitem_failed file m lost c v here i rest none_yet list)
                    ])))
        ]
      ])
