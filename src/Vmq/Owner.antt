-- ===== src/Vmq/Owner.antt =====
-- A buffer that `get_buffer_item` has given: its caller becomes its owner, or it is removed again.
use pi_frame.Prelude.{
  ℕ, ◌+◌, ◌≡◌, refl, sym, ap, ◌∙◌, subst, true, Bool-cases, inl, inr, none, some, List, [], ◌∷◌,
  arith, ret, ◌>>=◌, ◌==◌, if◌then◌else◌,
}
use pi_frame.Vmq.{Buffer, Producer, Manager, efault, find_buffer, remove_buffer}
use pi_frame.Vmq.Calls.{Reply, error, find_producer, set_producer}
use pi_frame.Vmq.Heap.{block, find_buffer_above}
use pi_frame.Vmq.State.{Owned, State, Safe}
use pi_frame.Vmq.Unref.{Safe-bind, one}
use pi_frame.Vmq.Counts.{refs, holds, owns, owns-set_producer}
use pi_frame.Vmq.Items.{Inv, with_rest, State-with_rest, State-held}
use pi_frame.Vmq.Own.{Returned, remove_buffer-Returned}
use pi_frame.Vmq.Take.{Given, Refused}

Owned-new : (b : Buffer) (r o : ℕ) → b.refcnt ≡ 0 → (r ≡ 0) × (o ≡ 0) → Owned (some b) r (o + 1)
Owned-new b r o h k = ground arith

find_buffer-cons :
    (j : ℕ) (b : Buffer) (bs : List Buffer)
    → find_buffer j (b ∷ bs) ≡ (if b.id == j then some b else find_buffer j bs)
unfolding find_buffer
find_buffer-cons j b bs = refl

module _ (m : Manager) (lost : List (ℕ × ℕ)) (size : ℕ) (b : Buffer) (m' : Manager) where
  -- The new buffer has an owner: the caller, to be recorded.
  Given-State :
      Inv m lost
      → Given m lost size b m'
      → State m' lost (λ j. refs j m.consumers) (λ j. owns j m.producers + one m.next j)
  Given-State v g = record { heap = g.heap; counts = counts' }
    where
      counts' :
          (j : ℕ)
          → Owned
              (find_buffer j m'.buffers)
              (refs j m.consumers)
              (owns j m.producers + one m.next j)
      counts' j = elim (Bool-cases (m.next == j)) [
        | inl hit ↦
            let e : m.next ≡ j = ground arith in
            let new : find_buffer j m'.buffers ≡ some b =
              ap (find_buffer j) g.buffers ∙ find_buffer-cons j b m.buffers ∙ rw (g.id, hit) refl in
            let fresh : find_buffer j m.buffers ≡ none =
              find_buffer_above j m.next m.buffers v.state.heap.below (omega (arith, e)) in
            let nobody =
              subst (λ o. Owned o (refs j m.consumers) (owns j m.producers)) fresh
                (v.state.counts j) in
            let self : owns j m.producers + 1 ≡ owns j m.producers + one m.next j = rw hit refl in
            subst (λ o. Owned o (refs j m.consumers) (owns j m.producers + one m.next j)) (sym new)
              (subst (Owned (some b) (refs j m.consumers)) self
                (Owned-new b (refs j m.consumers) (owns j m.producers) g.unused nobody))
        | inr miss ↦
            let old : find_buffer j m'.buffers ≡ find_buffer j m.buffers =
              ap (find_buffer j) g.buffers
              ∙ find_buffer-cons j b m.buffers
              ∙ rw (g.id, miss) refl in
            let other : owns j m.producers ≡ owns j m.producers + one m.next j =
              sym (rw miss (omega arith)) in
            subst (λ o. Owned o (refs j m.consumers) (owns j m.producers + one m.next j)) (sym old)
              (subst (Owned (find_buffer j m.buffers) (refs j m.consumers)) other
                (v.state.counts j))
      ]

module _ (file : ℕ) (m : Manager) (lost : List (ℕ × ℕ)) (p : Producer) (size : ℕ) (b : Buffer)
    (m' : Manager) where
  owns_more :
      find_producer file m.producers ≡ some p
      → p.buffer ≡ none
      → Given m lost size b m'
      → (j : ℕ)
      → owns j m.producers + one m.next j ≡ owns j (set_producer file (some b.id) m'.producers)
  owns_more here nothing g j =
      let none_held : holds j p.buffer ≡ 0 = rw nothing refl in
      rw (g.producers, g.id)
        (omega (arith, owns-set_producer j file (some m.next) m.producers p here, none_held))

  owns_same :
      find_producer file m.producers ≡ some p
      → p.buffer ≡ none
      → (ps : List Producer) → ps ≡ m.producers
      → (j : ℕ) → owns j m.producers ≡ owns j (set_producer file none ps)
  owns_same here nothing ps e j =
      let none_held : holds j p.buffer ≡ 0 = rw nothing refl in
      rw e (omega (arith, owns-set_producer j file none m.producers p here, none_held))

  pub taken-Inv :
      Inv m lost
      → find_producer file m.producers ≡ some p
      → p.buffer ≡ none
      → Given m lost size b m'
      → Inv (with_rest m' m'.consumers (set_producer file (some b.id) m'.producers) m'.refcnt) lost
  taken-Inv v here nothing g = record {
    state =
        State-with_rest m' lost (λ j. refs j m'.consumers)
          (λ j. owns j (set_producer file (some b.id) m'.producers)) m'.consumers
          (set_producer file (some b.id) m'.producers) m'.refcnt
          (State-held m' lost (λ j. refs j m.consumers) (λ j. refs j m'.consumers)
            (λ j. owns j m.producers + one m.next j)
            (λ j. owns j (set_producer file (some b.id) m'.producers))
            (λ j. ap (refs j) (sym g.consumers)) (owns_more here nothing g)
            (Given-State m lost size b m' v g));
    few = rw g.consumers v.few;
    fits = rw (g.nr, g.page_size) v.fits;
  }

  -- The copy failed: the buffer is removed again.
  pub undone-Inv :
      Inv m lost
      → find_producer file m.producers ≡ some p
      → p.buffer ≡ none
      → Given m lost size b m'
      → Safe m'.ba.nr_pages
          (block m'.page_size b ∷ [])
          (λ (r : Reply × Manager). Inv r.1 lost)
          (remove_buffer m' b >>= λ m''. ret (
            error efault,
            with_rest m'' m''.consumers (set_producer file none m''.producers) m''.refcnt,
          ))
  undone-Inv v here nothing g =
      let there : find_buffer m.next m'.buffers ≡ some b =
        ap (find_buffer m.next) g.buffers
        ∙ find_buffer-cons m.next b m.buffers
        ∙ (let t : (b.id == m.next) ≡ true = rw g.id (ground arith) in rw t refl) in
      Safe-bind m'.ba.nr_pages (block m'.page_size b ∷ [])
        (Returned m' lost (λ j. refs j m.consumers) (λ j. owns j m.producers))
        (λ (r : Reply × Manager). Inv r.1 lost) (remove_buffer m' b)
        (λ m''. ret (
          error efault,
          with_rest m'' m''.consumers (set_producer file none m''.producers) m''.refcnt,
        ))
        (remove_buffer-Returned m' lost (λ j. refs j m.consumers)
          (λ j. owns j m.producers + one m.next j) (λ j. owns j m.producers) m.next b
          (Given-State m lost size b m' v g) there (λ j. refl))
        (λ m'' d. record {
          state =
              State-with_rest m'' lost (λ j. refs j m''.consumers)
                (λ j. owns j (set_producer file none m''.producers)) m''.consumers
                (set_producer file none m''.producers) m''.refcnt
                (State-held m'' lost (λ j. refs j m.consumers) (λ j. refs j m''.consumers)
                  (λ j. owns j m.producers) (λ j. owns j (set_producer file none m''.producers))
                  (λ j. ap (refs j) (sym (d.1.consumers ∙ g.consumers)))
                  (owns_same here nothing m''.producers (d.1.producers ∙ g.producers)) d.0);
          few = rw (d.1.consumers, g.consumers) v.few;
          fits = rw (d.1.nr, g.nr, d.1.page_size, g.page_size) v.fits;
        })

pub Refused-Inv :
    (m : Manager) (lost lost' : List (ℕ × ℕ)) (m' : Manager)
    → Inv m lost
    → Refused m lost' m'
    → Inv m' lost'
Refused-Inv m lost lost' m' v r = record {
  state = record {
    heap = r.heap;
    counts = λ j. rw (r.buffers, r.same.consumers, r.same.producers) (v.state.counts j);
  };
  few = rw r.same.consumers v.few;
  fits = rw (r.same.nr, r.same.page_size) v.fits;
}
