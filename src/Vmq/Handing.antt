-- ===== src/Vmq/Handing.antt =====
-- `put_buffer_item`: a buffer goes from its owner to the consumers.
use pi_frame.Prelude.{
  ℕ, ◌+◌, ◌*◌, ◌%◌, ◌^◌, ◌<◌, ◌≡◌, refl, sym, ap, ◌∙◌, subst, Bool, false, Bool-cases, inl, inr,
  some, List, arith, ret, ◌==◌, length,
}
use pi_frame.Vmq.{
  Buffer, Manager, u32, find_buffer, set_refcnt, remove_buffer, hand_out, put_buffer,
}
use pi_frame.Vmq.Heap.{with_refcnt, find_buffer-set_refcnt}
use pi_frame.Vmq.State.{Owned, marks, State, Safe}
use pi_frame.Vmq.Unref.{Safe-bind, one, set, set-Heap}
use pi_frame.Vmq.Counts.{refs, owns, refs-hand_out, hand_out-le, length-hand_out}
use pi_frame.Vmq.Items.{Inv, State-with_rest, State-held}
use pi_frame.Vmq.Own.{Owned-owner, Owned-still, Returned, give_back}

Owned-handed :
    (b : Buffer) (r r' w w' n : ℕ)
    → Owned (some b) r w
    → w ≡ w' + 1
    → r' ≡ r + n
    → 0 < n
    → n < 2 ^ 31
    → Owned (some (record b { refcnt = (b.refcnt + n) % u32 })) r' w'
Owned-handed b r r' w w' n k e f p h =
    let (none_yet, no_ref, one_owner) = Owned-owner b r w k (omega (arith, e)) in
    (
      omega (arith, f, h, none_yet, no_ref),
      omega (arith, f, h, no_ref),
      inr (omega (arith, f, p), omega (arith, e, one_owner)),
    )

-- What the loop of `put_buffer_item` makes of the references.
handed-State :
    (m : Manager) (lost : List (ℕ × ℕ)) (owned' : ℕ → ℕ) (i : ℕ) (b : Buffer) (grants : List Bool)
    → Inv m lost
    → find_buffer i m.buffers ≡ some b
    → ((j : ℕ) → owns j m.producers ≡ owned' j + one i j)
    → 0 < (hand_out i grants m.consumers).1
    → State
        (set m i ((b.refcnt + (hand_out i grants m.consumers).1) % u32))
        lost
        (λ j. refs j (hand_out i grants m.consumers).0)
        owned'
handed-State m lost owned' i b grants v there minus some_took = record {
  heap = set-Heap m lost i ((b.refcnt + n) % u32) v.state.heap;
  counts = counts';
}
  where
    n : ℕ
    n = (hand_out i grants m.consumers).1

    counts' :
        (j : ℕ)
        → Owned
            (find_buffer j (set_refcnt i ((b.refcnt + n) % u32) m.buffers))
            (refs j (hand_out i grants m.consumers).0)
            (owned' j)
    counts' j = elim (Bool-cases (i == j)) [
      | inl hit ↦
          let e : i ≡ j = ground arith in
          let now : find_buffer j (set_refcnt i ((b.refcnt + n) % u32) m.buffers)
              ≡ some (record b { refcnt = (b.refcnt + n) % u32 }) =
            find_buffer-set_refcnt i j ((b.refcnt + n) % u32) m.buffers
            ∙ rw hit (
                subst
                  (λ k.
                    with_refcnt ((b.refcnt + n) % u32) (find_buffer k m.buffers)
                    ≡ some (record b { refcnt = (b.refcnt + n) % u32 }))
                  e (rw there refl)) in
          let at : Owned (some b) (refs j m.consumers) (owns j m.producers) =
            subst (λ k. Owned (some b) (refs k m.consumers) (owns k m.producers)) e
              (subst (λ o. Owned o (refs i m.consumers) (owns i m.producers)) there
                (v.state.counts i)) in
          let self : one i j ≡ 1 = rw hit refl in
          let less : owns j m.producers ≡ owned' j + 1 = minus j ∙ ap (λ k. owned' j + k) self in
          let more : refs j (hand_out i grants m.consumers).0 ≡ refs j m.consumers + n =
            refs-hand_out i j grants m.consumers
            ∙ ap (λ k. refs j m.consumers + n * k) self
            ∙ omega arith in
          subst (λ o. Owned o (refs j (hand_out i grants m.consumers).0) (owned' j)) (sym now)
            (Owned-handed b (refs j m.consumers) (refs j (hand_out i grants m.consumers).0)
              (owns j m.producers) (owned' j) n at less more some_took
              (omega (arith, hand_out-le i grants m.consumers, v.few)))
      | inr miss ↦
          let still : find_buffer j (set_refcnt i ((b.refcnt + n) % u32) m.buffers)
              ≡ find_buffer j m.buffers =
            find_buffer-set_refcnt i j ((b.refcnt + n) % u32) m.buffers ∙ rw miss refl in
          let other : one i j ≡ 0 = rw miss refl in
          let same_refs : refs j m.consumers ≡ refs j (hand_out i grants m.consumers).0 = sym (
            refs-hand_out i j grants m.consumers
            ∙ ap (λ k. refs j m.consumers + n * k) other
            ∙ omega arith) in
          subst (λ o. Owned o (refs j (hand_out i grants m.consumers).0) (owned' j)) (sym still)
            (subst (λ r. Owned (find_buffer j m.buffers) r (owned' j)) same_refs
              (Owned-still i j (find_buffer j m.buffers) (refs j m.consumers) (owns j m.producers)
                (owned' j) miss (minus j) (v.state.counts j)))
    ]

-- What `put_buffer_item` leaves: the buffer has no owner any more.
pub record Put (m : Manager) (lost : List (ℕ × ℕ)) (owned : ℕ → ℕ) (m' : Manager) : Type 0 where
  pub state : State m' lost (λ j. refs j m'.consumers) owned
  pub producers : m'.producers ≡ m.producers
  pub consumers : length m'.consumers ≡ length m.consumers
  pub nr : m'.ba.nr_pages ≡ m.ba.nr_pages
  pub page_size : m'.page_size ≡ m.page_size

pub put_buffer-Put :
    (m : Manager) (lost : List (ℕ × ℕ)) (owned : ℕ → ℕ) (i : ℕ) (b : Buffer) (grants : List Bool)
    → Inv m lost
    → find_buffer i m.buffers ≡ some b
    → ((j : ℕ) → owns j m.producers ≡ owned j + one i j)
    → Safe m.ba.nr_pages
        (marks m lost)
        (λ (r : Bool × Manager). Put m lost owned r.1)
        (put_buffer grants m i)
unfolding put_buffer
put_buffer-Put m lost owned i b grants v there minus =
    let n = (hand_out i grants m.consumers).1 in
    let cs = (hand_out i grants m.consumers).0 in
    rw (there, put_buffer)
      (elim (Bool-cases (n == 0)) [
        | inl nobody ↦ rw nobody (
            Safe-bind m.ba.nr_pages (marks m lost) (Returned m lost (λ j. refs j m.consumers) owned)
              (λ (r : Bool × Manager). Put m lost owned r.1) (remove_buffer m b)
              (λ m'. ret (false, m'))
              (give_back m lost (λ j. refs j m.consumers) (λ j. owns j m.producers) owned i b
                v.state there minus)
              (λ m' d. record {
                state =
                    State-held m' lost (λ j. refs j m.consumers) (λ j. refs j m'.consumers) owned
                      owned (λ j. ap (refs j) (sym d.1.consumers)) (λ j. refl) d.0;
                producers = d.1.producers;
                consumers = ap length d.1.consumers;
                nr = d.1.nr;
                page_size = d.1.page_size;
              }))
        | inr somebody ↦
            let m' = set m i ((b.refcnt + n) % u32) in
            rw somebody (record {
              state =
                  State-with_rest m' lost (λ j. refs j cs) owned cs m.producers m.refcnt
                    (handed-State m lost owned i b grants v there minus (ground arith));
              producers = refl;
              consumers = length-hand_out i grants m.consumers;
              nr = refl;
              page_size = refl;
            })
      ])
