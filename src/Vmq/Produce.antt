-- ===== src/Vmq/Produce.antt =====
-- The calls of a producer that end its hold of a buffer, `vmq_putbuf` and its `vmq_release`; and
-- `vmq_setup`.
use pi_frame.Prelude.{
  ℕ, suc, ◌+◌, ◌^◌, ◌<◌, ◌≡◌, refl, sym, ap, subst, Bool, Bool-cases, Option-cases, inl, inr,
  Option, none, some, List, [], ◌∷◌, ◌++◌, arith, ret, ◌==◌, length, length-append,
}
use pi_frame.Vmq.{
  Buffer, Producer, Consumer, Manager, dec, inc, find_buffer, remove_buffer, put_buffer,
}
use pi_frame.Vmq.Calls.{
  Reply, done, find_producer, set_producer, drop_producer, putbuf, setup_producer, setup_consumer,
  release_producer,
}
use pi_frame.Vmq.State.{Owned, marks, State, Safe, Same}
use pi_frame.Vmq.Unref.{Safe-bind, one}
use pi_frame.Vmq.Counts.{
  refs, holds, owns, refs-append, owns-append, owns-set_producer, owns-drop_producer,
}
use pi_frame.Vmq.Items.{Inv, with_rest, State-with_rest, State-held}
use pi_frame.Vmq.Consume.{restore, reflexive}
use pi_frame.Vmq.Own.{Owned-owner, Owned-buffer, Returned, give_back}
use pi_frame.Vmq.Handing.{Put, put_buffer-Put}

-- The invariant with the owners of other producers.
pub restore_producers :
    (m m' : Manager) (lost : List (ℕ × ℕ)) (owned : ℕ → ℕ) (ps : List Producer) (r : ℕ)
    → Inv m lost
    → Same m m'
    → State m' lost (λ i. refs i m.consumers) owned
    → ((j : ℕ) → owned j ≡ owns j ps)
    → Inv (with_rest m' m'.consumers ps r) lost
restore_producers m m' lost owned ps r v same s e = record {
  state =
      State-with_rest m' lost (λ i. refs i m'.consumers) (λ i. owns i ps) m'.consumers ps r
        (State-held m' lost (λ i. refs i m.consumers) (λ i. refs i m'.consumers) owned
          (λ i. owns i ps) (λ j. ap (refs j) (sym same.consumers)) e s);
  few = rw same.consumers v.few;
  fits = rw (same.nr, same.page_size) v.fits;
}

module _ (file : ℕ) (m : Manager) (lost : List (ℕ × ℕ)) (p : Producer) (i : ℕ) where
  owned_here :
      Inv m lost
      → find_producer file m.producers ≡ some p
      → p.buffer ≡ some i
      → (b : Buffer) × (find_buffer i m.buffers ≡ some b) × (b.refcnt ≡ 0)
  owned_here v here has =
      let self : one i i ≡ 1 = ground arith in
      let mine : holds i p.buffer ≡ 1 = rw has self in
      let pos : 0 < owns i m.producers =
        omega (arith, owns-drop_producer i file m.producers p here, mine) in
      let (b, there) =
        Owned-buffer (find_buffer i m.buffers) (refs i m.consumers) (owns i m.producers) pos
          (v.state.counts i) in
      let known : Owned (some b) (refs i m.consumers) (owns i m.producers) =
        subst (λ o. Owned o (refs i m.consumers) (owns i m.producers)) there (v.state.counts i) in
      (b, there, (Owned-owner b (refs i m.consumers) (owns i m.producers) known pos).0)

  owns_less :
      find_producer file m.producers ≡ some p
      → p.buffer ≡ some i
      → (j : ℕ) → owns j m.producers ≡ owns j (set_producer file none m.producers) + one i j
  owns_less here has j =
      let mine : holds j p.buffer ≡ one i j = rw has refl in
      omega (arith, owns-set_producer j file none m.producers p here, mine)

  owns_dropped :
      find_producer file m.producers ≡ some p
      → p.buffer ≡ some i
      → (j : ℕ) → owns j m.producers ≡ owns j (drop_producer file m.producers) + one i j
  owns_dropped here has j =
      let mine : holds j p.buffer ≡ one i j = rw has refl in
      omega (arith, owns-drop_producer j file m.producers p here, mine)

-- `vmq_release` of a file whose context is a producer of the queue keeps the invariant: the buffer
-- that it has, if any, is removed. It fails only where the page allocator reads past its bitmap to
-- free a marked block.
pub release_producer-Inv :
    (file : ℕ) (m : Manager) (lost : List (ℕ × ℕ)) (p : Producer)
    → Inv m lost
    → find_producer file m.producers ≡ some p
    → Safe m.ba.nr_pages (marks m lost) (λ m'. Inv m' lost) (release_producer file m)
unfolding release_producer
release_producer-Inv file m lost p v here =
    rw (here, release_producer)
      (elim (Option-cases p.buffer) [
        | inl nothing ↦
            rw (nothing, release_producer)
              (restore_producers m m lost (λ j. owns j m.producers) (drop_producer file m.producers)
                (dec m.refcnt) v (reflexive m) v.state
                (λ j.
                  let none_held : holds j p.buffer ≡ 0 = rw nothing refl in
                  omega (arith, owns-drop_producer j file m.producers p here, none_held)))
        | inr (i, has) ↦
            let (b, there, _) = owned_here file m lost p i v here has in
            rw (has, release_producer)
              (rw (there, release_producer)
                (Safe-bind m.ba.nr_pages (marks m lost)
                  (Returned m lost (λ j. refs j m.consumers)
                    (λ j. owns j (drop_producer file m.producers)))
                  (λ m'. Inv m' lost) (remove_buffer m b)
                  (λ m'.
                    ret
                      (with_rest m' m'.consumers (drop_producer file m'.producers) (dec m'.refcnt)))
                  (give_back m lost (λ j. refs j m.consumers) (λ j. owns j m.producers)
                    (λ j. owns j (drop_producer file m.producers)) i b v.state there
                    (owns_dropped file m lost p i here has))
                  (λ m' d.
                    restore_producers m m' lost (λ j. owns j (drop_producer file m.producers))
                      (drop_producer file m'.producers) (dec m'.refcnt) v d.1 d.0
                      (λ j. ap (λ l. owns j (drop_producer file l)) (sym d.1.producers)))))
      ])

-- `vmq_putbuf` of a producer that has a buffer keeps the invariant, whatever offset it is called with
-- and whichever items can be allocated: the counter of the buffer is the number of consumers that
-- have it, and a buffer that none has is removed. It fails only where the page allocator reads past
-- its bitmap to free a marked block.
pub putbuf-Inv :
    (file : ℕ) (arg : Option ℕ) (grants : List Bool) (m : Manager) (lost : List (ℕ × ℕ))
    (p : Producer) (i : ℕ)
    → Inv m lost
    → find_producer file m.producers ≡ some p
    → p.buffer ≡ some i
    → Safe m.ba.nr_pages
        (marks m lost)
        (λ (r : Reply × Manager). Inv r.1 lost)
        (putbuf file arg grants m)
unfolding putbuf
putbuf-Inv file none grants m lost p i v here has = rw (here, putbuf) v
putbuf-Inv file (some offset) grants m lost p i v here has =
    let (b, there, _) = owned_here file m lost p i v here has in
    let owned : ℕ → ℕ = λ j. owns j (set_producer file none m.producers) in
    rw (here, putbuf)
      (rw (has, putbuf)
        (rw (there, putbuf)
          (elim (Bool-cases (b.offset == offset)) [
            | inr wrong ↦ rw wrong v
            | inl right ↦ rw right (
                Safe-bind m.ba.nr_pages (marks m lost)
                  (λ (r : Bool × Manager). Put m lost owned r.1)
                  (λ (r : Reply × Manager). Inv r.1 lost) (put_buffer grants m i)
                  (λ r. ret (
                    done,
                    with_rest r.1 r.1.consumers (set_producer file none r.1.producers) r.1.refcnt,
                  ))
                  (put_buffer-Put m lost owned i b grants v there
                    (owns_less file m lost p i here has))
                  (λ r k. record {
                    state =
                        State-with_rest r.1 lost (λ j. refs j r.1.consumers)
                          (λ j. owns j (set_producer file none r.1.producers)) r.1.consumers
                          (set_producer file none r.1.producers) r.1.refcnt
                          (State-held r.1 lost (λ j. refs j r.1.consumers)
                            (λ j. refs j r.1.consumers) owned
                            (λ j. owns j (set_producer file none r.1.producers)) (λ j. refl)
                            (λ j. ap (λ l. owns j (set_producer file none l)) (sym k.producers))
                            k.state);
                    few = rw k.consumers v.few;
                    fits = rw (k.nr, k.page_size) v.fits;
                  }))
          ])))

-- `vmq_setup` of a producer keeps the invariant: the new context has no buffer.
pub setup_producer-Inv :
    (file : ℕ) (m : Manager) (lost : List (ℕ × ℕ)) → Inv m lost → Inv (setup_producer file m) lost
unfolding setup_producer
setup_producer-Inv file m lost v =
    let new : Producer = record { file = file; buffer = none } in
    restore_producers m m lost (λ j. owns j m.producers) (m.producers ++ new ∷ []) (inc m.refcnt) v
      (reflexive m) v.state (λ j. omega (arith, owns-append j m.producers (new ∷ [])))

-- `vmq_setup` of a consumer keeps the invariant, while there are fewer than 2^31 of them.
pub setup_consumer-Inv :
    (file : ℕ) (m : Manager) (lost : List (ℕ × ℕ))
    → Inv m lost
    → suc (length m.consumers) < 2 ^ 31
    → Inv (setup_consumer file m) lost
unfolding setup_consumer
setup_consumer-Inv file m lost v few =
    let new : Consumer = record { file = file; items = []; item = none } in
    restore m m lost (λ j. refs j m.consumers) (m.consumers ++ new ∷ []) (inc m.refcnt) v
      (reflexive m) v.state (λ j. omega (arith, refs-append j m.consumers (new ∷ [])))
      (omega (arith, few, length-append m.consumers (new ∷ [])))
