-- ===== src/Vmq/GiveUp.antt =====
-- How a consumer gives references up: `vmq_putitem` and its `vmq_release`.
use pi_frame.Prelude.{
  ℕ, ◌+◌, ◌<◌, ◌≡◌, refl, sym, ap, ◌∙◌, Bool, Option, ◌==◌, Bool-cases, Option-cases, ◌⊎◌, inl, inr,
  none, some, List, arith, ret, length, ltb,
}
use pi_frame.Vmq.{Buffer, Consumer, Manager, enoent, find_buffer, dec}
use pi_frame.Vmq.Calls.{
  Reply, done, error, find_consumer, set_consumer, drop_consumer, references, unref_all, put_item,
  putitem, release_consumer,
}
use pi_frame.Vmq.State.{marks, Safe}
use pi_frame.Vmq.Unref.{Safe-bind, Dropped, one}
use pi_frame.Vmq.Counts.{
  times, refs, owns, refs-set_consumer, refs-drop_consumer, length-set_consumer,
  length-drop_consumer,
}
use pi_frame.Vmq.Items.{Inv, with_rest, State-with_rest, State-held, unref_all-Dropped}
use pi_frame.Vmq.Consume.{restore, put_item-Dropped}
use pi_frame.Vmq.State.{Owned}

-- A buffer to which a reference was given up: it is gone, and no consumer refers to it, or its counter is the number of
-- the references that are left, above 0.
abbrev pub Left : ℕ → Manager → Type 0
Left i m =
    (find_buffer i m.buffers ≡ none) × (refs i m.consumers ≡ 0)
    ⊎ (b : Buffer) × (find_buffer i m.buffers ≡ some b)
      × (0 < b.refcnt)
      × (b.refcnt ≡ refs i m.consumers)

-- A buffer with references has no owner.
held_unowned : (o : Option Buffer) (r w : ℕ) → 0 < r → Owned o r w → w ≡ 0
held_unowned none r w h (e, f) = f
held_unowned (some b) r w h (e, small, inl (none_left, one_owner)) =
    absurd (omega (arith, h, none_left))
held_unowned (some b) r w h (e, small, inr (held, unowned)) = unowned

Owned-left :
    (o : Option Buffer) (r w : ℕ)
    → w ≡ 0
    → Owned o r w
    → (o ≡ none) × (r ≡ 0) ⊎ (b : Buffer) × (o ≡ some b) × (0 < b.refcnt) × (b.refcnt ≡ r)
Owned-left none r w h (e, f) = inl (refl, e)
Owned-left (some b) r w h (e, small, inl (none_left, one_owner)) =
    absurd (omega (arith, h, one_owner))
Owned-left (some b) r w h (e, small, inr (held, unowned)) = inr (b, refl, omega (arith, e, held), e)

-- A queue with the same producers, to one of whose buffers some consumer had a reference.
left_lem :
    (i : ℕ) (m m' : Manager) (lost : List (ℕ × ℕ))
    → Inv m lost
    → Inv m' lost
    → m'.producers ≡ m.producers
    → 0 < refs i m.consumers
    → Left i m'
left_lem i m m' lost v v' same held =
    let unowned =
      held_unowned (find_buffer i m.buffers) (refs i m.consumers) (owns i m.producers) held
        (v.state.counts i) in
    Owned-left (find_buffer i m'.buffers) (refs i m'.consumers) (owns i m'.producers)
      (ap (owns i) same ∙ unowned) (v'.state.counts i)

-- What `vmq_putitem` comes to, by the item that the consumer has.
abbrev pub Put : ℕ → Manager → Consumer → Option ℕ → Reply × Manager → Type 0
Put file m c none r = r ≡ (error enoent, m)
Put file m c (some i) r =
    (r.0 ≡ done)
    × (r.1.consumers ≡ set_consumer file c.items none m.consumers)
    × (r.1.producers ≡ m.producers)
    × ((j : ℕ) → refs j m.consumers ≡ refs j r.1.consumers + one i j)
    × Left i r.1

-- `vmq_putitem`, called on a file whose context is a consumer of the queue, keeps the invariant. Without an
-- item it says so and changes nothing. Else the consumer has no item afterwards, the references of all
-- consumers are as they were but for one to the buffer of the item, and this buffer is gone if that was the
-- last one, and else is counted once less. It fails only where the page allocator reads past its bitmap
-- to free a marked block.
pub putitem-Inv :
    (file : ℕ) (m : Manager) (lost : List (ℕ × ℕ)) (c : Consumer)
    → Inv m lost
    → find_consumer file m.consumers ≡ some c
    → Safe m.ba.nr_pages
        (marks m lost)
        (λ (r : Reply × Manager). Inv r.1 lost × Put file m c c.item r)
        (putitem file m)
unfolding putitem
putitem-Inv file m lost c v here =
    rw (here, putitem)
      (elim (Option-cases c.item) [
        | inl none_yet ↦ rw (none_yet, putitem) (v, refl)
        | inr (i, has) ↦
            let cs = set_consumer file c.items none m.consumers in
            rw (has, putitem)
              (Safe-bind m.ba.nr_pages (marks m lost)
                (Dropped m lost (λ j. refs j cs) (λ j. owns j m.producers))
                (λ (r : Reply × Manager). Inv r.1 lost × Put file m c (some i) r) (put_item m i)
                (λ m'. ret (
                  done,
                  with_rest m' (set_consumer file c.items none m'.consumers) m'.producers m'.refcnt,
                ))
                (put_item-Dropped m lost (λ j. refs j m.consumers) (λ j. refs j cs)
                  (λ j. owns j m.producers) i v.state
                  (λ j.
                    let before : times j (references c) ≡ one i j + times j c.items = rw has refl in
                    omega
                      (arith, refs-set_consumer j file c.items none m.consumers c here, before)))
                (λ m' d.
                  let same = ap (set_consumer file c.items none) d.same.consumers in
                  let inv =
                    restore m m' lost (λ j. refs j cs) (set_consumer file c.items none m'.consumers)
                      m'.refcnt v d.same d.state (λ j. ap (refs j) (sym same))
                      (omega (
                        arith,
                        v.few,
                        length-set_consumer file c.items none m'.consumers,
                        ap length d.same.consumers,
                      )) in
                  let self : one i i ≡ 1 = ground arith in
                  let fewer : (j : ℕ) → refs j m.consumers ≡ refs j cs + one i j = λ j.
                    let before : times j (references c) ≡ one i j + times j c.items = rw has refl in
                    omega
                      (arith, refs-set_consumer j file c.items none m.consumers c here, before) in
                  (
                    inv,
                    (
                      refl,
                      same,
                      d.same.producers,
                      λ j. fewer j ∙ ap (λ l. refs j l + one i j) (sym same),
                      left_lem i m
                          (with_rest m' (set_consumer file c.items none m'.consumers) m'.producers
                            m'.refcnt)
                          lost v inv d.same.producers (omega (arith, fewer i, self)),
                    ),
                  )))
      ])

-- What `vmq_release` of a consumer leaves.
pub record Released (file : ℕ) (m : Manager) (lost : List (ℕ × ℕ)) (c : Consumer) (m' : Manager)
    : Type 0 where
  pub inv : Inv m' lost
  pub consumers : m'.consumers ≡ drop_consumer file m.consumers
  pub producers : m'.producers ≡ m.producers
  pub refcnt : m'.refcnt ≡ dec m.refcnt
  pub fewer : (j : ℕ) → refs j m.consumers ≡ refs j m'.consumers + times j (references c)
  pub left : (j : ℕ) → (times j (references c) ≡ 0) ⊎ Left j m'

-- `vmq_release` of a file whose context is a consumer of the queue keeps the invariant: the consumer is taken
-- off the list and the queue has one user less; the references of all consumers are as they were but for
-- the item that it took and all its queued items, and each buffer of these is gone if no other consumer
-- refers to it, and else is counted as often as consumers refer to it. It fails only where the page allocator reads
-- past its bitmap to free a marked block.
pub release_consumer-Inv :
    (file : ℕ) (m : Manager) (lost : List (ℕ × ℕ)) (c : Consumer)
    → Inv m lost
    → find_consumer file m.consumers ≡ some c
    → Safe m.ba.nr_pages
        (marks m lost)
        (λ (r : Bool × Manager). Released file m lost c r.1)
        (release_consumer file m)
unfolding release_consumer
release_consumer-Inv file m lost c v here =
    let cs = drop_consumer file m.consumers in
    let left = with_rest m cs m.producers m.refcnt in
    rw (here, release_consumer)
      (Safe-bind m.ba.nr_pages (marks m lost)
        (λ (r : ℕ × Manager). Dropped left lost (λ j. refs j cs) (λ j. owns j m.producers) r.1)
        (λ (r : Bool × Manager). Released file m lost c r.1) (unref_all (references c) left)
        (λ r. ret (ltb 0 r.0, with_rest r.1 r.1.consumers r.1.producers (dec r.1.refcnt)))
        (unref_all-Dropped (references c) left lost (λ j. refs j m.consumers) (λ j. refs j cs)
          (λ j. owns j m.producers)
          (State-with_rest m lost (λ j. refs j m.consumers) (λ j. owns j m.producers) cs m.producers
            m.refcnt v.state)
          (λ j. omega (arith, refs-drop_consumer j file m.consumers c here)))
        (λ r d.
          let m' = with_rest r.1 r.1.consumers r.1.producers (dec r.1.refcnt) in
          let inv : Inv m' lost = record {
            state =
                State-with_rest r.1 lost (λ j. refs j r.1.consumers) (λ j. owns j r.1.producers)
                  r.1.consumers r.1.producers (dec r.1.refcnt)
                  (State-held r.1 lost (λ j. refs j cs) (λ j. refs j r.1.consumers)
                    (λ j. owns j m.producers) (λ j. owns j r.1.producers)
                    (λ j. ap (refs j) (sym d.same.consumers))
                    (λ j. ap (owns j) (sym d.same.producers)) d.state);
            few =
                omega
                  (arith, v.few, length-drop_consumer file m.consumers, ap length d.same.consumers);
            fits = rw (d.same.nr, d.same.page_size) v.fits;
          } in
          let fewer : (j : ℕ) → refs j m.consumers ≡ refs j m'.consumers + times j (references c) =
            λ j.
              refs-drop_consumer j file m.consumers c here
              ∙ ap (λ l. refs j l + times j (references c)) (sym d.same.consumers) in
          record {
            inv = inv;
            consumers = d.same.consumers;
            producers = d.same.producers;
            refcnt = ap dec d.same.refcnt;
            fewer = fewer;
            left = λ j. elim (Bool-cases (times j (references c) == 0)) [
              | inl none_held ↦ inl (ground arith)
              | inr held ↦ inr (
                  left_lem j m m' lost v inv d.same.producers (
                    let more : 0 < times j (references c) = ground arith in
                    omega (arith, fewer j, more)))
            ];
          }))
