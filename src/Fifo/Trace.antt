-- ===== src/Fifo/Trace.antt =====
-- utilFifo.c against a bounded queue of its contents.
use pi_frame.Prelude.{
  ℕ, ◌≡◌, refl, ap, ap₂, ◌∙◌, Bool, true, Bool-cases, Option-cases, ◌&&◌, inl, inr, Option, none,
  some, List, [], ◌∷◌, ◌++◌, arith, Outcome, ret, ltb, ◌==◌, if◌then◌else◌, length,
}
use pi_frame.Fifo.{
  Fifo, create, Threads, Step, call, wake, get, Event, entered, waits, nobody, given, pick,
  try_round, wake_picked, step, run,
}
use pi_frame.Fifo.Contents.{contents, Inv, create-Inv, enqueue_round_lem, dequeue_lem}

-- The queue that it stands for: the data in order, and no more than `n` of them, if `n` is not 0; and the
-- data that wait to come in.
abbrev pub Ideal : Type 0
Ideal = List (List ℕ) × List (List ℕ)

abbrev full : ℕ → List (List ℕ) → Bool
full n xs = ltb 0 n && length xs == n

abbrev come_in : ℕ → List ℕ → List (List ℕ) → List (List ℕ) → List (List ℕ) → Event × Ideal
come_in n bytes ended asleep xs =
    if full n xs then (waits, (xs, asleep)) else (entered, (xs ++ bytes ∷ [], ended))

abbrev woken : ℕ → Option (List ℕ × List (List ℕ)) → Ideal → Event × Ideal
woken n none (xs, ws) = (nobody, (xs, ws))
woken n (some (bytes, others)) (xs, ws) = come_in n bytes others ws xs

abbrev taken : List (List ℕ) → List (List ℕ) → Event × Ideal
taken [] ws = (given none, ([], ws))
taken (x ∷ xs) ws = (given (some x), (xs, ws))

abbrev spec_step : ℕ → Step → Ideal → Event × Ideal
spec_step n (call bytes) (xs, ws) = come_in n bytes ws (ws ++ bytes ∷ []) xs
spec_step n (wake k) (xs, ws) = woken n (pick k ws) (xs, ws)
spec_step n get (xs, ws) = taken xs ws

abbrev pub spec : ℕ → List Step → Ideal → List Event × Ideal
spec n [] i = ([], i)
spec n (o ∷ os) i = let (e, i') = spec_step n o i in let (es, i'') = spec n os i' in (e ∷ es, i'')

abbrev pub ideal : Threads → Ideal
ideal t = (contents t.fifo.queue, t.waiting)

-- A step that returns, and is one of the ideal queue.
abbrev Agrees : Outcome (Event × Threads) → Event × Ideal → ℕ → Type 0
Agrees o (e, i) n =
    (t' : Threads) × (o ≡ ret (e, t')) × (ideal t' ≡ i) × (t'.fifo.pool_count ≡ n) × Inv t'.fifo

try_round_lem :
    (bytes : List ℕ) (ended asleep : List (List ℕ)) (q : Fifo)
    → Inv q
    → Agrees
        (try_round bytes ended asleep q)
        (come_in q.pool_count bytes ended asleep (contents q.queue))
        q.pool_count
unfolding try_round
try_round_lem bytes ended asleep q v = elim (enqueue_round_lem bytes q v) [
  | inl (whole, sleeps) ↦
      let t : full q.pool_count (contents q.queue) ≡ true = ground (arith, whole.0, whole.1) in
      rw t (record { fifo = q; waiting = asleep }, rw sleeps refl, refl, refl, v)
  | inr (q', done, room, more, same, v') ↦
      elim (Bool-cases (full q.pool_count (contents q.queue))) [
        | inl t ↦ absurd (room (ground arith, ground arith))
        | inr t ↦ rw t (
          record { fifo = q'; waiting = ended },
          rw done refl,
          ap (λ xs. (xs, ended)) more,
          same,
          v',
        )
      ]
]

step_lem :
    (o : Step) (t : Threads)
    → Inv t.fifo
    → Agrees (step o t) (spec_step t.fifo.pool_count o (ideal t)) t.fifo.pool_count
unfolding step wake_picked
step_lem (call bytes) t v = try_round_lem bytes t.waiting (t.waiting ++ bytes ∷ []) t.fifo v
step_lem (wake k) t v = elim (Option-cases (pick k t.waiting)) [
  | inl none_there ↦ rw none_there (t, refl, refl, refl, v)
  | inr ((bytes, others), there) ↦ rw there (try_round_lem bytes others t.waiting t.fifo v)
]
step_lem get t v = elim (dequeue_lem t.fifo v) [
  | inl (nothing, done) ↦ rw nothing (t, rw done refl, ap (λ xs. (xs, t.waiting)) nothing, refl, v)
  | inr (bytes, q', first, done, same, v') ↦
      rw first (record t { fifo = q' }, rw done refl, refl, same, v')
]

run_lem :
    (os : List Step) (t : Threads)
    → Inv t.fifo
    → (t' : Threads) × (run os t ≡ ret ((spec t.fifo.pool_count os (ideal t)).0, t'))
      × (ideal t' ≡ (spec t.fifo.pool_count os (ideal t)).1)
      × Inv t'.fifo
unfolding run
run_lem [] t v = (t, refl, refl, v)
run_lem (o ∷ os) t v =
    let (t₁, first, now, same, v₁) = step_lem o t v in
    let (t', rest, end, v') = run_lem os t₁ v₁ in
    let at = ap₂ (λ n i. spec n os i) same now in
    (
      t',
      rw first (rw rest (ap (λ r. ret ((spec_step t.fifo.pool_count o (ideal t)).0 ∷ r.0, t')) at)),
      end ∙ ap (λ r. r.1) at,
      v',
    )

-- Any sequence of steps of the threads on a queue of `n` items, with memory for each, is one of an ideal
-- queue of data: what enters comes out once and in the order in which it enters, with its bytes; with a pool a caller waits, and
-- keeps its datum, just when `n` of them are in the queue, and enters when it wakes and there are fewer.
-- No step frees a pointer that is not its to free.
pub create-run :
    (n : ℕ) (os : List Step)
    → (t : Threads) × (run os (record { fifo = create n; waiting = [] })
        ≡ ret ((spec n os ([], [])).0, t))
      × (ideal t ≡ (spec n os ([], [])).1)
      × Inv t.fifo
create-run n os =
    let (v, empty, count) = create-Inv n in
    let (t, done, end, v') = run_lem os (record { fifo = create n; waiting = [] }) v in
    let at = ap₂ (λ k xs. spec k os (xs, [])) count empty in
    (t, done ∙ ap (λ r. ret (r.0, t)) at, end ∙ ap (λ r. r.1) at, v')
