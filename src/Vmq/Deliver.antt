-- ===== src/Vmq/Deliver.antt =====
-- An item on its way: `vmq_putbuf` of a producer, then `vmq_getitem` of a consumer.
use pi_frame.Prelude.{
  ℕ, ◌+◌, ◌%◌, ◌<◌, ◌≡◌, refl, ap, ◌∙◌, Bool, true, false, Bool-cases, inl, inr, Option, none, some,
  List, [], ◌∷◌, ◌++◌, arith, ret, ◌==◌, if◌then◌else◌,
}
use pi_frame.Vmq.{
  Buffer, Producer, Consumer, Manager, u32, find_buffer, set_refcnt, hand_out, put_buffer,
}
use pi_frame.Vmq.Calls.{
  done, info, find_producer, set_producer, find_consumer, set_consumer, getitem, putbuf,
}
use pi_frame.Vmq.Heap.{find_buffer-set_refcnt}

-- The consumer has the buffer at the end of its queue.
abbrev queued : ℕ → Consumer → Consumer
queued i c = record c { items = c.items ++ i ∷ [] }

-- Whether the item for the consumer of a file can be allocated; it can where the list of answers has ended.
abbrev pub granted : ℕ → List Bool → List Consumer → Bool
granted g grants [] = false
granted g [] (c ∷ cs) = if c.file == g then true else granted g [] cs
granted g (given ∷ grants) (c ∷ cs) = if c.file == g then given else granted g grants cs

find_consumer-hand_out :
    (i g : ℕ) (grants : List Bool) (cs : List Consumer) (c : Consumer)
    → find_consumer g cs ≡ some c
    → granted g grants cs ≡ true
    → find_consumer g (hand_out i grants cs).0 ≡ some (queued i c)
unfolding find_consumer hand_out
find_consumer-hand_out i g grants [] c h t = cc
find_consumer-hand_out i g [] (x ∷ cs) c h t = elim (Bool-cases (x.file == g)) [
  | inl hit ↦ let e : x ≡ c = ground arith in simp hit (ap (λ y. some (queued i y)) e)
  | inr miss ↦ simp miss (find_consumer-hand_out i g [] cs c (simp miss at h) (simp miss at t))
]
find_consumer-hand_out i g (true ∷ grants) (x ∷ cs) c h t = elim (Bool-cases (x.file == g)) [
  | inl hit ↦ let e : x ≡ c = ground arith in simp hit (ap (λ y. some (queued i y)) e)
  | inr miss ↦ simp miss (find_consumer-hand_out i g grants cs c (simp miss at h) (simp miss at t))
]
find_consumer-hand_out i g (false ∷ grants) (x ∷ cs) c h t = elim (Bool-cases (x.file == g)) [
  | inl hit ↦ let refused : false ≡ true = simp hit at t in cc
  | inr miss ↦ simp miss (find_consumer-hand_out i g grants cs c (simp miss at h) (simp miss at t))
]

find_consumer-set_consumer :
    (g : ℕ) (items : List ℕ) (item : Option ℕ) (cs : List Consumer) (c : Consumer)
    → find_consumer g cs ≡ some c
    → find_consumer g (set_consumer g items item cs)
      ≡ some (record c { items = items; item = item })
unfolding find_consumer set_consumer
find_consumer-set_consumer g items item [] c h = cc
find_consumer-set_consumer g items item (x ∷ cs) c h = elim (Bool-cases (x.file == g)) [
  | inl hit ↦
      let e : x ≡ c = ground arith in
      simp hit
        (ap (λ (y : Consumer). some (record { file = y.file; items = items; item = item })) e)
  | inr miss ↦
      let h' : find_consumer g cs ≡ some c = simp miss at h in
      simp miss (find_consumer-set_consumer g items item cs c h')
]

-- Then some consumer has it.
hand_out-pos :
    (i g : ℕ) (grants : List Bool) (cs : List Consumer)
    → granted g grants cs ≡ true
    → 0 < (hand_out i grants cs).1
unfolding hand_out
hand_out-pos i g grants [] t = absurd (let refused : false ≡ true = t in cc)
hand_out-pos i g [] (x ∷ cs) t = omega arith
hand_out-pos i g (true ∷ grants) (x ∷ cs) t = omega arith
hand_out-pos i g (false ∷ grants) (x ∷ cs) t = elim (Bool-cases (x.file == g)) [
  | inl hit ↦ absurd (let refused : false ≡ true = simp hit at t in cc)
  | inr miss ↦ hand_out-pos i g grants cs (simp miss at t)
]

-- What `vmq_putbuf` makes of the queue when some item can be allocated.
sent : ℕ → ℕ → List Bool → Buffer → Manager → Manager
sent f i grants b m = record m {
  consumers = (hand_out i grants m.consumers).0;
  buffers = set_refcnt i ((b.refcnt + (hand_out i grants m.consumers).1) % u32) m.buffers;
  producers = set_producer f none m.producers;
}

putbuf-sent :
    (f g i : ℕ) (grants : List Bool) (m : Manager) (p : Producer) (b : Buffer)
    → find_producer f m.producers ≡ some p
    → p.buffer ≡ some i
    → find_buffer i m.buffers ≡ some b
    → granted g grants m.consumers ≡ true
    → putbuf f (some b.offset) grants m ≡ ret (done, sent f i grants b m)
unfolding putbuf put_buffer sent
putbuf-sent f g i grants m p b here has there takes =
    let some_took : ((hand_out i grants m.consumers).1 == 0) ≡ false =
      ground (arith, hand_out-pos i g grants m.consumers takes) in
    let right : (b.offset == b.offset) ≡ true = ground arith in
    rw (here, putbuf)
      (rw (has, putbuf)
        (rw (there, putbuf) (rw right (rw (there, put_buffer) (rw some_took refl)))))

-- A buffer that a producer gives, with the offset that it was told, reaches every consumer whose item can be
-- allocated, whichever items of the others can: one with an empty queue and no item gets, if the copy to
-- it succeeds, the size and the offset of the buffer, and holds the reference.
pub putbuf-getitem :
    (f g i : ℕ) (grants : List Bool) (signal : Bool) (m : Manager) (p : Producer) (b : Buffer)
    (c : Consumer)
    → find_producer f m.producers ≡ some p
    → p.buffer ≡ some i
    → find_buffer i m.buffers ≡ some b
    → find_consumer g m.consumers ≡ some c
    → granted g grants m.consumers ≡ true
    → c.item ≡ none
    → c.items ≡ []
    → (m' : Manager) × (m'' : Manager) × (putbuf f (some b.offset) grants m ≡ ret (done, m'))
      × (getitem g signal true m' ≡ ret (info b.size b.offset, m''))
      × (find_consumer g m''.consumers ≡ some (record c { items = []; item = some i }))
unfolding getitem sent
putbuf-getitem f g i grants signal m p b c here has there known takes none_yet empty =
    let m' = sent f i grants b m in
    let n = (b.refcnt + (hand_out i grants m.consumers).1) % u32 in
    let found : find_consumer g m'.consumers ≡ some (queued i c) =
      find_consumer-hand_out i g grants m.consumers c known takes in
    let self : (i == i) ≡ true = ground arith in
    let still : find_buffer i m'.buffers ≡ some (record b { refcnt = n }) =
      find_buffer-set_refcnt i i n m.buffers ∙ rw (self, there) refl in
    let list : (queued i c).items ≡ i ∷ [] = rw empty refl in
    let m'' : Manager = record m' { consumers = set_consumer g [] (some i) m'.consumers } in
    (
      m',
      m'',
      putbuf-sent f g i grants m p b here has there takes,
      rw (found, getitem) (rw (none_yet, getitem) (rw (list, getitem) (rw (still, getitem) refl))),
      find_consumer-set_consumer g [] (some i) m'.consumers (queued i c) found,
    )
