-- ===== src/Vmq/Counts.antt =====
-- How many references the consumers hold to a buffer, and how many producers own it.
use pi_frame.Prelude.{
  ℕ, suc, ◌+◌, ◌*◌, ◌≤◌, ◌≡◌, refl, ap, Bool, true, false, Bool-cases, Option-cases, Option, none,
  some, List, [], ◌∷◌, ◌++◌, arith, ◌==◌, length, inl, inr,
}
use pi_frame.Vmq.{Producer, Consumer, hand_out}
use pi_frame.Vmq.Calls.{
  find_producer, set_producer, drop_producer, find_consumer, set_consumer, drop_consumer,
  references,
}
use pi_frame.Vmq.Unref.{one}

abbrev pub times : ℕ → List ℕ → ℕ
times j [] = 0
times j (i ∷ is) = one i j + times j is

abbrev pub refs : ℕ → List Consumer → ℕ
refs j [] = 0
refs j (c ∷ cs) = times j (references c) + refs j cs

abbrev pub holds : ℕ → Option ℕ → ℕ
holds j none = 0
holds j (some i) = one i j

abbrev pub owns : ℕ → List Producer → ℕ
owns j [] = 0
owns j (p ∷ ps) = holds j p.buffer + owns j ps

pub times-append : (j : ℕ) (is js : List ℕ) → times j (is ++ js) ≡ times j is + times j js
times-append j [] js = omega arith
times-append j (i ∷ is) js = omega (arith, times-append j is js)

pub refs-append : (j : ℕ) (cs ds : List Consumer) → refs j (cs ++ ds) ≡ refs j cs + refs j ds
refs-append j [] ds = omega arith
refs-append j (c ∷ cs) ds = omega (arith, refs-append j cs ds)

pub owns-append : (j : ℕ) (ps qs : List Producer) → owns j (ps ++ qs) ≡ owns j ps + owns j qs
owns-append j [] qs = omega arith
owns-append j (p ∷ ps) qs = omega (arith, owns-append j ps qs)

module _ (j f : ℕ) where
  pub refs-set_consumer :
      (items : List ℕ) (item : Option ℕ) (cs : List Consumer) (c : Consumer)
      → find_consumer f cs ≡ some c
      → refs j (set_consumer f items item cs) + times j (references c)
        ≡ refs j cs + times j (references (record { file = f; items = items; item = item }))
  unfolding find_consumer set_consumer
  refs-set_consumer items item [] c h = cc
  refs-set_consumer items item (x ∷ cs) c h = elim (Bool-cases (x.file == f)) [
    | inl hit ↦
        let e : x ≡ c = ground arith in simp hit (omega (arith, ap (λ y. times j (references y)) e))
    | inr miss ↦
        let h' : find_consumer f cs ≡ some c = simp miss at h in
        simp miss (omega (arith, refs-set_consumer items item cs c h'))
  ]

  pub refs-drop_consumer :
      (cs : List Consumer) (c : Consumer)
      → find_consumer f cs ≡ some c
      → refs j cs ≡ refs j (drop_consumer f cs) + times j (references c)
  unfolding find_consumer drop_consumer
  refs-drop_consumer [] c h = cc
  refs-drop_consumer (x ∷ cs) c h = elim (Bool-cases (x.file == f)) [
    | inl hit ↦
        let e : x ≡ c = ground arith in simp hit (omega (arith, ap (λ y. times j (references y)) e))
    | inr miss ↦
        let h' : find_consumer f cs ≡ some c = simp miss at h in
        simp miss (omega (arith, refs-drop_consumer cs c h'))
  ]

  pub owns-set_producer :
      (buffer : Option ℕ) (ps : List Producer) (p : Producer)
      → find_producer f ps ≡ some p
      → owns j (set_producer f buffer ps) + holds j p.buffer ≡ owns j ps + holds j buffer
  unfolding find_producer set_producer
  owns-set_producer buffer [] p h = cc
  owns-set_producer buffer (x ∷ ps) p h = elim (Bool-cases (x.file == f)) [
    | inl hit ↦
        let e : x ≡ p = ground arith in simp hit (omega (arith, ap (λ y. holds j y.buffer) e))
    | inr miss ↦
        let h' : find_producer f ps ≡ some p = simp miss at h in
        simp miss (omega (arith, owns-set_producer buffer ps p h'))
  ]

  pub owns-drop_producer :
      (ps : List Producer) (p : Producer)
      → find_producer f ps ≡ some p
      → owns j ps ≡ owns j (drop_producer f ps) + holds j p.buffer
  unfolding find_producer drop_producer
  owns-drop_producer [] p h = cc
  owns-drop_producer (x ∷ ps) p h = elim (Bool-cases (x.file == f)) [
    | inl hit ↦
        let e : x ≡ p = ground arith in simp hit (omega (arith, ap (λ y. holds j y.buffer) e))
    | inr miss ↦
        let h' : find_producer f ps ≡ some p = simp miss at h in
        simp miss (omega (arith, owns-drop_producer ps p h'))
  ]

pub length-set_consumer :
    (f : ℕ) (items : List ℕ) (item : Option ℕ) (cs : List Consumer)
    → length (set_consumer f items item cs) ≡ length cs
unfolding set_consumer
length-set_consumer f items item [] = refl
length-set_consumer f items item (c ∷ cs) = ground (arith, length-set_consumer f items item cs)

pub length-drop_consumer : (f : ℕ) (cs : List Consumer) → length (drop_consumer f cs) ≤ length cs
unfolding drop_consumer
length-drop_consumer f [] = omega arith
length-drop_consumer f (c ∷ cs) = ground (arith, length-drop_consumer f cs)

add-mul : (n k : ℕ) → (n + 1) * k ≡ n * k + k
add-mul n k = omega arith

-- A new item of a consumer is one more reference.
references-append :
    (i j : ℕ) (c : Consumer)
    → times j (references (record c { items = c.items ++ i ∷ [] }))
      ≡ times j (references c) + one i j
references-append i j c = elim (Option-cases c.item) [
  | inl h ↦ rw h (omega (arith, times-append j c.items (i ∷ [])))
  | inr (k, h) ↦ rw h (omega (arith, times-append j c.items (i ∷ [])))
]

-- The loop of `put_buffer_item` adds a reference for each consumer that it counts.
pub refs-hand_out :
    (i j : ℕ) (grants : List Bool) (cs : List Consumer)
    → refs j (hand_out i grants cs).0 ≡ refs j cs + (hand_out i grants cs).1 * one i j
unfolding hand_out
refs-hand_out i j grants [] = omega arith
refs-hand_out i j [] (c ∷ cs) = omega (
  arith,
  refs-hand_out i j [] cs,
  references-append i j c,
  add-mul (hand_out i [] cs).1 (one i j),
)
refs-hand_out i j (false ∷ grants) (c ∷ cs) = omega (arith, refs-hand_out i j grants cs)
refs-hand_out i j (true ∷ grants) (c ∷ cs) = omega (
  arith,
  refs-hand_out i j grants cs,
  references-append i j c,
  add-mul (hand_out i grants cs).1 (one i j),
)

pub hand_out-le :
    (i : ℕ) (grants : List Bool) (cs : List Consumer) → (hand_out i grants cs).1 ≤ length cs
unfolding hand_out
hand_out-le i grants [] = omega arith
hand_out-le i [] (c ∷ cs) = omega (arith, hand_out-le i [] cs)
hand_out-le i (false ∷ grants) (c ∷ cs) = omega (arith, hand_out-le i grants cs)
hand_out-le i (true ∷ grants) (c ∷ cs) = omega (arith, hand_out-le i grants cs)

pub length-hand_out :
    (i : ℕ) (grants : List Bool) (cs : List Consumer) → length (hand_out i grants cs).0 ≡ length cs
unfolding hand_out
length-hand_out i grants [] = refl
length-hand_out i [] (c ∷ cs) = ap suc (length-hand_out i [] cs)
length-hand_out i (false ∷ grants) (c ∷ cs) = ap suc (length-hand_out i grants cs)
length-hand_out i (true ∷ grants) (c ∷ cs) = ap suc (length-hand_out i grants cs)
