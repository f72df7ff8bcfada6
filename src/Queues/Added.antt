-- ===== src/Queues/Added.antt =====
-- drivers/vmq/main.c: the invariant with a new queue at the end of the list.
use pi_frame.Prelude.{
  ℕ, suc, ◌+◌, ◌<◌, ◌≡◌, refl, sym, ◌∙◌, subst, Bool-cases, ◌⊎◌, inl, inr, List, [], ◌∷◌, ◌++◌,
  arith, All, All-append, All-map, ◌==◌,
}
use pi_frame.Vmshm.{Driver, find_mem}
use pi_frame.Vmshm.Inv.{Inv as ShmInv, one, held, Counted}
use pi_frame.Vmq.{Manager}
use pi_frame.Vmq.Items.{Inv as QueueInv}
use pi_frame.Queues.{Queue, Context, Queues}
use pi_frame.Queues.Inv.{Inv, Sound, users, attached, same_id, users-append, same_id-append}

pub with_users :
    (d : Driver) (others others' : ℕ → ℕ)
    → ((i : ℕ) → others i ≡ others' i)
    → ShmInv d others
    → ShmInv d others'
with_users d others others' e v = record {
  good = v.good;
  counts = λ i. subst (λ n. Counted (find_mem i d.mems) (held i d.files + n)) (e i) (v.counts i);
}

pub one_cases : (i j : ℕ) → (i ≡ j) × (one i j ≡ 1) ⊎ (one i j ≡ 0)
one_cases i j = elim (Bool-cases (i == j)) [
  | inl hit ↦ inl (ground arith, rw hit refl)
  | inr miss ↦ inr (rw miss refl)
]

-- The next number of a queue is new.
same_id_next :
    (next : ℕ) (cs : List Context) (qs : List Queue) → All (Sound next cs) qs → same_id next qs ≡ 0
same_id_next next cs [] h = refl
same_id_next next cs (q ∷ qs) (s, h) =
    let other : one q.id next ≡ 0 = ground (arith, s.below) in
    omega (arith, other, same_id_next next cs qs h)

attached_none :
    (next : ℕ) (qs : List Queue) (cs : List Context)
    → same_id next qs ≡ 0
    → All (λ (c : Context). 0 < same_id c.queue qs) cs
    → attached next cs ≡ 0
attached_none next qs [] e h = refl
attached_none next qs (c ∷ cs) e (k, h) =
    let other : one c.queue next ≡ 0 = elim (one_cases c.queue next) [
      | inl (same, _) ↦ absurd (omega (arith, subst (λ i. 0 < same_id i qs) same k, e))
      | inr other ↦ other
    ] in
    omega (arith, other, attached_none next qs cs e h)

Sound-later : (next : ℕ) (cs : List Context) (q : Queue) → Sound next cs q → Sound (suc next) cs q
Sound-later next cs q s = record {
  manager = s.manager;
  counted = s.counted;
  few = s.few;
  below = omega (arith, s.below);
}

abbrev pub new_queue : Queues → Manager → Queue
new_queue q m = record { id = q.next; mem = q.shm.next; manager = m }

abbrev pub with_new : Queues → Driver → Manager → Queues
with_new q d m = record q {
  shm = d;
  queues = q.queues ++ new_queue q m ∷ [];
  next = suc q.next;
  modules = suc q.modules;
}

pub added-Inv :
    (q : Queues) (d : Driver) (m : Manager)
    → Inv q
    → ShmInv d (λ i. users i q.queues + one q.shm.next i)
    → QueueInv m []
    → m.refcnt ≡ 0
    → users q.shm.next q.queues ≡ 0
    → Inv (with_new q d m)
added-Inv q d m v shm sound zero_refs unused =
    let fresh = same_id_next q.next q.contexts q.queues v.sound in
    let alone = attached_none q.next q.queues q.contexts fresh v.known in
    let new = new_queue q m ∷ [] in
    record {
      shm =
          with_users d (λ i. users i q.queues + one q.shm.next i) (λ i. users i (q.queues ++ new))
            (λ i. omega (arith, users-append i q.queues new)) shm;
      sound =
          All-append (Sound (suc q.next) q.contexts) q.queues new
            (All-map (Sound q.next q.contexts) (Sound (suc q.next) q.contexts) q.queues
              (Sound-later q.next q.contexts) v.sound)
            (
              record {
                manager = ([], sound);
                counted = zero_refs ∙ sym alone;
                few = omega (arith, alone);
                below = omega arith;
              },
              tt,
            );
      ids = λ i. elim (one_cases q.next i) [
        | inl (same, self) ↦ omega (
          arith,
          same_id-append i q.queues new,
          self,
          subst (λ n. same_id n q.queues ≡ 0) same fresh,
        )
        | inr other ↦ omega (arith, same_id-append i q.queues new, other, v.ids i)
      ];
      mems = λ i. elim (one_cases q.shm.next i) [
        | inl (same, self) ↦ omega (
          arith,
          users-append i q.queues new,
          self,
          subst (λ n. users n q.queues ≡ 0) same unused,
        )
        | inr other ↦ omega (arith, users-append i q.queues new, other, v.mems i)
      ];
      known =
          All-map (λ (c : Context). 0 < same_id c.queue q.queues)
            (λ (c : Context). 0 < same_id c.queue (q.queues ++ new)) q.contexts
            (λ c h. omega (arith, h, same_id-append c.queue q.queues new)) v.known;
    }
