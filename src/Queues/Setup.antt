-- ===== src/Queues/Setup.antt =====
-- drivers/vmq/main.c: `vmq_setup` and `vmq_release`, from the side of the list of queues.
use pi_frame.Prelude.{
  ℕ, suc, ◌<◌, ◌^◌, ◌≡◌, refl, ap, ◌∙◌, subst, inl, inr, List, [], ◌∷◌, ◌++◌, arith, All, All-map,
  length,
}
use pi_frame.Vmshm.Inv.{one}
use pi_frame.Vmq.{Manager, inc}
use pi_frame.Vmq.Calls.{setup_producer, setup_consumer}
use pi_frame.Vmq.Items.{Inv as QueueInv}
use pi_frame.Vmq.Produce.{setup_producer-Inv, setup_consumer-Inv}
use pi_frame.Queues.{Queue, Role, producer, consumer, Context, Queues, attach}
use pi_frame.Queues.Inv.{Inv, Sound, users, attached, same_id, users-append, same_id-append}
use pi_frame.Queues.Remove.{All-take}
use pi_frame.Queues.Added.{one_cases, with_users}

attach-QueueInv :
    (role : Role) (file : ℕ) (m : Manager) (lost : List (ℕ × ℕ))
    → QueueInv m lost
    → suc (length m.consumers) < 2 ^ 31
    → QueueInv (attach role file m) lost
unfolding attach
attach-QueueInv producer file m lost v few = setup_producer-Inv file m lost v
attach-QueueInv consumer file m lost v few = setup_consumer-Inv file m lost v few

attach-refcnt : (role : Role) (file : ℕ) (m : Manager) → (attach role file m).refcnt ≡ inc m.refcnt
unfolding attach setup_producer setup_consumer
attach-refcnt producer file m = refl
attach-refcnt consumer file m = refl

All-put {ℓ κ} :
    {A : Type ℓ} (P : A → Type κ) (b : List A) (x : A) (a : List A)
    → P x
    → All P (b ++ a)
    → All P (b ++ x ∷ a)
All-put P [] x a p h = (p, h)
All-put P (y ∷ b) x a p h = (h.0, All-put P b x a p h.1)

abbrev pub attached_queue : Role → ℕ → Queue → Queue
attached_queue role file x = record x { manager = attach role file x.manager }

abbrev pub with_context : ℕ → Role → Queues → List Queue → Queue → List Queue → Queues
with_context file role q b x a = record q {
  queues = b ++ attached_queue role file x ∷ a;
  contexts = record { file = file; queue = x.id; role = role } ∷ q.contexts;
}

module _ (file : ℕ) (role : Role) (q : Queues) (b : List Queue) (x : Queue) (a : List Queue) where
  users_same :
      q.queues ≡ b ++ x ∷ a
      → (i : ℕ) → users i q.queues ≡ users i (b ++ attached_queue role file x ∷ a)
  users_same place i = omega (
    arith,
    ap (users i) place,
    users-append i b (x ∷ a),
    users-append i b (attached_queue role file x ∷ a),
  )

  same_id_same :
      q.queues ≡ b ++ x ∷ a
      → (i : ℕ) → same_id i q.queues ≡ same_id i (b ++ attached_queue role file x ∷ a)
  same_id_same place i = omega (
    arith,
    ap (same_id i) place,
    same_id-append i b (x ∷ a),
    same_id-append i b (attached_queue role file x ∷ a),
  )

  others-Sound :
      (qs : List Queue)
      → same_id x.id qs ≡ 0
      → All (Sound q.next q.contexts) qs
      → All (Sound q.next (record { file = file; queue = x.id; role = role } ∷ q.contexts)) qs
  others-Sound [] e h = tt
  others-Sound (y ∷ qs) e (s, h) =
      let other : one x.id y.id ≡ 0 = elim (one_cases x.id y.id) [
        | inl (same, _) ↦
            let self : one y.id x.id ≡ 1 = ground arith in absurd (omega (arith, e, self))
        | inr other ↦ other
      ] in
      (
        record {
          manager = s.manager;
          counted = omega (arith, s.counted, other);
          few = omega (arith, s.few, other);
          below = s.below;
        },
        others-Sound qs (omega (arith, e)) h,
      )

  -- The file is counted once more.
  pub attached-Sound :
      Sound q.next q.contexts x
      → suc (length x.manager.consumers) < 2 ^ 31
      → suc (attached x.id q.contexts) < 2 ^ 31
      → Sound q.next
          (record { file = file; queue = x.id; role = role } ∷ q.contexts)
          (attached_queue role file x)
  attached-Sound s few room =
      let self : one x.id x.id ≡ 1 = ground arith in
      let (lost, inv) = s.manager in
      record {
        manager = (lost, attach-QueueInv role file x.manager lost inv few);
        counted = attach-refcnt role file x.manager ∙ omega (arith, s.counted, room, self);
        few = omega (arith, room, self);
        below = s.below;
      }

  pub with_context-Inv :
      Inv q
      → q.queues ≡ b ++ x ∷ a
      → suc (length x.manager.consumers) < 2 ^ 31
      → suc (attached x.id q.contexts) < 2 ^ 31
      → Inv (with_context file role q b x a)
  with_context-Inv v place few room =
      let (s, rest) =
        All-take (Sound q.next q.contexts) b x a
          (subst (All (Sound q.next q.contexts)) place v.sound) in
      let self : one x.id x.id ≡ 1 = ground arith in
      let alone : same_id x.id (b ++ a) ≡ 0 = omega (
        arith,
        v.ids x.id,
        ap (same_id x.id) place,
        same_id-append x.id b (x ∷ a),
        same_id-append x.id b a,
        self,
      ) in
      record {
        shm =
            with_users q.shm (λ i. users i q.queues)
              (λ i. users i (b ++ attached_queue role file x ∷ a)) (users_same place) v.shm;
        sound =
            All-put (Sound q.next (record { file = file; queue = x.id; role = role } ∷ q.contexts))
              b (attached_queue role file x) a (attached-Sound s few room)
              (others-Sound (b ++ a) alone rest);
        ids = λ i. omega (arith, v.ids i, same_id_same place i);
        mems = λ i. omega (arith, v.mems i, users_same place i);
        known = (
          omega (arith, same_id-append x.id b (attached_queue role file x ∷ a), self),
          All-map (λ (c : Context). 0 < same_id c.queue q.queues)
              (λ (c : Context). 0 < same_id c.queue (b ++ attached_queue role file x ∷ a))
              q.contexts (λ c h. omega (arith, h, same_id_same place c.queue)) v.known,
        );
      }
