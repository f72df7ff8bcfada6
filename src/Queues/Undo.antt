-- ===== src/Queues/Undo.antt =====
-- drivers/vmq/main.c: a file that sets up a queue and is closed.
use pi_frame.Prelude.{
  ℕ, ◌<◌, ◌^◌, ◌≡◌, refl, sym, ap, ap₂, ◌∙◌, subst, Bool, true, false, Bool-cases, ◌⊎◌, inl, inr,
  none, some, some-none, List, [], ◌∷◌, ◌++◌, arith, All, ret, ◌>>=◌, ◌==◌, length, find,
  find-middle,
}
use pi_frame.Vmshm.{is_empty, max_name_length}
use pi_frame.Vmshm.Inv.{one}
use pi_frame.Vmq.{Manager, Producer, Consumer, inc, dec}
use pi_frame.Vmq.Calls.{
  find_producer, find_consumer, drop_producer, drop_consumer, setup_producer, setup_consumer,
  release_producer, release_consumer, unref_all,
}
use pi_frame.Queues.{
  Queue, Role, producer, consumer, Context, Queues, Error, done, error, find_context, drop_context,
  attach, detach, setup, release, release_found,
}
use pi_frame.Queues.Inv.{Inv, Sound, same_id, same_id-append}
use pi_frame.Queues.Remove.{All-take}
use pi_frame.Queues.Setup.{attached_queue, with_context}
use pi_frame.Queues.Guard.{setup_cases}

module _ (file : ℕ) where
  find_producer-last :
      (ps : List Producer) (p : Producer)
      → find_producer file ps ≡ none
      → (p.file == file) ≡ true
      → (find_producer file (ps ++ p ∷ []) ≡ some p) × (drop_producer file (ps ++ p ∷ []) ≡ ps)
  unfolding find_producer drop_producer
  find_producer-last [] p h e = (simp e, simp e)
  find_producer-last (x ∷ ps) p h e = elim (Bool-cases (x.file == file)) [
    | inl hit ↦ absurd (some-none (simp hit at h))
    | inr miss ↦
        let (found, dropped) = find_producer-last ps p (simp miss at h) e in
        (simp miss found, simp miss (ap (λ l. x ∷ l) dropped))
  ]

  find_consumer-last :
      (cs : List Consumer) (c : Consumer)
      → find_consumer file cs ≡ none
      → (c.file == file) ≡ true
      → (find_consumer file (cs ++ c ∷ []) ≡ some c) × (drop_consumer file (cs ++ c ∷ []) ≡ cs)
  unfolding find_consumer drop_consumer
  find_consumer-last [] c h e = (simp e, simp e)
  find_consumer-last (x ∷ cs) c h e = elim (Bool-cases (x.file == file)) [
    | inl hit ↦ absurd (some-none (simp hit at h))
    | inr miss ↦
        let (found, dropped) = find_consumer-last cs c (simp miss at h) e in
        (simp miss found, simp miss (ap (λ l. x ∷ l) dropped))
  ]

  detach-attach :
      (role : Role) (m : Manager)
      → find_producer file m.producers ≡ none
      → find_consumer file m.consumers ≡ none
      → m.refcnt < 2 ^ 31
      → detach role file (attach role file m) ≡ ret m
  unfolding detach attach setup_producer setup_consumer release_producer release_consumer unref_all
  detach-attach producer m no_producer no_consumer small =
      let self : (file == file) ≡ true = ground arith in
      let (found, dropped) =
        find_producer-last m.producers (record { file = file; buffer = none }) no_producer self in
      let count : dec (inc m.refcnt) ≡ m.refcnt = omega arith in
      rw (found, release_producer)
        (ap₂ (λ ps r. ret (record m { producers = ps; refcnt = r })) dropped count)
  detach-attach consumer m no_producer no_consumer small =
      let self : (file == file) ≡ true = ground arith in
      let (found, dropped) =
        find_consumer-last m.consumers (record { file = file; items = []; item = none }) no_consumer
          self in
      let count : dec (inc m.refcnt) ≡ m.refcnt = omega arith in
      rw (found, release_consumer)
        (ap₂ (λ cs r. ret (record m { consumers = cs; refcnt = r })) dropped count)

release_run :
    (file : ℕ) (q : Queues) (c : Context)
    → find_context file q.contexts ≡ some c
    → release file q ≡ release_found file c.role q (find (λ (x : Queue). x.id == c.queue) q.queues)
unfolding release
release_run file q c has = rw (has, release) refl

-- No queue but this one has the number.
others_differ :
    (i : ℕ) (qs : List Queue) → same_id i qs ≡ 0 → All (λ (x : Queue). (x.id == i) ≡ false) qs
others_differ i [] e = tt
others_differ i (x ∷ qs) e = (ground (arith, e), others_differ i qs (omega (arith, e)))

-- A file that is not known to the queues sets one up, as a producer or a consumer, and is closed: if the
-- set-up succeeds, all is as it was before.
pub setup-release :
    (file : ℕ) (given : Bool) (name : List ℕ) (type : ℕ) (q : Queues)
    → Inv q
    → find_context file q.contexts ≡ none
    → length name < max_name_length
    → is_empty name ≡ false
    → All
        (λ (x : Queue).
          (find_producer file x.manager.producers ≡ none)
          × (find_consumer file x.manager.consumers ≡ none))
        q.queues
    → ((e : Error) × (setup file given (some (some name, type)) q ≡ ret (error e, q)))
      ⊎ ((q' : Queues) × (setup file given (some (some name, type)) q ≡ ret (done, q'))
          × (release file q' ≡ ret q))
unfolding release_found find_context drop_context
setup-release file given name type q v idle short full strange =
    elim (setup_cases file given name type q v idle short full) [
      | inl failed ↦ inl failed
      | inr (role, b, x, a, run, place, before, hit) ↦
          let q' = with_context file role q b x a in
          let (sound, _) =
            All-take (Sound q.next q.contexts) b x a
              (subst (All (Sound q.next q.contexts)) place v.sound) in
          let Strange = λ (y : Queue).
            (find_producer file y.manager.producers ≡ none)
            × (find_consumer file y.manager.consumers ≡ none) in
          let (mine, _) = All-take Strange b x a (subst (All Strange) place strange) in
          let self : one x.id x.id ≡ 1 = ground arith in
          let self' : (x.id == x.id) ≡ true = ground arith in
          let known : (file == file) ≡ true = ground arith in
          let first : same_id x.id b ≡ 0 =
            omega
              (arith, v.ids x.id, ap (same_id x.id) place, same_id-append x.id b (x ∷ a), self) in
          inr (
            q',
            run,
            release_run file q' (record { file = file; queue = x.id; role = role }) (rw known refl)
                ∙ ap (release_found file role q') (
                    find-middle (λ (y : Queue). y.id == x.id) b (attached_queue role file x) a
                      (others_differ x.id b first) self')
                ∙ ap
                    (λ o. o >>= λ m. ret (record q' {
                      queues = b ++ record x { manager = m } ∷ a;
                      contexts = drop_context file q'.contexts;
                    }))
                    (detach-attach file role x.manager mine.0 mine.1
                      (omega (arith, sound.counted, sound.few)))
                ∙ ap₂ (λ qs cs. ret (record q { queues = qs; contexts = cs })) (sym place)
                    (rw known refl),
          )
    ]
