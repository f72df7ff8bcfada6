-- ===== src/Timer/Line.antt =====
-- lib/util/utilTimer.c: one tick after the other, with the timers that are added at each.
use pi_frame.Prelude.{
  ℕ, zero, suc, ◌+◌, ◌%◌, ◌<◌, ◌≡◌, ◌≢◌, refl, sym, ap, ◌∙◌, subst, true, Bool-cases, ◌&&◌, none,
  some, List, [], ◌∷◌, ◌==◌, arith, All, length, ◌⊎◌, inl, inr, ◌^◌,
}
use pi_frame.Timer.{Pending, Wheel, clear, begin_tick, end_tick, new_wheel}
use pi_frame.Timer.Spans.{Home, turns}
use pi_frame.Timer.Among.{Among}
use pi_frame.Timer.Held.{Held, Waits, Soon}
use pi_frame.Timer.Cascade.{clear-stay}
use pi_frame.Timer.Begin.{begin_tick-Turned, due_now, all_due}
use pi_frame.Timer.End.{end_tick-Held}

-- The timers of a tick.
abbrev pub due : Wheel → List Pending
due w = w.vec 0 (w.index 0)

-- The wheel when the timers of the tick have run, and the timers `queued` were added meanwhile.
abbrev pub ran : List Pending → Wheel → Wheel
ran queued w = record (clear 0 (w.index 0) w) { running = some queued }

abbrev pub pass : List Pending → Wheel → Wheel
pass queued w = end_tick (ran queued (begin_tick w))

abbrev pub passes : List (List Pending) → Wheel → Wheel
passes [] w = w
passes (q ∷ qs) w = passes qs (pass q w)

-- What is added at each tick is due later, within 2 ^ 31 ticks.
abbrev pub AllSoon : ℕ → List (List Pending) → Type 0
AllSoon now [] = Unit {0}
AllSoon now (q ∷ qs) = All (Soon 5 (now + 1)) q × AllSoon (now + 1) qs

ran-homes :
    (queued : List Pending) (w : Wheel)
    → Held 5 w
    → (k i : ℕ) → All (λ (x : Pending). Home w.now 5 k i x.expires) ((ran queued w).vec k i)
unfolding clear
ran-homes queued w held k i = elim (Bool-cases (k == 0 && i == w.index 0)) [
  | inl hit ↦ rw hit tt
  | inr miss ↦ rw miss (held.homes k i)
]

ran-Held : (queued : List Pending) (w : Wheel) → Held 5 w → Held 5 (ran queued w)
unfolding clear
ran-Held queued w held = record {
  homes = ran-homes queued w held;
  root = held.root;
  indices = held.indices;
}

ran-empty : (queued : List Pending) (w : Wheel) → (ran queued w).vec 0 (w.index 0) ≡ []
unfolding clear
ran-empty queued w = let hit : (w.index 0 == w.index 0) ≡ true = ground arith in rw hit refl

ran-Waits :
    (queued : List Pending) (w : Wheel) (x : Pending)
    → Held 5 w
    → Waits x w
    → x.expires ≢ w.now
    → Waits x (ran queued w)
ran-Waits queued w x held (k, i, there) other = elim (Bool-cases (k == 0 && i == w.index 0)) [
  | inl hit ↦
      let e₁ : k ≡ 0 = ground arith in
      let e₂ : i ≡ w.index 0 = ground arith in
      absurd (
        other (
          due_now w x held (
            subst (λ c. Among x (w.vec c (w.index 0))) e₁
              (subst (λ c. Among x (w.vec k c)) e₂ there))))
  | inr miss ↦ (k, i, clear-stay 0 (w.index 0) w k i x (ground arith) there)
]

-- A tick of a wheel whose lists hold each timer where it belongs, and whose indices agree with the tick, keeps
-- both, and is a step of one tick. The timers that were added while the others ran are due later, within
-- 2 ^ 31 ticks. A timer that was not due at this tick, or was added at it, waits in a list afterwards.
pub pass-Held :
    (queued : List Pending) (w : Wheel)
    → Held 1 w
    → w.running ≡ none
    → w.now + 1 < 4294967296
    → All (Soon 5 (w.now + 1)) queued
    → Held 1 (pass queued w)
      × ((pass queued w).running ≡ none)
      × ((pass queued w).now ≡ w.now + 1)
      × ((x : Pending)
          → (Waits x w × (x.expires ≢ w.now)) ⊎ Among x queued
          → Waits x (pass queued w))
unfolding clear
pass-Held queued w held idle small soon =
    let t = begin_tick-Turned w held idle in
    let u = begin_tick w in
    let (next, idle', now, keeps) =
      end_tick-Held (ran queued u) queued (ran-Held queued u t.held) (ran-empty queued u) refl
        (subst (λ n. n + 1 < 4294967296) (sym t.same_now) small)
        (subst (λ n. All (Soon 5 (n + 1)) queued) (sym t.same_now) soon) in
    (
      next,
      idle',
      now ∙ ap (λ n. n + 1) t.same_now,
      λ x h. elim h [
        | inl (waits, other) ↦
            keeps x
              (inl (ran-Waits queued u x t.held (t.keeps x waits) (λ e. other (e ∙ t.same_now))))
        | inr new ↦ keeps x (inr new)
      ],
    )

-- A timer that waits runs at the tick for which it is set, and not before: after the ticks up to that one,
-- whatever timers are added at them, it is in the list that runs, and that list has only timers
-- that are set for this tick.
pub passes-due :
    (qs : List (List Pending)) (w : Wheel) (x : Pending)
    → Held 1 w
    → w.running ≡ none
    → AllSoon w.now qs
    → Waits x w
    → x.expires ≡ w.now + length qs
    → w.now + length qs < 2 ^ 32
    → Among x (due (begin_tick (passes qs w)))
      × ((y : Pending) → Among y (due (begin_tick (passes qs w))) → y.expires ≡ x.expires)
passes-due [] w x held idle soon waits at small =
    let t = begin_tick-Turned w held idle in
    let now : x.expires ≡ w.now = omega arith in
    (
      all_due (begin_tick w) x t.held (t.keeps x waits) (now ∙ sym t.same_now),
      λ y h. due_now (begin_tick w) y t.held h ∙ t.same_now ∙ sym now,
    )
passes-due (q ∷ qs) w x held idle soon waits at small =
    let (held', idle', now, keeps) = pass-Held q w held idle (omega arith) soon.0 in
    let later : x.expires ≢ w.now = ground arith in
    passes-due qs (pass q w) x held' idle' (subst (λ n. AllSoon n qs) (sym now) soon.1)
      (keeps x (inl (waits, later))) (at ∙ omega (arith, now)) (omega (arith, now))

new_indices : (k : ℕ) → k < 4 → ◌≡◌ {A = ℕ} 0 (turns 0 1 (suc k) % 64)
new_indices zero h = refl
new_indices (suc zero) h = refl
new_indices (suc (suc zero)) h = refl
new_indices (suc (suc (suc zero))) h = refl
new_indices (suc (suc (suc (suc k)))) h = absurd (omega arith)

-- The empty wheel at the start of the program.
pub new_wheel-Held : Held 1 new_wheel
unfolding new_wheel
new_wheel-Held = record { homes = λ k i. tt; root = refl; indices = new_indices }
