-- ===== src/Timer/End.antt =====
-- lib/util/utilTimer.c: the end of a tick, when the timers that were due are gone from their list.
use pi_frame.Prelude.{
  ℕ, zero, suc, ◌+◌, ◌/◌, ◌%◌, ◌≤◌, ◌<◌, ◌≡◌, ◌≢◌, refl, sym, ap, ◌∙◌, subst, false, none, some,
  List, [], ◌==◌, arith, All, ◌⊎◌, inl, inr,
}
use pi_frame.Timer.{Pending, Wheel, advance, end_tick}
use pi_frame.Timer.Spans.{span, turns, Home}
use pi_frame.Timer.Among.{Among, All-Among, Among-All, none-Among}
use pi_frame.Timer.Begin.{all_due}
use pi_frame.Timer.Held.{Held, Waits, Soon, add_all-Grown}

-- The turns for this tick are those before the next.
turns_next : (k now : ℕ) → k < 4 → turns now 5 (suc k) ≡ turns (now + 1) 1 (suc k)
turns_next zero now h = ground arith
turns_next (suc zero) now h = ground arith
turns_next (suc (suc zero)) now h = ground arith
turns_next (suc (suc (suc zero))) now h = ground arith
turns_next (suc (suc (suc (suc k)))) now h = absurd (omega arith)

Home-next : (k now i e : ℕ) → e ≢ now → Home now 5 k i e → Home (now + 1) 1 k i e
Home-next zero now i e other h =
    let (small, le, near, at) = h in (small, ground arith, omega arith, at)
Home-next (suc k) now i e other h =
    let same = turns_next k now h.0 in
    (
      h.0,
      h.1,
      ground arith,
      subst (λ c. c ≤ e / span (suc k)) same h.3,
      subst (λ c. e / span (suc k) < c + 64) same h.4,
      h.5,
    )

-- The list of the tick is empty, so no timer that waits is due at it.
none_due :
    (w : Wheel) (k i : ℕ) (x : Pending)
    → Held 5 w
    → w.vec 0 (w.index 0) ≡ []
    → Among x (w.vec k i)
    → x.expires ≢ w.now
none_due w k i x held empty there now =
    none-Among x (w.vec 0 (w.index 0)) empty (all_due w x held (k, i, there) now)

advance-homes :
    (w : Wheel)
    → Held 5 w
    → w.vec 0 (w.index 0) ≡ []
    → (k i : ℕ) → All (λ (x : Pending). Home (w.now + 1) 1 k i x.expires) (w.vec k i)
advance-homes w held empty k i =
    Among-All (λ (x : Pending). Home (w.now + 1) 1 k i x.expires) (w.vec k i)
      (λ x m.
        Home-next k w.now i x.expires (none_due w k i x held empty m) (
          All-Among (λ (y : Pending). Home w.now 5 k i y.expires) (w.vec k i) x (held.homes k i) m))

index_kept : (k : ℕ) (w : Wheel) → (advance w).index (suc k) ≡ w.index (suc k)
unfolding advance
index_kept k w = let miss : (suc k == 0) ≡ false = ground arith in rw miss refl

advance-Held :
    (w : Wheel) → Held 5 w → w.vec 0 (w.index 0) ≡ [] → w.now + 1 < 4294967296 → Held 1 (advance w)
unfolding advance
advance-Held w held empty small =
    let wrap : (w.now + 1) % 4294967296 ≡ w.now + 1 = omega arith in
    record {
      homes = λ k i.
          subst (λ t. All (λ (x : Pending). Home t 1 k i x.expires) (w.vec k i)) (sym wrap)
            (advance-homes w held empty k i);
      root = let root = held.root in omega arith;
      indices = λ k lt.
          index_kept k w
          ∙ held.indices k lt
          ∙ ap (λ c. c % 64) (turns_next k w.now lt ∙ ap (λ t. turns t 1 (suc k)) (sym wrap));
    }

-- After a tick the timers that were added while it ran are in their places too, and all others
-- still wait.
pub end_tick-Held :
    (w : Wheel) (queued : List Pending)
    → Held 5 w
    → w.vec 0 (w.index 0) ≡ []
    → w.running ≡ some queued
    → w.now + 1 < 4294967296
    → All (Soon 5 (w.now + 1)) queued
    → Held 1 (end_tick w)
      × ((end_tick w).running ≡ none)
      × ((end_tick w).now ≡ w.now + 1)
      × ((x : Pending) → Waits x w ⊎ Among x queued → Waits x (end_tick w))
unfolding end_tick advance
end_tick-Held w queued held empty run small soon =
    let wrap : w.now + 1 ≡ (w.now + 1) % 4294967296 = omega arith in
    let (grown, added) =
      add_all-Grown 1 5 queued (advance w) (subst (λ t. All (Soon 5 t) queued) wrap soon)
        (advance-Held w held empty small) refl in
    rw run (
      grown.held,
      grown.idle,
      grown.same_now ∙ sym wrap,
      λ x h. elim h [
        | inl (k, i, there) ↦ (k, i, grown.stay k i x there)
        | inr new ↦ let (k, i, low, there) = added x new in (k, i, there)
      ],
    )
