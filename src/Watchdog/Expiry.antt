-- ===== src/Watchdog/Expiry.antt =====
-- service/watchdog/watchdog.c: the updates of one service over time, from one report to the next.
use pi_frame.Prelude.{
  ℕ, ◌+◌, ◌%◌, ◌≤◌, ◌<◌, ◌≡◌, refl, sym, subst, ap, ap₂, ◌∙◌, Bool, true, false, Bool-cases, ◌||◌,
  not, inl, inr, Option, none, some, List, [], ◌∷◌, arith, All-map, any, ◌^◌,
}
use pi_frame.Watchdog.{Message, Sub, Service, Processes, minus, negative}
use pi_frame.Watchdog.Handlers.{beat}
use pi_frame.Watchdog.Update.{expired, check_service, stays, tick_service}
use pi_frame.Watchdog.Deadline.{
  Sound, ServiceSound, overdue, check_service_lem, check_service-overdue,
}

-- The updates at the given times, until one of them drops the service.
abbrev pub checks : Processes → List ℕ → Service → Option Service
checks valid [] s = some s
checks valid (t ∷ ts) s =
    let (verdict, u) = check_service valid t s in
    elim (stays verdict) [ true ↦ checks valid ts u | false ↦ none ]

abbrev pub gone : Option Service → Bool
gone none = true
gone (some s) = false

-- Times that do not go back, and fit an `int`.
abbrev pub Rising : ℕ → List ℕ → Type 0
Rising t [] = Unit {0}
Rising t (u ∷ us) = (t ≤ u) × (u < 2 ^ 31) × Rising u us

pub Sound-later : (t u : ℕ) (s : Service) → t ≤ u → ServiceSound t s → ServiceSound u s
Sound-later t u s le h = (
  (h.0.0, omega arith),
  All-map (λ (x : Sub). Sound t x.ats x.expire_count) (λ (x : Sub). Sound u x.ats x.expire_count)
      s.subs (λ x p. (p.0, omega arith)) h.1,
)

any_same :
    (s s' : Service) (us : List ℕ)
    → ((u : ℕ) → overdue u s' ≡ overdue u s)
    → any (λ u. overdue u s') us ≡ any (λ u. overdue u s) us
any_same s s' [] h = refl
any_same s s' (u ∷ us) h = ap₂ (λ (a b : Bool). a || b) (h u) (any_same s s' us h)

-- A service whose process stays valid, and whose counter, like those of its parts, is not below 0 and was
-- written no later than the second `t`, is dropped by the updates at some times exactly if at one of
-- them the service is overdue, or a part of it is. The times do not go back behind `t` or one another, and
-- are below 2 ^ 31.
pub checks-Overdue :
    (valid : Processes) (t : ℕ) (us : List ℕ) (s : Service)
    → valid s.info.pid s.info.name ≡ true
    → ServiceSound t s
    → Rising t us
    → gone (checks valid us s) ≡ any (λ u. overdue u s) us
checks-Overdue valid t [] s up h r = refl
checks-Overdue valid t (u ∷ us) s up h r =
    let later = Sound-later t u s r.0 h in
    let stay = check_service-overdue valid u s up later r.1 in
    let (verdict, kept) = check_service_lem valid u s up later r.1 in
    elim (Bool-cases (overdue u s)) [
      | inl late ↦
          let drops : stays (check_service valid u s).0 ≡ false = stay ∙ ap not late in
          rw (late, drops, checks) refl
      | inr on_time ↦
          let (sound, info, same) = kept on_time in
          let there = subst (λ (i : Message). valid i.pid i.name ≡ true) (sym info) up in
          let remains : stays (check_service valid u s).0 ≡ true = stay ∙ ap not on_time in
          rw (on_time, remains, checks)
            (checks-Overdue valid u us (check_service valid u s).1 there sound r.2
              ∙ any_same s (check_service valid u s).1 us same)
    ]

-- The counter is an `int`: with a time-out of at least 2 ^ 31 - 1 and less than 2 ^ 32 - 1 it is below 0 after
-- each report, and the next update drops the service, though its process is there and it has just
-- reported. The update comes at most as many seconds after the report as the time-out is above
-- 2 ^ 31 - 1, and before the second 2 ^ 31.
pub beat-expired :
    (valid : Processes) (now later : ℕ) (s : Service)
    → valid s.info.pid s.info.name ≡ true
    → 2 ^ 31 ≤ s.info.timeout + 1
    → s.info.timeout + 1 < 2 ^ 32
    → now ≤ later
    → later < 2 ^ 31
    → later + 2 ^ 31 ≤ now + s.info.timeout + 1
    → (check_service valid later (beat now s)).0 ≡ expired
unfolding check_service beat tick_service
beat-expired valid now later s up big small le short soon =
    let below : negative (minus ((s.info.timeout + 1) % 4294967296) (minus later now)) ≡ true =
      ground arith in
    simp (up, below) refl
