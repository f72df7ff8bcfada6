-- ===== src/Watchdog/Deadline.antt =====
-- service/watchdog/watchdog.c: the counters of a service as times by which it has to report.
use pi_frame.Prelude.{
  ℕ, ◌+◌, ◌≤◌, ◌<◌, ◌≡◌, refl, sym, ap, ap₂, ◌∙◌, Bool, true, false, false≢true, Bool-cases, ◌&&◌,
  ◌||◌, not, inl, inr, List, [], ◌∷◌, arith, ltb, if◌then◌else◌, All,
}
use pi_frame.Watchdog.{Sub, Service, Processes, minus, negative}
use pi_frame.Watchdog.Update.{
  healthy, expired, vanished, tick_sub, tick_service, update_subs, check_subs, check_service, stays,
}

-- The last second that a counter lets pass.
abbrev pub deadline : ℕ → ℕ → ℕ
deadline ats left = ats + left

abbrev pub subs_overdue : ℕ → List Sub → Bool
subs_overdue t [] = false
subs_overdue t (x ∷ xs) = ltb (deadline x.ats x.expire_count) t || subs_overdue t xs

abbrev pub overdue : ℕ → Service → Bool
overdue t s = s.active && ltb (deadline s.ats s.expire_count) t || subs_overdue t s.subs

-- A counter that is not below 0, written no later than the second `t`.
abbrev pub Sound : ℕ → ℕ → ℕ → Type 0
Sound t ats left = (left < 2147483648) × (ats ≤ t)

abbrev pub SubsSound : ℕ → List Sub → Type 0
SubsSound t xs = All (λ (x : Sub). Sound t x.ats x.expire_count) xs

abbrev pub ServiceSound : ℕ → Service → Type 0
ServiceSound t s = Sound t s.ats s.expire_count × SubsSound t s.subs

tick_lem :
    (ats left t : ℕ)
    → Sound t ats left
    → t < 2147483648
    → negative (minus left (minus t ats)) ≡ ltb (deadline ats left) t
tick_lem ats left t h small = ground arith

tick-kept :
    (ats left t : ℕ)
    → Sound t ats left
    → t < 2147483648
    → ltb (deadline ats left) t ≡ false
    → (t + minus left (minus t ats) ≡ ats + left) × (minus left (minus t ats) < 2147483648)
tick-kept ats left t h small kept = ground arith

tick_sub_lem :
    (t : ℕ) (x : Sub)
    → Sound t x.ats x.expire_count
    → t < 2147483648
    → negative (tick_sub t x).expire_count ≡ ltb (deadline x.ats x.expire_count) t
unfolding tick_sub
tick_sub_lem t x h small = tick_lem x.ats x.expire_count t h small

tick_sub-kept :
    (t : ℕ) (x : Sub)
    → Sound t x.ats x.expire_count
    → t < 2147483648
    → ltb (deadline x.ats x.expire_count) t ≡ false
    → Sound t (tick_sub t x).ats (tick_sub t x).expire_count
      × ((u : ℕ)
          → ltb (deadline (tick_sub t x).ats (tick_sub t x).expire_count) u
            ≡ ltb (deadline x.ats x.expire_count) u)
unfolding tick_sub
tick_sub-kept t x h small kept =
    let (same, below) = tick-kept x.ats x.expire_count t h small kept in
    ((below, omega arith), λ u. ap (λ d. ltb d u) same)

-- Nothing is overdue at the second `t`: the update changes the counters and no deadline.
update_subs_lem :
    (t : ℕ) (xs : List Sub)
    → SubsSound t xs
    → t < 2147483648
    → ((update_subs t xs).0 ≡ subs_overdue t xs)
      × (subs_overdue t xs ≡ false
          → SubsSound t (update_subs t xs).1
            × ((u : ℕ) → subs_overdue u (update_subs t xs).1 ≡ subs_overdue u xs))
unfolding update_subs
update_subs_lem t [] h small = (refl, λ e. (tt, λ u. refl))
update_subs_lem t (x ∷ xs) h small =
    let ih = update_subs_lem t xs h.1 small in
    let now = tick_sub_lem t x h.0 small in
    elim (Bool-cases (ltb (deadline x.ats x.expire_count) t)) [
      | inl late ↦ (simp (now ∙ late, late) refl, λ e. absurd (false≢true (sym (simp late at e))))
      | inr on_time ↦ (
        simp (now ∙ on_time, on_time) ih.0,
        λ e.
            let (sound, same) = ih.1 (simp on_time at e) in
            let (sound_x, same_x) = tick_sub-kept t x h.0 small on_time in
            simp (now ∙ on_time)
              ((sound_x, sound), λ u. ap₂ (λ (a b : Bool). a || b) (same_x u) (same u)),
      )
    ]

-- The service itself, apart from its parts.
abbrev late : ℕ → Service → Bool
late t s = s.active && ltb (deadline s.ats s.expire_count) t

tick_service-negative :
    (t : ℕ) (s : Service)
    → ServiceSound t s
    → t < 2147483648
    → negative (tick_service t s).expire_count ≡ late t s
unfolding tick_service
tick_service-negative t s h small = elim (Bool-cases s.active) [
  | inl on ↦ simp on (tick_lem s.ats s.expire_count t h.0 small)
  | inr off ↦ simp off (ground (arith, h.0.0))
]

tick_service-kept :
    (t : ℕ) (s : Service)
    → ServiceSound t s
    → t < 2147483648
    → late t s ≡ false
    → Sound t (tick_service t s).ats (tick_service t s).expire_count
      × ((tick_service t s).info ≡ s.info)
      × ((tick_service t s).subs ≡ s.subs)
      × ((u : ℕ) → late u (tick_service t s) ≡ late u s)
unfolding tick_service
tick_service-kept t s h small kept = elim (Bool-cases s.active) [
  | inl on ↦
      let (same, below) = tick-kept s.ats s.expire_count t h.0 small (simp on at kept) in
      simp on ((below, omega arith), refl, refl, λ u. ap (λ d. ltb d u) same)
  | inr off ↦ simp off (h.0, refl, refl, λ u. refl)
]

-- At the second `t` a service with a valid process is expired exactly if it or a part of it is overdue;
-- otherwise it stays with the same deadlines.
pub check_service_lem :
    (valid : Processes) (t : ℕ) (s : Service)
    → valid s.info.pid s.info.name ≡ true
    → ServiceSound t s
    → t < 2147483648
    → ((check_service valid t s).0 ≡ (if overdue t s then expired else healthy))
      × (overdue t s ≡ false
          → ServiceSound t (check_service valid t s).1
            × ((check_service valid t s).1.info ≡ s.info)
            × ((u : ℕ) → overdue u (check_service valid t s).1 ≡ overdue u s))
unfolding check_service check_subs
check_service_lem valid t s up h small =
    let late_now = tick_service-negative t s h small in
    elim (Bool-cases (late t s)) [
      | inl gone ↦
          (simp (up, late_now ∙ gone, gone) refl, λ e. absurd (false≢true (sym (simp gone at e))))
      | inr on_time ↦
          let (sound, same_info, same_subs, same) = tick_service-kept t s h small on_time in
          let (verdict, kept) = update_subs_lem t s.subs h.1 small in
          (
            simp (up, late_now ∙ on_time, on_time, same_subs, verdict) refl,
            λ e.
                let (sound_subs, same_due) = kept (simp on_time at e) in
                simp (up, late_now ∙ on_time, same_subs)
                  (
                    (sound, sound_subs),
                    same_info,
                    λ u. ap₂ (λ (a b : Bool). a || b) (same u) (same_due u),
                  ),
          )
    ]

stays-overdue : (b : Bool) → stays (if b then expired else healthy) ≡ not b
stays-overdue true = refl
stays-overdue false = refl

pub check_service-overdue :
    (valid : Processes) (t : ℕ) (s : Service)
    → valid s.info.pid s.info.name ≡ true
    → ServiceSound t s
    → t < 2147483648
    → stays (check_service valid t s).0 ≡ not (overdue t s)
check_service-overdue valid t s up h small =
    ap stays (check_service_lem valid t s up h small).0 ∙ stays-overdue (overdue t s)

pub check_service-vanished :
    (valid : Processes) (t : ℕ) (s : Service)
    → valid s.info.pid s.info.name ≡ false
    → check_service valid t s ≡ (vanished, s)
unfolding check_service
check_service-vanished valid t s down = simp down refl
