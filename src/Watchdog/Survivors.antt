-- ===== src/Watchdog/Survivors.antt =====
-- service/watchdog/watchdog.c: what an update of all services leaves, and what it asks of the system.
use pi_frame.Prelude.{
  ℕ, ◌<◌, ◌≡◌, refl, sym, ap, ◌∙◌, Bool, true, false, false≢true, Bool-cases, ◌&&◌, ◌||◌, not, inl,
  inr, List, [], ◌∷◌, ◌++◌, arith, ◌==◌, if◌then◌else◌, All, any, filter, map, is_empty_list,
  append-nil, append_assoc, ◌^◌, and_true, and_false,
}
use pi_frame.Watchdog.{
  Message, Service, Watchdog, Effect, Processes, kill_all, start, stop_queues, exit_service,
  basename,
}
use pi_frame.Watchdog.Update.{
  Progress, going, exited, then_do, action, check_service, check_subs, tick_service, stays,
  update_loop, update_services,
}
use pi_frame.Watchdog.Deadline.{
  ServiceSound, overdue, check_service_lem, check_service-overdue, check_service-vanished,
}

-- A service stays if its process is there and neither it nor a part of it is overdue.
abbrev pub keeps : Processes → ℕ → Service → Bool
keeps valid t s = valid s.info.pid s.info.name && not (overdue t s)

-- The commands for one that goes, and whether they end the process.
abbrev pub order : Bool → Message → List Effect
order true info =
    if info.mode == 0 || info.mode == 1 || info.mode == 2 then stop_queues ∷ [] else []
order false info =
    if info.mode == 1
    then kill_all (basename info.name) ∷ start info.name info.params ∷ []
    else if info.mode == 2
    then exit_service ∷ []
    else []

abbrev pub ends : Bool → Message → Bool
ends debug info = not debug && info.mode == 2

abbrev pub orders : Bool → List Service → List Effect
orders debug [] = []
orders debug (s ∷ ss) =
    let rest = orders debug ss in
    if ends debug s.info then order debug s.info else order debug s.info ++ rest

abbrev pub refresh : Processes → ℕ → Service → Service
refresh valid t s = (check_service valid t s).1

abbrev pub outcome : Processes → ℕ → List Service → Watchdog → Progress
outcome valid t ss w =
    let dropped = filter (λ s. not (keeps valid t s)) ss in
    let effects = w.effects ++ orders w.debug dropped in
    if any (λ (s : Service). ends w.debug s.info) dropped
    then exited effects
    else going (record w {
      root = w.root ++ map (refresh valid t) (filter (keeps valid t) ss);
      dump = w.dump && is_empty_list dropped;
      effects = effects;
    })

action_lem :
    (s : Service) (w : Watchdog)
    → action s w ≡ (
        if ends w.debug s.info
        then exited (w.effects ++ order w.debug s.info)
        else going (record w { effects = w.effects ++ order w.debug s.info }))
unfolding action
action_lem s w = elim (Bool-cases w.debug) [
  | inl on ↦ elim (Bool-cases (s.info.mode == 0)) [
    | inl none_mode ↦ simp (on, none_mode) refl
    | inr a ↦ elim (Bool-cases (s.info.mode == 1)) [
      | inl restart ↦ simp (on, a, restart) refl
      | inr b ↦ elim (Bool-cases (s.info.mode == 2)) [
        | inl reboots ↦ simp (on, a, b, reboots) refl
        | inr c ↦
            simp (on, a, b, c, append-nil w.effects)
              (ap (λ (d : Bool). going (record w { debug = d })) on)
      ]
    ]
  ]
  | inr off ↦ elim (Bool-cases (s.info.mode == 0)) [
    | inl none_mode ↦
        let b : (s.info.mode == 1) ≡ false = ground arith in
        let c : (s.info.mode == 2) ≡ false = ground arith in
        simp (off, none_mode, b, c, append-nil w.effects)
          (ap (λ (d : Bool). going (record w { debug = d })) off)
    | inr a ↦ elim (Bool-cases (s.info.mode == 1)) [
      | inl restart ↦
          let other : (s.info.mode == 2) ≡ false = ground arith in
          simp (off, a, restart, other) refl
      | inr b ↦ elim (Bool-cases (s.info.mode == 2)) [
        | inl reboots ↦ simp (off, a, b, reboots) refl
        | inr c ↦
            simp (off, a, b, c, append-nil w.effects)
              (ap (λ (d : Bool). going (record w { debug = d })) off)
      ]
    ]
  ]
]

pub check_service-info :
    (valid : Processes) (t : ℕ) (s : Service) → (check_service valid t s).1.info ≡ s.info
unfolding check_service check_subs tick_service
check_service-info valid t s = ground arith

check_service-stays :
    (valid : Processes) (t : ℕ) (s : Service)
    → ServiceSound t s
    → t < 2147483648
    → stays (check_service valid t s).0 ≡ keeps valid t s
check_service-stays valid t s h small = elim (Bool-cases (valid s.info.pid s.info.name)) [
  | inl up ↦ simp up (check_service-overdue valid t s up h small)
  | inr down ↦ simp (down, check_service-vanished valid t s down) refl
]

outcome-keeps :
    (valid : Processes) (t : ℕ) (s : Service) (ss : List Service) (w : Watchdog)
    → keeps valid t s ≡ true
    → outcome valid t ss (record w { root = w.root ++ (check_service valid t s).1 ∷ [] })
      ≡ outcome valid t (s ∷ ss) w
outcome-keeps valid t s ss w kept =
    rw (kept, append_assoc w.root ((check_service valid t s).1 ∷ [])) refl

outcome-drops :
    (valid : Processes) (t : ℕ) (s : Service) (ss : List Service) (w : Watchdog)
    → keeps valid t s ≡ false
    → (if ends w.debug s.info
        then exited (w.effects ++ order w.debug s.info)
        else outcome valid t ss
            (record w { dump = false; effects = w.effects ++ order w.debug s.info }))
      ≡ outcome valid t (s ∷ ss) w
outcome-drops valid t s ss w dropped = elim (Bool-cases (ends w.debug s.info)) [
  | inl last ↦ rw (dropped, last) refl
  | inr more ↦
      rw (dropped, more, append_assoc w.effects (order w.debug s.info), and_false w.dump) refl
]

then_do_if :
    (f : Watchdog → Progress) (b : Bool) (es : List Effect) (w : Watchdog)
    → then_do f (if b then exited es else going w) ≡ (if b then exited es else f w)
unfolding then_do
then_do_if f true es w = refl
then_do_if f false es w = refl

update_loop_lem :
    (valid : Processes) (t : ℕ) (ss : List Service) (w : Watchdog)
    → All (ServiceSound t) ss
    → t < 2147483648
    → update_loop valid t ss w ≡ outcome valid t ss w
unfolding update_loop
update_loop_lem valid t [] w h small =
    rw (append-nil w.root, append-nil w.effects)
      (ap (λ (d : Bool). going (record w { dump = d })) (sym (and_true w.dump)))
update_loop_lem valid t (s ∷ ss) w h small =
    let stay = check_service-stays valid t s h.0 small in
    elim (Bool-cases (keeps valid t s)) [
      | inl kept ↦
          let ih =
            update_loop_lem valid t ss
              (record w { root = w.root ++ (check_service valid t s).1 ∷ [] }) h.1 small in
          rw (stay ∙ kept, update_loop) (ih ∙ outcome-keeps valid t s ss w kept)
      | inr dropped ↦
          let ih =
            update_loop_lem valid t ss
              (record w { dump = false; effects = w.effects ++ order w.debug s.info }) h.1 small in
          rw (stay ∙ dropped, update_loop)
            (rw (action_lem (check_service valid t s).1 w) (
              rw (check_service-info valid t s) (
                then_do_if (λ v. update_loop valid t ss (record v { dump = false }))
                  (ends w.debug s.info) (w.effects ++ order w.debug s.info)
                  (record w { effects = w.effects ++ order w.debug s.info })
                ∙ ap
                    (λ (p : Progress).
                      if ends w.debug s.info then exited (w.effects ++ order w.debug s.info) else p)
                    ih
                ∙ outcome-drops valid t s ss w dropped)))
    ]

and_not : (a b : Bool) → (a && not b) ≡ true → (a ≡ true) × (b ≡ false)
and_not true true h = absurd (false≢true h)
and_not true false h = (refl, refl)
and_not false b h = absurd (false≢true h)

refresh-Sound :
    (valid : Processes) (t : ℕ) (ss : List Service)
    → All (ServiceSound t) ss
    → t < 2147483648
    → All (ServiceSound t) (map (refresh valid t) (filter (keeps valid t) ss))
refresh-Sound valid t [] h small = tt
refresh-Sound valid t (s ∷ ss) h small =
    let rest = refresh-Sound valid t ss h.1 small in
    elim (Bool-cases (keeps valid t s)) [
      | inl kept ↦ rw kept (
        let (up, on_time) = and_not (valid s.info.pid s.info.name) (overdue t s) kept in
            ((check_service_lem valid t s up h.0 small).1 on_time).0,
        rest,
      )
      | inr dropped ↦ rw dropped rest
    ]

-- An update of sound services leaves, in order, those whose process is there and that are not overdue,
-- nor a part of them, and they are sound again. For each of the others, in order, it gives the
-- commands of its mode; the first in the mode REBOOT, unless in debug mode, ends the process there.
pub update_services_lem :
    (valid : Processes) (t : ℕ) (w : Watchdog)
    → All (ServiceSound t) w.root
    → t < 2 ^ 31
    → (update_services valid t w ≡ outcome valid t w.root (record w { root = [] }))
      × All (ServiceSound t) (map (refresh valid t) (filter (keeps valid t) w.root))
unfolding update_services
update_services_lem valid t w h small = (
  update_loop_lem valid t w.root (record w { root = [] }) h small,
  refresh-Sound valid t w.root h small,
)
