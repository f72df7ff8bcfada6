-- ===== src/Watchdog/Lifetime.antt =====
-- service/watchdog/watchdog.c: what holds from round to round.
use pi_frame.Prelude.{
  ℕ, suc, ◌+◌, ◌-◌, ◌^◌, ◌<◌, ◌≡◌, sym, ap, ◌∙◌, subst, true, false, Bool-cases, inl, inr, List, [],
  ◌∷◌, ◌++◌, arith, leb, ◌==◌, All, length, ret, append_assoc, append-nil,
}
use pi_frame.Watchdog.{Message, Service, Watchdog, Processes}
use pi_frame.Watchdog.Handlers.{Command, command, dispatch}
use pi_frame.Watchdog.Update.{
  round, report, process_update, update_loop, update_services, Loop, count_round, count_alive,
  action, Progress, going, exited, then_do, check_service, stays,
}
use pi_frame.Watchdog.Survivors.{check_service-info}
use pi_frame.Watchdog.Queue.{with_queue, dispatch-same}
use pi_frame.Watchdog.Names.{names, Distinct, names-write, Distinct-drop}
use pi_frame.Watchdog.Programs.{dispatch-Distinct}
use pi_frame.Watchdog.Rounds.{beyond, handled, Whole, round_lem}

-- Between two rounds: no program is there twice, and no reboot is under way.
pub record Steady (w : Watchdog) : Type 0 where
  pub distinct : Distinct (names w.root)
  pub no_request : w.request_reboot ≡ 0

-- A predicate of the state, if the thread goes on.
abbrev pub Goes : (Watchdog → Type 0) → Progress → Type 0
Goes P (going w) = P w
Goes P (exited es) = Unit {0}

Goes-then_do :
    (P Q : Watchdog → Type 0) (f : Watchdog → Progress) (p : Progress)
    → Goes P p
    → ((w : Watchdog) → P w → Goes Q (f w))
    → Goes Q (then_do f p)
unfolding then_do
Goes-then_do P Q f (going w) h step = step w h
Goes-then_do P Q f (exited es) h step = tt

action-same :
    (s : Service) (w : Watchdog)
    → Goes (λ v. (v.root ≡ w.root) × (v.request_reboot ≡ w.request_reboot)) (action s w)
unfolding action
action-same s w = ground arith

dispatch-Steady :
    (c : Command) (valid : Processes) (now : ℕ) (msg : Message) (w : Watchdog)
    → Steady w
    → Steady (dispatch c valid now msg w)
dispatch-Steady c valid now msg w h = record {
  distinct = dispatch-Distinct c valid now msg w h.distinct;
  no_request = ap (λ v. v.request_reboot) (dispatch-same c valid now msg w) ∙ h.no_request;
}

handled-Steady :
    (valid : Processes) (clock : ℕ → ℕ) (extra : ℕ) (es : List Message) (w : Watchdog)
    → Steady w
    → Steady (handled valid clock extra es w)
handled-Steady valid clock extra [] w h = h
handled-Steady valid clock extra (e ∷ es) w h =
    let t = clock (beyond extra es) in
    handled-Steady valid clock extra es (dispatch (command e.wdid) valid t e w)
      (dispatch-Steady (command e.wdid) valid t e w h)

still-Distinct :
    (valid : Processes) (t : ℕ) (s : Service) (ss : List Service) (w : Watchdog)
    → Distinct (names (w.root ++ s ∷ ss))
    → Distinct (names ((w.root ++ (check_service valid t s).1 ∷ []) ++ ss))
still-Distinct valid t s ss w d =
    let u = (check_service valid t s).1 in
    let same = ap (λ (i : Message). i.name) (check_service-info valid t s) in
    subst (λ l. Distinct (names l)) (sym (append_assoc w.root (u ∷ []) ss))
      (subst Distinct (sym (names-write w.root s u ss same)) d)

update_loop-Steady :
    (valid : Processes) (t : ℕ) (ss : List Service) (w : Watchdog)
    → Distinct (names (w.root ++ ss))
    → w.request_reboot ≡ 0
    → Goes Steady (update_loop valid t ss w)
unfolding update_loop
update_loop-Steady valid t [] w d r = record {
  distinct = subst (λ l. Distinct (names l)) (append-nil w.root) d;
  no_request = r;
}
update_loop-Steady valid t (s ∷ ss) w d r = elim (Bool-cases (stays (check_service valid t s).0)) [
  | inl kept ↦
      rw (kept, update_loop)
        (update_loop-Steady valid t ss
          (record w { root = w.root ++ (check_service valid t s).1 ∷ [] })
          (still-Distinct valid t s ss w d) r)
  | inr dropped ↦
      rw (dropped, update_loop)
        (Goes-then_do (λ v. (v.root ≡ w.root) × (v.request_reboot ≡ w.request_reboot)) Steady
          (λ v. update_loop valid t ss (record v { dump = false }))
          (action (check_service valid t s).1 w) (action-same (check_service valid t s).1 w)
          (λ v same.
            update_loop-Steady valid t ss (record v { dump = false })
              (subst (λ l. Distinct (names (l ++ ss))) (sym same.0) (Distinct-drop w.root s ss d))
              (same.1 ∙ r)))
]

process_update-Steady :
    (valid : Processes) (t : ℕ) (w : Watchdog) → Steady w → Goes Steady (process_update valid t w)
unfolding process_update update_services
process_update-Steady valid t w h =
    let none_due : (w.request_reboot == 0) ≡ true = ap (λ r. r == 0) h.no_request in
    simp none_due (elim (Bool-cases (leb 5 (t - w.lts))) [
      | inl due ↦ simp due (
          Goes-then_do Steady Steady (λ v. going (record v { lts = t }))
            (update_loop valid t w.root (record w { root = [] }))
            (update_loop-Steady valid t w.root (record w { root = [] }) h.distinct h.no_request)
            (λ v kept. record { distinct = kept.distinct; no_request = kept.no_request }))
      | inr early ↦ simp early h
    ])

report-same :
    (ts : ℕ) (l : Loop) (w : Watchdog)
    → ((report ts l w).root ≡ w.root) × ((report ts l w).request_reboot ≡ w.request_reboot)
unfolding report
report-same ts l w = ground arith

report-Steady : (ts : ℕ) (l : Loop) (w : Watchdog) → Steady w → Steady (report ts l w)
report-Steady ts l w h = record {
  distinct = subst (λ ss. Distinct (names ss)) (sym (report-same ts l w).0) h.distinct;
  no_request = (report-same ts l w).1 ∙ h.no_request;
}

-- A round of a thread that is to run, with fewer than 2 ^ 32 messages in the queue, each with a payload of 4
-- bytes or more, ends, or ends the process. If no two services are the same program and no reboot is
-- requested before, then so after it, whatever those messages say and whatever the times.
pub round-Steady :
    (valid : Processes) (now : ℕ) (clock : ℕ → ℕ) (later extra : ℕ) (l : Loop) (es : List Message)
    (w : Watchdog)
    → w.running ≡ true
    → length es < 2 ^ 32
    → All Whole es
    → Steady w
    → (p : Progress) × (l' : Loop) × (round valid now clock later
          (beyond (suc extra) es)
          l
          (with_queue es (length es) w)
        ≡ ret (p, l'))
      × Goes Steady p
round-Steady valid now clock later extra l es w run small whole h =
    let u = handled valid clock (suc extra) es (report (now + 1) (count_round l) w) in
    let h₁ = report-Steady (now + 1) (count_round l) w h in
    let h₂ = handled-Steady valid clock (suc extra) es (report (now + 1) (count_round l) w) h₁ in
    let h₃ : Steady (with_queue [] 0 u) = record {
      distinct = h₂.distinct;
      no_request = h₂.no_request;
    } in
    (
      process_update valid later (with_queue [] 0 u),
      count_alive (now + 1) (count_round l),
      round_lem valid now clock later extra l es w run small whole,
      process_update-Steady valid later (with_queue [] 0 u) h₃,
    )
