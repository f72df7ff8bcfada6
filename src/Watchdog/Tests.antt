-- ===== src/Watchdog/Tests.antt =====
-- Runs of the watchdog on two programs.
use pi_frame.Prelude.{
  ℕ, ◌≡◌, refl, true, false, List, [], ◌∷◌, arith, ret, fault, if◌then◌else◌, any, All, length,
  filter, map,
}
use pi_frame.Watchdog.{Message, Service, Watchdog, Processes}
use pi_frame.Watchdog.Handlers.{new_service, beat, add_service, make_wdid}
use pi_frame.Watchdog.Update.{
  round, process_update, report, count_round, count_alive, Loop, Progress, update_services,
  check_service, expired,
}
use pi_frame.Watchdog.Deadline.{overdue, ServiceSound}
use pi_frame.Watchdog.Expiry.{checks, gone, checks-Overdue, beat-expired}
use pi_frame.Watchdog.Survivors.{outcome, refresh, keeps, update_services_lem}
use pi_frame.Watchdog.Register.{registered, add_service_lem}
use pi_frame.Watchdog.Queue.{with_queue}
use pi_frame.Watchdog.Arrival.{arrivals, is_bare, is_known, arrivals_lem}
use pi_frame.Watchdog.Rounds.{beyond, handled, round_lem}
use pi_frame.Watchdog.Lifetime.{Steady, Goes, round-Steady}

abbrev message : ℕ → ℕ → ℕ → ℕ → Message
message wdid pid letter timeout = record {
  wdid = wdid;
  pid = pid;
  name = 47 ∷ letter ∷ [];
  params = [];
  mode = 1;
  timeout = timeout;
  sub_id = 7;
}

abbrev all_there : Processes
all_there pid name = true

abbrev first_program : Message
first_program = message (make_wdid 99 592) 3 97 30

abbrev reported : Service
reported = record {
  info = first_program;
  subs = record { id = 7; timeout = 20; expire_count = 20; alive_count = 0; ats = 100 } ∷ [];
  active = true;
  expire_count = 31;
  alive_count = 1;
  ats = 100;
}

abbrev watching : Watchdog
watching = record {
  running = true;
  root = reported ∷ [];
  lts = 100;
  request_reboot = 0;
  dump = false;
  debug = false;
  events = [];
  event_count = 0;
  effects = [];
}

checks-Overdue_example :
    gone (checks all_there (105 ∷ 125 ∷ []) reported)
    ≡ any (λ u. overdue u reported) (105 ∷ 125 ∷ [])
checks-Overdue_example =
    checks-Overdue all_there 100 (105 ∷ 125 ∷ []) reported refl
      ((omega arith, omega arith), ((omega arith, omega arith), tt))
      (omega arith, omega arith, (omega arith, omega arith, tt))

beat-expired_example :
    (check_service all_there 105
      (beat 100 (new_service (message (make_wdid 99 592) 3 97 3000000000)))).0
    ≡ expired
beat-expired_example =
    beat-expired all_there 100 105 (new_service (message (make_wdid 99 592) 3 97 3000000000)) refl
      (omega arith) (omega arith) (omega arith) (omega arith) (omega arith)

update_services_lem_example :
    (update_services all_there 125 watching
      ≡ outcome all_there 125 (reported ∷ []) (record watching { root = [] }))
    × All
        (ServiceSound 125)
        (map (refresh all_there 125) (filter (keeps all_there 125) (reported ∷ [])))
update_services_lem_example =
    update_services_lem all_there 125 watching
      (((omega arith, omega arith), ((omega arith, omega arith), tt)), tt) (omega arith)

add_service_lem_example :
    add_service all_there first_program watching ≡ registered all_there first_program watching
add_service_lem_example = add_service_lem all_there first_program watching (tt, tt)

abbrev queued : List Message
queued = message (make_wdid 103 72) 3 97 0 ∷ message (make_wdid 99 592) 4 98 30 ∷ []

abbrev start_loop : Loop
start_loop = record { mwdt = 100; dump_count = 0 }

abbrev at : ℕ → ℕ
at left = 110

round_lem_example :
    round all_there 110 at 111 (beyond 1 queued) start_loop (with_queue queued 2 watching)
    ≡ ret (
      process_update all_there 111 (
          with_queue [] 0
            (handled all_there at 1 queued (report 111 (count_round start_loop) watching))),
      count_alive 111 (count_round start_loop),
    )
round_lem_example =
    round_lem all_there 110 at 111 0 start_loop queued watching refl (omega arith)
      (omega arith, (omega arith, tt))

round-Steady_example :
    (p : Progress) × (l' : Loop) × (round all_there 110 at 111
        (beyond 1 queued)
        start_loop
        (with_queue queued 2 watching)
      ≡ ret (p, l'))
    × Goes Steady p
round-Steady_example =
    round-Steady all_there 110 at 111 0 start_loop queued watching refl (omega arith)
      (omega arith, (omega arith, tt)) (record { distinct = (tt, tt); no_request = refl })

arrivals_lem_example : arrivals queued (with_queue [] 0 watching) ≡ (
    if any is_bare queued
    then fault
    else ret (with_queue (filter is_known queued) (length (filter is_known queued)) watching))
arrivals_lem_example = arrivals_lem queued [] watching (omega arith)
