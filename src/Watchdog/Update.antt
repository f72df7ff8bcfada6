-- ===== src/Watchdog/Update.antt =====
-- service/watchdog/watchdog.c: the update of the services, and the loop of the thread.
use pi_frame.Prelude.{
  ℕ, zero, suc, ◌+◌, ◌-◌, ◌%◌, Bool, true, false, not, ◌||◌, ◌&&◌, Option, none, some, List, [],
  ◌∷◌, ◌++◌, Outcome, ret, hang, ◌>>=◌, ◌==◌, leb, ltb, if◌then◌else◌,
}
use pi_frame.Watchdog.{
  word, minus, negative, Sub, Service, Watchdog, Effect, Processes, kill_all, start, stop_queues,
  exit_service, reboot, send_alive, basename, get_event, Message,
}
use pi_frame.Watchdog.Handlers.{process_event}

-- `watchdogSubServiceUpdate`: it stops at the first sub-service that has expired.
unfoldable pub tick_sub : ℕ → Sub → Sub
tick_sub now x = record x { expire_count = minus x.expire_count (minus now x.ats); ats = now }

unfoldable pub update_subs : ℕ → List Sub → Bool × List Sub
update_subs now [] = (false, [])
update_subs now (x ∷ xs) =
    let rest = update_subs now xs in
    if negative (tick_sub now x).expire_count
    then (true, tick_sub now x ∷ xs)
    else (rest.0, tick_sub now x ∷ rest.1)

-- `fgActWD`: 0, 1 and 2.
pub data Verdict : Type 0 where
  healthy expired vanished : Verdict

unfoldable pub tick_service : ℕ → Service → Service
tick_service now s =
    if s.active
    then record s { expire_count = minus s.expire_count (minus now s.ats); ats = now }
    else s

unfoldable pub check_subs : ℕ → Service → Verdict × Service
check_subs now s = (
  if (update_subs now s.subs).0 then expired else healthy,
  record s { subs = (update_subs now s.subs).1 },
)

-- The body of the loop of `watchdogServiceUpdate`, up to the verdict.
unfoldable pub check_service : Processes → ℕ → Service → Verdict × Service
check_service valid now s =
    if valid s.info.pid s.info.name
    then (if negative (tick_service now s).expire_count
        then (expired, tick_service now s)
        else check_subs now (tick_service now s))
    else (vanished, s)

-- The thread goes on, or `exit` ends the process after these calls.
pub data Progress : Type 0 where
  going : Watchdog → Progress
  exited : List Effect → Progress

unfoldable pub then_do : (Watchdog → Progress) → Progress → Progress
then_do f (going w) = f w
then_do f (exited es) = exited es

abbrev pub emit : List Effect → Watchdog → Watchdog
emit es w = record w { effects = w.effects ++ es }

-- `watchdogAction`: what follows `exit` in the mode REBOOT is never run. `sync` and the command `dmesg`, which
-- prints, are left out.
unfoldable pub action : Service → Watchdog → Progress
action s w =
    if s.info.mode == 0
    then going (if w.debug then emit (stop_queues ∷ []) w else w)
    else if s.info.mode == 1
    then going (
        if w.debug
        then emit (stop_queues ∷ []) w
        else emit (kill_all (basename s.info.name) ∷ start s.info.name s.info.params ∷ []) w)
    else if s.info.mode == 2
    then (if w.debug
        then going (emit (stop_queues ∷ []) w)
        else exited (w.effects ++ exit_service ∷ []))
    else going w

-- The loop of `watchdogServiceUpdate` over the services that are left; `root` has those that stay.
-- A service that goes is followed by a dump of the list.
abbrev pub stays : Verdict → Bool
stays healthy = true
stays expired = false
stays vanished = false

unfoldable pub update_loop : Processes → ℕ → List Service → Watchdog → Progress
update_loop valid now [] w = going w
update_loop valid now (s ∷ ss) w =
    let (verdict, t) = check_service valid now s in
    elim (stays verdict) [
      | true ↦ update_loop valid now ss (record w { root = w.root ++ t ∷ [] })
      | false ↦ then_do (λ v. update_loop valid now ss (record v { dump = false })) (action t w)
    ]

unfoldable pub update_services : Processes → ℕ → Watchdog → Progress
update_services valid now w = update_loop valid now w.root (record w { root = [] })

-- `processWDUpdate`: a `time_t` that has gone back gives a negative difference, as 0 below the bound.
unfoldable pub process_update : Processes → ℕ → Watchdog → Progress
process_update valid now w =
    if not (w.request_reboot == 0)
    then going (if leb 10 (now - w.request_reboot) then emit (reboot ∷ []) w else w)
    else if leb 5 (now - w.lts)
    then then_do (λ v. going (record v { lts = now })) (update_services valid now w)
    else going w

-- The inner loop of `processWatchdog`, with the message that is at hand; `clock` has the time at each
-- of its rounds, by the fuel that is left.
unfoldable pub handle : Processes → ℕ → Option Message → Watchdog → Outcome Watchdog
handle valid now none w = ret w
handle valid now (some msg) w = process_event valid now msg w

unfoldable pub next_event :
    (Option Message → Watchdog → Outcome Watchdog) → Option Message × Watchdog → Outcome Watchdog
next_event f (none, u) = ret u
next_event f (some e, u) = f (some e) u

unfoldable pub drain : Processes → (ℕ → ℕ) → ℕ → Option Message → Watchdog → Outcome Watchdog
drain valid clock zero msg w = hang
drain valid clock (suc left) msg w =
    handle valid (clock left) msg w >>= λ v. next_event (drain valid clock left) (get_event v)

-- The variables of `processWatchdog` that outlive a round.
pub record Loop : Type 0 where
  pub mwdt : ℕ
  pub dump_count : ℕ

-- The reports between the wait and the events: the dump on demand or every 128 rounds, and the
-- signal to the hardware watchdog's program.
abbrev pub dump_due : Loop → Watchdog → Bool
dump_due l w = w.dump || l.dump_count % 128 == 127

unfoldable pub report : ℕ → Loop → Watchdog → Watchdog
report ts l w =
    let v : Watchdog = if dump_due l w then record w { dump = false } else w in
    if ltb 5 (ts - l.mwdt) && not v.debug then emit (send_alive ∷ []) v else v

-- A round of `processWatchdog`, from the time `now` on, with the wait over and a message taken from the
-- queue. The second part is the loop's own state. A message that is taken as the thread is told to stop
-- is not handled.
abbrev pub count_round : Loop → Loop
count_round l = record l { dump_count = (l.dump_count + 1) % word }

abbrev pub count_alive : ℕ → Loop → Loop
count_alive ts l = if ltb 5 (ts - l.mwdt) then record l { mwdt = ts } else l

unfoldable pub round_with :
    Processes → ℕ → (ℕ → ℕ) → ℕ → ℕ → Loop → Option Message × Watchdog → Outcome (Progress × Loop)
round_with valid now clock later fuel l (msg, w) =
    if not w.running
    then ret (going w, count_round l)
    else drain valid clock fuel msg (report (now + 1) (count_round l) w) >>= λ u.
        ret (process_update valid later u, count_alive (now + 1) (count_round l))

unfoldable pub round : Processes → ℕ → (ℕ → ℕ) → ℕ → ℕ → Loop → Watchdog → Outcome (Progress × Loop)
round valid now clock later fuel l w = round_with valid now clock later fuel l (get_event w)
