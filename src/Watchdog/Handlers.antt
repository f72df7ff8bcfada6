-- ===== src/Watchdog/Handlers.antt =====
-- service/watchdog/watchdog.c: what each message does, and `processWDEvent`.
use pi_frame.Prelude.{
  ℕ, ◌+◌, ◌*◌, ◌%◌, ◌^◌, Bool, true, false, Option, none, some, List, [], ◌∷◌, ◌++◌, ◌&&◌, Outcome,
  ret, fault, ◌==◌, ltb, if◌then◌else◌, same_name, find, Place,
}
use pi_frame.Watchdog.{
  word, Message, Sub, Service, Watchdog, Processes, kill_pid, with_pid, with_name, with_sub_id,
  payload_size,
}

-- The end of `addServiceList`.
abbrev pub new_service : Message → Service
new_service msg = record {
  info = msg;
  subs = [];
  active = false;
  expire_count = 0;
  alive_count = 0;
  ats = 0;
}

unfoldable pub enter : Processes → Message → Watchdog → Bool × Watchdog
enter valid msg w =
    if valid msg.pid msg.name
    then (true, record w { root = w.root ++ new_service msg ∷ [] })
    else (false, w)

-- `addServiceList`, with the service of the same program: a second process of it is killed.
unfoldable pub add_at : Processes → Message → Watchdog → Option (Place Service) → Bool × Watchdog
add_at valid msg w none = enter valid msg w
add_at valid msg w (some (b, old, a)) =
    if valid old.info.pid old.info.name
    then (false, record w { effects = w.effects ++ kill_pid msg.pid ∷ [] })
    else enter valid msg (record w { root = b ++ a })

unfoldable pub add_service : Processes → Message → Watchdog → Bool × Watchdog
add_service valid msg w = add_at valid msg w (with_name msg.name w.root)

-- `removeServiceList`.
abbrev pub is_sender : Message → Service → Bool
is_sender msg s = s.info.pid == msg.pid && same_name s.info.name msg.name

unfoldable pub remove_at : Watchdog → Option (Place Service) → Bool × Watchdog
remove_at w none = (false, w)
remove_at w (some (b, s, a)) = (true, record w { root = b ++ a })

unfoldable pub remove_service : Message → Watchdog → Bool × Watchdog
remove_service msg w = remove_at w (find (is_sender msg) w.root)

-- `addSubServiceList`.
abbrev pub new_sub : ℕ → Message → Sub
new_sub now msg = record {
  id = msg.sub_id;
  timeout = msg.timeout;
  expire_count = msg.timeout;
  alive_count = 0;
  ats = now;
}

unfoldable pub add_sub_at :
    Processes → ℕ → Message → Watchdog → Option (Place Service) → Bool × Watchdog
add_sub_at valid now msg w none = (false, w)
add_sub_at valid now msg w (some (b, s, a)) =
    if valid s.info.pid s.info.name
    then (true, record w { root = b ++ (record s { subs = s.subs ++ new_sub now msg ∷ [] }) ∷ a })
    else (false, record w { root = b ++ a })

unfoldable pub add_sub : Processes → ℕ → Message → Watchdog → Bool × Watchdog
add_sub valid now msg w = add_sub_at valid now msg w (with_name msg.name w.root)

-- What is written to a service whose place is found, if anything.
unfoldable pub write_at : Watchdog → List Service → List Service → Option Service → Bool × Watchdog
write_at w b a none = (false, w)
write_at w b a (some t) = (true, record w { root = b ++ t ∷ a })

-- `removeSubServiceList`: the name is not compared.
unfoldable pub drop_sub : Service → Option (Place Sub) → Option Service
drop_sub s none = none
drop_sub s (some (c, x, d)) = some (record s { subs = c ++ d })

unfoldable pub remove_sub_at : Message → Watchdog → Option (Place Service) → Bool × Watchdog
remove_sub_at msg w none = (false, w)
remove_sub_at msg w (some (b, s, a)) = write_at w b a (drop_sub s (with_sub_id msg.sub_id s.subs))

unfoldable pub remove_sub : Message → Watchdog → Bool × Watchdog
remove_sub msg w = remove_sub_at msg w (with_pid msg.pid w.root)

-- What `serviceStartStopWD`, `serviceAliveWD` and `serviceSubAliveWD` write.
abbrev pub restart_count : ℕ → ℕ
restart_count timeout = (timeout + 1) % word

unfoldable pub start_stop : Bool → ℕ → Service → Service
start_stop active now s = record s {
  active = active;
  expire_count = restart_count s.info.timeout;
  ats = now;
}

unfoldable pub beat : ℕ → Service → Service
beat now s = record s {
  active = true;
  expire_count = restart_count s.info.timeout;
  alive_count = (s.alive_count + 1) % 2 ^ 64;
  ats = now;
}

unfoldable pub beat_sub : ℕ → Sub → Sub
beat_sub now x = record x {
  expire_count = restart_count x.timeout;
  alive_count = (x.alive_count + 1) % 2 ^ 64;
  ats = now;
}

-- The first service with the number of the process, if it also has the name.
unfoldable pub sender_at :
    (Service → Option Service) → Message → Watchdog → Option (Place Service) → Bool × Watchdog
sender_at f msg w none = (false, w)
sender_at f msg w (some (b, s, a)) =
    if same_name s.info.name msg.name then write_at w b a (f s) else (false, w)

unfoldable pub on_service : (Service → Option Service) → Message → Watchdog → Bool × Watchdog
on_service f msg w = sender_at f msg w (with_pid msg.pid w.root)

-- `serviceStartStopWD`.
unfoldable pub start_stop_service : Bool → ℕ → Message → Watchdog → Bool × Watchdog
start_stop_service active now msg w = on_service (λ s. some (start_stop active now s)) msg w

-- `serviceAliveWD`.
unfoldable pub alive_service : ℕ → Message → Watchdog → Bool × Watchdog
alive_service now msg w = on_service (λ s. some (beat now s)) msg w

-- `serviceSubAliveWD`.
unfoldable pub beat_sub_at : ℕ → Service → Option (Place Sub) → Option Service
beat_sub_at now s none = none
beat_sub_at now s (some (c, x, d)) = some (record s { subs = c ++ beat_sub now x ∷ d })

unfoldable pub sub_alive : ℕ → Message → Service → Option Service
sub_alive now msg s = beat_sub_at now s (with_sub_id msg.sub_id s.subs)

unfoldable pub alive_sub : ℕ → Message → Watchdog → Bool × Watchdog
alive_sub now msg w = on_service (sub_alive now msg) msg w

-- The identifiers of pfwatchdog.h: the type in the upper eight bits, the size of the structure below.
pub data Command : Type 0 where
  register unregister begin end alive sub_register sub_unregister sub_beat other : Command

abbrev pub make_wdid : ℕ → ℕ → ℕ
make_wdid type size = type * 16777216 + size

unfoldable pub command : ℕ → Command
command wdid =
    if wdid == make_wdid 103 72
    then alive
    else if wdid == make_wdid 106 76
    then sub_beat
    else if wdid == make_wdid 99 592
    then register
    else if wdid == make_wdid 100 72
    then unregister
    else if wdid == make_wdid 101 72
    then begin
    else if wdid == make_wdid 102 72
    then end
    else if wdid == make_wdid 104 80
    then sub_register
    else if wdid == make_wdid 105 76
    then sub_unregister
    else other

unfoldable pub dispatch : Command → Processes → ℕ → Message → Watchdog → Watchdog
dispatch alive valid now msg w = (alive_service now msg w).1
dispatch sub_beat valid now msg w = (alive_sub now msg w).1
dispatch register valid now msg w = (add_service valid msg w).1
dispatch unregister valid now msg w = (remove_service msg w).1
dispatch begin valid now msg w = (start_stop_service true now msg w).1
dispatch end valid now msg w = (start_stop_service false now msg w).1
dispatch sub_register valid now msg w = (add_sub valid now msg w).1
dispatch sub_unregister valid now msg w = (remove_sub msg w).1
dispatch other valid now msg w = w

-- `processWDEvent`: the copy of a message with a payload below four bytes does not hold its `wdid`.
unfoldable pub process_event : Processes → ℕ → Message → Watchdog → Outcome Watchdog
process_event valid now msg w =
    if ltb (payload_size msg.wdid) 4
    then fault
    else ret (dispatch (command msg.wdid) valid now msg w)
