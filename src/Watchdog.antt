-- ===== src/Watchdog.antt =====
-- service/watchdog/watchdog.c: the watched programs ("services"), with the parts of a program that
-- report on their own ("sub-services"), and the queue of events.
-- `tv_sec` is what the code reads of a time, so a time is a number of seconds. The table of processes
-- is an argument: `PFU_isValidProcess` reads it from /proc. Commands to the system are recorded.
pub mod Handlers
pub mod Update
pub mod Deadline
pub mod Expiry
pub mod Survivors
pub mod Names
pub mod Programs
pub mod Queue
pub mod Rounds
pub mod Lifetime
pub mod Register
pub mod Arrival
mod Tests
use pi_frame.Prelude.{
  ℕ, suc, ◌+◌, ◌-◌, ◌/◌, ◌%◌, Bool, true, false, not, ◌&&◌, Option, none, some, List, [], ◌∷◌, ◌++◌,
  Outcome, ret, fault, ◌==◌, leb, ltb, if◌then◌else◌, same_name, find, Place,
}

-- The numbers of `int` and `uint32_t`, wrapped, and the sign of an `int`.
abbrev pub word : ℕ
word = 4294967296

abbrev pub minus : ℕ → ℕ → ℕ
minus a b = (a % word + word - b % word) % word

abbrev pub negative : ℕ → Bool
negative n = leb 2147483648 n

-- The messages of pfwatchdog.h, one record for all: `wdid` says which fields are there.
pub record Message : Type 0 where
  pub wdid : ℕ
  pub pid : ℕ
  pub name : List ℕ
  pub params : List ℕ
  pub mode : ℕ
  pub timeout : ℕ
  pub sub_id : ℕ

-- `struct ListSubService` and `struct ListService`.
pub record Sub : Type 0 where
  pub id : ℕ
  pub timeout : ℕ
  pub expire_count : ℕ
  pub alive_count : ℕ
  pub ats : ℕ

pub record Service : Type 0 where
  pub info : Message
  pub subs : List Sub
  pub active : Bool
  pub expire_count : ℕ
  pub alive_count : ℕ
  pub ats : ℕ

-- What the service asks of the system.
pub data Effect : Type 0 where
  kill_pid : ℕ → Effect
  kill_all : List ℕ → Effect
  start : List ℕ → List ℕ → Effect
  stop_queues : Effect
  exit_service : Effect
  reboot : Effect
  send_alive : Effect

-- `struct WatchdogInfo`, with `fgDebugMode`, `eventRoot`, `eventQCount` and the calls made so far.
pub record Watchdog : Type 0 where
  pub running : Bool
  pub root : List Service
  pub lts : ℕ
  pub request_reboot : ℕ
  pub dump : Bool
  pub debug : Bool
  pub events : List Message
  pub event_count : ℕ
  pub effects : List Effect

-- `PFU_isValidProcess`.
abbrev pub Processes : Type 0
Processes = ℕ → List ℕ → Bool

-- `basename` of libgen.h: a `/` is 47, a `.` is 46.
abbrev trim : List ℕ → List ℕ
trim [] = []
trim (c ∷ cs) = elim (trim cs) [ [] ↦ if c == 47 then [] else c ∷ [] | d ∷ ds ↦ c ∷ d ∷ ds ]

abbrev last_part : List ℕ → List ℕ → List ℕ
last_part part [] = part
last_part part (c ∷ cs) = last_part (if c == 47 then cs else part) cs

pub basename : List ℕ → List ℕ
basename [] = 46 ∷ []
basename (c ∷ cs) = elim (trim (c ∷ cs)) [ [] ↦ 47 ∷ [] | d ∷ ds ↦ last_part (d ∷ ds) (d ∷ ds) ]

-- The test of `getServiceListWithName`.
abbrev pub same_base : List ℕ → List ℕ → Bool
same_base a b = same_name (basename a) (basename b)

-- `getServiceListWithPID`, `getServiceListWithName` and `getSubServiceListWithSubId`.
unfoldable pub with_pid : ℕ → List Service → Option (Place Service)
with_pid pid root = find (λ s. s.info.pid == pid) root

unfoldable pub with_name : List ℕ → List Service → Option (Place Service)
with_name name root = find (λ s. same_base s.info.name name) root

unfoldable pub with_sub_id : ℕ → List Sub → Option (Place Sub)
with_sub_id i subs = find (λ s. s.id == i) subs

-- `PFWD_TYPE` and `PFWD_PAYLOAD_SIZE`.
abbrev pub message_type : ℕ → ℕ
message_type wdid = wdid / 16777216 % 256

abbrev pub payload_size : ℕ → ℕ
payload_size wdid = wdid % 4096

-- `watchdogAddEvent`: `allocItem` returns a null pointer for a message without a payload.
unfoldable pub add_event : Message → Watchdog → Outcome Watchdog
add_event msg w =
    if payload_size msg.wdid == 0
    then fault
    else ret (record w { events = w.events ++ msg ∷ []; event_count = (w.event_count + 1) % word })

-- `eventWDHandler`: 99 is EPFWD_CMD_REGISTER and 107 EPFWD_CMD_END.
unfoldable pub event_handler : Message → Watchdog → Outcome Watchdog
event_handler msg w =
    if leb 99 (message_type msg.wdid) && ltb (message_type msg.wdid) 107
    then add_event msg w
    else ret w

-- `watchdogGetEvent`.
unfoldable pub get_event : Watchdog → Option Message × Watchdog
get_event w = elim w.events [
  | [] ↦ (none, w)
  | e ∷ es ↦ (some e, record w { events = es; event_count = minus w.event_count 1 })
]

-- `discardListAll`: `eventQCount` is left as it is.
unfoldable pub discard_all : Watchdog → Watchdog
discard_all w = record w { events = []; root = [] }
