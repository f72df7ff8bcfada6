-- ===== src/Watchdog/Arrival.antt =====
-- service/watchdog/eventWD.c and watchdog.c: the messages that come into the queue of the thread.
use pi_frame.Prelude.{
  ◌+◌, ◌%◌, ◌^◌, ◌<◌, ◌≡◌, refl, Bool, ◌&&◌, Bool-cases, inl, inr, List, [], ◌∷◌, ◌++◌, arith,
  if◌then◌else◌, filter, any, length, length-append, append_assoc, append-nil, Outcome, ret, fault,
  ◌>>=◌, leb, ltb, ◌==◌,
}
use pi_frame.Watchdog.{Message, Watchdog, message_type, payload_size, event_handler, add_event}
use pi_frame.Watchdog.Queue.{with_queue}

abbrev pub arrivals : List Message → Watchdog → Outcome Watchdog
arrivals [] w = ret w
arrivals (m ∷ ms) w = event_handler m w >>= arrivals ms

-- A type that EPFWD_COMMAND_TYPE lists, and one of these with no payload.
abbrev pub is_known : Message → Bool
is_known m = leb 99 (message_type m.wdid) && ltb (message_type m.wdid) 107

abbrev pub is_bare : Message → Bool
is_bare m = is_known m && payload_size m.wdid == 0

-- Messages that come to a queue of `es`: those of a known type are put behind it, in order, and the
-- others are left out. If one of a known type has no payload, a null pointer is followed.
pub arrivals_lem :
    (ms es : List Message) (w : Watchdog)
    → length es + length ms < 2 ^ 32
    → arrivals ms (with_queue es (length es) w) ≡ (
        if any is_bare ms
        then fault
        else ret (with_queue (es ++ filter is_known ms) (length (es ++ filter is_known ms)) w))
unfolding event_handler add_event
arrivals_lem [] es w small = rw (append-nil es) refl
arrivals_lem (m ∷ ms) es w small = elim (Bool-cases (is_known m)) [
  | inl known ↦ elim (Bool-cases (payload_size m.wdid == 0)) [
    | inl bare ↦ simp (known, bare) refl
    | inr full ↦
        let count : (length es + 1) % 4294967296 ≡ length (es ++ m ∷ []) =
          omega (arith, length-append es (m ∷ [])) in
        let ih = arrivals_lem ms (es ++ m ∷ []) w (omega (arith, length-append es (m ∷ []))) in
        simp (known, full, count) (rw (append_assoc es (m ∷ []) (filter is_known ms)) at ih)
  ]
  | inr unknown ↦ simp unknown (arrivals_lem ms es w (omega arith))
]
