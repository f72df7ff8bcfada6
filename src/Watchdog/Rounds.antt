-- ===== src/Watchdog/Rounds.antt =====
-- service/watchdog/watchdog.c: a round of the thread handles the messages that wait, in order, and keeps
-- the programs of the list distinct.
use pi_frame.Prelude.{
  ℕ, suc, ◌+◌, ◌-◌, ◌^◌, ◌≤◌, ◌<◌, ◌≡◌, refl, ap, ◌∙◌, true, false, not, ◌&&◌, Bool-cases, inl, inr,
  Option, none, some, List, [], ◌∷◌, arith, ltb, All, length, Outcome, ret, ◌>>=◌,
}
use pi_frame.Watchdog.{Message, Watchdog, Processes, payload_size, get_event}
use pi_frame.Watchdog.Handlers.{command, dispatch, process_event}
use pi_frame.Watchdog.Update.{
  drain, handle, next_event, round, round_with, report, process_update, Loop, count_round,
  count_alive, dump_due,
}
use pi_frame.Watchdog.Queue.{with_queue, dispatch-queue}

-- Fuel: a round for each message, and more.
abbrev pub beyond : ℕ → List Message → ℕ
beyond extra [] = extra
beyond extra (e ∷ es) = suc (beyond extra es)

-- The messages one after the other, without the queue; `clock` has the time by the number of those
-- that are left and the fuel beyond.
abbrev pub handled : Processes → (ℕ → ℕ) → ℕ → List Message → Watchdog → Watchdog
handled valid clock extra [] w = w
handled valid clock extra (e ∷ es) w =
    handled valid clock extra es (dispatch (command e.wdid) valid (clock (beyond extra es)) e w)

-- The payload has the identifier.
abbrev pub Whole : Message → Type 0
Whole e = 4 ≤ payload_size e.wdid

handled-queue :
    (valid : Processes) (clock : ℕ → ℕ) (extra : ℕ) (es qs : List Message) (n : ℕ) (w : Watchdog)
    → handled valid clock extra es (with_queue qs n w)
      ≡ with_queue qs n (handled valid clock extra es w)
handled-queue valid clock extra [] qs n w = refl
handled-queue valid clock extra (e ∷ es) qs n w =
    let t = clock (beyond extra es) in
    ap (handled valid clock extra es) (dispatch-queue qs n (command e.wdid) valid t e w)
    ∙ handled-queue valid clock extra es qs n (dispatch (command e.wdid) valid t e w)

process_event-Whole :
    (valid : Processes) (now : ℕ) (e : Message) (w : Watchdog)
    → Whole e
    → process_event valid now e w ≡ ret (dispatch (command e.wdid) valid now e w)
unfolding process_event
process_event-Whole valid now e w h =
    let long : ltb (payload_size e.wdid) 4 ≡ false = ground arith in simp long refl

drain-Whole :
    (valid : Processes) (clock : ℕ → ℕ) (left : ℕ) (e : Message) (w : Watchdog)
    → Whole e
    → drain valid clock (suc left) (some e) w
      ≡ next_event
          (drain valid clock left)
          (get_event (dispatch (command e.wdid) valid (clock left) e w))
unfolding drain handle
drain-Whole valid clock left e w h =
    ap (λ (o : Outcome Watchdog). o >>= λ v. next_event (drain valid clock left) (get_event v))
      (process_event-Whole valid (clock left) e w h)

get_event-none : (w : Watchdog) → get_event (with_queue [] 0 w) ≡ (none, with_queue [] 0 w)
unfolding get_event
get_event-none w = refl

get_event-some :
    (e : Message) (es : List Message) (w : Watchdog)
    → length es + 1 < 2 ^ 32
    → get_event (with_queue (e ∷ es) (suc (length es)) w) ≡ (some e, with_queue es (length es) w)
unfolding get_event
get_event-some e es w small = ap (λ n. (some e, with_queue es n w)) (omega arith)

drain_lem :
    (valid : Processes) (clock : ℕ → ℕ) (extra : ℕ) (e : Message) (es : List Message) (w : Watchdog)
    → All Whole (e ∷ es)
    → length es < 2 ^ 32
    → drain valid clock (suc (beyond extra es)) (some e) (with_queue es (length es) w)
      ≡ ret (with_queue [] 0 (handled valid clock extra (e ∷ es) w))
unfolding next_event
drain_lem valid clock extra e [] w h small =
    let next = next_event (drain valid clock extra) in
    drain-Whole valid clock extra e (with_queue [] 0 w) h.0
    ∙ ap (λ u. next (get_event u)) (dispatch-queue [] 0 (command e.wdid) valid (clock extra) e w)
    ∙ ap next (get_event-none (dispatch (command e.wdid) valid (clock extra) e w))
drain_lem valid clock extra e (f ∷ es) w h small =
    let n = suc (length es) in
    let t = clock (suc (beyond extra es)) in
    let next = next_event (drain valid clock (suc (beyond extra es))) in
    let w' = dispatch (command e.wdid) valid t e w in
    drain-Whole valid clock (suc (beyond extra es)) e (with_queue (f ∷ es) n w) h.0
    ∙ ap (λ u. next (get_event u)) (dispatch-queue (f ∷ es) n (command e.wdid) valid t e w)
    ∙ ap next (get_event-some f es w' (omega arith))
    ∙ drain_lem valid clock extra f es w' h.1 (omega arith)

report-queue :
    (ts : ℕ) (l : Loop) (es : List Message) (n : ℕ) (w : Watchdog)
    → report ts l (with_queue es n w) ≡ with_queue es n (report ts l w)
unfolding report
report-queue ts l es n w = elim (Bool-cases (dump_due l w)) [
  | inl due ↦ elim (Bool-cases (ltb 5 (ts - l.mwdt) && not w.debug)) [
    | inl send ↦ simp (due, send) refl
    | inr still ↦ simp (due, still) refl
  ]
  | inr later ↦ elim (Bool-cases (ltb 5 (ts - l.mwdt) && not w.debug)) [
    | inl send ↦ simp (later, send) refl
    | inr still ↦ simp (later, still) refl
  ]
]

drain-none :
    (valid : Processes) (clock : ℕ → ℕ) (left : ℕ) (w : Watchdog)
    → drain valid clock (suc left) none (with_queue [] 0 w) ≡ ret (with_queue [] 0 w)
unfolding drain handle next_event get_event
drain-none valid clock left w = refl

round_ran :
    (valid : Processes) (now : ℕ) (clock : ℕ → ℕ) (later fuel : ℕ) (l : Loop) (msg : Option Message)
    (w u : Watchdog)
    → w.running ≡ true
    → drain valid clock fuel msg (report (now + 1) (count_round l) w) ≡ ret u
    → round_with valid now clock later fuel l (msg, w)
      ≡ ret (process_update valid later u, count_alive (now + 1) (count_round l))
unfolding round_with
round_ran valid now clock later fuel l msg w u run done = simp run (rw done refl)

-- A round of a thread that is to run begins with fewer than 2 ^ 32 messages in the queue, each with a payload
-- of 4 bytes or more, and has one round of fuel for each and one more. It returns: first the reports, then
-- the messages one by one in the order of their arrival, with nothing left in the queue, and then the
-- update of the services.
pub round_lem :
    (valid : Processes) (now : ℕ) (clock : ℕ → ℕ) (later extra : ℕ) (l : Loop) (es : List Message)
    (w : Watchdog)
    → w.running ≡ true
    → length es < 2 ^ 32
    → All Whole es
    → round valid now clock later (beyond (suc extra) es) l (with_queue es (length es) w)
      ≡ ret (
        process_update valid later (
            with_queue [] 0
              (handled valid clock (suc extra) es (report (now + 1) (count_round l) w))),
        count_alive (now + 1) (count_round l),
      )
unfolding round
round_lem valid now clock later extra l [] w run small whole =
    let ts = now + 1 in
    let l' = count_round l in
    ap (round_with valid now clock later (suc extra) l) (get_event-none w)
    ∙ round_ran valid now clock later (suc extra) l none (with_queue [] 0 w)
        (with_queue [] 0 (report ts l' w)) run
        (ap (drain valid clock (suc extra) none) (report-queue ts l' [] 0 w)
          ∙ drain-none valid clock extra (report ts l' w))
round_lem valid now clock later extra l (e ∷ es) w run small whole =
    let ts = now + 1 in
    let l' = count_round l in
    let n = length es in
    ap (round_with valid now clock later (suc (beyond (suc extra) es)) l)
      (get_event-some e es w (omega arith))
    ∙ round_ran valid now clock later (suc (beyond (suc extra) es)) l (some e) (with_queue es n w)
        (with_queue [] 0 (handled valid clock (suc extra) (e ∷ es) (report ts l' w))) run
        (ap (drain valid clock (suc (beyond (suc extra) es)) (some e)) (report-queue ts l' es n w)
          ∙ drain_lem valid clock (suc extra) e es (report ts l' w) whole (omega arith))
