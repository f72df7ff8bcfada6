-- ===== src/Timer/Fire.antt =====
-- lib/util/utilTimer.c: a tick with timers that want to be called again, as part of the wheel's ticks.
use pi_frame.Prelude.{
  ℕ, suc, ◌≡◌, refl, sym, ap, ap₂, ◌∙◌, subst, true, false, Bool-cases, Option, none, some, List,
  [], ◌∷◌, ◌++◌, ◌==◌, ◌&&◌, arith, All, All-append, append-nil, append_assoc, ret, ◌>>=◌, inl, inr,
  map, length,
}
use mathlib.Core.Path.{fun_ext}
use pi_frame.Timer.{Pending, Wheel}
use pi_frame.Timer.Line.{due}
use pi_frame.Timer.Requests.{
  Fresh, Adds, Set, Queued, Queued-then, Queued-running, requests-Queued, add-running, find-at,
}
use pi_frame.Timer.Calls.{
  Timer, Timers, Program, find_timer, expire_time, call_timer, found, reuse, set_due, fire,
  fire_first,
}

-- Functions that always want to be called again, and add timers at most.
abbrev pub Periodic : Program → Type 0
Periodic program = (key tick : ℕ) → All Adds (program key tick).0 × ((program key tick).1 ≡ true)

-- A timer that is in the heap and was not removed.
abbrev pub Live : Timers → Pending → Type 0
Live s x = (t : Timer) × (find_timer x.timer s.heap ≡ some t) × (t.removed ≡ false)

abbrev key_of : Option Timer → ℕ
key_of none = 0
key_of (some t) = t.key

abbrev pub key : Timers → Pending → ℕ
key s x = key_of (find_timer x.timer s.heap)

abbrev msec_of : Option Timer → ℕ
msec_of none = 0
msec_of (some t) = t.msec

-- A timer that is put back for its next time.
abbrev pub back : Timers → Pending → Pending
back s x = record {
  timer = x.timer;
  expires = expire_time s.jiffies (msec_of (find_timer x.timer s.heap));
}

-- The timers of a list are put back, each once and in their order, each behind as many new timers as its
-- function has asked for at the tick.
abbrev pub Requeued : Program → ℕ → Timers → List Pending → List Pending → Type 0
Requeued program tick s [] queued = queued ≡ []
Requeued program tick s (x ∷ l) queued =
    (own : List Pending) × (rest : List Pending) × (queued ≡ (own ++ back s x ∷ []) ++ rest)
    × (length own ≡ length (program (key s x) tick).0)
    × Requeued program tick s l rest

abbrev called_with : ℕ → Timers → Timers
called_with k s = record s { called = s.called ++ k ∷ [] }

reuse-Queued :
    (t : Timer) (queue : List Pending) (s : Timers)
    → s.wheel.running ≡ some queue
    → Fresh s
    → Queued queue
        (record { timer = t.at; expires = expire_time s.jiffies t.msec } ∷ [])
        s
        (reuse t true s)
unfolding reuse
reuse-Queued t queue s run fresh = record {
  wheel =
      add-running (record { timer = t.at; expires = expire_time s.jiffies t.msec }) s.wheel queue
        run;
  same_jiffies = refl;
  same_called = refl;
  set = ((t.msec, refl), tt);
  fresh = fresh;
  heap = λ p u found. found;
}

call_timer-Queued :
    (program : Program) (x : Pending) (queue : List Pending) (s : Timers)
    → Periodic program
    → Live s x
    → s.wheel.running ≡ some queue
    → Fresh s
    → (s' : Timers) × (own : List Pending) × (call_timer program x s ≡ ret s')
      × (length own ≡ length (program (key s x) s.wheel.now).0)
      × Queued queue (own ++ back s x ∷ []) (called_with (key s x) s) s'
unfolding call_timer found
call_timer-Queued program x queue s periodic (t, there, kept) run fresh =
    let s₀ = called_with t.key s in
    let (adding, again) = periodic t.key s.wheel.now in
    let (r, own, done, many, one) =
      requests-Queued (program t.key s.wheel.now).0 queue s₀ adding run fresh in
    let two = reuse-Queued t (queue ++ own) r (Queued-running one) one.fresh in
    let y : Pending = record { timer = t.at; expires = expire_time r.jiffies t.msec } in
    let same : y ≡ back s x =
      ap₂ (λ p e. record { timer = p; expires = e }) (find-at x.timer s.heap t there)
        (ap₂ expire_time one.same_jiffies (ap msec_of (sym there))) in
    let both = Queued-then queue own (y ∷ []) s₀ r (reuse t true r) one two in
    (
      reuse t true r,
      own,
      rw there (simp kept (rw done (rw (one.heap x.timer t there) (rw again refl)))),
      many ∙ ap (λ o. length (program (key_of o) s.wheel.now).0) (sym there),
      subst (λ k. Queued queue (own ++ back s x ∷ []) (called_with k s) (reuse t true r))
          (sym (ap key_of there))
          (subst (λ z. Queued queue (own ++ z ∷ []) s₀ (reuse t true r)) same both),
    )

-- The list of the tick, written again and again.
set_due-vec :
    (l l' : List Pending) (w : Wheel) (r : Option (List Pending)) (a b : ℕ)
    → (set_due l (record (set_due l' w) { running = r })).vec a b ≡ (set_due l w).vec a b
unfolding set_due
set_due-vec l l' w r a b = elim (Bool-cases (a == 0 && b == w.index 0)) [
  | inl hit ↦ rw hit refl
  | inr miss ↦ rw miss refl
]

set_due-again :
    (l l' : List Pending) (w : Wheel) (r : Option (List Pending))
    → set_due l (record (set_due l' w) { running = r }) ≡ record (set_due l w) { running = r }
unfolding set_due
set_due-again l l' w r =
    ap (λ (v : ℕ → ℕ → List Pending). record w { vec = v; running = r })
      (fun_ext λ a. fun_ext λ b. set_due-vec l l' w r a b)

pub set_due-due : (l : List Pending) (w : Wheel) → (set_due l w).vec 0 (w.index 0) ≡ l
unfolding set_due
set_due-due l w = let hit : (0 == 0 && w.index 0 == w.index 0) ≡ true = ground arith in rw hit refl

due_write : (w : Wheel) (a b : ℕ) → (set_due (due w) w).vec a b ≡ w.vec a b
unfolding set_due
due_write w a b = elim (Bool-cases (a == 0 && b == w.index 0)) [
  | inl hit ↦
      let e₁ : a ≡ 0 = ground arith in
      let e₂ : b ≡ w.index 0 = ground arith in rw hit (sym (ap₂ (λ (c d : ℕ). w.vec c d) e₁ e₂))
  | inr miss ↦ rw miss refl
]

pub set_due-same : (w : Wheel) → set_due (due w) w ≡ w
unfolding set_due
set_due-same w =
    ap (λ (v : ℕ → ℕ → List Pending). record w { vec = v })
      (fun_ext λ a. fun_ext λ b. due_write w a b)

-- Fuel: a round for each timer of the tick, and more.
abbrev pub rounds : ℕ → List Pending → ℕ
rounds extra [] = extra
rounds extra (x ∷ xs) = suc (rounds extra xs)

-- What the timers of a tick leave when they have run.
pub record Fired (program : Program) (w : Wheel) (queue new l : List Pending) (s s' : Timers)
    : Type 0 where
  pub requeued : Requeued program w.now s l new
  pub wheel : s'.wheel ≡ record (set_due [] w) { running = some (queue ++ new) }
  pub same_jiffies : s'.jiffies ≡ s.jiffies
  pub called : s'.called ≡ s.called ++ map (key s) l
  pub set : All (Set s.jiffies) new
  pub fresh : Fresh s'
  pub heap : (p : ℕ) (t : Timer) → find_timer p s.heap ≡ some t → find_timer p s'.heap ≡ some t

keys_same :
    (l : List Pending) (s s' : Timers)
    → ((p : ℕ) (t : Timer) → find_timer p s.heap ≡ some t → find_timer p s'.heap ≡ some t)
    → All (Live s) l
    → (map (key s') l ≡ map (key s) l) × All (Live s') l
keys_same [] s s' heap live = (refl, tt)
keys_same (x ∷ l) s s' heap live =
    let (t, there, kept) = live.0 in
    let (keys, live') = keys_same l s s' heap live.1 in
    (
      rw (ap key_of (heap x.timer t there ∙ sym there)) (rw keys refl),
      ((t, heap x.timer t there, kept), live'),
    )

-- Timers whose keys and times are the same at both states.
Requeued-same :
    (program : Program) (tick : ℕ) (l queued : List Pending) (s s' : Timers)
    → s'.jiffies ≡ s.jiffies
    → ((p : ℕ) (t : Timer) → find_timer p s.heap ≡ some t → find_timer p s'.heap ≡ some t)
    → All (Live s) l
    → Requeued program tick s' l queued
    → Requeued program tick s l queued
Requeued-same program tick [] queued s s' same heap live r = r
Requeued-same program tick (x ∷ l) queued s s' same heap live (own, rest, place, many, r) =
    let (t, there, kept) = live.0 in
    let found : find_timer x.timer s'.heap ≡ find_timer x.timer s.heap =
      heap x.timer t there ∙ sym there in
    let again : back s' x ≡ back s x =
      ap₂ (λ j o. record { timer = x.timer; expires = expire_time j (msec_of o) }) same found in
    (
      own,
      rest,
      place ∙ ap (λ y. (own ++ y ∷ []) ++ rest) again,
      many ∙ ap (λ o. length (program (key_of o) tick).0) found,
      Requeued-same program tick l rest s s' same heap live.1 r,
    )

slot_list :
    (l : List Pending) (w : Wheel) (queue : List Pending) (s : Timers)
    → s.wheel ≡ record (set_due l w) { running = some queue }
    → s.wheel.vec 0 (s.wheel.index 0) ≡ l
unfolding set_due
slot_list l w queue s at = ap due at ∙ set_due-due l w

pub fire_lem :
    (program : Program) (l : List Pending) (extra : ℕ) (w : Wheel) (queue : List Pending)
    (s : Timers)
    → Periodic program
    → s.wheel ≡ record (set_due l w) { running = some queue }
    → All (Live s) l
    → Fresh s
    → (s' : Timers) × (new : List Pending) × (fire program (rounds (suc extra) l) s ≡ ret s')
      × Fired program w queue new l s s'
unfolding fire fire_first set_due
fire_lem program [] extra w queue s periodic at live fresh = (
  s,
  [],
  ap (λ l. fire_first program (fire program extra) l s) (slot_list [] w queue s at),
  record {
    requeued = refl;
    wheel =
        at
        ∙ ap (λ (q : List Pending). record (set_due [] w) { running = some q })
            (sym (append-nil queue));
    same_jiffies = refl;
    called = sym (append-nil s.called);
    set = tt;
    fresh = fresh;
    heap = λ p t found. found;
  },
)
fire_lem program (x ∷ l) extra w queue s periodic at live fresh =
    let s₁ : Timers = record s { wheel = set_due l s.wheel } in
    let at₁ = ap (set_due l) at ∙ set_due-again l (x ∷ l) w (some queue) in
    let (s₂, own, done, many, one) =
      call_timer-Queued program x queue s₁ periodic live.0 (ap (λ (v : Wheel). v.running) at₁)
        fresh in
    let new = own ++ back s x ∷ [] in
    let at₂ = one.wheel ∙ ap (λ (v : Wheel). record v { running = some (queue ++ new) }) at₁ in
    let (keys, live₂) = keys_same l s s₂ one.heap live.1 in
    let (s', new', done', rest) =
      fire_lem program l extra w (queue ++ new) s₂ periodic at₂ live₂ one.fresh in
    let next = fire program (rounds (suc extra) l) in
    (
      s',
      new ++ new',
      ap (λ m. fire_first program next m s) (slot_list (x ∷ l) w queue s at)
          ∙ ap (λ o. o >>= next) done
          ∙ done',
      record {
        requeued = (
          own,
          new',
          refl,
          many ∙ ap (λ (v : Wheel). length (program (key s x) v.now).0) at₁,
          Requeued-same program w.now l new' s s₂ one.same_jiffies one.heap live.1 rest.requeued,
        );
        wheel =
            rest.wheel
            ∙ ap (λ (q : List Pending). record (set_due [] w) { running = some q })
                (append_assoc queue new new');
        same_jiffies = rest.same_jiffies ∙ one.same_jiffies;
        called =
            rest.called
            ∙ ap₂ (λ (a b : List ℕ). a ++ b) one.same_called keys
            ∙ append_assoc s.called (key s x ∷ []) (map (key s) l);
        set =
            All-append (Set s.jiffies) new new' one.set
              (subst (λ j. All (Set j) new') one.same_jiffies rest.set);
        fresh = rest.fresh;
        heap = λ p t found. rest.heap p t (one.heap p t found);
      },
    )
