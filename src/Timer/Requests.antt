-- ===== src/Timer/Requests.antt =====
-- lib/util/utilTimer.c: timers that are added while the timers of a tick run.
use pi_frame.Prelude.{
  ℕ, suc, ◌<◌, ◌≡◌, refl, sym, ap, ◌∙◌, subst, Bool, false, Bool-cases, Option, some, List, [], ◌∷◌,
  ◌++◌, ◌==◌, arith, All, All-append, All-map, append-nil, append_assoc, ret, some-none, inl, inr,
  length,
}
use pi_frame.Timer.{Pending, Wheel, add}
use pi_frame.Timer.Calls.{
  Timer, Timers, Request, adds, deletes, sets, request, requests, timer_add, find_timer,
  expire_time,
}

-- The pointers of the heap are below the next one.
abbrev pub Fresh : Timers → Type 0
Fresh s = All (λ (t : Timer). t.at < s.next) s.heap

abbrev pub Adds : Request → Type 0
Adds (adds msec param owned) = Unit {0}
Adds (deletes key) = ⊥
Adds (sets key msec) = ⊥

-- A timer that is set to go off some milliseconds after the tick.
abbrev pub Set : ℕ → Pending → Type 0
Set jiffies x = (msec : ℕ) × (x.expires ≡ expire_time jiffies msec)

-- From `s` to `s'` the timers `new` were queued, and nothing else happened to the wheel or to a
-- timer of the heap.
pub record Queued (queue new : List Pending) (s s' : Timers) : Type 0 where
  pub wheel : s'.wheel ≡ record (s.wheel) { running = some (queue ++ new) }
  pub same_jiffies : s'.jiffies ≡ s.jiffies
  pub same_called : s'.called ≡ s.called
  pub set : All (Set s.jiffies) new
  pub fresh : Fresh s'
  pub heap : (p : ℕ) (t : Timer) → find_timer p s.heap ≡ some t → find_timer p s'.heap ≡ some t

-- It is below the next pointer if it is in the heap.
find-below :
    (n p : ℕ) (ts : List Timer) (t : Timer)
    → All (λ (u : Timer). u.at < n) ts
    → find_timer p ts ≡ some t
    → p < n
unfolding find_timer
find-below n p [] t h found = absurd (some-none (sym found))
find-below n p (u ∷ ts) t h found = elim (Bool-cases (u.at == p)) [
  | inl hit ↦ let below = h.0 in ground arith
  | inr miss ↦ find-below n p ts t h.1 (simp miss at found)
]

find-new :
    (p : ℕ) (new : Timer) (ts : List Timer) → p < new.at → find_timer p (new ∷ ts) ≡ find_timer p ts
unfolding find_timer
find-new p new ts below = let miss : (new.at == p) ≡ false = ground arith in rw miss refl

pub add-running :
    (x : Pending) (w : Wheel) (queue : List Pending)
    → w.running ≡ some queue
    → add x w ≡ record w { running = some (queue ++ x ∷ []) }
unfolding add
add-running x w queue run = rw run refl

timer_add-Queued :
    (msec : ℕ) (param : Option ℕ) (owned : Bool) (queue : List Pending) (s : Timers)
    → s.wheel.running ≡ some queue
    → Fresh s
    → Queued queue
        (record { timer = s.next; expires = expire_time s.jiffies msec } ∷ [])
        s
        (timer_add msec param owned s).1
unfolding timer_add
timer_add-Queued msec param owned queue s run fresh =
    let x : Pending = record { timer = s.next; expires = expire_time s.jiffies msec } in
    record {
      wheel = add-running x s.wheel queue run;
      same_jiffies = refl;
      same_called = refl;
      set = ((msec, refl), tt);
      fresh = (
        omega arith,
        All-map (λ (t : Timer). t.at < s.next) (λ (t : Timer). t.at < suc s.next) s.heap
            (λ t h. omega arith) fresh,
      );
      heap = λ p t found.
          find-new p
            (record {
              at = s.next;
              key = s.next_key;
              removed = false;
              msec = msec;
              param = param;
              owned = owned;
            })
            s.heap (find-below s.next p s.heap t fresh found)
          ∙ found;
    }

pub Queued-none :
    (queue : List Pending) (s : Timers)
    → s.wheel.running ≡ some queue
    → Fresh s
    → Queued queue [] s s
Queued-none queue s run fresh = record {
  wheel =
      ap (λ (r : Option (List Pending)). record (s.wheel) { running = r })
        (run ∙ ap some (sym (append-nil queue)));
  same_jiffies = refl;
  same_called = refl;
  set = tt;
  fresh = fresh;
  heap = λ p t found. found;
}

pub Queued-running :
    {queue new : List Pending} {s s' : Timers}
    → Queued queue new s s'
    → s'.wheel.running ≡ some (queue ++ new)
Queued-running q = ap (λ (w : Wheel). w.running) q.wheel

pub Queued-then :
    (queue a b : List Pending) (s s₁ s₂ : Timers)
    → Queued queue a s s₁
    → Queued (queue ++ a) b s₁ s₂
    → Queued queue (a ++ b) s s₂
Queued-then queue a b s s₁ s₂ one two = record {
  wheel =
      two.wheel
      ∙ ap (λ (w : Wheel). record w { running = some ((queue ++ a) ++ b) }) one.wheel
      ∙ ap (λ l. record (s.wheel) { running = some l }) (append_assoc queue a b);
  same_jiffies = two.same_jiffies ∙ one.same_jiffies;
  same_called = two.same_called ∙ one.same_called;
  set =
      All-append (Set s.jiffies) a b one.set (subst (λ j. All (Set j) b) one.same_jiffies two.set);
  fresh = two.fresh;
  heap = λ p t found. two.heap p t (one.heap p t found);
}

pub requests-Queued :
    (rs : List Request) (queue : List Pending) (s : Timers)
    → All Adds rs
    → s.wheel.running ≡ some queue
    → Fresh s
    → (s' : Timers) × (new : List Pending) × (requests rs s ≡ ret s')
      × (length new ≡ length rs)
      × Queued queue new s s'
unfolding requests request
requests-Queued [] queue s adding run fresh = (s, [], refl, refl, Queued-none queue s run fresh)
requests-Queued (adds msec param owned ∷ rs) queue s adding run fresh =
    let s₁ = (timer_add msec param owned s).1 in
    let x : Pending = record { timer = s.next; expires = expire_time s.jiffies msec } in
    let one = timer_add-Queued msec param owned queue s run fresh in
    let (s', new, done, many, rest) =
      requests-Queued rs (queue ++ x ∷ []) s₁ adding.1 (Queued-running one) one.fresh in
    (s', (x ∷ []) ++ new, done, ap suc many, Queued-then queue (x ∷ []) new s s₁ s' one rest)
requests-Queued (deletes key ∷ rs) queue s adding run fresh = absurd adding.0
requests-Queued (sets key msec ∷ rs) queue s adding run fresh = absurd adding.0

-- A timer that is found has the pointer by which it is found.
pub find-at : (p : ℕ) (ts : List Timer) (t : Timer) → find_timer p ts ≡ some t → t.at ≡ p
unfolding find_timer
find-at p [] t found = absurd (some-none (sym found))
find-at p (u ∷ ts) t found = elim (Bool-cases (u.at == p)) [
  | inl hit ↦ ground arith
  | inr miss ↦ find-at p ts t (simp miss at found)
]
