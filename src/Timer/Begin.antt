-- ===== src/Timer/Begin.antt =====
-- lib/util/utilTimer.c: at the beginning of a tick the vectors are turned whose slots begin there, and then
-- the list that runs has the timers that are due, and all of them.
use pi_frame.Prelude.{
  ℕ, zero, suc, ◌+◌, ◌/◌, ◌%◌, ◌≤◌, ◌<◌, ◌≡◌, ◌≢◌, refl, sym, ap, ◌∙◌, subst, true, false,
  Bool-cases, none, ◌==◌, arith, All-map, inl, inr,
}
use pi_frame.Timer.{Pending, Wheel, cascade, cascades, begin_tick}
use pi_frame.Timer.Spans.{span, turns, Home}
use pi_frame.Timer.Among.{Among, All-Among}
use pi_frame.Timer.Held.{Held, Waits}
use pi_frame.Timer.Cascade.{Turned, cascade-Turned}

span_down : (k now : ℕ) → k < 3 → now % span (suc (suc k)) ≡ 0 → now % span (suc k) ≡ 0
span_down zero now h start = omega arith
span_down (suc zero) now h start = omega arith
span_down (suc (suc zero)) now h start = omega arith
span_down (suc (suc (suc k))) now h start = absurd (omega arith)

-- Where a slot of a vector begins, one of each vector below begins too.
spans_down : (j k now : ℕ) → j < 4 → k ≤ j → now % span (suc j) ≡ 0 → now % span (suc k) ≡ 0
spans_down zero k now h le start = let e : k ≡ 0 = omega arith in rw e start
spans_down (suc j) k now h le start = elim (Bool-cases (k == suc j)) [
  | inl hit ↦ let e : k ≡ suc j = ground arith in rw e start
  | inr miss ↦ spans_down j k now (omega arith) (ground arith) (span_down j now (omega arith) start)
]

-- The index is 1 after the turn just where a slot of the next vector begins.
index_one :
    (k now : ℕ)
    → k < 3
    → now % span (suc k) ≡ 0
    → turns now (suc (suc k)) (suc k) % 64 ≡ 1
    → now % span (suc (suc k)) ≡ 0
index_one zero now h start one = omega arith
index_one (suc zero) now h start one = omega arith
index_one (suc (suc zero)) now h start one = omega arith
index_one (suc (suc (suc k))) now h start one = absurd (omega arith)

index_not_one :
    (k now : ℕ)
    → k < 3
    → now % span (suc k) ≡ 0
    → turns now (suc (suc k)) (suc k) % 64 ≢ 1
    → now % span (suc (suc k)) ≢ 0
index_not_one zero now h start other = ground arith
index_not_one (suc zero) now h start other = ground arith
index_not_one (suc (suc zero)) now h start other = ground arith
index_not_one (suc (suc (suc k))) now h start other = absurd (omega arith)

-- A vector whose slot does not begin now counts as turned.
inside :
    (j m now : ℕ)
    → j < 4
    → (m ≤ suc j → now % span (suc j) ≢ 0)
    → turns now m (suc j) ≡ turns now 5 (suc j)
inside zero m now h out = ground arith
inside (suc zero) m now h out = ground arith
inside (suc (suc zero)) m now h out = ground arith
inside (suc (suc (suc zero))) m now h out = ground arith
inside (suc (suc (suc (suc j)))) m now h out = absurd (omega arith)

Home-inside :
    (k m now i e : ℕ)
    → ((j : ℕ) → j < 4 → m ≤ suc j → now % span (suc j) ≢ 0)
    → Home now m k i e
    → Home now 5 k i e
Home-inside zero m now i e out h = h
Home-inside (suc k) m now i e out h =
    let same = inside k m now h.0 (out k h.0) in
    (
      h.0,
      h.1,
      h.2,
      subst (λ c. c ≤ e / span (suc k)) same h.3,
      subst (λ c. e / span (suc k) < c + 64) same h.4,
      h.5,
    )

Held-inside :
    (m : ℕ) (w : Wheel)
    → ((j : ℕ) → j < 4 → m ≤ suc j → w.now % span (suc j) ≢ 0)
    → Held m w
    → Held 5 w
Held-inside m w out h = record {
  homes = λ k i.
      All-map (λ (x : Pending). Home w.now m k i x.expires)
        (λ (x : Pending). Home w.now 5 k i x.expires) (w.vec k i)
        (λ x home. Home-inside k m w.now i x.expires out home) (h.homes k i);
  root = h.root;
  indices = λ k lt. h.indices k lt ∙ ap (λ c. c % 64) (inside k m w.now lt (out k lt));
}

Turned-then : (m n : ℕ) (u v w : Wheel) → Turned m u v → Turned n v w → Turned n u w
Turned-then m n u v w a b = record {
  held = b.held;
  idle = b.idle;
  same_now = b.same_now ∙ a.same_now;
  keeps = λ x h. b.keeps x (a.keeps x h);
}

cascades-none : (n : ℕ) (w : Wheel) → cascades 0 n w ≡ w
unfolding cascades
cascades-none n w = refl

cascades-stop :
    (left n : ℕ) (w : Wheel)
    → ((cascade n w).index n == 1) ≡ false
    → cascades (suc left) n w ≡ cascade n w
unfolding cascades
cascades-stop left n w stop = rw (stop, cascades) refl

cascades-go :
    (left n : ℕ) (w : Wheel)
    → ((cascade n w).index n == 1) ≡ true
    → cascades (suc left) n w ≡ cascades left (suc n) (cascade n w)
unfolding cascades
cascades-go left n w go = rw (go, cascades) refl

cascades-Turned :
    (left k : ℕ) (w : Wheel)
    → suc k + left ≡ 4
    → w.now % span (suc k) ≡ 0
    → Held (suc k) w
    → w.running ≡ none
    → Turned 5 w (cascades (suc left) (suc k) w)
cascades-Turned zero k w count start held idle =
    let v = cascade (suc k) w in
    let last : suc (suc k) ≡ 5 = omega arith in
    let one = subst (λ m. Turned m w v) last (cascade-Turned k w (omega arith) start held idle) in
    elim (Bool-cases (v.index (suc k) == 1)) [
      | inl go ↦
          subst (Turned 5 w) (sym (cascades-go 0 (suc k) w go ∙ cascades-none (suc (suc k)) v)) one
      | inr stop ↦ subst (Turned 5 w) (sym (cascades-stop 0 (suc k) w stop)) one
    ]
cascades-Turned (suc left) k w count start held idle =
    let v = cascade (suc k) w in
    let one = cascade-Turned k w (omega arith) start held idle in
    let there = one.held.indices k (omega arith) in
    let start' = subst (λ t. t % span (suc k) ≡ 0) (sym one.same_now) start in
    elim (Bool-cases (v.index (suc k) == 1)) [
      | inl go ↦
          let next = index_one k v.now (omega arith) start' (sym there ∙ ground arith) in
          subst (Turned 5 w) (sym (cascades-go (suc left) (suc k) w go)) (
            Turned-then (suc (suc k)) 5 w v (cascades (suc left) (suc (suc k)) v) one
              (cascades-Turned left (suc k) v (omega arith) next one.held one.idle))
      | inr stop ↦
          let ne : v.index (suc k) ≢ 1 = ground arith in
          let out = index_not_one k v.now (omega arith) start' (λ e. ne (there ∙ e)) in
          subst (Turned 5 w) (sym (cascades-stop (suc left) (suc k) w stop)) (record {
            held =
                Held-inside (suc (suc k)) v
                  (λ j lt le s. out (spans_down j (suc k) v.now lt (omega arith) s)) one.held;
            idle = one.idle;
            same_now = one.same_now;
            keeps = one.keeps;
          })
    ]

pub begin_tick-Turned : (w : Wheel) → Held 1 w → w.running ≡ none → Turned 5 w (begin_tick w)
unfolding begin_tick
begin_tick-Turned w held idle = elim (Bool-cases (w.index 0 == 0)) [
  | inl start ↦
      rw start (cascades-Turned 3 0 w (omega arith) (sym held.root ∙ ground arith) held idle)
  | inr inner ↦
      let ne : w.index 0 ≢ 0 = ground arith in
      rw inner (record {
        held =
            Held-inside 1 w (λ j lt le s. ne (held.root ∙ spans_down j 0 w.now lt (omega arith) s))
              held;
        idle = idle;
        same_now = refl;
        keeps = λ x h. h;
      })
]

-- After that, the timers of the list `vec 0 (index 0)` are those that are due now.
pub due_now :
    (w : Wheel) (x : Pending) → Held 5 w → Among x (w.vec 0 (w.index 0)) → x.expires ≡ w.now
due_now w x held there =
    let home =
      All-Among (λ (y : Pending). Home w.now 5 0 (w.index 0) y.expires) (w.vec 0 (w.index 0)) x
        (held.homes 0 (w.index 0)) there in
    let (small, le, near, at) = home in let root = held.root in omega arith

pub later-Home : (k now i e : ℕ) → Home now 5 (suc k) i e → now < e
later-Home zero now i e h = omega (arith, h.3)
later-Home (suc zero) now i e h = omega (arith, h.3)
later-Home (suc (suc zero)) now i e h = omega (arith, h.3)
later-Home (suc (suc (suc zero))) now i e h = omega (arith, h.3)
later-Home (suc (suc (suc (suc k)))) now i e h = absurd (omega (arith, h.0))

pub all_due :
    (w : Wheel) (x : Pending)
    → Held 5 w
    → Waits x w
    → x.expires ≡ w.now
    → Among x (w.vec 0 (w.index 0))
all_due w x held (zero, i, there) now =
    let home =
      All-Among (λ (y : Pending). Home w.now 5 0 i y.expires) (w.vec 0 i) x (held.homes 0 i)
        there in
    subst (λ j. Among x (w.vec 0 j)) (sym home.3 ∙ ap (λ t. t % 256) now ∙ sym held.root) there
all_due w x held (suc k, i, there) now =
    let home =
      All-Among (λ (y : Pending). Home w.now 5 (suc k) i y.expires) (w.vec (suc k) i) x
        (held.homes (suc k) i) there in
    let later = later-Home k w.now i x.expires home in absurd (omega arith)
