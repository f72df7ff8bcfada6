-- ===== src/Timer/Cascade.antt =====
-- lib/util/utilTimer.c: `cascade_timers` moves the timers of one slot down and loses none.
use pi_frame.Prelude.{
  ℕ, zero, suc, ◌+◌, ◌/◌, ◌%◌, ◌≤◌, ◌<◌, ◌≡◌, ◌≢◌, refl, sym, ap, ◌∙◌, subst, false, Bool-cases,
  ◌&&◌, none, ◌==◌, arith, All, All-map, ◌⊎◌, inl, inr,
}
use pi_frame.Timer.{Pending, Wheel, add_all, clear, turn, cascade}
use pi_frame.Timer.Spans.{span, turns, Home, span_small}
use pi_frame.Timer.Slots.{place-low, turned-due, turned-kept, turned-others, turned-next}
use pi_frame.Timer.Among.{Among}
use pi_frame.Timer.Held.{Held, Waits, Grown, Soon, Below, add_all-Grown}

-- A home in another vector is one after the turn too.
Home-turned : (m now j i e : ℕ) → j ≢ m → Home now m j i e → Home now (suc m) j i e
Home-turned m now zero i e other h = h
Home-turned m now (suc j) i e other h =
    let same = turned-others (suc j) m now other in
    (
      h.0,
      h.1,
      h.2,
      subst (λ c. c ≤ e / span (suc j)) same h.3,
      subst (λ c. e / span (suc j) < c + 64) same h.4,
      h.5,
    )

Soon-due :
    (k now i : ℕ) (x : Pending)
    → k < 4
    → now % span (suc k) ≡ 0
    → Home now (suc k) (suc k) i x.expires
    → i ≡ turns now (suc k) (suc k) % 64
    → Soon (suc k) now x
Soon-due k now i x h start home same =
    let due = turned-due k now i x.expires h start home same in
    (
      home.2,
      omega (arith, span_small (suc k)),
      home.1,
      λ v e.
          place-low k v x.expires h (subst (λ t. t ≤ x.expires) (sym e) home.2)
            (subst (λ t. x.expires < t + span (suc k)) (sym e) due) home.1,
    )

clear-homes :
    (k : ℕ) (w : Wheel) (i : ℕ)
    → k < 4
    → w.now % span (suc k) ≡ 0
    → i ≡ turns w.now (suc k) (suc k) % 64
    → Held (suc k) w
    → (a b : ℕ)
    → All (λ (y : Pending). Home w.now (suc (suc k)) a b y.expires) ((clear (suc k) i w).vec a b)
unfolding clear
clear-homes k w i h start same held a b = elim (Bool-cases (a == suc k)) [
  | inl level ↦ elim (Bool-cases (b == i)) [
    | inl hit ↦ rw (level, hit) tt
    | inr miss ↦
        let e : a ≡ suc k = ground arith in
        let other : b ≢ turns w.now (suc k) (suc k) % 64 =
          let ne : b ≢ i = ground arith in λ q. ne (q ∙ sym same) in
        rw (level, miss)
          (All-map (λ (y : Pending). Home w.now (suc k) a b y.expires)
            (λ (y : Pending). Home w.now (suc (suc k)) a b y.expires) (w.vec a b)
            (λ y home.
              subst (λ c. Home w.now (suc (suc k)) c b y.expires) (sym e)
                (turned-kept k w.now b y.expires h start
                  (subst (λ c. Home w.now (suc k) c b y.expires) e home) other))
            (held.homes a b))
  ]
  | inr elsewhere ↦
      let other : a ≢ suc k = ground arith in
      rw elsewhere (
        All-map (λ (y : Pending). Home w.now (suc k) a b y.expires)
          (λ (y : Pending). Home w.now (suc (suc k)) a b y.expires) (w.vec a b)
          (λ y home. Home-turned (suc k) w.now a b y.expires other home) (held.homes a b))
]

pub clear-stay :
    (k i : ℕ) (w : Wheel) (a b : ℕ) (x : Pending)
    → (a ≢ k) ⊎ (b ≢ i)
    → Among x (w.vec a b)
    → Among x ((clear k i w).vec a b)
unfolding clear
clear-stay k i w a b x apart h = let miss : (a == k && b == i) ≡ false = ground arith in rw miss h

-- What turning a vector does to the wheel.
pub record Turned (m : ℕ) (w w' : Wheel) : Type 0 where
  pub held : Held m w'
  pub idle : w'.running ≡ none
  pub same_now : w'.now ≡ w.now
  pub keeps : (x : Pending) → Waits x w → Waits x w'

cascade-keeps :
    (k i : ℕ) (w v : Wheel)
    → Grown (suc k) w v
    → ((x : Pending) → Among x (w.vec (suc k) i) → Below (suc k) x v)
    → (x : Pending) → Waits x w
    → Waits x (clear (suc k) i v)
cascade-keeps k i w v grown moved x (a, b, there) = elim (Bool-cases (a == suc k && b == i)) [
  | inl hit ↦
      let e₁ : a ≡ suc k = ground arith in
      let e₂ : b ≡ i = ground arith in
      let l = subst (λ c. Among x (w.vec c i)) e₁ (subst (λ c. Among x (w.vec a c)) e₂ there) in
      let (c, d, low, again) = moved x l in
      (c, d, clear-stay (suc k) i v c d x (inl (ground arith)) again)
  | inr miss ↦ (a, b, clear-stay (suc k) i v a b x (ground arith) (grown.stay a b x there))
]

next_index : (a b c : ℕ) → a ≡ b % 64 → c ≡ b + 1 → (a + 1) % 64 ≡ c % 64
next_index a b c at next = omega arith

turn-root : (k : ℕ) (w : Wheel) → (turn (suc k) w).index 0 ≡ w.index 0
unfolding turn
turn-root k w = let miss : (0 == suc k) ≡ false = ground arith in rw miss refl

turn-indices :
    (k : ℕ) (w : Wheel) (i : ℕ)
    → k < 4
    → w.now % span (suc k) ≡ 0
    → i ≡ turns w.now (suc k) (suc k) % 64
    → Held (suc k) w
    → (j : ℕ) → j < 4
    → (turn (suc k) (clear (suc k) i w)).index (suc j) ≡ turns w.now (suc (suc k)) (suc j) % 64
unfolding turn clear
turn-indices k w i h start same held j lt = elim (Bool-cases (suc j == suc k)) [
  | inl hit ↦
      let e : j ≡ k = ground arith in
      let next = turned-next k w.now h start in
      let at = held.indices k h in
      rw hit (
        subst (λ c. (w.index (suc k) + 1) % 64 ≡ turns w.now (suc (suc k)) (suc c) % 64) (sym e)
          (next_index (w.index (suc k)) (turns w.now (suc k) (suc k))
            (turns w.now (suc (suc k)) (suc k)) at next))
  | inr miss ↦
      let other : suc j ≢ suc k = ground arith in
      rw miss (held.indices j lt ∙ ap (λ c. c % 64) (turned-others (suc j) (suc k) w.now other))
]

pub cascade-Turned :
    (k : ℕ) (w : Wheel)
    → k < 4
    → w.now % span (suc k) ≡ 0
    → Held (suc k) w
    → w.running ≡ none
    → Turned (suc (suc k)) w (cascade (suc k) w)
unfolding cascade turn clear
cascade-Turned k w h start held idle =
    let i = w.index (suc k) in
    let same = held.indices k h in
    let soon =
      All-map (λ (y : Pending). Home w.now (suc k) (suc k) i y.expires) (Soon (suc k) w.now)
        (w.vec (suc k) i) (λ y home. Soon-due k w.now i y h start home same)
        (held.homes (suc k) i) in
    let (grown, moved) = add_all-Grown (suc k) (suc k) (w.vec (suc k) i) w soon held idle in
    let v = add_all (w.vec (suc k) i) w in
    let start' = subst (λ t. t % span (suc k) ≡ 0) (sym grown.same_now) start in
    let same' = subst (λ t. i ≡ turns t (suc k) (suc k) % 64) (sym grown.same_now) same in
    record {
      held = record {
        homes = clear-homes k v i h start' same' grown.held;
        root = turn-root k (clear (suc k) i v) ∙ grown.held.root;
        indices = turn-indices k v i h start' same' grown.held;
      };
      idle = grown.idle;
      same_now = grown.same_now;
      keeps = cascade-keeps k i w v grown moved;
    }
