-- ===== src/Timer/Held.antt =====
-- lib/util/utilTimer.c: each timer is in the slot for its tick, and stays there while others are added.
use pi_frame.Prelude.{
  ℕ, suc, ◌+◌, ◌%◌, ◌≤◌, ◌<◌, ◌≡◌, refl, sym, ◌∙◌, subst, true, Bool-cases, ◌&&◌, none, List, [],
  ◌∷◌, ◌==◌, arith, All, All-append, inl, inr,
}
use pi_frame.Timer.{Pending, Wheel, place, put, add, add_all}
use pi_frame.Timer.Spans.{turns, Home, place-Home}
use pi_frame.Timer.Among.{Among, Among-left, Among-last}

-- The vectors below `m` have been turned for the tick `now`, the others have not.
pub record Held (m : ℕ) (w : Wheel) : Type 0 where
  pub homes : (k i : ℕ) → All (λ (x : Pending). Home w.now m k i x.expires) (w.vec k i)
  pub root : w.index 0 ≡ w.now % 256
  pub indices : (k : ℕ) → k < 4 → w.index (suc k) ≡ turns w.now m (suc k) % 64

abbrev pub Waits : Pending → Wheel → Type 0
Waits x w = (k : ℕ) × (i : ℕ) × Among x (w.vec k i)

-- What adding timers leaves as it was.
pub record Grown (m : ℕ) (w w' : Wheel) : Type 0 where
  pub held : Held m w'
  pub idle : w'.running ≡ none
  pub same_now : w'.now ≡ w.now
  pub same_index : (k : ℕ) → w'.index k ≡ w.index k
  pub stay : (k i : ℕ) (x : Pending) → Among x (w.vec k i) → Among x (w'.vec k i)

put-homes :
    (m : ℕ) (w : Wheel) (k i : ℕ) (x : Pending)
    → Home w.now m k i x.expires
    → Held m w
    → (a b : ℕ) → All (λ (y : Pending). Home w.now m a b y.expires) ((put (k, i) x w).vec a b)
unfolding put
put-homes m w k i x home h a b = elim (Bool-cases (a == k && b == i)) [
  | inl hit ↦
      let e₁ : a ≡ k = ground arith in
      let e₂ : b ≡ i = ground arith in
      let home' =
        subst (λ c. Home w.now m a c x.expires) (sym e₂)
          (subst (λ c. Home w.now m c i x.expires) (sym e₁) home) in
      rw hit (
        All-append (λ (y : Pending). Home w.now m a b y.expires) (w.vec a b) (x ∷ []) (h.homes a b)
          (home', tt))
  | inr miss ↦ rw miss (h.homes a b)
]

put-stay :
    (w : Wheel) (k i : ℕ) (x : Pending) (a b : ℕ) (y : Pending)
    → Among y (w.vec a b)
    → Among y ((put (k, i) x w).vec a b)
unfolding put
put-stay w k i x a b y h = elim (Bool-cases (a == k && b == i)) [
  | inl hit ↦ rw hit (Among-left y (w.vec a b) (x ∷ []) h)
  | inr miss ↦ rw miss h
]

put-there : (w : Wheel) (k i : ℕ) (x : Pending) → Among x ((put (k, i) x w).vec k i)
unfolding put
put-there w k i x =
    let hit : (k == k && i == i) ≡ true = ground arith in rw hit (Among-last x (w.vec k i))

put-Grown :
    (m : ℕ) (w : Wheel) (k i : ℕ) (x : Pending)
    → Home w.now m k i x.expires
    → Held m w
    → w.running ≡ none
    → Grown m w (put (k, i) x w)
unfolding put
put-Grown m w k i x home h idle = record {
  held = record { homes = put-homes m w k i x home h; root = h.root; indices = h.indices };
  idle = idle;
  same_now = refl;
  same_index = λ a. refl;
  stay = put-stay w k i x;
}

-- A timer that is due within 2 ^ 31 ticks, and whose place is below the vector `n`.
abbrev pub Soon : ℕ → ℕ → Pending → Type 0
Soon n now x =
    (now ≤ x.expires)
    × (x.expires < now + 2147483648)
    × (x.expires < 4294967296)
    × ((v : Wheel) → v.now ≡ now → (place v x.expires).0 < n)

abbrev pub Below : ℕ → Pending → Wheel → Type 0
Below n x w = (k : ℕ) × (i : ℕ) × (k < n) × Among x (w.vec k i)

add-put : (w : Wheel) (x : Pending) → w.running ≡ none → add x w ≡ put (place w x.expires) x w
unfolding add
add-put w x idle = rw idle refl

pub add-Grown :
    (m n : ℕ) (w : Wheel) (x : Pending)
    → Soon n w.now x
    → Held m w
    → w.running ≡ none
    → Grown m w (add x w) × Below n x (add x w)
add-Grown m n w x soon h idle =
    let (le, near, small, low) = soon in
    let home = place-Home m w x.expires le near small in
    let k = (place w x.expires).0 in
    let i = (place w x.expires).1 in
    subst (λ v. Grown m w v × Below n x v) (sym (add-put w x idle))
      (put-Grown m w k i x home h idle, (k, i, low w refl, put-there w k i x))

Below-either :
    (n : ℕ) (x : Pending) (xs : List Pending) (v w : Wheel)
    → Below n x v
    → ((k i : ℕ) (y : Pending) → Among y (v.vec k i) → Among y (w.vec k i))
    → ((y : Pending) → Among y xs → Below n y w)
    → (y : Pending) → Among y (x ∷ xs)
    → Below n y w
Below-either n x xs v w (k, i, low, there) stay rest y (inl e) =
    (k, i, low, stay k i y (subst (λ z. Among z (v.vec k i)) (sym e) there))
Below-either n x xs v w low stay rest y (inr a) = rest y a

pub add_all-Grown :
    (m n : ℕ) (xs : List Pending) (w : Wheel)
    → All (Soon n w.now) xs
    → Held m w
    → w.running ≡ none
    → Grown m w (add_all xs w) × ((x : Pending) → Among x xs → Below n x (add_all xs w))
unfolding add_all
add_all-Grown m n [] w soon h idle = (
  record { held = h; idle = idle; same_now = refl; same_index = λ k. refl; stay = λ k i x a. a },
  λ x a. absurd a,
)
add_all-Grown m n (x ∷ xs) w soon h idle =
    let (one, below) = add-Grown m n w x soon.0 h idle in
    let soon' = subst (λ t. All (Soon n t) xs) (sym one.same_now) soon.1 in
    let (rest, all_below) = add_all-Grown m n xs (add x w) soon' one.held one.idle in
    (
      record {
        held = rest.held;
        idle = rest.idle;
        same_now = rest.same_now ∙ one.same_now;
        same_index = λ k. rest.same_index k ∙ one.same_index k;
        stay = λ k i y a. rest.stay k i y (one.stay k i y a);
      },
      λ y a. Below-either n x xs (add x w) (add_all xs (add x w)) below rest.stay all_below y a,
    )
