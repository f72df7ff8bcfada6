-- ===== src/Timer/Spans.antt =====
-- lib/util/utilTimer.c: where a timer belongs, by the tick at which it is due.
use pi_frame.Prelude.{
  ℕ, zero, suc, ◌+◌, ◌-◌, ◌*◌, ◌/◌, ◌%◌, ◌≤◌, ◌<◌, ◌≡◌, refl, false, Bool-cases, leb, ltb,
  if◌then◌else◌, arith, inl, inr,
}
use pi_frame.Timer.{Wheel, place}

-- The ticks that a slot of `tvecs[k]` spans.
abbrev pub span : ℕ → ℕ
span zero = 1
span (suc zero) = 256
span (suc (suc zero)) = 16384
span (suc (suc (suc zero))) = 1048576
span (suc (suc (suc (suc k)))) = 67108864

-- The turn of `tvecs[k]`, without the wrap of its index: the vectors below `m` have been turned at the
-- tick `now`.
abbrev pub turns : ℕ → ℕ → ℕ → ℕ
turns now m k = if ltb k m then now / span k + 1 else (now + span k - 1) / span k

-- The slot `i` of the vector `k` is the one for a timer that is due at `e`.
abbrev pub Home : ℕ → ℕ → ℕ → ℕ → ℕ → Type 0
Home now m zero i e = (e < 4294967296) × (now ≤ e) × (e < now + 256) × (e % 256 ≡ i)
Home now m (suc k) i e =
    (k < 4)
    × (e < 4294967296)
    × (now ≤ e)
    × (turns now m (suc k) ≤ e / span (suc k))
    × (e / span (suc k) < turns now m (suc k) + 64)
    × (e / span (suc k) % 64 ≡ i)

-- The turn of a vector leaves the 64 slots that follow the tick.
turns-near :
    (k now m e : ℕ)
    → k < 4
    → now + span (suc k) ≤ e
    → e < now + 64 * span (suc k)
    → (turns now m (suc k) ≤ e / span (suc k)) × (e / span (suc k) < turns now m (suc k) + 64)
turns-near zero now m e h le near = elim (Bool-cases (ltb 1 m)) [
  | inl turned ↦ rw turned (omega arith, omega arith)
  | inr waits ↦ rw waits (omega arith, omega arith)
]
turns-near (suc zero) now m e h le near = elim (Bool-cases (ltb 2 m)) [
  | inl turned ↦ rw turned (omega arith, omega arith)
  | inr waits ↦ rw waits (omega arith, omega arith)
]
turns-near (suc (suc zero)) now m e h le near = elim (Bool-cases (ltb 3 m)) [
  | inl turned ↦ rw turned (omega arith, omega arith)
  | inr waits ↦ rw waits (omega arith, omega arith)
]
turns-near (suc (suc (suc zero))) now m e h le near = elim (Bool-cases (ltb 4 m)) [
  | inl turned ↦ rw turned (omega arith, omega arith)
  | inr waits ↦ rw waits (omega arith, omega arith)
]
turns-near (suc (suc (suc (suc k)))) now m e h le near = absurd (omega arith)

level-Home :
    (k now m e : ℕ)
    → k < 4
    → now + span (suc k) ≤ e
    → e < now + 64 * span (suc k)
    → e < 4294967296
    → Home now m (suc k) (e / span (suc k) % 64) e
level-Home k now m e h le near small =
    let (above, below) = turns-near k now m e h le near in
    (h, small, omega arith, above, below, refl)

-- A timer that is due within 2 ^ 31 ticks is put where it belongs.
pub place-Home :
    (m : ℕ) (w : Wheel) (e : ℕ)
    → w.now ≤ e
    → e < w.now + 2147483648
    → e < 4294967296
    → Home w.now m (place w e).0 (place w e).1 e
unfolding place
place-Home m w e le near small =
    let idx = (e + 4294967296 - w.now) % 4294967296 in
    let far : idx ≡ e - w.now = omega arith in
    elim (Bool-cases (ltb idx 256)) [
      | inl a ↦ rw a (small, le, ground arith, refl)
      | inr a ↦ elim (Bool-cases (ltb idx 16384)) [
        | inl b ↦
            rw (a, b) (level-Home 0 w.now m e (omega arith) (ground arith) (ground arith) small)
        | inr b ↦ elim (Bool-cases (ltb idx 1048576)) [
          | inl c ↦
              rw (a, b, c)
                (level-Home 1 w.now m e (omega arith) (ground arith) (ground arith) small)
          | inr c ↦ elim (Bool-cases (ltb idx 67108864)) [
            | inl d ↦
                rw (a, b, c, d)
                  (level-Home 2 w.now m e (omega arith) (ground arith) (ground arith) small)
            | inr d ↦
                let ahead : leb 2147483648 idx ≡ false = ground arith in
                rw (a, b, c, d, ahead)
                  (level-Home 3 w.now m e (omega arith) (ground arith) (omega arith) small)
          ]
        ]
      ]
    ]

pub span_small : (k : ℕ) → span k ≤ 67108864
span_small zero = omega arith
span_small (suc zero) = omega arith
span_small (suc (suc zero)) = omega arith
span_small (suc (suc (suc zero))) = omega arith
span_small (suc (suc (suc (suc k)))) = omega arith
