-- ===== src/Timer/Slots.antt =====
-- lib/util/utilTimer.c: the slot of a vector that is turned has the timers due within its span.
use pi_frame.Prelude.{ℕ, zero, suc, ◌+◌, ◌%◌, ◌≤◌, ◌<◌, ◌≡◌, ◌≢◌, refl, ltb, arith}
use pi_frame.Timer.{Wheel, place}
use pi_frame.Timer.Spans.{span, turns, Home}

-- A timer that is due within the span of a slot of the vector `k + 1` is put below that vector.
pub place-low :
    (k : ℕ) (w : Wheel) (e : ℕ)
    → k < 4
    → w.now ≤ e
    → e < w.now + span (suc k)
    → e < 4294967296
    → (place w e).0 < suc k
unfolding place
place-low zero w e h le near small = ground arith
place-low (suc zero) w e h le near small = ground arith
place-low (suc (suc zero)) w e h le near small = ground arith
place-low (suc (suc (suc zero))) w e h le near small = ground arith
place-low (suc (suc (suc (suc k)))) w e h le near small = absurd (omega arith)

pub turned-due :
    (k now i e : ℕ)
    → k < 4
    → now % span (suc k) ≡ 0
    → Home now (suc k) (suc k) i e
    → i ≡ turns now (suc k) (suc k) % 64
    → e < now + span (suc k)
turned-due zero now i e h start home same = ground arith
turned-due (suc zero) now i e h start home same = ground arith
turned-due (suc (suc zero)) now i e h start home same = ground arith
turned-due (suc (suc (suc zero))) now i e h start home same = ground arith
turned-due (suc (suc (suc (suc k)))) now i e h start home same = absurd (omega arith)

pub turned-kept :
    (k now i e : ℕ)
    → k < 4
    → now % span (suc k) ≡ 0
    → Home now (suc k) (suc k) i e
    → i ≢ turns now (suc k) (suc k) % 64
    → Home now (suc (suc k)) (suc k) i e
turned-kept zero now i e h start home other = ground arith
turned-kept (suc zero) now i e h start home other = ground arith
turned-kept (suc (suc zero)) now i e h start home other = ground arith
turned-kept (suc (suc (suc zero))) now i e h start home other = ground arith
turned-kept (suc (suc (suc (suc k)))) now i e h start home other = absurd (omega arith)

pub turned-others : (j m now : ℕ) → j ≢ m → turns now m j ≡ turns now (suc m) j
turned-others j m now other = let same : ltb j m ≡ ltb j (suc m) = ground arith in rw same refl

pub turned-next :
    (k now : ℕ)
    → k < 4
    → now % span (suc k) ≡ 0
    → turns now (suc (suc k)) (suc k) ≡ turns now (suc k) (suc k) + 1
turned-next zero now h start = ground arith
turned-next (suc zero) now h start = ground arith
turned-next (suc (suc zero)) now h start = ground arith
turned-next (suc (suc (suc zero))) now h start = ground arith
turned-next (suc (suc (suc (suc k)))) now h start = absurd (omega arith)
