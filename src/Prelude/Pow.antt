-- ===== src/Prelude/Pow.antt =====
-- Powers of two, multiples of them, and the exclusive or with one bit.
use Prim.Native.Nat.{
  ℕ, zero, suc, ◌+◌, ◌-◌, ◌*◌, ◌/◌, ◌%◌, ◌^◌, ◌≤◌, ◌<◌, bit_xor, digits, differ, bit_xor-bitwise,
}
use mathlib.Core.Path.{◌≡◌, refl, ap, ◌∙◌}
use native.Mathlib.Omega.{arith}
use native.Mathlib.Nat.{pow-suc, one-le-pow, pow-le-pow_right, mul-le-mul_right, le_refl}
use native.Mathlib.Decide.{dec_lt}

pub two_pow_pos : (k : ℕ) → 0 < 2 ^ k
two_pow_pos k = one-le-pow k 2 (omega arith)

pub two_pow_suc : (k : ℕ) → 2 ^ suc k ≡ 2 * 2 ^ k
two_pow_suc k = omega (arith, pow-suc 2 k)

pub two_pow_mono : (j k : ℕ) → j ≤ k → 2 ^ j ≤ 2 ^ k
two_pow_mono j k h = pow-le-pow_right (omega arith) h

pub mul_two_pow_suc : (n k : ℕ) → n * 2 ^ suc k ≡ 2 * (n * 2 ^ k)
mul_two_pow_suc n k = ap (λ t. n * t) (two_pow_suc k) ∙ omega arith

-- The larger power is a positive multiple of the smaller one.
pub two_pow_split : (j k : ℕ) → j ≤ k → (m : ℕ) × (2 ^ k ≡ m * 2 ^ j) × (0 < m)
two_pow_split j zero h =
    let e : j ≡ 0 = omega arith in (1, omega (arith, ap (λ n. 2 ^ n) e), omega arith)
two_pow_split j (suc k) h = elim (dec_lt k j) [
  | yes p ↦ let e : j ≡ suc k = omega arith in (1, omega (arith, ap (λ n. 2 ^ n) e), omega arith)
  | no p ↦
      let (m, e, q) = two_pow_split j k (omega arith) in
      (2 * m, omega (arith, two_pow_suc k, e), omega arith)
]

-- Consecutive multiples lie a whole step apart.
pub mul_lt : (m n p : ℕ) → m < n → m * p + p ≤ n * p
mul_lt m n p h = omega (arith, mul-le-mul_right {m = suc m} {n = n} p h)

pub mul_between : (m n p : ℕ) → m * p ≤ n * p → n * p < m * p + p → n ≡ m
mul_between m n p h k = elim (dec_lt m n) [
  | yes q ↦ absurd (omega (arith, mul_lt m n p q))
  | no q ↦ elim (dec_lt n m) [ yes r ↦ absurd (omega (arith, mul_lt n m p r)) | no r ↦ omega arith ]
]

xor_fuel :
    (n m a b : ℕ) → a ≤ n → a ≤ m → digits (λ x. x) differ n a b ≡ digits (λ x. x) differ m a b
xor_fuel zero zero a b p q = refl
xor_fuel zero (suc m) zero b p q = refl
xor_fuel zero (suc m) (suc a) b p q = absurd (omega arith)
xor_fuel (suc n) zero zero b p q = refl
xor_fuel (suc n) zero (suc a) b p q = absurd (omega arith)
xor_fuel (suc n) (suc m) zero b p q = refl
xor_fuel (suc n) (suc m) (suc a) b p q =
    rw (xor_fuel n m (suc a / 2) (b / 2) (omega arith) (omega arith))

xor_suc :
    (a b : ℕ) → bit_xor (suc a) b ≡ bit_xor (suc a / 2) (b / 2) * 2 + differ (suc a % 2) (b % 2)
xor_suc a b =
    simp bit_xor-bitwise
      (omega (arith, xor_fuel a (suc a / 2) (suc a / 2) (b / 2) (omega arith) (le_refl _)))

differ-zero : (x : ℕ) → differ x 0 ≡ x
differ-zero zero = refl
differ-zero (suc x) = refl

differ-one : (x : ℕ) → x < 2 → differ x 1 ≡ 1 - x
differ-one zero h = refl
differ-one (suc zero) h = refl
differ-one (suc (suc x)) h = absurd (omega arith)

xor-zero_fuel : (n a : ℕ) → a ≤ n → bit_xor a 0 ≡ a
xor-zero_fuel n zero h = refl
xor-zero_fuel zero (suc a) h = absurd (omega arith)
xor-zero_fuel (suc n) (suc a) h =
    omega (arith, xor_suc a 0, xor-zero_fuel n (suc a / 2) (omega arith), differ-zero (suc a % 2))

zero-xor : (b : ℕ) → bit_xor 0 b ≡ b
zero-xor b = bit_xor-bitwise 0 b

xor_step : (a b : ℕ) → bit_xor a b ≡ bit_xor (a / 2) (b / 2) * 2 + differ (a % 2) (b % 2)
xor_step zero b = omega (arith, zero-xor b, zero-xor (b / 2))
xor_step (suc a) b = xor_suc a b

-- Exclusive or with one bit flips the parity of the multiple.
pub xor_bit : (k n : ℕ) → bit_xor (n * 2 ^ k) (2 ^ k) ≡ (n + 1 - 2 * (n % 2)) * 2 ^ k
xor_bit zero n =
    let e : n * 2 ^ 0 ≡ n = omega arith in
    rw e (
      omega (
        arith,
        xor_step n 1,
        xor-zero_fuel (n / 2) (n / 2) (le_refl _),
        differ-one (n % 2) (omega arith),
      ))
xor_bit (suc k) n =
    let e : n * 2 ^ suc k / 2 ≡ n * 2 ^ k = omega (arith, mul_two_pow_suc n k) in
    let f : 2 ^ suc k / 2 ≡ 2 ^ k = omega (arith, two_pow_suc k) in
    let g : n * 2 ^ suc k % 2 ≡ 0 = omega (arith, mul_two_pow_suc n k) in
    let h : 2 ^ suc k % 2 ≡ 0 = omega (arith, two_pow_suc k) in
    xor_step (n * 2 ^ suc k) (2 ^ suc k)
    ∙ rw (e, f, g, h) (omega (arith, xor_bit k n, mul_two_pow_suc (n + 1 - 2 * (n % 2)) k))
