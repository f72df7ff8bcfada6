-- ===== src/Balloc/Order.antt =====
-- `ba_order`: the least order whose blocks hold the wanted number of bytes.
use pi_frame.Prelude.{
  ℕ, zero, suc, ◌+◌, ◌-◌, ◌*◌, ◌/◌, ◌%◌, ◌^◌, ◌≤◌, ◌<◌, ◌≡◌, refl, ap, ◌⊎◌, inl, inr, true, false,
  Bool-cases, arith, ◌==◌, dec_lt,
}
use native.Mathlib.Nat.{mul-le-mul_left, mul-le-mul_right, div-eq_of_lt}
use pi_frame.Prelude.Pow.{two_pow_pos}
use pi_frame.Balloc.{order_loop, pages_less_one, order_of}

-- `r` is the least exponent from `i` on, up to `n`, with `len` below 2^r.
abbrev Least : ℕ → ℕ → ℕ → ℕ → Type 0
Least i n len r =
    (i ≤ r) × (r ≤ n) × (len < 2 ^ r) × ((r ≡ i) ⊎ ((p : ℕ) × (r ≡ suc p) × (2 ^ p ≤ len)))

div_zero : (a p : ℕ) → 0 < p → (a / p == 0) ≡ true → a < p
div_zero a p h e = let q : a / p ≡ 0 = ground arith in omega (arith, ap (λ t. p * t) q, h)

div_pos : (a p : ℕ) → 0 < p → (a / p == 0) ≡ false → p ≤ a
div_pos a p h e = let q : 0 < a / p = ground arith in grind arith

order_loop-Least :
    (left i n len : ℕ) → i + left ≡ n → len < 2 ^ n → Least i n len (order_loop left i len)
unfolding order_loop
order_loop-Least zero i n len e h =
    let e' : n ≡ i = omega arith in (omega arith, omega arith, rw (← e') h, inl refl)
order_loop-Least (suc left) i n len e h = elim (Bool-cases (len / 2 ^ i == 0)) [
  | inl done ↦
      rw done (omega arith, omega arith, div_zero len (2 ^ i) (two_pow_pos i) done, inl refl)
  | inr more ↦
      let (a, b, c, d) = order_loop-Least left (i + 1) n len (omega arith) h in
      let low = div_pos len (2 ^ i) (two_pow_pos i) more in
      rw more
        (omega arith, b, c, inr (elim d [ inl same ↦ (i, omega arith, low) | inr found ↦ found ]))
]

-- A division of a number that is not smaller than the divisor leaves a quotient to count down from.
div_suc :
    (a p : ℕ) → 0 < p → p ≤ a → (n : ℕ) × (a / p ≡ suc n) × (a < (n + 2) * p) × (n * p + p ≤ a)
div_suc a p h k =
    let pos : 0 < a / p = elim (dec_lt 0 (a / p)) [
      | yes q ↦ q
      | no q ↦ let z : a / p ≡ 0 = omega arith in absurd (omega (arith, ap (λ t. p * t) z, h, k))
    ] in
    let e : a / p ≡ suc (a / p - 1) = omega arith in
    let m = ap (λ t. p * t) e in (a / p - 1, e, omega (arith, m, h), omega (arith, m, h))

pages_less_one_lem :
    (len page_size : ℕ)
    → 0 < len
    → 0 < page_size
    → len + page_size ≤ 2 ^ 32
    → (n : ℕ) × (pages_less_one len page_size ≡ n)
      × (n < 2 ^ 32)
      × (len ≤ (n + 1) * page_size)
      × (n * page_size < len)
unfolding pages_less_one
pages_less_one_lem len ps h k l =
    let (n, e, f, g) = div_suc (len + ps - 1) ps k (omega arith) in
    let whole : (len + ps + 2 ^ 32 - 1) % 2 ^ 32 ≡ len + ps - 1 = omega arith in
    let small : n * 1 ≤ n * ps = mul-le-mul_left n k in
    (
      n,
      rw (whole, e) (omega (arith, small, g)),
      omega (arith, small, g),
      omega (arith, f),
      omega (arith, g),
    )

-- The order that `ba_order` gives to a length that is no zero, for a page size that is no zero, where their
-- sum is at most 2 ^ 32, so that len + page_size - 1 does not wrap, is at most 32; its block holds
-- the length, and the block of the next smaller order, if there is one, does not.
pub order_of_lem :
    (len page_size : ℕ)
    → 0 < len
    → 0 < page_size
    → len + page_size ≤ 2 ^ 32
    → (order_of len page_size ≤ 32)
      × (len ≤ 2 ^ order_of len page_size * page_size)
      × ((order_of len page_size ≡ 0)
          ⊎ ((p : ℕ) × (order_of len page_size ≡ suc p) × (2 ^ p * page_size < len)))
unfolding order_of
order_of_lem len ps h k l =
    let (n, e, small, up, low) = pages_less_one_lem len ps h k l in
    let (_, b, c, d) = order_loop-Least 32 0 32 n (omega arith) small in
    rw e (
      b,
      omega (arith, up, mul-le-mul_right ps c),
      elim d [
        | inl zeroth ↦ inl zeroth
        | inr (p, q, r) ↦ inr (p, q, omega (arith, low, mul-le-mul_right ps r))
      ],
    )

-- Of no bytes `len--` wraps, and the order is the largest there is.
pub order_of-zero : (page_size : ℕ) → 1 < page_size → page_size < 2 ^ 32 → order_of 0 page_size ≡ 32
unfolding order_of pages_less_one order_loop
order_of-zero ps h k =
    let whole : (0 + ps + 2 ^ 32 - 1) % 2 ^ 32 ≡ ps - 1 = omega arith in
    let none_left : (ps - 1) / ps ≡ 0 = div-eq_of_lt (omega arith) in rw (whole, none_left)
