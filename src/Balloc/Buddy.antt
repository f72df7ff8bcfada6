-- ===== src/Balloc/Buddy.antt =====
-- `BA_BUDDY_INDEX` on aligned pages, and what the small orders of balloc.c keep of seven bits.
use pi_frame.Prelude.{ℕ, suc, ◌+◌, ◌-◌, ◌*◌, ◌%◌, ◌^◌, ◌≤◌, ◌<◌, ◌≡◌, ap, ◌∙◌, arith}
use pi_frame.Prelude.Pow.{xor_bit, two_pow_mono, mul_two_pow_suc}
use pi_frame.Balloc.{buddy_index}

pub buddy_even : (i o m : ℕ) → i ≡ 2 * m * 2 ^ o → buddy_index i o ≡ i + 2 ^ o
buddy_even i o m e =
    ap (λ k. buddy_index k o) e
    ∙ xor_bit o (2 * m)
    ∙ ap (λ k. k * 2 ^ o) (let h : 2 * m + 1 - 2 * (2 * m % 2) ≡ 2 * m + 1 = omega arith in h)
    ∙ omega (arith, e)

pub buddy_odd : (i o m : ℕ) → i ≡ (2 * m + 1) * 2 ^ o → buddy_index i o ≡ 2 * m * 2 ^ o
buddy_odd i o m e =
    ap (λ k. buddy_index k o) e
    ∙ xor_bit o (2 * m + 1)
    ∙ ap (λ k. k * 2 ^ o) (let h : 2 * m + 1 + 1 - 2 * ((2 * m + 1) % 2) ≡ 2 * m = omega arith in h)

pub Aligned-double : (i o m : ℕ) → i ≡ m * 2 ^ suc o → i ≡ 2 * m * 2 ^ o
Aligned-double i o m e = omega (arith, e, mul_two_pow_suc m o)

pub order_fits : (o n : ℕ) → 2 ^ o ≤ n → n < 2 ^ 31 → o < 31
order_fits o n h k = ground (arith, two_pow_mono 31 o)
