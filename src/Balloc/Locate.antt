-- ===== src/Balloc/Locate.antt =====
-- Where the lower buddy of a block is: its page starts a block that is no larger.
use pi_frame.Prelude.{
  ℕ, suc, ◌+◌, ◌*◌, ◌^◌, ◌≤◌, ◌<◌, ◌≡◌, refl, sym, ap, ◌∙◌, List, [], ◌∷◌, ◌++◌, arith, dec_lt,
}
use native.Mathlib.Nat.{mul_assoc}
use pi_frame.Prelude.Pow.{two_pow_pos, two_pow_split, mul_two_pow_suc, mul_between}
use pi_frame.Balloc.{Entry, Bitmap}
use pi_frame.Balloc.Chain.{Block, Chain, Chain-le, pages}

-- A block that ends behind the page 2m * 2^o, and not behind (2m + 1) * 2^o, starts there.
straddle :
    (b : Bitmap) (i o m : ℕ) (x : Entry)
    → Block b i x
    → i ≤ 2 * m * 2 ^ o
    → 2 * m * 2 ^ o < i + 2 ^ x.order
    → i + 2 ^ x.order ≤ (2 * m + 1) * 2 ^ o
    → (i ≡ 2 * m * 2 ^ o) × (x.order ≤ o)
straddle b i o m x k low high inside = elim (dec_lt o x.order) [
  | yes larger ↦
      let (a, e) = k.aligned in
      let (s, f, _) = two_pow_split (suc o) x.order larger in
      let start : i ≡ a * s * 2 ^ suc o = e ∙ ap (λ t. a * t) f ∙ sym (mul_assoc a s (2 ^ suc o)) in
      let finish : i + 2 ^ x.order ≡ (a * s + s) * 2 ^ suc o = omega (arith, start, f) in
      let whole = mul_two_pow_suc m o in
      let same : a * s + s ≡ m =
        mul_between m (a * s + s) (2 ^ suc o) (omega (arith, finish, whole))
          (omega (arith, finish, whole, inside, two_pow_pos o, mul_two_pow_suc 1 o)) in
      absurd (omega (arith, finish, whole, ap (λ t. t * 2 ^ suc o) same, high))
  | no smaller ↦
      let (a, e) = k.aligned in
      let (s, f, _) = two_pow_split x.order o (omega arith) in
      let at : 2 * m * 2 ^ o ≡ 2 * m * s * 2 ^ x.order =
        ap (λ t. 2 * m * t) f ∙ sym (mul_assoc (2 * m) s (2 ^ x.order)) in
      let same : 2 * m * s ≡ a =
        mul_between a (2 * m * s) (2 ^ x.order) (omega (arith, e, at, low))
          (omega (arith, e, at, high)) in
      (e ∙ ap (λ t. t * 2 ^ x.order) (sym same) ∙ sym at, omega arith)
]

pub locate :
    (b : Bitmap) (xs : List Entry) (i e o m : ℕ)
    → Chain b i e xs
    → e ≡ (2 * m + 1) * 2 ^ o
    → i ≤ 2 * m * 2 ^ o
    → (front : List Entry) × (z : Entry) × (back : List Entry) × (xs ≡ front ++ z ∷ back)
      × (i + pages front ≡ 2 * m * 2 ^ o)
      × (z.order ≤ o)
locate b [] i e o m c f h = absurd (omega (arith, c, f, h, two_pow_pos o))
locate b (x ∷ xs) i e o m c f h = elim (dec_lt (2 * m * 2 ^ o) (i + 2 ^ x.order)) [
  | yes over ↦
      let (same, le) =
        straddle b i o m x c.0 h over (omega (arith, Chain-le b (i + 2 ^ x.order) e xs c.1, f)) in
      ([], x, xs, refl, omega (arith, same), le)
  | no before ↦
      let (front, z, back, eq, at, le) =
        locate b xs (i + 2 ^ x.order) e o m c.1 f (omega (arith, before)) in
      (x ∷ front, z, back, ap (λ t. x ∷ t) eq, omega (arith, at), le)
]
