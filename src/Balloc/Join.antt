-- ===== src/Balloc/Join.antt =====
-- One round of the loop of `ba_free`, at a free block of the chain.
use pi_frame.Prelude.{
  ℕ, suc, ◌+◌, ◌*◌, ◌/◌, ◌%◌, ◌^◌, ◌≤◌, ◌<◌, min, ◌≡◌, ◌∙◌, subst, ◌≢◌, true, false, not, ◌&&◌, ◌⊎◌,
  inl, inr, Option, none, some, List, ◌∷◌, ◌++◌, arith, Outcome, ret, fault, ◌>>=◌, ◌==◌, dec_lt,
  ℕ_discrete,
}
use pi_frame.Prelude.Pow.{two_pow_pos, two_pow_suc, mul_two_pow_suc}
use pi_frame.Balloc.{Entry, Bitmap, write, join, buddy_index}
use pi_frame.Balloc.Access.{write_ne, read_lem, read_outside, set_order_lem}
use pi_frame.Balloc.Chain.{Chain, Chain-frame, free_block, pages, used}

-- The bitmap after a merge of the buddies at `q` and `p`.
abbrev pub merged : Bitmap → ℕ → ℕ → ℕ → Bitmap
merged b q p o = write (write b q (free_block (suc o))) p (free_block (suc o))

module _ (b : Bitmap) (p q o : ℕ) (here : b p ≡ some (free_block o))
    (buddy : buddy_index p o ≡ q) where
  pub join_edge : b q ≡ none → join b p ≡ fault
  unfolding join
  join_edge h =
      rw (read_lem b p (free_block o) here, ◌>>=◌) (rw buddy (rw (read_outside b q h, ◌>>=◌)))

  pub join_break :
      (e : Entry) → b q ≡ some e → (not e.allocated && e.order == o) ≡ false → join b p ≡ ret none
  unfolding join
  join_break e there test =
      rw (read_lem b p (free_block o) here, ◌>>=◌)
        (rw buddy (rw (read_lem b q e there, ◌>>=◌) (rw test)))

  pub join_merge :
      b q ≡ some (free_block o)
      → q ≢ p
      → suc o < 2 ^ 7
      → join b p ≡ ret (some (merged b q p o, min q p))
  unfolding join
  join_merge there apart small =
      let up : (o + 1) % 2 ^ 7 ≡ suc o = omega (arith, small) in
      let same : (o == o) ≡ true = ground arith in
      let b₁ : Bitmap = write b q (free_block (suc o)) in
      let still : b₁ p ≡ some (free_block o) = write_ne b q p (free_block (suc o)) apart ∙ here in
      rw (read_lem b p (free_block o) here, ◌>>=◌)
        (rw buddy (
          rw (read_lem b q (free_block o) there, ◌>>=◌)
            (rw same (
              rw (set_order_lem b q (free_block o) there (o + 1), up, ◌>>=◌)
                (rw (read_lem b₁ p (free_block o) still, ◌>>=◌)
                  (rw (set_order_lem b₁ p (free_block o) still (o + 1), up, ◌>>=◌)))))))

-- Raising the orders of two free buddies makes one block of them.
pub merge-Chain :
    (b b' : Bitmap) (i e o m : ℕ) (post : List Entry)
    → i ≡ 2 * m * 2 ^ o
    → suc o < 32
    → b' i ≡ some (free_block (suc o))
    → b' (i + 2 ^ o) ≡ some (free_block (suc o))
    → ((j : ℕ) → i ≢ j → i + 2 ^ o ≢ j → b' j ≡ b j)
    → Chain b i e (free_block o ∷ free_block o ∷ post)
    → Chain b' i e (free_block (suc o) ∷ post)
merge-Chain b b' i e o m post at small low up same c =
    let over : i + 2 ^ o + 2 ^ o ≡ i + 2 ^ suc o = omega (arith, two_pow_suc o) in
    (
      record {
        entry = low;
        aligned = (m, omega (arith, at, mul_two_pow_suc m o));
        small = small;
        quiet = λ j p q. elim (dec_lt j (i + 2 ^ o)) [
          | yes l ↦ let (s, r) = c.0.quiet j p l in (s, same j (omega arith) (omega arith) ∙ r)
          | no l ↦ elim (ℕ_discrete (i + 2 ^ o) j) [
            | yes h ↦ (suc o, subst (λ k. b' k ≡ some (free_block (suc o))) h up)
            | no h ↦
                let (s, r) = c.1.0.quiet j (omega (arith, h)) (omega (arith, q, over)) in
                (s, same j (omega arith) h ∙ r)
          ]
        ];
      },
      Chain-frame b b' (i + 2 ^ suc o) e post
          (λ j p q.
            same j (omega (arith, over, two_pow_pos o)) (omega (arith, over, two_pow_pos o)))
          (subst (λ k. Chain b k e post) over c.1.1),
    )

-- What a round can do at the free block of order `o` behind `pre`.
pub data Joined (b : Bitmap) (nr : ℕ) (pre : List Entry) (o : ℕ) (post : List Entry)
    (r : Outcome (Option (Bitmap × ℕ))) : Type 0 where
  -- the upper buddy would start at the first page behind the end
  edge :
      (m : ℕ)
      → pages pre ≡ 2 * m * 2 ^ o
      → pages pre + 2 ^ o ≡ nr
      → r ≡ fault
      → Joined b nr pre o post r
  halt : r ≡ ret none → Joined b nr pre o post r
  more :
      (b' : Bitmap) (pre' post' : List Entry)
      → r ≡ ret (some (b', pages pre'))
      → Chain b' 0 nr (pre' ++ free_block (suc o) ∷ post')
      → ((j : ℕ) → nr ≤ j → b' j ≡ b j)
      → used 0 (pre' ++ free_block (suc o) ∷ post') ≡ used 0 (pre ++ free_block o ∷ post)
      → pages pre' ≤ pages pre
      → suc o < 32
      → Joined b nr pre o post r

pub parity : (k : ℕ) → ((m : ℕ) × (k ≡ 2 * m)) ⊎ ((m : ℕ) × (k ≡ 2 * m + 1))
parity k = elim (ℕ_discrete (k % 2) 0) [
  | yes h ↦ inl (k / 2, omega (arith, h))
  | no h ↦ inr (k / 2, omega (arith, h))
]
