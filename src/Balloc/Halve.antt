-- ===== src/Balloc/Halve.antt =====
-- The second loop of `ba_alloc`: a free block is cut down to the order that is wanted.
use pi_frame.Prelude.{
  ℕ, zero, suc, ◌+◌, ◌-◌, ◌*◌, ◌%◌, ◌^◌, ◌≤◌, ◌<◌, ◌≡◌, refl, sym, ◌∙◌, subst, ◌≢◌, true, false,
  some, List, [], ◌∷◌, ◌++◌, append_assoc, arith, Outcome, ret, ◌>>=◌, ltb,
}
use pi_frame.Prelude.Pow.{two_pow_pos, two_pow_suc}
use pi_frame.Balloc.{Entry, Bitmap, write, buddy_index, halve, split_loop}
use pi_frame.Balloc.Access.{write_self, write_ne, read_lem, set_order_lem}
use pi_frame.Balloc.Chain.{Block, Chain, Chain-frame, Chain-le, free_block}
use pi_frame.Balloc.Buddy.{buddy_even, Aligned-double}

-- What a round of halving leaves of the bitmap.
abbrev halved : Bitmap → ℕ → ℕ → Bitmap
halved b i o = write (write b i (free_block o)) (i + 2 ^ o) (free_block o)

halve_lem :
    (b : Bitmap) (i o : ℕ)
    → Block b i (free_block (suc o))
    → halve b i (free_block (suc o)) ≡ ret (halved b i o)
unfolding halve
halve_lem b i o k =
    let (m, e) = k.aligned in
    let (s, q) =
      k.quiet (i + 2 ^ o) (omega (arith, two_pow_pos o))
        (omega (arith, two_pow_pos o, two_pow_suc o)) in
    let cut : (suc o + 2 ^ 7 - 1) % 2 ^ 7 ≡ o = omega (arith, k.small) in
    let low : o % 2 ^ 7 ≡ o = omega (arith, k.small) in
    let buddy : buddy_index i o ≡ i + 2 ^ o = buddy_even i o m (Aligned-double i o m e) in
    let apart : i ≢ i + 2 ^ o = omega (arith, two_pow_pos o) in
    let b₁ : Bitmap = write b i (free_block o) in
    let there : b₁ (i + 2 ^ o) ≡ some (free_block s) =
      write_ne b i (i + 2 ^ o) (free_block o) apart ∙ q in
    rw (
      set_order_lem b i (free_block (suc o)) k.entry (suc o + 2 ^ 7 - 1),
      cut,
      read_lem b₁ i (free_block o) (write_self b i (free_block o)),
      buddy,
      set_order_lem b₁ (i + 2 ^ o) (free_block s) there o,
      low,
    )

-- Outside of the two entries it writes, a round changes nothing.
halved_ne : (b : Bitmap) (i o j : ℕ) → i ≢ j → i + 2 ^ o ≢ j → halved b i o j ≡ b j
halved_ne b i o j p q =
    write_ne (write b i (free_block o)) (i + 2 ^ o) j (free_block o) q
    ∙ write_ne b i j (free_block o) p

halved-lower :
    (b : Bitmap) (i o : ℕ) → Block b i (free_block (suc o)) → Block (halved b i o) i (free_block o)
halved-lower b i o k = record {
  entry =
      write_ne (write b i (free_block o)) (i + 2 ^ o) i (free_block o)
        (omega (arith, two_pow_pos o))
      ∙ write_self b i (free_block o);
  aligned = let (m, e) = k.aligned in (2 * m, Aligned-double i o m e);
  small = omega (arith, k.small);
  quiet = λ j p q.
      let (s, r) = k.quiet j p (omega (arith, q, two_pow_suc o)) in
      (s, halved_ne b i o j (omega arith) (omega arith) ∙ r);
}

halved-upper :
    (b : Bitmap) (i o : ℕ)
    → Block b i (free_block (suc o))
    → Block (halved b i o) (i + 2 ^ o) (free_block o)
halved-upper b i o k = record {
  entry = write_self (write b i (free_block o)) (i + 2 ^ o) (free_block o);
  aligned = let (m, e) = k.aligned in (2 * m + 1, omega (arith, Aligned-double i o m e));
  small = omega (arith, k.small);
  quiet = λ j p q.
      let (s, r) = k.quiet j (omega arith) (omega (arith, q, two_pow_suc o)) in
      (s, halved_ne b i o j (omega arith) (omega arith) ∙ r);
}

-- The free blocks that halving an order `o + k` down to `o` leaves behind, lowest first.
abbrev pub halves : ℕ → ℕ → List Entry
halves o zero = []
halves o (suc k) = halves o k ++ (free_block (o + k) ∷ [])

split_loop_stop :
    (fuel o i : ℕ) (b : Bitmap)
    → o < 2 ^ 8
    → b i ≡ some (free_block o)
    → split_loop (suc fuel) b o i ≡ ret b
unfolding split_loop
split_loop_stop fuel o i b h q =
    let test : ltb (o % 2 ^ 8) o ≡ false = ground arith in
    rw (read_lem b i (free_block o) q, ◌>>=◌) (rw test)

split_loop_more :
    (fuel o i t : ℕ) (b : Bitmap)
    → o ≤ t
    → o < 2 ^ 8
    → Block b i (free_block (suc t))
    → split_loop (suc fuel) b o i ≡ split_loop fuel (halved b i t) o i
unfolding split_loop
split_loop_more fuel o i t b l h k =
    let test : ltb (o % 2 ^ 8) (suc t) ≡ true = ground arith in
    rw (read_lem b i (free_block (suc t)) k.entry, ◌>>=◌) (rw test (rw (halve_lem b i t k)))

-- A round of halving puts two blocks in the place of one.
halved-Chain :
    (b : Bitmap) (i e t : ℕ) (post : List Entry)
    → Chain b i e (free_block (suc t) ∷ post)
    → Chain (halved b i t) i e (free_block t ∷ free_block t ∷ post)
halved-Chain b i e t post c =
    let over : i + 2 ^ suc t ≡ i + 2 ^ t + 2 ^ t = omega (arith, two_pow_suc t) in
    let rest : Chain (halved b i t) (i + 2 ^ suc t) e post =
      Chain-frame b (halved b i t) (i + 2 ^ suc t) e post
        (λ j p q.
          halved_ne b i t j (omega (arith, two_pow_pos (suc t), p))
            (omega (arith, two_pow_pos t, two_pow_suc t, p)))
        c.1 in
    (
      halved-lower b i t c.0,
      (halved-upper b i t c.0, subst (λ x. Chain (halved b i t) x e post) over rest),
    )

-- What the loop leaves: the block of the wanted order in front of the halves that it cut off, and
-- nothing changed outside.
abbrev pub Split : Bitmap → ℕ → ℕ → ℕ → ℕ → List Entry → Outcome Bitmap → Type 0
Split b o k i e post r =
    (b' : Bitmap) × (r ≡ ret b')
    × Chain b' i e (free_block o ∷ (halves o k ++ post))
    × ((j : ℕ) → j < i → b' j ≡ b j)
    × ((j : ℕ) → e ≤ j → b' j ≡ b j)

pub split_loop_lem :
    (k fuel o t i e : ℕ) (b : Bitmap) (post : List Entry)
    → t ≡ o + k
    → k < fuel
    → o < 2 ^ 8
    → Chain b i e (free_block t ∷ post)
    → Split b o k i e post (split_loop fuel b o i)
split_loop_lem k zero o t i e b post q f h c = absurd (omega arith)
split_loop_lem zero (suc fuel) o t i e b post q f h c =
    let q' : t ≡ o = omega arith in
    let c' : Chain b i e (free_block o ∷ post) =
      subst (λ x. Chain b i e (free_block x ∷ post)) q' c in
    (b, split_loop_stop fuel o i b h c'.0.entry, c', λ j p. refl, λ j p. refl)
split_loop_lem (suc k) (suc fuel) o t i e b post q f h c =
    let q' : t ≡ suc (o + k) = omega arith in
    let c' : Chain b i e (free_block (suc (o + k)) ∷ post) =
      subst (λ x. Chain b i e (free_block x ∷ post)) q' c in
    let (b', run, chain, before, after) =
      split_loop_lem k fuel o (o + k) i e (halved b i (o + k)) (free_block (o + k) ∷ post) refl
        (omega arith) h (halved-Chain b i e (o + k) post c') in
    let past : i + 2 ^ suc (o + k) ≤ e = Chain-le b (i + 2 ^ suc (o + k)) e post c'.1 in
    let step = split_loop_more fuel o i (o + k) b (omega arith) h c'.0 in
    let regroup = append_assoc (halves o k) (free_block (o + k) ∷ []) post in
    (
      b',
      step ∙ run,
      subst (λ x. Chain b' i e (free_block o ∷ x)) (sym regroup) chain,
      λ j p.
          before j p ∙ halved_ne b i (o + k) j (omega arith) (omega (arith, two_pow_pos (o + k))),
      λ j p.
          after j p
          ∙ halved_ne b i (o + k) j (omega (arith, two_pow_pos (suc (o + k))))
              (omega (arith, two_pow_pos (o + k), two_pow_suc (o + k))),
    )
