-- ===== src/Balloc/Merge.antt =====
-- The loop of `ba_free` joins a free block with its buddy as long as that is free and as large.
use pi_frame.Prelude.{
  ℕ, suc, ◌+◌, ◌*◌, ◌^◌, ◌≤◌, ◌<◌, min, ◌≡◌, refl, sym, ap, ◌∙◌, subst, ◌≢◌, true, not, ◌&&◌,
  Bool-cases, inl, inr, none, some, List, [], ◌∷◌, ◌++◌, append_assoc, arith, ret, ◌==◌,
}
use pi_frame.Prelude.Pow.{two_pow_pos, two_pow_suc}
use pi_frame.Balloc.{Entry, Bitmap, write, join, buddy_index}
use pi_frame.Balloc.Access.{write_self, write_ne}
use pi_frame.Balloc.Buddy.{buddy_even, buddy_odd, order_fits}
use pi_frame.Balloc.Chain.{
  Chain, Chain-append, Chain-split, Chain-frame, Chain-le, free_block, pages, used, used-append,
}
use pi_frame.Balloc.Locate.{locate}
use pi_frame.Balloc.Join.{
  Joined, edge, halt, more, merged, merge-Chain, parity, join_edge, join_break, join_merge,
}

eq_free : (e : Entry) (o : ℕ) → (not e.allocated && e.order == o) ≡ true → e ≡ free_block o
eq_free e o h = ground arith

merged_ne : (b : Bitmap) (q p o j : ℕ) → q ≢ j → p ≢ j → merged b q p o j ≡ b j
merged_ne b q p o j h k =
    write_ne (write b q (free_block (suc o))) p j (free_block (suc o)) k
    ∙ write_ne b q j (free_block (suc o)) h

-- Two free buddies hold no marked block, and neither does their union.
used-merge :
    (pre post : List Entry) (o : ℕ)
    → used 0 (pre ++ free_block (suc o) ∷ post) ≡ used 0 (pre ++ free_block o ∷ free_block o ∷ post)
used-merge pre post o =
    let h : 0 + pages pre + 2 ^ suc o ≡ 0 + pages pre + 2 ^ o + 2 ^ o =
      omega (arith, two_pow_suc o) in
    used-append 0 pre (free_block (suc o) ∷ post)
    ∙ ap (λ k. used 0 pre ++ used k post) h
    ∙ sym (used-append 0 pre (free_block o ∷ free_block o ∷ post))

module _ (b : Bitmap) (nr : ℕ) (bounded : (j : ℕ) → nr ≤ j → b j ≡ none) (fits : nr < 2 ^ 31) where
  -- The buddy lies above.
  join_up :
      (pre : List Entry) (o m : ℕ) (post : List Entry)
      → pages pre ≡ 2 * m * 2 ^ o
      → Chain b 0 (pages pre) pre
      → Chain b (pages pre) nr (free_block o ∷ post)
      → Joined b nr pre o post (join b (pages pre))
  join_up pre o m [] at front back = edge m at back.1 (
      join_edge b (pages pre) (pages pre + 2 ^ o) o back.0.entry (buddy_even (pages pre) o m at)
        (bounded (pages pre + 2 ^ o) (omega (arith, back.1))))
  join_up pre o m (z ∷ post) at front back =
      let p = pages pre in
      let q = pages pre + 2 ^ o in
      let buddy = buddy_even p o m at in
      let there = back.1.0.entry in
      let apart : q ≢ p = omega (arith, two_pow_pos o) in
      elim (Bool-cases (not z.allocated && z.order == o)) [
        | inr test ↦ halt (join_break b p q o back.0.entry buddy z there test)
        | inl test ↦
            let e = eq_free z o test in
            let back' : Chain b p nr (free_block o ∷ free_block o ∷ post) =
              subst (λ y. Chain b p nr (free_block o ∷ y ∷ post)) e back in
            let reach = Chain-le b (q + 2 ^ o) nr post back'.1.1 in
            let small = order_fits (suc o) nr (omega (arith, reach, two_pow_suc o)) fits in
            let b' = merged b q p o in
            let lower : min q p ≡ p = omega arith in
            more b' pre post
              (join_merge b p q o back.0.entry buddy back'.1.0.entry apart (omega (arith, small))
                ∙ ap (λ k. ret (some (b', k))) lower)
              (Chain-append b' 0 p nr pre (free_block (suc o) ∷ post)
                (Chain-frame b b' 0 p pre (λ j _ l. merged_ne b q p o j (omega arith) (omega arith))
                  front)
                (merge-Chain b b' p nr o m post at (omega (arith, small))
                  (write_self (write b q (free_block (suc o))) p (free_block (suc o)))
                  (write_ne (write b q (free_block (suc o))) p q (free_block (suc o))
                      (omega (arith, two_pow_pos o))
                    ∙ write_self b q (free_block (suc o)))
                  (λ j h k. merged_ne b q p o j k h) back'))
              (λ j l.
                merged_ne b q p o j (omega (arith, reach, two_pow_pos o))
                  (omega (arith, reach, two_pow_pos o)))
              (used-merge pre post o ∙ ap (λ y. used 0 (pre ++ free_block o ∷ y ∷ post)) (sym e))
              (omega arith) (omega (arith, small))
      ]

  -- Blocks between a page and itself: there are none.
  Chain-nil : (i e : ℕ) (xs : List Entry) → Chain b i e xs → i ≡ e → xs ≡ []
  Chain-nil i e [] c h = refl
  Chain-nil i e (x ∷ xs) c h =
      absurd (omega (arith, Chain-le b (i + 2 ^ x.order) e xs c.1, two_pow_pos x.order))

  -- The buddy lies below.
  join_down :
      (pre : List Entry) (o m : ℕ) (post : List Entry)
      → pages pre ≡ (2 * m + 1) * 2 ^ o
      → Chain b 0 (pages pre) pre
      → Chain b (pages pre) nr (free_block o ∷ post)
      → Joined b nr pre o post (join b (pages pre))
  join_down pre o m post at front back =
      let p = pages pre in
      let (first, z, rest, split, start, le) = locate b pre 0 p o m front at (omega arith) in
      let q = pages first in
      let base : q ≡ 2 * m * 2 ^ o = omega (arith, start) in
      let buddy : buddy_index p o ≡ q = buddy_odd p o m at ∙ sym base in
      let (lead, tail) = Chain-split b 0 p first (z ∷ rest) (subst (Chain b 0 p) split front) in
      let zeroth : 0 + q ≡ q = omega arith in
      let tail' : Chain b q p (z ∷ rest) = subst (λ k. Chain b k p (z ∷ rest)) zeroth tail in
      let lead' : Chain b 0 q first = subst (λ k. Chain b 0 k first) zeroth lead in
      let there = tail'.0.entry in
      let above : q + 2 ^ o ≡ p = omega (arith, at, base) in
      let apart : q ≢ p = omega (arith, two_pow_pos o) in
      elim (Bool-cases (not z.allocated && z.order == o)) [
        | inr test ↦ halt (join_break b p q o back.0.entry buddy z there test)
        | inl test ↦
            let e = eq_free z o test in
            let tail₁ : Chain b q p (free_block o ∷ rest) =
              subst (λ y. Chain b q p (y ∷ rest)) e tail' in
            let none_left : rest ≡ [] = Chain-nil (q + 2 ^ o) p rest tail₁.1 above in
            let back' : Chain b (q + 2 ^ o) nr (free_block o ∷ post) =
              subst (λ k. Chain b k nr (free_block o ∷ post)) (sym above) back in
            let pair : Chain b q nr (free_block o ∷ free_block o ∷ post) = (tail₁.0, back') in
            let was : pre ≡ first ++ free_block o ∷ [] =
              split
              ∙ ap (λ y. first ++ y ∷ rest) e
              ∙ ap (λ y. first ++ free_block o ∷ y) none_left in
            let reach = Chain-le b (p + 2 ^ o) nr post back.1 in
            let small = order_fits (suc o) nr (omega (arith, reach, above, two_pow_suc o)) fits in
            let b' = merged b q p o in
            let lower : min q p ≡ q = omega (arith, above) in
            let up : b' p ≡ some (free_block (suc o)) =
              write_self (write b q (free_block (suc o))) p (free_block (suc o)) in
            more b' first post
              (join_merge b p q o back.0.entry buddy tail₁.0.entry apart (omega (arith, small))
                ∙ ap (λ k. ret (some (b', k))) lower)
              (Chain-append b' 0 q nr first (free_block (suc o) ∷ post)
                (Chain-frame b b' 0 q first
                  (λ j _ l. merged_ne b q p o j (omega arith) (omega (arith, above))) lead')
                (merge-Chain b b' q nr o m post base (omega (arith, small))
                  (write_ne (write b q (free_block (suc o))) p q (free_block (suc o))
                      (omega (arith, two_pow_pos o, above))
                    ∙ write_self b q (free_block (suc o)))
                  (subst (λ k. b' k ≡ some (free_block (suc o))) (sym above) up)
                  (λ j h k. merged_ne b q p o j h (omega (arith, above, k))) pair))
              (λ j l.
                merged_ne b q p o j (omega (arith, reach, two_pow_pos o, above))
                  (omega (arith, reach, two_pow_pos o)))
              (used-merge first post o
                ∙ ap (used 0) (sym (append_assoc first (free_block o ∷ []) (free_block o ∷ post)))
                ∙ ap (λ y. used 0 (y ++ free_block o ∷ post)) (sym was))
              (omega (arith, above)) (omega (arith, small))
      ]

  -- Every round is one of the three.
  pub join_lem :
      (pre : List Entry) (o : ℕ) (post : List Entry)
      → Chain b 0 nr (pre ++ free_block o ∷ post)
      → Joined b nr pre o post (join b (pages pre))
  join_lem pre o post c =
      let (front, back) = Chain-split b 0 nr pre (free_block o ∷ post) c in
      let zeroth : 0 + pages pre ≡ pages pre = omega arith in
      let front' = subst (λ k. Chain b 0 k pre) zeroth front in
      let back' = subst (λ k. Chain b k nr (free_block o ∷ post)) zeroth back in
      let (k, at) = back'.0.aligned in
      elim (parity k) [
        | inl (m, even) ↦ join_up pre o m post (at ∙ ap (λ t. t * 2 ^ o) even) front' back'
        | inr (m, odd) ↦ join_down pre o m post (at ∙ ap (λ t. t * 2 ^ o) odd) front' back'
      ]
