-- ===== src/Balloc/Free.antt =====
-- `ba_free`: the block is given back and merged, or the loop reads past the end of the bitmap.
use pi_frame.Prelude.{
  ℕ, zero, suc, ◌+◌, ◌*◌, ◌^◌, ◌≤◌, ◌<◌, ◌≡◌, refl, sym, ap, ◌∙◌, subst, true, false, ◌⊎◌, inl, inr,
  none, some, List, ◌∷◌, ◌++◌, arith, Outcome, ret, fault, ◌>>=◌, ltb, lt→ltb,
}
use native.Mathlib.Nat.{mul-le-mul_left}
use pi_frame.Prelude.Pow.{two_pow_pos}
use pi_frame.Balloc.{Entry, Bitmap, BuddyAllocator, write, join, merge_loop, free}
use pi_frame.Balloc.Access.{write_ne}
use pi_frame.Balloc.Chain.{
  Chain, Chain-append, Chain-split, Chain-frame, Chain-le, free_block, pages, used, used-append,
}
use pi_frame.Balloc.Inv.{Inv, Kept}
use pi_frame.Balloc.Alloc.{used_block, mark-Chain}
use pi_frame.Balloc.Join.{edge, halt, more}
use pi_frame.Balloc.Merge.{join_lem}

-- Page `i` lies in the last block of its kind: one of an order from `o` on, at an even place, that
-- ends with the bitmap, so that its buddy would start behind the end.
abbrev pub AtEdge : ℕ → ℕ → ℕ → Type 0
AtEdge nr i o =
    (o' : ℕ) × (m : ℕ) × (o ≤ o') × (2 * m * 2 ^ o' ≤ i) × (2 * m * 2 ^ o' + 2 ^ o' ≡ nr)

abbrev pub Merged : ℕ → ℕ → ℕ → List (ℕ × ℕ) → Outcome Bitmap → Type 0
Merged nr i o marked r =
    ((r ≡ fault) × AtEdge nr i o)
    ⊎ ((b : Bitmap) × (ys : List Entry) × (r ≡ ret b)
        × Chain b 0 nr ys
        × ((j : ℕ) → nr ≤ j → b j ≡ none)
        × (used 0 ys ≡ marked))

module _ (fuel : ℕ) (b : Bitmap) (nr i : ℕ) where
  pub loop_fault : join b i ≡ fault → merge_loop (suc fuel) b nr i ≡ fault
  unfolding merge_loop
  loop_fault h = rw (h, ◌>>=◌)

  loop_halt : join b i ≡ ret none → merge_loop (suc fuel) b nr i ≡ ret b
  unfolding merge_loop
  loop_halt h = rw (h, ◌>>=◌)

  loop_more :
      (b' : Bitmap) (i' : ℕ)
      → join b i ≡ ret (some (b', i'))
      → ltb i' nr ≡ true
      → merge_loop (suc fuel) b nr i ≡ merge_loop fuel b' nr i'
  unfolding merge_loop
  loop_more b' i' h t = rw (h, ◌>>=◌) (rw t)

-- The loop ends: 32 rounds are more than there are orders.
merge_loop_lem :
    (fuel : ℕ) (b : Bitmap) (nr i o₀ : ℕ) (pre : List Entry) (o : ℕ) (post : List Entry)
    → 32 ≤ o + fuel
    → o < 32
    → o₀ ≤ o
    → pages pre ≤ i
    → nr < 2 ^ 31
    → ((j : ℕ) → nr ≤ j → b j ≡ none)
    → Chain b 0 nr (pre ++ free_block o ∷ post)
    → Merged nr i o₀ (used 0 (pre ++ free_block o ∷ post)) (merge_loop fuel b nr (pages pre))
merge_loop_lem zero b nr i o₀ pre o post f s l h fits bounded c = absurd (omega arith)
merge_loop_lem (suc fuel) b nr i o₀ pre o post f s l h fits bounded c =
    elim (join_lem b nr bounded fits pre o post c) [
      | edge m at last run ↦ inl (
        loop_fault fuel b nr (pages pre) run,
        (o, m, l, omega (arith, at), omega (arith, at, last)),
      )
      | halt run ↦
          inr (b, pre ++ free_block o ∷ post, loop_halt fuel b nr (pages pre) run, c, bounded, refl)
      | more b' pre' post' run c' same marked le small ↦
          let (_, tail) = Chain-split b' 0 nr pre' (free_block (suc o) ∷ post') c' in
          let inside : pages pre' < nr = omega (
            arith,
            two_pow_pos (suc o),
            Chain-le b' (0 + pages pre' + 2 ^ suc o) nr post' tail.1,
          ) in
          let step = loop_more fuel b nr (pages pre) b' (pages pre') run (lt→ltb _ _ inside) in
          let rest =
            merge_loop_lem fuel b' nr i o₀ pre' (suc o) post' (omega arith) small (omega arith)
              (omega arith) fits (λ j p. same j p ∙ bounded j p) c' in
          subst (Merged nr i o₀ (used 0 (pre ++ free_block o ∷ post))) (sym step)
            (subst (λ u. Merged nr i o₀ u (merge_loop fuel b' nr (pages pre'))) marked rest)
    ]

-- What `ba_free` comes to: a well-formed allocator with the given marked blocks, or a fault where
-- the loop is led to the end of the bitmap.
abbrev pub FreeDone : BuddyAllocator → ℕ → ℕ → List (ℕ × ℕ) → Outcome BuddyAllocator → Type 0
FreeDone ba i o marked r =
    ((r ≡ fault) × AtEdge ba.nr_pages i o)
    ⊎ ((ba' : BuddyAllocator) × (ys : List Entry) × (r ≡ ret ba')
        × Inv ba' ys
        × Kept ba ba'
        × (used 0 ys ≡ marked))

-- In a well-formed allocator, `ba_free` of the first page of a marked block ends. It unmarks just
-- that block and leaves the allocator well formed, all other marked blocks in their places; or it
-- reads past the bitmap, and then the block lies in a group of pages that ends with the bitmap and
-- whose buddy would start behind it.
pub free_lem :
    (ba : BuddyAllocator) (pre : List Entry) (o : ℕ) (post : List Entry)
    → Inv ba (pre ++ used_block o ∷ post)
    → FreeDone ba (pages pre) o (used 0 pre ++ used (pages pre + 2 ^ o) post) (free ba (pages pre))
unfolding free
free_lem ba pre o post v =
    let nr = ba.nr_pages in
    let i = pages pre in
    let zeroth : 0 + i ≡ i = omega arith in
    let (front, back) = Chain-split ba.bitmap 0 nr pre (used_block o ∷ post) v.chain in
    let back' = subst (λ k. Chain ba.bitmap k nr (used_block o ∷ post)) zeroth back in
    let front' = subst (λ k. Chain ba.bitmap 0 k pre) zeroth front in
    let (mark, c) = mark-Chain ba.bitmap i nr o false true post back' in
    let b : Bitmap = write ba.bitmap i (free_block o) in
    let past = Chain-le b (i + 2 ^ o) nr post c.1 in
    let chain =
      Chain-append b 0 i nr pre (free_block o ∷ post)
        (Chain-frame ba.bitmap b 0 i pre
          (λ j _ l. write_ne ba.bitmap i j (free_block o) (omega arith)) front')
        c in
    let few : nr < 2 ^ 31 =
      omega (arith, v.pages_fit, v.size_fits, mul-le-mul_left nr v.page_pos) in
    let marked : used 0 (pre ++ free_block o ∷ post) ≡ used 0 pre ++ used (i + 2 ^ o) post =
      used-append 0 pre (free_block o ∷ post)
      ∙ ap (λ k. used 0 pre ++ used (k + 2 ^ o) post) zeroth in
    let bounded : (j : ℕ) → nr ≤ j → b j ≡ none = λ j p.
      write_ne ba.bitmap i j (free_block o) (omega (arith, past, two_pow_pos o)) ∙ v.bounded j p in
    elim (merge_loop_lem (2 ^ 7) b nr i o pre o post (omega arith) c.0.small (omega arith)
      (omega arith) few bounded chain) [
        | inl (run, at) ↦ inl (rw (mark, ◌>>=◌) (rw (run, ◌>>=◌)), at)
        | inr (b', ys, run, done, ends, left) ↦ inr (
          record ba { bitmap = b' },
          ys,
          rw (mark, ◌>>=◌) (rw (run, ◌>>=◌)),
          record {
            chain = done;
            bounded = ends;
            size_fits = v.size_fits;
            page_fits = v.page_fits;
            page_pos = v.page_pos;
            pages_fit = v.pages_fit;
            pages_max = v.pages_max;
            top = v.top;
          },
          record { size = refl; page = refl; nr = refl },
          left ∙ marked,
        )
      ]
