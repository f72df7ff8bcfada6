-- ===== src/Balloc/GiveBack.antt =====
-- `ba_alloc` followed by `ba_free`, and the read past the bitmap that `ba_free` is led to.
use pi_frame.Prelude.{
  ℕ, ◌+◌, ◌*◌, ◌^◌, ◌<◌, ◌≡◌, sym, ap, ◌∙◌, subst, subst₂, inl, inr, none, some, List, [], ◌∷◌,
  ◌++◌, arith, ret, fault, ◌>>=◌, true, false,
}
use pi_frame.Prelude.Pow.{two_pow_pos}
use pi_frame.Balloc.{Entry, Bitmap, BuddyAllocator, write, alloc, free, order_of}
use pi_frame.Balloc.Access.{write_ne}
use pi_frame.Balloc.Buddy.{buddy_even}
use pi_frame.Balloc.Chain.{Chain, Chain-split, free_block, pages, used}
use pi_frame.Balloc.Inv.{Inv}
use pi_frame.Balloc.Halve.{halves}
use pi_frame.Balloc.Join.{join_edge}
use pi_frame.Balloc.Alloc.{used_block, mark-Chain, alloc_lem, pages-halves}
use pi_frame.Balloc.Free.{FreeDone, free_lem, loop_fault}
use pi_frame.Balloc.Contract.{used_before, used_after_at}

-- A block that `ba_alloc` has handed out is good for `ba_free`, which restores the marked blocks as
-- they were before, unless it reads past the bitmap, where the block lies at the edge.
pub alloc-free :
    (ba : BuddyAllocator) (xs : List Entry) (len i : ℕ) (ba' : BuddyAllocator)
    → Inv ba xs
    → 0 < len
    → len < 2 ^ 31
    → alloc ba len ≡ ret (some i, ba')
    → FreeDone ba' i (order_of len ba.page_size) (used 0 xs) (free ba' i)
alloc-free ba xs len i ba' v h k run = elim (alloc_lem ba xs len v h k) [
  | inl (none_run, _) ↦ cc
  | inr (j, ba'', some_run, t) ↦
      let o = order_of len ba.page_size in
      let same_ba : ba'' ≡ ba' = cc in
      let same_i : pages t.pre ≡ i = let e : j ≡ i = cc in sym t.place ∙ e in
      let over : pages t.pre + 2 ^ o + pages (halves o t.k) ≡ pages t.pre + 2 ^ (o + t.k) =
        omega (arith, pages-halves o t.k) in
      let was : used 0 t.pre ++ used (pages t.pre + 2 ^ o) (halves o t.k ++ t.post) ≡ used 0 xs =
        ap (λ us. used 0 t.pre ++ us)
          (used_after_at t.pre t.post o t.k (pages t.pre + 2 ^ o) ∙ ap (λ n. used n t.post) over)
        ∙ sym (used_before t.pre t.post o t.k)
        ∙ sym (ap (used 0) t.was) in
      let done = free_lem ba'' t.pre o (halves o t.k ++ t.post) t.inv in
      subst₂ (λ a n. FreeDone a n o (used 0 xs) (free a n)) same_ba same_i
        (subst (λ us. FreeDone ba'' (pages t.pre) o us (free ba'' (pages t.pre))) was done)
]

-- Whenever a marked block at an even place ends with the bitmap, freeing it reads past the bitmap.
pub free_last_faults :
    (ba : BuddyAllocator) (pre : List Entry) (o m : ℕ)
    → Inv ba (pre ++ used_block o ∷ [])
    → pages pre ≡ 2 * m * 2 ^ o
    → free ba (pages pre) ≡ fault
unfolding free
free_last_faults ba pre o m v even =
    let nr = ba.nr_pages in
    let i = pages pre in
    let zeroth : 0 + i ≡ i = omega arith in
    let (_, back) = Chain-split ba.bitmap 0 nr pre (used_block o ∷ []) v.chain in
    let back' = subst (λ k. Chain ba.bitmap k nr (used_block o ∷ [])) zeroth back in
    let (mark, c) = mark-Chain ba.bitmap i nr o false true [] back' in
    let b : Bitmap = write ba.bitmap i (free_block o) in
    let behind : b (i + 2 ^ o) ≡ none =
      write_ne ba.bitmap i (i + 2 ^ o) (free_block o) (omega (arith, two_pow_pos o))
      ∙ v.bounded (i + 2 ^ o) (omega (arith, c.1)) in
    let run =
      loop_fault 127 b nr i
        (join_edge b i (i + 2 ^ o) o c.0.entry (buddy_even i o m even) behind) in
    rw (mark, ◌>>=◌) (rw (run, ◌>>=◌))
