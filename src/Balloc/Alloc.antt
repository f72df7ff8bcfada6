-- ===== src/Balloc/Alloc.antt =====
-- `ba_alloc`: it marks a best fit, cut down to the wanted order, or finds that nothing fits.
use pi_frame.Prelude.{
  ℕ, zero, suc, ◌+◌, ◌-◌, ◌*◌, ◌^◌, ◌≤◌, ◌<◌, ◌≡◌, refl, ap, ◌∙◌, subst, Bool, true, false,
  Bool-cases, ◌⊎◌, inl, inr, Option, none, some, List, [], ◌∷◌, ◌++◌, arith, Outcome, ret, ◌>>=◌,
  ltb, All, All-map, length, dec_lt, ltb→lt, Option-cases,
}
use native.Mathlib.Nat.{mul-le-mul_right}
use pi_frame.Prelude.Pow.{two_pow_pos, two_pow_suc, two_pow_mono}
use pi_frame.Balloc.{
  Entry, Bitmap, BuddyAllocator, write, set_allocated, order_of, take_block, alloc,
}
use pi_frame.Balloc.Access.{write_self, write_ne, set_allocated_lem}
use pi_frame.Balloc.Chain.{
  Chain, Chain-append, Chain-split, Chain-frame, Chain-le, Chain-end, free_block, used, used-append,
  pages, pages-append,
}
use pi_frame.Balloc.Inv.{Inv, Kept}
use pi_frame.Balloc.Order.{order_of_lem}
use pi_frame.Balloc.Halve.{halves, split_loop_lem}
use pi_frame.Balloc.Search.{Best, NoFit, NoBetter}
use pi_frame.Balloc.Find.{search_loop_lem}

abbrev pub used_block : ℕ → Entry
used_block o = record { allocated = true; order = o }

pub pages-halves : (o k : ℕ) → 2 ^ o + pages (halves o k) ≡ 2 ^ (o + k)
pages-halves o zero = let h : o ≡ o + 0 = omega arith in omega (arith, ap (λ t. 2 ^ t) h)
pages-halves o (suc k) =
    let h : o + suc k ≡ suc (o + k) = omega arith in
    omega (
      arith,
      pages-append (halves o k) (free_block (o + k) ∷ []),
      pages-halves o k,
      two_pow_suc (o + k),
      ap (λ t. 2 ^ t) h,
    )

pub used-halves : (i o k : ℕ) → used i (halves o k) ≡ []
used-halves i o zero = refl
used-halves i o (suc k) =
    used-append i (halves o k) (free_block (o + k) ∷ []) ∙ rw (used-halves i o k)

length-le-pages : (xs : List Entry) → length xs ≤ pages xs
length-le-pages [] = omega arith
length-le-pages (x ∷ xs) = omega (arith, length-le-pages xs, two_pow_pos x.order)

-- Marking the first block of a chain.
pub mark-Chain :
    (b : Bitmap) (i e o : ℕ) (flag old : Bool) (post : List Entry)
    → Chain b i e (record { allocated = old; order = o } ∷ post)
    → let b' : Bitmap = write b i (record { allocated = flag; order = o }) in
      (set_allocated b i flag ≡ ret b')
      × Chain b' i e (record { allocated = flag; order = o } ∷ post)
mark-Chain b i e o flag old post c = (
  set_allocated_lem b i (record { allocated = old; order = o }) c.0.entry flag,
  (
    record {
      entry = write_self b i (record { allocated = flag; order = o });
      aligned = c.0.aligned;
      small = c.0.small;
      quiet = λ j p q.
          let (s, r) = c.0.quiet j p q in
          (s, write_ne b i j (record { allocated = flag; order = o }) (omega arith) ∙ r);
    },
    Chain-frame b (write b i (record { allocated = flag; order = o })) (i + 2 ^ o) e post
        (λ j p q.
          write_ne b i j (record { allocated = flag; order = o }) (omega (arith, two_pow_pos o)))
        c.1,
  ),
)

-- What `ba_alloc` does with a best fit at the page `i`: the block there, of order `o + k`, becomes a
-- marked one of order `o` and the free halves behind it.
pub record Taken (ba : BuddyAllocator) (xs : List Entry) (o i : ℕ) (ba' : BuddyAllocator)
    : Type 0 where
  pub pre : List Entry
  pub k : ℕ
  pub post : List Entry
  pub was : xs ≡ pre ++ free_block (o + k) ∷ post
  pub place : i ≡ pages pre
  pub least : NoBetter o (o + k) xs
  pub kept : Kept ba ba'
  pub inv : Inv ba' (pre ++ used_block o ∷ (halves o k ++ post))

take_block-Taken :
    (ba : BuddyAllocator) (xs : List Entry) (o i : ℕ)
    → o < 2 ^ 8
    → Inv ba xs
    → Best o xs (some i)
    → (ba' : BuddyAllocator) × (take_block ba o i ≡ ret ba') × Taken ba xs o i ba'
unfolding take_block
take_block-Taken ba xs o i small v (pre, t, post, e, w, l, all) =
    let nr = ba.nr_pages in
    let k = t - o in
    let sum : t ≡ o + k = omega arith in
    let e' : xs ≡ pre ++ free_block (o + k) ∷ post = e ∙ ap (λ y. pre ++ free_block y ∷ post) sum in
    let zeroth : 0 + pages pre ≡ i = omega (arith, w) in
    let (front, back) =
      Chain-split ba.bitmap 0 nr pre (free_block t ∷ post)
        (subst (Chain ba.bitmap 0 nr) e v.chain) in
    let back' : Chain ba.bitmap i nr (free_block t ∷ post) =
      subst (λ y. Chain ba.bitmap y nr (free_block t ∷ post)) zeroth back in
    let front' : Chain ba.bitmap 0 i pre = subst (λ y. Chain ba.bitmap 0 y pre) zeroth front in
    let (b, run, chain, before, after) =
      split_loop_lem k (2 ^ 7) o t i nr ba.bitmap post sum (omega (arith, back'.0.small)) small
        back' in
    let (mark, chain') = mark-Chain b i nr o true false (halves o k ++ post) chain in
    let b' : Bitmap = write b i (used_block o) in
    let past : i < nr = omega (arith, two_pow_pos o, Chain-le b' (i + 2 ^ o) nr _ chain'.1) in
    (
      record ba { bitmap = b' },
      rw (run, mark, ◌>>=◌),
      record {
        pre = pre;
        k = k;
        post = post;
        was = e';
        place = w;
        least = subst (λ y. NoBetter o y xs) sum all;
        kept = record { size = refl; page = refl; nr = refl };
        inv = record {
          chain =
              Chain-append b' 0 i nr pre (used_block o ∷ (halves o k ++ post))
                (Chain-frame ba.bitmap b' 0 i pre
                  (λ j p q. write_ne b i j (used_block o) (omega arith) ∙ before j q) front')
                chain';
          bounded = λ j p. write_ne b i j (used_block o) (omega arith) ∙ after j p ∙ v.bounded j p;
          size_fits = v.size_fits;
          page_fits = v.page_fits;
          page_pos = v.page_pos;
          pages_fit = v.pages_fit;
          pages_max = v.pages_max;
          top = v.top;
        };
      },
    )

-- A block is no larger than the chain that it stands in.
order-bound : (n : ℕ) (xs : List Entry) → pages xs ≤ n → All (λ y. 2 ^ y.order ≤ n) xs
order-bound n [] h = tt
order-bound n (x ∷ xs) h = (omega arith, order-bound n xs (omega (arith, two_pow_pos x.order)))

-- Past the largest order nothing fits.
above_top-NoFit :
    (ba : BuddyAllocator) (xs : List Entry) (o : ℕ) → Inv ba xs → ba.max_order < o → NoFit o xs
above_top-NoFit ba xs o v h =
    let total = Chain-end ba.bitmap 0 ba.nr_pages xs v.chain in
    All-map (λ y. 2 ^ y.order ≤ ba.nr_pages) (λ y. y.allocated ≡ false → y.order < o) xs
      (λ y fits _. elim (dec_lt 0 ba.size) [
        | yes p ↦
            let (_, up, _) =
              order_of_lem ba.size ba.page_size p v.page_pos
                (omega (arith, v.size_fits, v.page_fits)) in
            elim (dec_lt y.order o) [
              | yes q ↦ q
              | no q ↦ absurd (
                  omega (
                    arith,
                    v.top,
                    h,
                    up,
                    fits,
                    v.pages_fit,
                    two_pow_suc (order_of ba.size ba.page_size),
                    mul-le-mul_right ba.page_size (
                        two_pow_mono (suc (order_of ba.size ba.page_size)) y.order
                          (omega (arith, v.top))),
                    mul-le-mul_right ba.page_size fits,
                    ap (λ t. t * ba.page_size) (two_pow_suc (order_of ba.size ba.page_size)),
                  ))
            ]
        | no p ↦ absurd (
            omega (
              arith,
              v.pages_fit,
              v.page_pos,
              mul-le-mul_right ba.page_size (two_pow_pos y.order),
              mul-le-mul_right ba.page_size fits,
            ))
      ])
      (order-bound ba.nr_pages xs (omega (arith, total)))

-- `ba_alloc` returns; either nothing fits and it changes nothing, or it takes a best fit.
abbrev pub AllocDone :
    BuddyAllocator → List Entry → ℕ → Outcome (Option ℕ × BuddyAllocator) → Type 0
AllocDone ba xs o r =
    ((r ≡ ret (none, ba)) × NoFit o xs)
    ⊎ ((i : ℕ) × (ba' : BuddyAllocator) × (r ≡ ret (some i, ba')) × Taken ba xs o i ba')

-- In a well-formed allocator `ba_alloc` of a positive length ends without a fault. It returns -1 and
-- changes nothing exactly where no free block has the order that `ba_order` gives. Else it returns
-- the first page of a free block of the least order that is large enough; that block becomes a
-- marked one of the wanted order, followed by free halves of ascending orders; all other blocks
-- stay, and the allocator is well formed.
pub alloc_lem :
    (ba : BuddyAllocator) (xs : List Entry) (len : ℕ)
    → Inv ba xs
    → 0 < len
    → len < 2 ^ 31
    → AllocDone ba xs (order_of len ba.page_size) (alloc ba len)
unfolding alloc
alloc_lem ba xs len v h k =
    let o = order_of len ba.page_size in
    let (most, _, _) = order_of_lem len ba.page_size h v.page_pos (omega (arith, v.page_fits)) in
    let total = Chain-end ba.bitmap 0 ba.nr_pages xs v.chain in
    elim (Bool-cases (ltb ba.max_order o)) [
      | inl over ↦ inl (rw over, above_top-NoFit ba xs o v (ltb→lt _ _ over))
      | inr under ↦
          let (best, run, found) =
            search_loop_lem xs (suc ba.nr_pages) ba.bitmap ba.nr_pages o [] none
              (omega (arith, total, length-le-pages xs)) (omega arith) refl v.chain tt in
          elim (Option-cases best) [
            | inl nothing ↦
                inl (rw under (rw (run, ◌>>=◌) (rw nothing)), subst (Best o xs) nothing found)
            | inr (i, something) ↦
                let (ba', done, taken) =
                  take_block-Taken ba xs o i (omega arith) v (subst (Best o xs) something found) in
                inr (i, ba', rw under (rw (run, ◌>>=◌) (rw something (rw (done, ◌>>=◌)))), taken)
          ]
    ]
