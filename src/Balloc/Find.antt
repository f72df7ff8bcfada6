-- ===== src/Balloc/Find.antt =====
-- Each round of the first loop of `ba_alloc` keeps the best fit of the blocks it has passed.
use pi_frame.Prelude.{
  ℕ, zero, suc, ◌+◌, ◌%◌, ◌^◌, ◌<◌, ◌≡◌, refl, sym, ◌∙◌, subst, true, false, false≢true, Bool-cases,
  ◌⊎◌, inl, inr, Option, none, some, List, [], ◌∷◌, ◌++◌, append_assoc, append-nil, arith, Outcome,
  ret, ◌>>=◌, ◌==◌, if◌then◌else◌, ltb, ltb→lt, lt→ltb, length,
}
use pi_frame.Prelude.Pow.{two_pow_pos}
use pi_frame.Balloc.{Entry, Bitmap, better, visit, Visit, stop, next, search_loop}
use pi_frame.Balloc.Access.{read_lem}
use pi_frame.Balloc.Chain.{
  Chain, Chain-append, Chain-Block, Chain-le, pages, pages-append, free_block,
}
use pi_frame.Balloc.Search.{Best, Best-unfit, Best-keep, Best-first, Best-better, Best-exact}

module _ (b : Bitmap) (o : ℕ) (small : o < 2 ^ 8) (pre : List Entry) (x : Entry) where
  abbrev Visited : Outcome Visit → Type 0
  Visited r =
      ((r ≡ ret stop) × (x.allocated ≡ false) × (x.order ≡ o))
      ⊎ ((best : Option ℕ) × (r ≡ ret (next best)) × Best o (pre ++ x ∷ []) best)

  visit_larger :
      (best : Option ℕ)
      → x.allocated ≡ false
      → o < x.order
      → Chain b 0 (pages pre) pre
      → Best o pre best
      → (best' : Option ℕ) × ((better b best x >>= λ c.
            ret (next (if c then some (pages pre) else best)))
          ≡ ret (next best'))
        × Best o (pre ++ x ∷ []) best'
  visit_larger none f l c q = (some (pages pre), refl, Best-first o pre x f l q)
  visit_larger (some p) f l c q =
      let (front, t, back, e, w, _, _) = q in
      let there : b p ≡ some (free_block t) =
        subst (λ k. b k ≡ some (free_block t)) (sym w)
          (Chain-Block b (pages pre) front (free_block t) back
            (subst (Chain b 0 (pages pre)) e c)).entry in
      elim (Bool-cases (ltb x.order t)) [
        | inl less ↦ (
          some (pages pre),
          rw (read_lem b p (free_block t) there, ◌>>=◌) (rw less),
          Best-better o pre x p q f l (ltb→lt _ _ less),
        )
        | inr more ↦ (
          some p,
          rw (read_lem b p (free_block t) there, ◌>>=◌) (rw more),
          Best-keep o pre x p q (ground arith),
        )
      ]

  visit_lem :
      (best : Option ℕ)
      → Chain b 0 (pages pre) pre
      → Best o pre best
      → Visited (visit b o (pages pre) best x)
  unfolding visit
  visit_lem best c q =
      let low : o % 2 ^ 8 ≡ o = omega (arith, small) in
      elim (Bool-cases x.allocated) [
        | inl taken ↦
            inr
              (best, rw taken, Best-unfit o pre x best (λ f. absurd (false≢true (sym f ∙ taken))) q)
        | inr idle ↦ elim (Bool-cases (x.order == o)) [
          | inl same ↦ inl (rw (idle, low) (rw same), idle, ground arith)
          | inr other ↦ elim (Bool-cases (ltb o x.order)) [
            | inl more ↦
                let (best', run, r) = visit_larger best idle (ltb→lt _ _ more) c q in
                inr (best', simp (idle, low, other, more) run, r)
            | inr less ↦ inr (
              best,
              rw (idle, low) (rw (other, less)),
              Best-unfit o pre x best (λ f. ground arith) q,
            )
          ]
        ]
      ]

module _ (b : Bitmap) (e o i : ℕ) (best : Option ℕ) (fuel : ℕ) (x : Entry) where
  search_stop :
      ltb i e ≡ true
      → b i ≡ some x
      → visit b o i best x ≡ ret stop
      → search_loop (suc fuel) b e o i best ≡ ret (some i)
  unfolding search_loop
  search_stop room there run =
      rw (room, search_loop) (rw (read_lem b i x there, ◌>>=◌) (rw (run, ◌>>=◌)))

  search_next :
      (best' : Option ℕ)
      → ltb i e ≡ true
      → b i ≡ some x
      → visit b o i best x ≡ ret (next best')
      → search_loop (suc fuel) b e o i best ≡ search_loop fuel b e o (i + 2 ^ x.order) best'
  unfolding search_loop
  search_next best' room there run =
      rw (room, search_loop) (rw (read_lem b i x there, ◌>>=◌) (rw (run, ◌>>=◌)))

search_end :
    (b : Bitmap) (e o i fuel : ℕ) (best : Option ℕ)
    → i ≡ e
    → search_loop (suc fuel) b e o i best ≡ ret best
unfolding search_loop
search_end b e o i fuel best h = let full : ltb i e ≡ false = ground arith in rw (full, search_loop)

-- With a round for each block the loop ends, and it finds the best fit of the whole chain.
pub search_loop_lem :
    (rest : List Entry) (fuel : ℕ) (b : Bitmap) (e o : ℕ) (pre : List Entry) (best : Option ℕ)
    → length rest < fuel
    → o < 2 ^ 8
    → Chain b 0 (pages pre) pre
    → Chain b (pages pre) e rest
    → Best o pre best
    → (best' : Option ℕ) × (search_loop fuel b e o (pages pre) best ≡ ret best')
      × Best o (pre ++ rest) best'
search_loop_lem rest zero b e o pre best f s c d q = absurd (omega arith)
search_loop_lem [] (suc fuel) b e o pre best f s c d q = (
  best,
  search_end b e o (pages pre) fuel best d,
  subst (λ k. Best o k best) (sym (append-nil pre)) q,
)
search_loop_lem (x ∷ rest) (suc fuel) b e o pre best f s c d q =
    let room : ltb (pages pre) e ≡ true =
      lt→ltb _ _
        (omega (arith, two_pow_pos x.order, Chain-le b (pages pre + 2 ^ x.order) e rest d.1)) in
    elim (visit_lem b o s pre x best c q) [
      | inl (run, idle, same) ↦ (
        some (pages pre),
        search_stop b e o (pages pre) best fuel x room d.0.entry run,
        Best-exact o pre x rest idle same,
      )
      | inr (best', run, q') ↦
          let grown : pages (pre ++ x ∷ []) ≡ pages pre + 2 ^ x.order =
            omega (arith, pages-append pre (x ∷ [])) in
          let (r, on, found) =
            search_loop_lem rest fuel b e o (pre ++ x ∷ []) best' (omega arith) s
              (Chain-append b 0 (pages pre) (pages (pre ++ x ∷ [])) pre (x ∷ []) c (d.0, sym grown))
              (subst (λ k. Chain b k e rest) (sym grown) d.1) q' in
          (
            r,
            search_next b e o (pages pre) best fuel x best' room d.0.entry run
                ∙ subst (λ k. search_loop fuel b e o k best' ≡ ret r) grown on,
            subst (λ k. Best o k r) (append_assoc pre (x ∷ []) rest) found,
          )
    ]
