-- ===== src/Balloc/Search.antt =====
-- The first loop of `ba_alloc` finds the best fit: the first block of exactly the wanted order, or
-- else the first of the smallest larger order.
use pi_frame.Prelude.{
  ℕ, ◌≤◌, ◌<◌, ◌≡◌, refl, ap, ◌∙◌, false, Option, none, some, List, [], ◌∷◌, ◌++◌, append_assoc,
  arith, All, All-append, All-All, All-map,
}
use pi_frame.Balloc.{Entry}
use pi_frame.Balloc.Chain.{pages, free_block}

-- No free block is smaller than `t`, of those that are large enough.
abbrev pub NoBetter : ℕ → ℕ → List Entry → Type 0
NoBetter o t = All (λ y. y.allocated ≡ false → o ≤ y.order → t ≤ y.order)

abbrev pub NoFit : ℕ → List Entry → Type 0
NoFit o = All (λ y. y.allocated ≡ false → y.order < o)

-- `r` is the first page of a best fit for the order `o`, or there is none.
abbrev pub Best : ℕ → List Entry → Option ℕ → Type 0
Best o xs none = NoFit o xs
Best o xs (some p) =
    (pre : List Entry) × (t : ℕ) × (post : List Entry) × (xs ≡ pre ++ free_block t ∷ post)
    × (p ≡ pages pre)
    × (o ≤ t)
    × NoBetter o t xs

pub eq_free_block : (x : Entry) → x.allocated ≡ false → x ≡ free_block x.order
eq_free_block x h = ground arith

module _ (o : ℕ) (pre : List Entry) (x : Entry) where
  -- The best so far stays the best, if the next block is taken, too small, or no smaller.
  pub Best-unfit :
      (best : Option ℕ)
      → (x.allocated ≡ false → x.order < o)
      → Best o pre best
      → Best o (pre ++ x ∷ []) best
  Best-unfit none h q = All-append _ pre (x ∷ []) q (h, tt)
  Best-unfit (some p) h (pre', t, post, e, w, l, all) = (
    pre',
    t,
    post ++ x ∷ [],
    ap (λ k. k ++ x ∷ []) e ∙ append_assoc pre' (free_block t ∷ post) (x ∷ []),
    w,
    l,
    All-append _ pre (x ∷ []) all ((λ f g. absurd (omega (arith, h f))), tt),
  )

  pub Best-keep :
      (p : ℕ) (q : Best o pre (some p)) → q.1 ≤ x.order → Best o (pre ++ x ∷ []) (some p)
  Best-keep p (pre', t, post, e, w, l, all) h = (
    pre',
    t,
    post ++ x ∷ [],
    ap (λ k. k ++ x ∷ []) e ∙ append_assoc pre' (free_block t ∷ post) (x ∷ []),
    w,
    l,
    All-append _ pre (x ∷ []) all ((λ f g. h), tt),
  )

  pub Best-first :
      x.allocated ≡ false → o < x.order → NoFit o pre → Best o (pre ++ x ∷ []) (some (pages pre))
  Best-first f h q = (
    pre,
    x.order,
    [],
    ap (λ y. pre ++ y ∷ []) (eq_free_block x f),
    refl,
    omega arith,
    All-append _ pre (x ∷ []) (All-map _ _ pre (λ y n a b. absurd (omega (arith, n a))) q)
        ((λ a b. omega arith), tt),
  )

  pub Best-better :
      (p : ℕ) (q : Best o pre (some p))
      → x.allocated ≡ false
      → o < x.order
      → x.order < q.1
      → Best o (pre ++ x ∷ []) (some (pages pre))
  Best-better p (pre', t, post, e, w, l, all) f h s = (
    pre,
    x.order,
    [],
    ap (λ y. pre ++ y ∷ []) (eq_free_block x f),
    refl,
    omega arith,
    All-append _ pre (x ∷ []) (All-map _ _ pre (λ y n a b. omega (arith, n a b)) all)
        ((λ a b. omega arith), tt),
  )

  pub Best-exact :
      (rest : List Entry)
      → x.allocated ≡ false
      → x.order ≡ o
      → Best o (pre ++ x ∷ rest) (some (pages pre))
  Best-exact rest f h = (
    pre,
    x.order,
    rest,
    ap (λ y. pre ++ y ∷ rest) (eq_free_block x f),
    refl,
    omega arith,
    All-All _ (pre ++ x ∷ rest) (λ y a b. omega arith),
  )
