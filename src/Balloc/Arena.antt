-- ===== src/Balloc/Arena.antt =====
-- The allocator of balloc.c seen as the bag of the blocks that are marked: where they are and what
-- order they have, in any order.
use pi_frame.Prelude.{
  ℕ, suc, ◌+◌, ◌^◌, ◌<◌, ◌≡◌, sym, ap, ◌∙◌, subst, Bool, true, ◌&&◌, Bool-cases, ◌⊎◌, inl, inr,
  Option, none, some, List, [], ◌∷◌, ◌++◌, arith, Outcome, ret, fault, ◌==◌, if◌then◌else◌,
}
use pi_frame.Prelude.Pow.{two_pow_pos}
use pi_frame.Balloc.{Entry, BuddyAllocator, alloc, free, order_of}
use pi_frame.Balloc.Chain.{pages, pages-append, Chain-end, used, used-append}
use pi_frame.Balloc.Inv.{Inv, Kept}
use pi_frame.Balloc.Alloc.{used_block, alloc_lem, Taken}
use pi_frame.Balloc.Halve.{halves}
use pi_frame.Balloc.Free.{AtEdge, FreeDone, free_lem}
use pi_frame.Balloc.Contract.{Taken-Granted}

abbrev pub same : ℕ × ℕ → ℕ × ℕ → Bool
same (i, o) (j, p) = i == j && o == p

-- How often a block stands in a list.
abbrev pub count : ℕ × ℕ → List (ℕ × ℕ) → ℕ
count u [] = 0
count u (v ∷ vs) = if same u v then suc (count u vs) else count u vs

pub count-append : (u : ℕ × ℕ) (us vs : List (ℕ × ℕ)) → count u (us ++ vs) ≡ count u us + count u vs
count-append u [] vs = omega arith
count-append u (v ∷ us) vs = elim (Bool-cases (same u v)) [
  | inl h ↦ rw h (omega (arith, count-append u us vs))
  | inr h ↦ rw h (count-append u us vs)
]

pub count-middle :
    (u v : ℕ × ℕ) (us vs : List (ℕ × ℕ)) → count u (us ++ v ∷ vs) ≡ count u (v ∷ (us ++ vs))
count-middle u v us vs = elim (Bool-cases (same u v)) [
  | inl h ↦ rw h (count-append u us (v ∷ vs) ∙ rw h (omega (arith, count-append u us vs)))
  | inr h ↦ rw h (count-append u us (v ∷ vs) ∙ rw h (sym (count-append u us vs)))
]

-- A well-formed allocator whose marked blocks are `marks`.
pub record Arena (ba : BuddyAllocator) (marks : List (ℕ × ℕ)) : Type 0 where
  pub blocks : List Entry
  pub inv : Inv ba blocks
  pub bag : (u : ℕ × ℕ) → count u (used 0 blocks) ≡ count u marks

-- A marked block that is counted is somewhere in the chain.
used_block_at :
    (k i o : ℕ) (xs : List Entry)
    → 0 < count (i, o) (used k xs)
    → (pre : List Entry) × (post : List Entry) × (xs ≡ pre ++ used_block o ∷ post)
      × (k + pages pre ≡ i)
used_block_at k i o [] h = absurd (omega arith)
used_block_at k i o (x ∷ xs) h = elim (Bool-cases (x.allocated && same (i, o) (k, x.order))) [
  | inl here ↦
      let e : x ≡ used_block o = ground arith in
      let at : k + 0 ≡ i = ground arith in ([], xs, ap (λ y. y ∷ xs) e, at)
  | inr there ↦
      let rest : 0 < count (i, o) (used (k + 2 ^ x.order) xs) = ground arith in
      let (pre, post, e, at) = used_block_at (k + 2 ^ x.order) i o xs rest in
      (x ∷ pre, post, ap (λ t. x ∷ t) e, omega (arith, at))
]

-- Taking a block of the order that `ba_order` gives to the length.
abbrev pub Took : BuddyAllocator → List (ℕ × ℕ) → ℕ → Outcome (Option ℕ × BuddyAllocator) → Type 0
Took ba marks len r =
    (r ≡ ret (none, ba))
    ⊎ ((i : ℕ) × (ba' : BuddyAllocator) × (r ≡ ret (some i, ba'))
        × Arena ba' ((i, order_of len ba.page_size) ∷ marks)
        × Kept ba ba'
        × (i < ba.nr_pages))

pub one_more :
    (u v : ℕ × ℕ) (us vs : List (ℕ × ℕ))
    → count u us ≡ count u vs
    → count u (v ∷ us) ≡ count u (v ∷ vs)
one_more u v us vs h = rw h

inside :
    {ba : BuddyAllocator} {xs : List Entry} {o i : ℕ} {ba' : BuddyAllocator}
    → Taken ba xs o i ba'
    → i < ba.nr_pages
inside {ba} {xs} {o} {i} {ba'} t =
    let rest = halves o t.k ++ t.post in
    omega (
      arith,
      t.place,
      t.kept.nr,
      Chain-end ba'.bitmap 0 ba'.nr_pages (t.pre ++ used_block o ∷ rest) t.inv.chain,
      pages-append t.pre (used_block o ∷ rest),
      two_pow_pos o,
    )

pub alloc-Took :
    (ba : BuddyAllocator) (marks : List (ℕ × ℕ)) (len : ℕ)
    → Arena ba marks
    → 0 < len
    → len < 2 ^ 31
    → Took ba marks len (alloc ba len)
alloc-Took ba marks len a h k = elim (alloc_lem ba a.blocks len a.inv h k) [
  | inl (run, _) ↦ inl run
  | inr (i, ba', run, taken) ↦
      let (ys, before, after, inv, was, now) = Taken-Granted ba a.blocks _ i ba' taken in
      inr (
        i,
        ba',
        run,
        record {
          blocks = ys;
          inv = inv;
          bag = λ u.
              ap (count u) now
              ∙ count-middle u (i, order_of len ba.page_size) before after
              ∙ one_more u (i, order_of len ba.page_size) (before ++ after) marks
                  (sym (ap (count u) was) ∙ a.bag u);
        },
        taken.kept,
        inside taken,
      )
]

one_less :
    (u v : ℕ × ℕ) (us vs : List (ℕ × ℕ))
    → count u (v ∷ us) ≡ count u (v ∷ vs)
    → count u us ≡ count u vs
one_less u v us vs h = elim (Bool-cases (same u v)) [
  | inl e ↦ omega (arith, rw e at h)
  | inr e ↦ rw e at h
]

-- Giving a marked block back.
abbrev pub Gave : BuddyAllocator → ℕ × ℕ → List (ℕ × ℕ) → Outcome BuddyAllocator → Type 0
Gave ba (i, o) marks r =
    ((r ≡ fault) × AtEdge ba.nr_pages i o)
    ⊎ ((ba' : BuddyAllocator) × (r ≡ ret ba') × Arena ba' marks × Kept ba ba')

pub free-Gave :
    (ba : BuddyAllocator) (i o : ℕ) (marks marks' : List (ℕ × ℕ))
    → Arena ba marks
    → ((u : ℕ × ℕ) → count u marks ≡ count u ((i, o) ∷ marks'))
    → Gave ba (i, o) marks' (free ba i)
free-Gave ba i o marks marks' a h =
    let self : same (i, o) (i, o) ≡ true = ground arith in
    let one : count (i, o) ((i, o) ∷ marks') ≡ suc (count (i, o) marks') = rw self in
    let (pre, post, split, at) =
      used_block_at 0 i o a.blocks (omega (arith, a.bag (i, o), h (i, o), one)) in
    let at' : pages pre ≡ i = omega (arith, at) in
    let was : used 0 a.blocks ≡ used 0 pre ++ (i, o) ∷ used (i + 2 ^ o) post =
      ap (used 0) split
      ∙ used-append 0 pre (used_block o ∷ post)
      ∙ ap (λ k. used 0 pre ++ (k, o) ∷ used (k + 2 ^ o) post) at in
    let done : FreeDone ba i o (used 0 pre ++ used (i + 2 ^ o) post) (free ba i) =
      subst (λ k. FreeDone ba k o (used 0 pre ++ used (k + 2 ^ o) post) (free ba k)) at'
        (free_lem ba pre o post (subst (Inv ba) split a.inv)) in
    elim done [
      | inl stuck ↦ inl stuck
      | inr (ba', ys, run, inv, kept, left) ↦ inr (
        ba',
        run,
        record {
          blocks = ys;
          inv = inv;
          bag = λ u.
              ap (count u) left
              ∙ one_less u (i, o) (used 0 pre ++ used (i + 2 ^ o) post) marks'
                  (sym (
                      ap (count u) was ∙ count-middle u (i, o) (used 0 pre) (used (i + 2 ^ o) post))
                    ∙ a.bag u
                    ∙ h u);
        },
        kept,
      )
    ]
