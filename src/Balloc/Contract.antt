-- ===== src/Balloc/Contract.antt =====
-- What the users of balloc.c rely on: blocks that are handed out lie apart, are large enough, and
-- come back.
use pi_frame.Prelude.{
  ℕ, ◌+◌, ◌*◌, ◌^◌, ◌≤◌, ◌<◌, ◌≡◌, sym, ap, ◌∙◌, subst, ◌⊎◌, inl, inr, none, some, List, [], ◌∷◌,
  ◌++◌, arith, ret, Bool-cases,
}
use pi_frame.Balloc.{Entry, BuddyAllocator, alloc, order_of}
use pi_frame.Balloc.Chain.{Chain-end, free_block, pages, used, used-append}
use pi_frame.Balloc.Inv.{Inv}
use pi_frame.Balloc.Order.{order_of_lem}
use pi_frame.Balloc.Halve.{halves}
use pi_frame.Balloc.Alloc.{used_block, alloc_lem, Taken, used-halves, pages-halves}

-- The marked blocks lie in the pages `lo` to `hi`, one behind the other.
abbrev pub Apart : ℕ → ℕ → List (ℕ × ℕ) → Type 0
Apart lo hi [] = lo ≤ hi
Apart lo hi ((i, o) ∷ us) = (lo ≤ i) × Apart (i + 2 ^ o) hi us

Apart-lower : (lo lo' hi : ℕ) (us : List (ℕ × ℕ)) → lo' ≤ lo → Apart lo hi us → Apart lo' hi us
Apart-lower lo lo' hi [] h a = omega arith
Apart-lower lo lo' hi ((i, o) ∷ us) h a = (omega (arith, a.0), a.1)

used-Apart : (i : ℕ) (xs : List Entry) → Apart i (i + pages xs) (used i xs)
used-Apart i [] = omega arith
used-Apart i (x ∷ xs) =
    let rest = used-Apart (i + 2 ^ x.order) xs in
    let e : i + 2 ^ x.order + pages xs ≡ i + (2 ^ x.order + pages xs) = omega arith in
    let rest' = subst (λ k. Apart (i + 2 ^ x.order) k (used (i + 2 ^ x.order) xs)) e rest in
    elim (Bool-cases x.allocated) [
      | inl marked ↦ rw marked (omega arith, rest')
      | inr idle ↦
          rw idle
            (Apart-lower (i + 2 ^ x.order) i _ (used (i + 2 ^ x.order) xs) (omega arith) rest')
    ]

-- In a well-formed allocator no two marked blocks share a page, and all lie within the bitmap.
pub Inv-Apart :
    (ba : BuddyAllocator) (xs : List Entry) → Inv ba xs → Apart 0 ba.nr_pages (used 0 xs)
Inv-Apart ba xs v =
    let total : 0 + pages xs ≡ ba.nr_pages =
      omega (arith, Chain-end ba.bitmap 0 ba.nr_pages xs v.chain) in
    subst (λ k. Apart 0 k (used 0 xs)) total (used-Apart 0 xs)

module _ (pre post : List Entry) (o k : ℕ) where
  pub used_before :
      used 0 (pre ++ free_block (o + k) ∷ post) ≡ used 0 pre ++ used (pages pre + 2 ^ (o + k)) post
  used_before =
      let zeroth : 0 + pages pre ≡ pages pre = omega arith in
      used-append 0 pre (free_block (o + k) ∷ post)
      ∙ ap (λ j. used 0 pre ++ used (j + 2 ^ (o + k)) post) zeroth

  pub used_after_at : (i : ℕ) → used i (halves o k ++ post) ≡ used (i + pages (halves o k)) post
  used_after_at i = used-append i (halves o k) post ∙ rw (used-halves i o k)

  used_after :
      used 0 (pre ++ used_block o ∷ (halves o k ++ post))
      ≡ used 0 pre ++ (pages pre, o) ∷ used (pages pre + 2 ^ (o + k)) post
  used_after =
      let zeroth : 0 + pages pre ≡ pages pre = omega arith in
      let over : pages pre + 2 ^ o + pages (halves o k) ≡ pages pre + 2 ^ (o + k) =
        omega (arith, pages-halves o k) in
      used-append 0 pre (used_block o ∷ (halves o k ++ post))
      ∙ ap (λ j. used 0 pre ++ (j, o) ∷ used (j + 2 ^ o) (halves o k ++ post)) zeroth
      ∙ ap (λ us. used 0 pre ++ (pages pre, o) ∷ us)
          (used_after_at (pages pre + 2 ^ o) ∙ ap (λ j. used j post) over)

-- What a client is given: a block of order `o` at the page `i`, in a well-formed allocator where it
-- is marked beside those that were marked before.
abbrev pub Granted : BuddyAllocator → List (ℕ × ℕ) → ℕ → ℕ → BuddyAllocator → Type 0
Granted ba marked o i ba' =
    (ys : List Entry) × (before : List (ℕ × ℕ)) × (after : List (ℕ × ℕ)) × Inv ba' ys
    × (marked ≡ before ++ after)
    × (used 0 ys ≡ before ++ (i, o) ∷ after)

pub Taken-Granted :
    (ba : BuddyAllocator) (xs : List Entry) (o i : ℕ) (ba' : BuddyAllocator)
    → Taken ba xs o i ba'
    → Granted ba (used 0 xs) o i ba'
Taken-Granted ba xs o i ba' t = (
  t.pre ++ used_block o ∷ (halves o t.k ++ t.post),
  used 0 t.pre,
  used (pages t.pre + 2 ^ (o + t.k)) t.post,
  t.inv,
  ap (used 0) t.was ∙ used_before t.pre t.post o t.k,
  used_after t.pre t.post o t.k
      ∙ ap (λ j. used 0 t.pre ++ (j, o) ∷ used (pages t.pre + 2 ^ (o + t.k)) t.post) (sym t.place),
)

-- What `ba_alloc` promises for a positive length: it leaves the allocator as it is, or it hands out
-- a block that holds the length, marks it beside those marked before, and moves none of these.
pub alloc_grants :
    (ba : BuddyAllocator) (xs : List Entry) (len : ℕ)
    → Inv ba xs
    → 0 < len
    → len < 2 ^ 31
    → (alloc ba len ≡ ret (none, ba))
      ⊎ ((i : ℕ) × (o : ℕ) × (ba' : BuddyAllocator) × (alloc ba len ≡ ret (some i, ba'))
          × (len ≤ 2 ^ o * ba.page_size)
          × Granted ba (used 0 xs) o i ba')
alloc_grants ba xs len v h k =
    let (_, holds, _) = order_of_lem len ba.page_size h v.page_pos (omega (arith, v.page_fits)) in
    elim (alloc_lem ba xs len v h k) [
      | inl (run, _) ↦ inl run
      | inr (i, ba', run, taken) ↦
          inr (i, order_of len ba.page_size, ba', run, holds, Taken-Granted ba xs _ i ba' taken)
    ]
