-- ===== src/Vmq/Heap.antt =====
-- The buffers that are allocated: their numbers fall along the list, and each owns a block of pages.
use pi_frame.Prelude.{
  ℕ, suc, ◌/◌, ◌≤◌, ◌<◌, ◌≡◌, refl, ap, ◌∙◌, Bool-cases, inl, inr, Option, none, some, List, [],
  ◌∷◌, arith, ◌==◌, if◌then◌else◌, length, map,
}
use pi_frame.Balloc.{order_of}
use pi_frame.Balloc.Arena.{count, one_more, count-middle}
use pi_frame.Vmq.{Buffer, find_buffer, set_refcnt, erase_buffer}

abbrev pub Below : ℕ → List Buffer → Type 0
Below n [] = Unit {0}
Below n (b ∷ bs) = (b.id < n) × Below b.id bs

-- The pages of a buffer.
abbrev pub block : ℕ → Buffer → ℕ × ℕ
block page_size b = (b.offset / page_size, order_of b.size page_size)

pub find_buffer_above : (i n : ℕ) (bs : List Buffer) → Below n bs → n ≤ i → find_buffer i bs ≡ none
unfolding find_buffer
find_buffer_above i n [] w h = refl
find_buffer_above i n (b ∷ bs) w h = ground (arith, find_buffer_above i b.id bs w.1)

pub find_buffer-id : (i : ℕ) (bs : List Buffer) (b : Buffer) → find_buffer i bs ≡ some b → b.id ≡ i
unfolding find_buffer
find_buffer-id i [] b h = cc
find_buffer-id i (x ∷ bs) b h = ground (arith, find_buffer-id i bs b)

abbrev pub with_refcnt : ℕ → Option Buffer → Option Buffer
with_refcnt r none = none
with_refcnt r (some b) = some (record b { refcnt = r })

pub find_buffer-set_refcnt :
    (i j r : ℕ) (bs : List Buffer)
    → find_buffer j (set_refcnt i r bs)
      ≡ (if i == j then with_refcnt r (find_buffer j bs) else find_buffer j bs)
unfolding find_buffer set_refcnt
find_buffer-set_refcnt i j r [] = ground arith
find_buffer-set_refcnt i j r (b ∷ bs) = ground (arith, find_buffer-set_refcnt i j r bs)

pub find_buffer-erase :
    (i j n : ℕ) (bs : List Buffer)
    → Below n bs
    → find_buffer j (erase_buffer i bs) ≡ (if i == j then none else find_buffer j bs)
unfolding find_buffer erase_buffer
find_buffer-erase i j n [] w = ground arith
find_buffer-erase i j n (b ∷ bs) w =
    ground (arith, find_buffer-erase i j b.id bs w.1, find_buffer_above j b.id bs w.1)

pub Below-mono : (m n : ℕ) (bs : List Buffer) → m ≤ n → Below m bs → Below n bs
Below-mono m n [] h w = tt
Below-mono m n (b ∷ bs) h w = (omega (arith, w.0), w.1)

pub Below-set_refcnt : (i r n : ℕ) (bs : List Buffer) → Below n bs → Below n (set_refcnt i r bs)
unfolding set_refcnt
Below-set_refcnt i r n [] w = tt
Below-set_refcnt i r n (b ∷ bs) w = ground (arith, Below-set_refcnt i r b.id bs w.1)

pub Below-erase : (i n : ℕ) (bs : List Buffer) → Below n bs → Below n (erase_buffer i bs)
unfolding erase_buffer
Below-erase i n [] w = tt
Below-erase i n (b ∷ bs) w = ground (arith, Below-erase i b.id bs w.1, Below-mono b.id n bs)

pub length-set_refcnt : (i r : ℕ) (bs : List Buffer) → length (set_refcnt i r bs) ≡ length bs
unfolding set_refcnt
length-set_refcnt i r [] = refl
length-set_refcnt i r (b ∷ bs) = ground (arith, length-set_refcnt i r bs)

pub length-erase :
    (i : ℕ) (bs : List Buffer) (b : Buffer)
    → find_buffer i bs ≡ some b
    → length bs ≡ suc (length (erase_buffer i bs))
unfolding find_buffer erase_buffer
length-erase i [] b h = cc
length-erase i (x ∷ bs) b h = ground (arith, length-erase i bs b)

module _ (page_size : ℕ) where
  pub map-block-set_refcnt :
      (i r : ℕ) (bs : List Buffer)
      → map (block page_size) (set_refcnt i r bs) ≡ map (block page_size) bs
  unfolding set_refcnt
  map-block-set_refcnt i r [] = refl
  map-block-set_refcnt i r (b ∷ bs) = elim (Bool-cases (b.id == i)) [
    | inl h ↦ simp h
    | inr h ↦ simp (h, map-block-set_refcnt i r bs)
  ]

  pub count-erase :
      (u : ℕ × ℕ) (i : ℕ) (bs : List Buffer) (b : Buffer)
      → find_buffer i bs ≡ some b
      → count u (map (block page_size) bs)
        ≡ count u (block page_size b ∷ map (block page_size) (erase_buffer i bs))
  unfolding find_buffer erase_buffer
  count-erase u i [] b h = cc
  count-erase u i (x ∷ bs) b h = elim (Bool-cases (x.id == i)) [
    | inl hit ↦
        let e : x ≡ b = ground arith in
        simp hit (ap (λ y. count u (block page_size y ∷ map (block page_size) bs)) e)
    | inr miss ↦
        let h' : find_buffer i bs ≡ some b = simp miss at h in
        simp miss (
          one_more u (block page_size x) (map (block page_size) bs)
            (block page_size b ∷ map (block page_size) (erase_buffer i bs))
            (count-erase u i bs b h')
          ∙ count-middle u (block page_size b) (block page_size x ∷ [])
              (map (block page_size) (erase_buffer i bs)))
  ]
