-- ===== src/Vmq/Disjoint.antt =====
-- The pages of the buffers of a queue: no two buffers share one.
use pi_frame.Prelude.{
  ℕ, suc, ◌+◌, ◌/◌, ◌^◌, ◌≤◌, ◌<◌, ◌≡◌, refl, sym, ap, ap₂, ◌∙◌, subst, ◌≢◌, true, false,
  Bool-cases, ◌⊎◌, inl, inr, some, List, [], ◌∷◌, arith, ◌==◌, map,
}
use pi_frame.Prelude.Pow.{two_pow_pos}
use pi_frame.Balloc.{order_of}
use pi_frame.Balloc.Chain.{used}
use pi_frame.Balloc.Arena.{count, count-append, same}
use pi_frame.Balloc.Contract.{Apart, Inv-Apart}
use pi_frame.Vmq.{Buffer, Manager, find_buffer, erase_buffer}
use pi_frame.Vmq.Heap.{block, count-erase, find_buffer-erase}
use pi_frame.Vmq.Items.{Inv}

-- Two blocks, one behind the other.
abbrev pub Behind : ℕ × ℕ → ℕ × ℕ → Type 0
Behind (i, o) (j, p) = i + 2 ^ o ≤ j

Apart-le : (lo hi : ℕ) (us : List (ℕ × ℕ)) → Apart lo hi us → lo ≤ hi
Apart-le lo hi [] a = a
Apart-le lo hi ((i, o) ∷ us) a = omega (arith, a.0, Apart-le (i + 2 ^ o) hi us a.1)

same→≡ : (i o j p : ℕ) → same (i, o) (j, p) ≡ true → (i ≡ j) × (o ≡ p)
same→≡ i o j p h = ground (arith, h)

Apart-within :
    (lo hi j p : ℕ) (us : List (ℕ × ℕ))
    → Apart lo hi us
    → 0 < count (j, p) us
    → (lo ≤ j) × (j + 2 ^ p ≤ hi)
Apart-within lo hi j p [] a h = absurd (omega (arith, h))
Apart-within lo hi j p ((i, o) ∷ us) a h = elim (Bool-cases (same (j, p) (i, o))) [
  | inl hit ↦
      let (first, order) = same→≡ j p i o hit in
      let end : i + 2 ^ o ≡ j + 2 ^ p =
        ap₂ (λ (x : ℕ) (y : ℕ). x + 2 ^ y) (sym first) (sym order) in
      (omega (arith, a.0, first), omega (arith, end, Apart-le (i + 2 ^ o) hi us a.1))
  | inr miss ↦
      let rest = Apart-within (i + 2 ^ o) hi j p us a.1 (simp miss at h) in
      (omega (arith, a.0, rest.0), rest.1)
]

-- A block is marked once.
Apart-once : (lo hi j p : ℕ) (us : List (ℕ × ℕ)) → Apart lo hi us → count (j, p) us ≤ 1
Apart-once lo hi j p [] a = omega arith
Apart-once lo hi j p ((i, o) ∷ us) a = elim (Bool-cases (same (j, p) (i, o))) [
  | inl hit ↦
      let (first, _) = same→≡ j p i o hit in
      elim (Bool-cases (count (j, p) us == 0)) [
        | inl only ↦ simp hit (omega (arith, ground_zero (count (j, p) us) only))
        | inr again ↦
            let rest =
              Apart-within (i + 2 ^ o) hi j p us a.1 (ground_pos (count (j, p) us) again) in
            absurd (omega (arith, rest.0, first, two_pow_pos o))
      ]
  | inr miss ↦ simp miss (Apart-once (i + 2 ^ o) hi j p us a.1)
]
  where
    ground_zero : (n : ℕ) → (n == 0) ≡ true → n ≡ 0
    ground_zero n h = ground (arith, h)

    ground_pos : (n : ℕ) → (n == 0) ≡ false → 0 < n
    ground_pos n h = ground (arith, h)

Apart-Behind :
    (lo hi i o j p : ℕ) (us : List (ℕ × ℕ))
    → Apart lo hi us
    → same (i, o) (j, p) ≡ false
    → 0 < count (i, o) us
    → 0 < count (j, p) us
    → Behind (i, o) (j, p) ⊎ Behind (j, p) (i, o)
Apart-Behind lo hi i o j p [] a other h k = absurd (omega (arith, h))
Apart-Behind lo hi i o j p ((l, q) ∷ us) a other h k = elim (Bool-cases (same (i, o) (l, q))) [
  | inl hit ↦ elim (Bool-cases (same (j, p) (l, q))) [
    | inl both ↦ absurd (ground (arith, hit, both, other))
    | inr second ↦
        let (first, order) = same→≡ i o l q hit in
        let end : l + 2 ^ q ≡ i + 2 ^ o =
          ap₂ (λ (x : ℕ) (y : ℕ). x + 2 ^ y) (sym first) (sym order) in
        inl (omega (arith, end, (Apart-within (l + 2 ^ q) hi j p us a.1 (simp second at k)).0))
  ]
  | inr miss ↦ elim (Bool-cases (same (j, p) (l, q))) [
    | inl hit ↦
        let (first, order) = same→≡ j p l q hit in
        let end : l + 2 ^ q ≡ j + 2 ^ p =
          ap₂ (λ (x : ℕ) (y : ℕ). x + 2 ^ y) (sym first) (sym order) in
        inr (omega (arith, end, (Apart-within (l + 2 ^ q) hi i o us a.1 (simp miss at h)).0))
    | inr second ↦
        Apart-Behind (l + 2 ^ q) hi i o j p us a.1 other (simp miss at h) (simp second at k)
  ]
]

count_self : (i o : ℕ) (us : List (ℕ × ℕ)) → count (i, o) ((i, o) ∷ us) ≡ suc (count (i, o) us)
count_self i o us = let t : same (i, o) (i, o) ≡ true = ground arith in rw t refl

count-le : (w u : ℕ × ℕ) (us : List (ℕ × ℕ)) → count w us ≤ count w (u ∷ us)
count-le w u us = elim (Bool-cases (same w u)) [
  | inl hit ↦ simp hit (omega arith)
  | inr miss ↦ simp miss (omega arith)
]

-- Two buffers of a well-formed queue have blocks of pages that do not overlap and lie within the arena.
pub buffers-Behind :
    (m : Manager) (lost : List (ℕ × ℕ)) (i j : ℕ) (b c : Buffer)
    → Inv m lost
    → find_buffer i m.buffers ≡ some b
    → find_buffer j m.buffers ≡ some c
    → i ≢ j
    → (Behind (block m.page_size b) (block m.page_size c)
        ⊎ Behind (block m.page_size c) (block m.page_size b))
      × (b.offset / m.page_size + 2 ^ order_of b.size m.page_size ≤ m.ba.nr_pages)
buffers-Behind m lost i j b c v here there apart =
    let h = v.state.heap in
    let marked = used 0 h.arena.blocks in
    let laid : Apart 0 m.ba.nr_pages marked = Inv-Apart m.ba h.arena.blocks h.arena.inv in
    let u = block m.page_size b in
    let w = block m.page_size c in
    let others = map (block m.page_size) (erase_buffer i m.buffers) in
    let distinct : (i == j) ≡ false = ground (arith, apart) in
    let still : find_buffer j (erase_buffer i m.buffers) ≡ some c =
      find_buffer-erase i j m.next m.buffers h.below ∙ rw distinct there in
    let split : (x : ℕ × ℕ) → count x marked ≡ count x (u ∷ others) + count x lost = λ x.
      h.arena.bag x
      ∙ count-append x (map (block m.page_size) m.buffers) lost
      ∙ ap (λ n. n + count x lost) (count-erase m.page_size x i m.buffers b here) in
    let rest = map (block m.page_size) (erase_buffer j (erase_buffer i m.buffers)) in
    let second : count w others ≡ count w (w ∷ rest) =
      count-erase m.page_size w j (erase_buffer i m.buffers) c still in
    let has_u : 0 < count u marked = omega (arith, split u, count_self u.0 u.1 others) in
    let has_w : 0 < count w others = omega (arith, second, count_self w.0 w.1 rest) in
    let within = (Apart-within 0 m.ba.nr_pages u.0 u.1 marked laid has_u).1 in
    elim (Bool-cases (same u w)) [
      | inl equal ↦
          let (first, order) = same→≡ u.0 u.1 w.0 w.1 equal in
          let e : w ≡ u = ap₂ (λ (x : ℕ) (y : ℕ). (x, y)) (sym first) (sym order) in
          let again : 0 < count u others = subst (λ x. 0 < count x others) e has_w in
          absurd (
            omega (
              arith,
              split u,
              count_self u.0 u.1 others,
              again,
              Apart-once 0 m.ba.nr_pages u.0 u.1 marked laid,
            ))
      | inr other ↦ (
        Apart-Behind 0 m.ba.nr_pages u.0 u.1 w.0 w.1 marked laid other has_u
            (omega (arith, split w, count-le w u others, has_w)),
        within,
      )
    ]
