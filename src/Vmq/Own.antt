-- ===== src/Vmq/Own.antt =====
-- `remove_buffer_item` by the producer that owns the buffer.
use pi_frame.Prelude.{
  ℕ, ◌+◌, ◌<◌, ◌≡◌, sym, ap, ◌∙◌, subst, true, false, Bool-cases, inl, inr, Option, none, some,
  List, [], ◌∷◌, arith, Outcome, ret, fault, hang, ◌==◌, refl,
}
use pi_frame.Vmq.{Buffer, Manager, find_buffer, remove_buffer}
use pi_frame.Vmq.Heap.{block, find_buffer-id}
use pi_frame.Vmq.State.{
  Owned, marks, State, Safe, Safe-weaken, Same, Removed, remove_buffer-own, own_block,
}
use pi_frame.Vmq.Unref.{one}

pub Owned-owner :
    (b : Buffer) (r o : ℕ) → Owned (some b) r o → 0 < o → (b.refcnt ≡ 0) × (r ≡ 0) × (o ≡ 1)
Owned-owner b r o w p = ground arith

-- A producer's buffer is there.
pub Owned-buffer : (o : Option Buffer) (r w : ℕ) → 0 < w → Owned o r w → (b : Buffer) × (o ≡ some b)
Owned-buffer none r w p k = absurd (omega (arith, k.1))
Owned-buffer (some b) r w p k = (b, refl)

pub Owned-still :
    (i j : ℕ) (o : Option Buffer) (r w w' : ℕ)
    → (i == j) ≡ false
    → w ≡ w' + one i j
    → Owned o r w
    → Owned o r w'
Owned-still i j none r w w' h e k = ground arith
Owned-still i j (some b) r w w' h e k = ground arith

pub Safe-map {ℓ} :
    {A : Type ℓ} (nr : ℕ) (us : List (ℕ × ℕ)) (P Q : A → Type 0) (r : Outcome A)
    → Safe nr us P r
    → ((a : A) → P a → Q a)
    → Safe nr us Q r
Safe-map nr us P Q (ret a) s h = h a s
Safe-map nr us P Q fault s h = s
Safe-map nr us P Q hang s h = s

-- The owner of a buffer gives it back.
abbrev pub Returned : Manager → List (ℕ × ℕ) → (ℕ → ℕ) → (ℕ → ℕ) → Manager → Type 0
Returned m lost held owned m' = State m' lost held owned × Same m m'

module _ (m : Manager) (lost : List (ℕ × ℕ)) (held owned owned' : ℕ → ℕ) (i : ℕ) (b : Buffer) where
  Removed-Returned :
      State m lost held owned
      → find_buffer i m.buffers ≡ some b
      → ((j : ℕ) → owned j ≡ owned' j + one i j)
      → (m' : Manager) → Removed m b lost m'
      → Returned m lost held owned' m'
  Removed-Returned s there minus m' k = (record { heap = k.heap; counts = counts' }, k.same)
    where
      counts' : (j : ℕ) → Owned (find_buffer j m'.buffers) (held j) (owned' j)
      counts' j = elim (Bool-cases (i == j)) [
        | inl hit ↦
            let e : i ≡ j = ground arith in
            let id : b.id ≡ i = find_buffer-id i m.buffers b there in
            let gone : find_buffer j m'.buffers ≡ none =
              k.gone j ∙ (let t : (b.id == j) ≡ true = ground arith in rw t) in
            let at : Owned (some b) (held j) (owned j) =
              subst (λ n. Owned (some b) (held n) (owned n)) e
                (subst (λ o. Owned o (held i) (owned i)) there (s.counts i)) in
            let less : owned j ≡ owned' j + 1 = minus j ∙ rw hit in
            let (_, no_ref, one_owner) =
              Owned-owner b (held j) (owned j) at (omega (arith, less)) in
            subst (λ o. Owned o (held j) (owned' j)) (sym gone)
              (no_ref, omega (arith, less, one_owner))
        | inr miss ↦
            let id : b.id ≡ i = find_buffer-id i m.buffers b there in
            let still : find_buffer j m'.buffers ≡ find_buffer j m.buffers =
              k.gone j ∙ (let t : (b.id == j) ≡ false = rw id miss in rw t) in
            subst (λ o. Owned o (held j) (owned' j)) (sym still)
              (Owned-still i j (find_buffer j m.buffers) (held j) (owned j) (owned' j) miss
                (minus j) (s.counts j))
      ]

  pub remove_buffer-Returned :
      State m lost held owned
      → find_buffer i m.buffers ≡ some b
      → ((j : ℕ) → owned j ≡ owned' j + one i j)
      → Safe m.ba.nr_pages
          (block m.page_size b ∷ [])
          (Returned m lost held owned')
          (remove_buffer m b)
  remove_buffer-Returned s there minus =
      let id : b.id ≡ i = find_buffer-id i m.buffers b there in
      let found : find_buffer b.id m.buffers ≡ some b =
        ap (λ n. find_buffer n m.buffers) id ∙ there in
      Safe-map m.ba.nr_pages (block m.page_size b ∷ []) (Removed m b lost)
        (Returned m lost held owned') (remove_buffer m b) (remove_buffer-own m b lost s.heap found)
        (Removed-Returned s there minus)

  pub give_back :
      State m lost held owned
      → find_buffer i m.buffers ≡ some b
      → ((j : ℕ) → owned j ≡ owned' j + one i j)
      → Safe m.ba.nr_pages (marks m lost) (Returned m lost held owned') (remove_buffer m b)
  give_back s there minus =
      let id : b.id ≡ i = find_buffer-id i m.buffers b there in
      let found : find_buffer b.id m.buffers ≡ some b =
        ap (λ n. find_buffer n m.buffers) id ∙ there in
      Safe-weaken m.ba.nr_pages m.ba.nr_pages (block m.page_size b ∷ []) (marks m lost)
        (Returned m lost held owned') (remove_buffer m b) refl (own_block m b lost found)
        (remove_buffer-Returned s there minus)
