-- ===== src/Vmq/Getbuf.antt =====
-- `vmq_getbuf`: a producer takes a buffer.
use pi_frame.Prelude.{
  ℕ, ◌/◌, ◌^◌, ◌<◌, ◌≡◌, refl, ap, ap₂, subst, Bool, true, false, Bool-cases, Option-cases, ◌⊎◌,
  inl, inr, none, some, List, [], ◌∷◌, arith, Outcome, ret, ◌>>=◌, if◌then◌else◌,
}
use pi_frame.Balloc.{order_of}
use pi_frame.Vmq.{
  Producer, Manager, Errno, efault, enomem, slt, remove_buffer, Phase, enter, Got, got, failed,
  blocked,
}
use pi_frame.Vmq.Calls.{
  Reply, info, error, asleep, find_producer, set_producer, getbuf_from, getbuf,
}
use pi_frame.Vmq.Heap.{block}
use pi_frame.Vmq.State.{Safe}
use pi_frame.Vmq.Items.{Inv}
use pi_frame.Vmq.Own.{Safe-map}
use pi_frame.Vmq.Take.{Leak, Gives, get_buffer-Returns}
use pi_frame.Vmq.Owner.{taken-Inv, undone-Inv, Refused-Inv}

-- The blocks at which the page allocator may fail: the one that the call gives back itself, where
-- the copy to the caller failed.
abbrev pub own : Bool → ℕ × ℕ → List (ℕ × ℕ)
own copied u = if copied then [] else u ∷ []

-- Pages are lost only where the buffer cannot be allocated, and the caller is told `enomem`.
abbrev pub Lost : Bool → Reply → List (ℕ × ℕ) → List (ℕ × ℕ) → Type 0
Lost given reply lost lost' =
    (lost' ≡ lost) ⊎ (given ≡ false) × (reply ≡ error enomem) × ((u : ℕ × ℕ) × (lost' ≡ u ∷ lost))

abbrev pub Took : Bool → List (ℕ × ℕ) → Reply × Manager → Type 0
Took given lost r = (lost' : List (ℕ × ℕ)) × Lost given r.0 lost lost' × Inv r.1 lost'

module _ (file : ℕ) (m : Manager) (lost : List (ℕ × ℕ)) (p : Producer) (size : ℕ)
    (signal given copied : Bool) where
  ending : Got × Manager → Outcome (Reply × Manager)
  ending r = elim r.0 [
    | failed e ↦ ret (error e, r.1)
    | blocked ph ↦ ret (asleep ph, r.1)
    | got b ↦
        if copied
        then ret (
          info b.size b.offset,
          record (r.1) { producers = set_producer file (some b.id) r.1.producers },
        )
        else (remove_buffer r.1 b >>= λ m'.
            ret (error efault, record m' { producers = set_producer file none m'.producers }))
  ]

  ending-Took :
      Inv m lost
      → find_producer file m.producers ≡ some p
      → p.buffer ≡ none
      → (v : Got × Manager) → Gives m lost size given v
      → (page : ℕ) × Safe m.ba.nr_pages
          (own copied (page, order_of size m.page_size))
          (Took given lost)
          (ending v)
  unfolding ending
  ending-Took v here nothing (failed e, m') (lost', leak, r) =
      (0, (lost', lost_by e lost' leak, Refused-Inv m lost lost' m' v r))
    where
      lost_by :
          (e : Errno) (lost' : List (ℕ × ℕ))
          → Leak given e lost lost'
          → Lost given (error e) lost lost'
      lost_by e lost' (inl same) = inl same
      lost_by e lost' (inr (no_buffer, is, more)) = inr (no_buffer, ap error is, more)
  ending-Took v here nothing (blocked ph, m') r =
      (0, (lost, inl refl, Refused-Inv m lost lost m' v r))
  ending-Took v here nothing (got b, m') g = elim (Bool-cases copied) [
    | inl good ↦ (0, rw good (lost, inl refl, taken-Inv file m lost p size b m' v here nothing g))
    | inr bad ↦ (
      b.offset / m'.page_size,
      rw bad (
          subst
            (λ o. Safe m.ba.nr_pages ((b.offset / m'.page_size, o) ∷ []) (Took given lost) (
              remove_buffer m' b >>= λ m''.
              ret (error efault, record m'' { producers = set_producer file none m''.producers })))
            (ap₂ order_of g.asked g.page_size)
            (subst
              (λ nr. Safe nr (block m'.page_size b ∷ []) (Took given lost) (
                remove_buffer m' b >>= λ m''.
                ret
                  (error efault, record m'' { producers = set_producer file none m''.producers })))
              g.nr
              (Safe-map m'.ba.nr_pages (block m'.page_size b ∷ [])
                (λ (r : Reply × Manager). Inv r.1 lost) (Took given lost)
                (remove_buffer m' b >>= λ m''.
                  ret
                    (error efault, record m'' { producers = set_producer file none m''.producers }))
                (undone-Inv file m lost p size b m' v here nothing g)
                (λ r k. (lost, inl refl, k))))),
    )
  ]

  pub getbuf_from-Took :
      (phase : Phase)
      → Inv m lost
      → find_producer file m.producers ≡ some p
      → p.buffer ≡ none
      → 0 < size
      → size < 2 ^ 31
      → (page : ℕ) × Safe m.ba.nr_pages
          (own copied (page, order_of size m.page_size))
          (Took given lost)
          (getbuf_from phase file size signal given copied m)
  unfolding getbuf_from ending
  getbuf_from-Took phase v here nothing pos small =
      let (r, run, gives) =
        get_buffer-Returns m lost size signal given phase v.state.heap v.fits pos small in
      let (page, safe) = ending-Took v here nothing r gives in (page, rw run safe)

slt_pos : (a : ℕ) → a < 2 ^ 32 → slt 0 a ≡ true → (0 < a) × (a < 2 ^ 31)
slt_pos a h k = ground arith

-- `vmq_getbuf` of a producer, for any size that is an `int`, returns or sleeps with the invariant kept,
-- and loses pages only where the buffer cannot be allocated and the caller is told so. It fails only
-- when the copy to the caller fails and the page allocator reads past its bitmap to free a block of
-- the order that the size asks for.
pub getbuf-Took :
    (file : ℕ) (m : Manager) (lost : List (ℕ × ℕ)) (p : Producer) (size : ℕ)
    (signal given copied : Bool)
    → Inv m lost
    → find_producer file m.producers ≡ some p
    → size < 2 ^ 32
    → (page : ℕ) × Safe m.ba.nr_pages
        (own copied (page, order_of size m.page_size))
        (Took given lost)
        (getbuf file (some size) signal given copied m)
unfolding getbuf
getbuf-Took file m lost p size signal given copied v here fits = elim (Option-cases p.buffer) [
  | inr (i, has) ↦ (0, rw (here, getbuf) (rw (has, getbuf) (lost, inl refl, v)))
  | inl nothing ↦ elim (Bool-cases (slt 0 size)) [
    | inr none_asked ↦
        (0, rw (here, getbuf) (rw (nothing, getbuf) (rw none_asked (lost, inl refl, v))))
    | inl asked ↦ elim (Bool-cases (slt m.size size)) [
      | inl large ↦
          (0, rw (here, getbuf) (rw (nothing, getbuf) (rw (asked, large) (lost, inl refl, v))))
      | inr small ↦
          let (pos, less) = slt_pos size fits asked in
          let (page, safe) =
            getbuf_from-Took file m lost p size signal given copied enter v here nothing pos less in
          (page, rw (here, getbuf) (rw (nothing, getbuf) (rw (asked, small) safe)))
    ]
  ]
]
