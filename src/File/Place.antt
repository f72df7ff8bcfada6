-- ===== src/File/Place.antt =====
-- `PFU_safePwrite`: all bytes get to their places, whatever pieces the kernel makes of them.
use pi_frame.Prelude.{
  ℕ, zero, suc, ◌+◌, ◌-◌, ◌≤◌, ◌<◌, ◌≡◌, refl, sym, ap, ◌∙◌, true, Bool-cases, inl, inr, List, [],
  ◌∷◌, ◌++◌, arith, ret, ltb, ◌==◌, length, take, drop, append-nil, length-drop,
}
use pi_frame.File.{Event, count, eintr, eio, enospc, other, bytes, splice, pwrite_loop, safe_pwrite}
use pi_frame.File.Whole.{Serves, zero_plus, suc_plus, take-split}

splice_nil : (offset : ℕ) (file : List ℕ) → splice offset [] file ≡ file
unfolding splice
splice_nil zero file = refl
splice_nil (suc offset) file = refl

-- Bytes that follow others go behind them.
splice-splice :
    (offset : ℕ) (xs : List ℕ) (y : ℕ) (ys file : List ℕ)
    → splice (offset + length xs) (y ∷ ys) (splice offset xs file)
      ≡ splice offset (xs ++ y ∷ ys) file
unfolding splice
splice-splice offset [] y ys file =
    ap (λ f. splice (offset + 0) (y ∷ ys) f) (splice_nil offset file)
    ∙ ap (λ o. splice o (y ∷ ys) file) (omega arith)
splice-splice zero (x ∷ xs) y ys [] =
    ap (λ o. splice o (y ∷ ys) (x ∷ splice zero xs [])) (zero_plus (suc (length xs)))
    ∙ ap (λ l. x ∷ l)
        (ap (λ o. splice o (y ∷ ys) (splice zero xs [])) (sym (zero_plus (length xs)))
          ∙ splice-splice zero xs y ys [])
splice-splice zero (x ∷ xs) y ys (f ∷ fs) =
    ap (λ o. splice o (y ∷ ys) (x ∷ splice zero xs fs)) (zero_plus (suc (length xs)))
    ∙ ap (λ l. x ∷ l)
        (ap (λ o. splice o (y ∷ ys) (splice zero xs fs)) (sym (zero_plus (length xs)))
          ∙ splice-splice zero xs y ys fs)
splice-splice (suc offset) (x ∷ xs) y ys [] =
    ap (λ o. splice o (y ∷ ys) (0 ∷ splice offset (x ∷ xs) [])) (suc_plus offset (suc (length xs)))
    ∙ ap (λ l. 0 ∷ l) (splice-splice offset (x ∷ xs) y ys [])
splice-splice (suc offset) (x ∷ xs) y ys (f ∷ fs) =
    ap (λ o. splice o (y ∷ ys) (f ∷ splice offset (x ∷ xs) fs)) (suc_plus offset (suc (length xs)))
    ∙ ap (λ l. f ∷ l) (splice-splice offset (x ∷ xs) y ys fs)

splice-append :
    (offset : ℕ) (xs ys file : List ℕ)
    → splice (offset + length xs) ys (splice offset xs file) ≡ splice offset (xs ++ ys) file
splice-append offset xs [] file =
    splice_nil (offset + length xs) (splice offset xs file)
    ∙ ap (λ l. splice offset l file) (sym (append-nil xs))
splice-append offset xs (y ∷ ys) file = splice-splice offset xs y ys file

length-take_all : (n : ℕ) (xs : List ℕ) → n ≤ length xs → length (take n xs) ≡ n
length-take_all zero xs h = refl
length-take_all (suc n) [] h = absurd (omega (arith, h))
length-take_all (suc n) (x ∷ xs) h = ap suc (length-take_all n xs (omega (arith, h)))

pieces :
    (n left offset : ℕ) (content file : List ℕ)
    → n ≤ left
    → left ≤ length content
    → splice (offset + n) (take (left - n) (drop n content)) (splice offset (take n content) file)
      ≡ splice offset (take left content) file
pieces n left offset content file h k =
    ap
      (λ m.
        splice (offset + m) (take (left - n) (drop n content))
          (splice offset (take n content) file))
      (sym (length-take_all n content (omega (arith, h, k))))
    ∙ splice-append offset (take n content) (take (left - n) (drop n content)) file
    ∙ ap (λ l. splice offset l file)
        (take-split n (left - n) content ∙ ap (λ m. take m content) (omega (arith, h)))

pwrite_loop-Serves :
    (es : List Event) (size left : ℕ) (content : List ℕ) (offset : ℕ) (file : List ℕ)
    → Serves es left
    → 0 < left
    → left ≤ length content
    → pwrite_loop es size left content offset file
      ≡ ret (bytes size, splice offset (take left content) file)
unfolding pwrite_loop
pwrite_loop-Serves [] size left content offset file s pos len = absurd s
pwrite_loop-Serves (count n ∷ es) size left content offset file s pos len =
    elim (Bool-cases (n == left)) [
      | inl last ↦
          let e : n ≡ left = ground arith in
          rw last (ap (λ k. ret (bytes size, splice offset (take k content) file)) e)
      | inr more ↦
          let go_on : Serves es (left - n) = elim s.2 [
            | inl e ↦ absurd (ground (arith, e))
            | inr go ↦ go
          ] in
          rw more (
            pwrite_loop-Serves es size (left - n) (drop n content) (offset + n)
              (splice offset (take n content) file) go_on (ground (arith, s.1))
              (omega (arith, length-drop n content, len))
            ∙ ap (λ l. ret (bytes size, l)) (pieces n left offset content file s.1 len))
    ]
pwrite_loop-Serves (eintr ∷ es) size left content offset file s pos len =
    let t : ltb 0 left ≡ true = ground arith in
    rw t (pwrite_loop-Serves es size left content offset file s pos len)
pwrite_loop-Serves (eio ∷ es) size left content offset file s pos len = absurd s
pwrite_loop-Serves (enospc ∷ es) size left content offset file s pos len = absurd s
pwrite_loop-Serves (other ∷ es) size left content offset file s pos len = absurd s

-- `PFU_safePwrite` of some bytes returns their number, and the file has just these bytes from the offset
-- on and is as it was elsewhere, however the kernel cuts them into pieces and interrupts the calls.
pub safe_pwrite-Serves :
    (es : List Event) (size : ℕ) (content : List ℕ) (offset : ℕ) (file : List ℕ)
    → Serves es size
    → 0 < size
    → size ≤ length content
    → safe_pwrite es size content offset file
      ≡ ret (bytes size, splice offset (take size content) file)
unfolding safe_pwrite
safe_pwrite-Serves es size content offset file s pos len =
    pwrite_loop-Serves es size size content offset file s pos len
