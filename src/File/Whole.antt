-- ===== src/File/Whole.antt =====
-- All bytes go through, whatever pieces the kernel makes of them.
use pi_frame.Prelude.{
  ℕ, zero, suc, ◌+◌, ◌-◌, ◌≤◌, ◌<◌, ◌≡◌, refl, sym, ap, ◌∙◌, true, false, Bool-cases, ◌⊎◌, inl, inr,
  List, [], ◌∷◌, ◌++◌, arith, ret, hang, ltb, ◌==◌, take, drop, append_assoc, replicate,
}
use pi_frame.File.{
  Event, count, eintr, eio, enospc, other, bytes, read_loop, safe_read, write_loop, safe_write,
  pread_loop, safe_pread,
}

-- The calls move `left` bytes: each some and not too many, or it is interrupted.
abbrev pub Serves : List Event → ℕ → Type 0
Serves [] left = ⊥
Serves (count n ∷ es) left = (0 < n) × (n ≤ left) × ((n ≡ left) ⊎ Serves es (left - n))
Serves (eintr ∷ es) left = Serves es left
Serves (eio ∷ es) left = ⊥
Serves (enospc ∷ es) left = ⊥
Serves (other ∷ es) left = ⊥

pub zero_plus : (m : ℕ) → 0 + m ≡ m
zero_plus m = omega arith

pub suc_plus : (n m : ℕ) → suc n + m ≡ suc (n + m)
suc_plus n m = omega arith

take_nil : (m : ℕ) → take {A = ℕ} m [] ≡ []
take_nil zero = refl
take_nil (suc m) = refl

pub take-split : (n m : ℕ) (xs : List ℕ) → take n xs ++ take m (drop n xs) ≡ take (n + m) xs
take-split zero m xs = ap (λ k. take k xs) (sym (zero_plus m))
take-split (suc n) m [] = take_nil m ∙ sym (take_nil (suc n + m))
take-split (suc n) m (x ∷ xs) =
    ap (λ l. x ∷ l) (take-split n m xs) ∙ ap (λ k. take k (x ∷ xs)) (sym (suc_plus n m))

drop-plus : (n m : ℕ) (xs : List ℕ) → drop n (drop m xs) ≡ drop (m + n) xs
drop-plus n zero xs = ap (λ k. drop k xs) (sym (zero_plus n))
drop-plus zero (suc m) [] = ap (λ k. drop k []) (sym (suc_plus m zero))
drop-plus (suc n) (suc m) [] = ap (λ k. drop k []) (sym (suc_plus m (suc n)))
drop-plus n (suc m) (x ∷ xs) = drop-plus n m xs ∙ ap (λ k. drop k (x ∷ xs)) (sym (suc_plus m n))

-- A piece, and the rest after it.
two_pieces :
    (n left : ℕ) (xs buf : List ℕ)
    → n ≤ left
    → (buf ++ take n xs) ++ take (left - n) (drop n xs) ≡ buf ++ take left xs
two_pieces n left xs buf h =
    append_assoc buf (take n xs) (take (left - n) (drop n xs))
    ∙ ap (λ l. buf ++ l) (take-split n (left - n) xs ∙ ap (λ k. take k xs) (omega (arith, h)))

read_loop-Serves :
    (es : List Event) (size left : ℕ) (src buf : List ℕ)
    → Serves es left
    → 0 < left
    → read_loop es size left src buf ≡ ret (bytes size, buf ++ take left src)
unfolding read_loop
read_loop-Serves [] size left src buf s pos = absurd s
read_loop-Serves (count n ∷ es) size left src buf s pos = elim (Bool-cases (n == left)) [
  | inl last ↦
      let e : n ≡ left = ground arith in rw last (ap (λ k. ret (bytes size, buf ++ take k src)) e)
  | inr more ↦
      let some_read : (n == 0) ≡ false = ground (arith, s.0) in
      let go_on : Serves es (left - n) = elim s.2 [
        | inl e ↦ absurd (ground (arith, e))
        | inr go ↦ go
      ] in
      rw (more, some_read)
        (read_loop-Serves es size (left - n) (drop n src) (buf ++ take n src) go_on
            (ground (arith, s.1))
          ∙ ap (λ l. ret (bytes size, l)) (two_pieces n left src buf s.1))
]
read_loop-Serves (eintr ∷ es) size left src buf s pos =
    let t : ltb 0 left ≡ true = ground arith in rw t (read_loop-Serves es size left src buf s pos)
read_loop-Serves (eio ∷ es) size left src buf s pos = absurd s
read_loop-Serves (enospc ∷ es) size left src buf s pos = absurd s
read_loop-Serves (other ∷ es) size left src buf s pos = absurd s

-- `PFU_safeRead` of some bytes returns their number and has just these bytes of the descriptor in the
-- buffer, however the kernel cuts them into pieces and interrupts the calls.
pub safe_read-Serves :
    (es : List Event) (size : ℕ) (src : List ℕ)
    → Serves es size
    → 0 < size
    → safe_read es size src ≡ ret (bytes size, take size src)
unfolding safe_read
safe_read-Serves es size src s pos = read_loop-Serves es size size src [] s pos

write_loop-Serves :
    (es : List Event) (size left : ℕ) (content out : List ℕ)
    → Serves es left
    → 0 < left
    → write_loop es size left content out ≡ ret (bytes size, out ++ take left content)
unfolding write_loop
write_loop-Serves [] size left content out s pos = absurd s
write_loop-Serves (count n ∷ es) size left content out s pos = elim (Bool-cases (n == left)) [
  | inl last ↦
      let e : n ≡ left = ground arith in
      rw last (ap (λ k. ret (bytes size, out ++ take k content)) e)
  | inr more ↦
      let go_on : Serves es (left - n) = elim s.2 [
        | inl e ↦ absurd (ground (arith, e))
        | inr go ↦ go
      ] in
      rw more (
        write_loop-Serves es size (left - n) (drop n content) (out ++ take n content) go_on
          (ground (arith, s.1))
        ∙ ap (λ l. ret (bytes size, l)) (two_pieces n left content out s.1))
]
write_loop-Serves (eintr ∷ es) size left content out s pos =
    let t : ltb 0 left ≡ true = ground arith in
    rw t (write_loop-Serves es size left content out s pos)
write_loop-Serves (eio ∷ es) size left content out s pos = absurd s
write_loop-Serves (enospc ∷ es) size left content out s pos = absurd s
write_loop-Serves (other ∷ es) size left content out s pos = absurd s

-- `PFU_safeWrite` of some bytes returns their number and has written them, once and in order, however
-- the kernel cuts them into pieces and interrupts the calls.
pub safe_write-Serves :
    (es : List Event) (size : ℕ) (content : List ℕ)
    → Serves es size
    → 0 < size
    → safe_write es size content ≡ ret (bytes size, take size content)
unfolding safe_write
safe_write-Serves es size content s pos = write_loop-Serves es size size content [] s pos

pread_loop-Serves :
    (es : List Event) (size left : ℕ) (file : List ℕ) (offset : ℕ) (buf : List ℕ)
    → Serves es left
    → 0 < left
    → pread_loop es size left file offset buf
      ≡ ret (bytes size, buf ++ take left (drop offset file))
unfolding pread_loop
pread_loop-Serves [] size left file offset buf s pos = absurd s
pread_loop-Serves (count n ∷ es) size left file offset buf s pos = elim (Bool-cases (n == left)) [
  | inl last ↦
      let e : n ≡ left = ground arith in
      rw last (ap (λ k. ret (bytes size, buf ++ take k (drop offset file))) e)
  | inr more ↦
      let go_on : Serves es (left - n) = elim s.2 [
        | inl e ↦ absurd (ground (arith, e))
        | inr go ↦ go
      ] in
      rw more (
        pread_loop-Serves es size (left - n) file (offset + n) (buf ++ take n (drop offset file))
          go_on (ground (arith, s.1))
        ∙ ap (λ l. ret (bytes size, (buf ++ take n (drop offset file)) ++ take (left - n) l))
            (sym (drop-plus n offset file))
        ∙ ap (λ l. ret (bytes size, l)) (two_pieces n left (drop offset file) buf s.1))
]
pread_loop-Serves (eintr ∷ es) size left file offset buf s pos =
    let t : ltb 0 left ≡ true = ground arith in
    rw t (pread_loop-Serves es size left file offset buf s pos)
pread_loop-Serves (eio ∷ es) size left file offset buf s pos = absurd s
pread_loop-Serves (enospc ∷ es) size left file offset buf s pos = absurd s
pread_loop-Serves (other ∷ es) size left file offset buf s pos = absurd s

-- `PFU_safePread` of some bytes returns their number and has just the bytes of the file from the offset
-- on in the buffer, however the kernel cuts them into pieces and interrupts the calls.
pub safe_pread-Serves :
    (es : List Event) (size : ℕ) (file : List ℕ) (offset : ℕ)
    → Serves es size
    → 0 < size
    → safe_pread es size file offset ≡ ret (bytes size, take size (drop offset file))
unfolding safe_pread
safe_pread-Serves es size file offset s pos = pread_loop-Serves es size size file offset [] s pos

at_end-hangs :
    (k : ℕ) (size left : ℕ) (file : List ℕ) (offset : ℕ) (buf : List ℕ)
    → 0 < left
    → pread_loop (replicate k (count 0)) size left file offset buf ≡ hang
unfolding pread_loop
at_end-hangs zero size left file offset buf pos = refl
at_end-hangs (suc k) size left file offset buf pos =
    let t : (0 == left) ≡ false = ground arith in
    rw t (
      at_end-hangs k size (left - 0) file (offset + 0) (buf ++ take 0 (drop offset file))
        (omega (arith, pos)))

-- At the end of the file, where `pread` returns 0 again and again, `PFU_safePread` does not come back
-- after any number of calls, while `PFU_safeRead` returns at the first one.
pub end_of_file :
    (k size : ℕ) (file : List ℕ) (offset : ℕ)
    → 0 < size
    → (safe_pread (replicate k (count 0)) size file offset ≡ hang)
      × (safe_read (count 0 ∷ replicate k (count 0)) size [] ≡ ret (bytes 0, []))
unfolding safe_pread safe_read read_loop
end_of_file k size file offset pos =
    let t : (0 == size) ≡ false = ground arith in
    (at_end-hangs k size size file offset [] pos, rw t (ap (λ n. ret (bytes n, [])) (omega arith)))
