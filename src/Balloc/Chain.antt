-- ===== src/Balloc/Chain.antt =====
-- The bitmap of balloc.c read as a chain of blocks: from page `i` each block's entry says where the
-- next one starts, up to the page `e`.
use pi_frame.Prelude.{
  ℕ, ◌+◌, ◌*◌, ◌^◌, ◌≤◌, ◌<◌, ◌≡◌, sym, ap, ◌∙◌, subst, false, some, List, [], ◌∷◌, ◌++◌, arith,
  if◌then◌else◌,
}
use pi_frame.Prelude.Pow.{two_pow_pos}
use pi_frame.Balloc.{Entry, Bitmap}

abbrev pub free_block : ℕ → Entry
free_block o = record { allocated = false; order = o }

-- The pages strictly between `lo` and `hi` have entries, and none of them is marked.
abbrev pub Quiet : Bitmap → ℕ → ℕ → Type 0
Quiet b lo hi = (j : ℕ) → lo < j → j < hi → (o : ℕ) × (b j ≡ some (free_block o))

-- `i` is a multiple of the block's size.
abbrev pub Aligned : ℕ → ℕ → Type 0
Aligned i order = (m : ℕ) × (i ≡ m * 2 ^ order)

-- The block `x` starts at page `i`.
pub record Block (b : Bitmap) (i : ℕ) (x : Entry) : Type 0 where
  pub entry : b i ≡ some x
  pub aligned : Aligned i x.order
  pub small : x.order < 32
  pub quiet : Quiet b i (i + 2 ^ x.order)

abbrev pub Chain : Bitmap → ℕ → ℕ → List Entry → Type 0
Chain b i e [] = i ≡ e
Chain b i e (x ∷ xs) = Block b i x × Chain b (i + 2 ^ x.order) e xs

-- The pages that a list of blocks takes up.
abbrev pub pages : List Entry → ℕ
pages [] = 0
pages (x ∷ xs) = 2 ^ x.order + pages xs

pub pages-append : (xs ys : List Entry) → pages (xs ++ ys) ≡ pages xs + pages ys
pages-append [] ys = omega arith
pages-append (x ∷ xs) ys = omega (arith, pages-append xs ys)

-- The marked blocks, each by its first page and its order.
abbrev pub used : ℕ → List Entry → List (ℕ × ℕ)
used i [] = []
used i (x ∷ xs) =
    let rest = used (i + 2 ^ x.order) xs in if x.allocated then (i, x.order) ∷ rest else rest

pub Chain-end : (b : Bitmap) (i e : ℕ) (xs : List Entry) → Chain b i e xs → e ≡ i + pages xs
Chain-end b i e [] c = omega arith
Chain-end b i e (x ∷ xs) c = omega (arith, Chain-end b (i + 2 ^ x.order) e xs c.1)

pub Chain-le : (b : Bitmap) (i e : ℕ) (xs : List Entry) → Chain b i e xs → i ≤ e
Chain-le b i e xs c = omega (arith, Chain-end b i e xs c)

pub Block-frame :
    {b b' : Bitmap} {i : ℕ} {x : Entry}
    → ((j : ℕ) → i ≤ j → j < i + 2 ^ x.order → b' j ≡ b j)
    → Block b i x
    → Block b' i x
Block-frame {b} {b'} {i} {x} same k = record {
  entry = same i (omega arith) (omega (arith, two_pow_pos x.order)) ∙ k.entry;
  aligned = k.aligned;
  small = k.small;
  quiet = λ j p q. let (o, r) = k.quiet j p q in (o, same j (omega arith) q ∙ r);
}

pub Chain-frame :
    (b b' : Bitmap) (i e : ℕ) (xs : List Entry)
    → ((j : ℕ) → i ≤ j → j < e → b' j ≡ b j)
    → Chain b i e xs
    → Chain b' i e xs
Chain-frame b b' i e [] same c = c
Chain-frame b b' i e (x ∷ xs) same c = (
  Block-frame (λ j p q. same j p (omega (arith, Chain-le b (i + 2 ^ x.order) e xs c.1))) c.0,
  Chain-frame b b' (i + 2 ^ x.order) e xs (λ j p q. same j (omega arith) q) c.1,
)

pub Chain-append :
    (b : Bitmap) (i m e : ℕ) (xs ys : List Entry)
    → Chain b i m xs
    → Chain b m e ys
    → Chain b i e (xs ++ ys)
Chain-append b i m e [] ys c d = subst (λ k. Chain b k e ys) (sym c) d
Chain-append b i m e (x ∷ xs) ys c d = (c.0, Chain-append b (i + 2 ^ x.order) m e xs ys c.1 d)

pub Chain-split :
    (b : Bitmap) (i e : ℕ) (xs ys : List Entry)
    → Chain b i e (xs ++ ys)
    → Chain b i (i + pages xs) xs × Chain b (i + pages xs) e ys
Chain-split b i e [] ys c =
    (omega arith, subst (λ k. Chain b k e ys) (let h : i ≡ i + 0 = omega arith in h) c)
Chain-split b i e (x ∷ xs) ys c =
    let (d, f) = Chain-split b (i + 2 ^ x.order) e xs ys c.1 in
    let h : i + 2 ^ x.order + pages xs ≡ i + (2 ^ x.order + pages xs) = omega arith in
    ((c.0, subst (λ k. Chain b (i + 2 ^ x.order) k xs) h d), subst (λ k. Chain b k e ys) h f)

pub used-append :
    (i : ℕ) (xs ys : List Entry) → used i (xs ++ ys) ≡ used i xs ++ used (i + pages xs) ys
used-append i [] ys = let h : i ≡ i + 0 = omega arith in ap (λ k. used k ys) h
used-append i (x ∷ xs) ys =
    let h : i + 2 ^ x.order + pages xs ≡ i + (2 ^ x.order + pages xs) = omega arith in
    rw (used-append (i + 2 ^ x.order) xs ys, h) (ground arith)

-- The block behind a prefix of the chain.
pub Chain-Block :
    (b : Bitmap) (e : ℕ) (xs : List Entry) (x : Entry) (ys : List Entry)
    → Chain b 0 e (xs ++ x ∷ ys)
    → Block b (pages xs) x
Chain-Block b e xs x ys c =
    let h : 0 + pages xs ≡ pages xs = omega arith in
    subst (λ k. Block b k x) h (Chain-split b 0 e xs (x ∷ ys) c).1.0
