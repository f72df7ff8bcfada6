-- ===== src/Balloc/Create.antt =====
-- `ba_create` lays out one free block for each bit of the number of pages, the largest first.
use pi_frame.Prelude.{
  ℕ, zero, suc, ◌+◌, ◌*◌, ◌/◌, ◌%◌, ◌^◌, ◌≤◌, ◌<◌, ◌≡◌, refl, sym, ap, ◌∙◌, subst, Bool, true,
  false, Bool-cases, ◌⊎◌, inl, inr, none, some, List, [], ◌∷◌, ◌++◌, arith, ret, ◌>>=◌, ◌==◌, All,
  All-append,
}
use native.Mathlib.Nat.{div-mul-le_self, div-div-eq-div-mul, mul-le-mul_left, mul_comm}
use pi_frame.Prelude.Pow.{two_pow_pos, two_pow_suc, mul_two_pow_suc}
use pi_frame.Balloc.{Entry, Bitmap, BuddyAllocator, write, create_loop, create, order_of, zeroed}
use pi_frame.Balloc.Access.{write_self, write_ne, set_order_lem}
use pi_frame.Balloc.Chain.{Chain, Chain-append, Chain-frame, free_block, used}
use pi_frame.Balloc.Inv.{Inv}

abbrev pub AllFree : List Entry → Type 0
AllFree = All (λ x. x.allocated ≡ false)

pub used-AllFree : (i : ℕ) (xs : List Entry) → AllFree xs → used i xs ≡ []
used-AllFree i [] f = refl
used-AllFree i (x ∷ xs) f = rw f.0 (used-AllFree (i + 2 ^ x.order) xs f.1)

-- The layout up to page `index`; beyond, the entries are as `memset` left them.
record Laid (nr index : ℕ) (b : Bitmap) (xs : List Entry) : Type 0 where
  done : Chain b 0 index xs
  cleared : (j : ℕ) → index ≤ j → j < nr → b j ≡ some (free_block 0)
  bounded : (j : ℕ) → nr ≤ j → b j ≡ none
  idle : AllFree xs

create_loop_hit :
    (i nr index : ℕ) (b : Bitmap)
    → i < 32
    → (nr / 2 ^ i % 2 == 1) ≡ true
    → b index ≡ some (free_block 0)
    → create_loop (suc i) nr index b
      ≡ create_loop i nr (index + 2 ^ i) (write b index (free_block i))
unfolding create_loop
create_loop_hit i nr index b s bit there =
    let low : i % 2 ^ 7 ≡ i = omega (arith, s) in
    rw (bit, create_loop) (rw (set_order_lem b index (free_block 0) there i, ◌>>=◌) (rw low))

create_loop_miss :
    (i nr index : ℕ) (b : Bitmap)
    → (nr / 2 ^ i % 2 == 1) ≡ false
    → create_loop (suc i) nr index b ≡ create_loop i nr index b
unfolding create_loop
create_loop_miss i nr index b bit = rw (bit, create_loop)

-- One more block.
Laid-hit :
    (i m nr index : ℕ) (b : Bitmap) (xs : List Entry)
    → i < 32
    → index ≡ m * 2 ^ i
    → index + 2 ^ i ≤ nr
    → Laid nr index b xs
    → Laid nr (index + 2 ^ i) (write b index (free_block i)) (xs ++ free_block i ∷ [])
Laid-hit i m nr index b xs s e room l = record {
  done =
      Chain-append b' 0 index (index + 2 ^ i) xs (free_block i ∷ [])
        (Chain-frame b b' 0 index xs (λ j p q. write_ne b index j (free_block i) (omega arith))
          l.done)
        (
          record {
            entry = write_self b index (free_block i);
            aligned = (m, e);
            small = s;
            quiet = λ j p q. (
              0,
              write_ne b index j (free_block i) (omega arith)
                  ∙ l.cleared j (omega arith) (omega arith),
            );
          },
          refl,
        );
  cleared = λ j p q.
      write_ne b index j (free_block i) (omega (arith, p, two_pow_pos i))
      ∙ l.cleared j (omega (arith, p)) q;
  bounded = λ j p. write_ne b index j (free_block i) (omega (arith, two_pow_pos i)) ∙ l.bounded j p;
  idle = All-append _ xs (free_block i ∷ []) l.idle (refl, tt);
}
  where
    b' : Bitmap
    b' = write b index (free_block i)

create_loop_lem :
    (i nr index : ℕ) (b : Bitmap) (xs : List Entry)
    → i ≤ 32
    → index ≡ nr / 2 ^ i * 2 ^ i
    → Laid nr index b xs
    → (b' : Bitmap) × (ys : List Entry) × (create_loop i nr index b ≡ ret b') × Laid nr nr b' ys
create_loop_lem zero nr index b xs s e l =
    let e' : index ≡ nr = omega arith in
    (b, xs, unfold create_loop in refl, subst (λ k. Laid nr k b xs) e' l)
create_loop_lem (suc i) nr index b xs s e l =
    let q = nr / 2 ^ i in
    let half : nr / 2 ^ suc i ≡ q / 2 =
      ap (λ k. nr / k) (two_pow_suc i ∙ mul_comm 2 (2 ^ i))
      ∙ sym (div-div-eq-div-mul nr (2 ^ i) 2) in
    let at : index ≡ 2 * (q / 2) * 2 ^ i =
      e ∙ ap (λ k. k * 2 ^ suc i) half ∙ omega (arith, mul_two_pow_suc (q / 2) i) in
    elim (Bool-cases (nr / 2 ^ i % 2 == 1)) [
      | inl bit ↦
          let odd : q ≡ 2 * (q / 2) + 1 = ground arith in
          let up : q * 2 ^ i ≡ 2 * (q / 2) * 2 ^ i + 2 ^ i =
            ap (λ k. k * 2 ^ i) odd ∙ omega arith in
          let room : index + 2 ^ i ≤ nr = omega (arith, at, up, div-mul-le_self nr (2 ^ i)) in
          let there = l.cleared index (omega arith) (omega (arith, room, two_pow_pos i)) in
          let (b', ys, run, r) =
            create_loop_lem i nr (index + 2 ^ i) (write b index (free_block i))
              (xs ++ free_block i ∷ []) (omega arith) (omega (arith, at, up))
              (Laid-hit i (2 * (q / 2)) nr index b xs (omega arith) at room l) in
          (b', ys, create_loop_hit i nr index b (omega arith) bit there ∙ run, r)
      | inr bit ↦
          let even : 2 * (q / 2) ≡ q = ground arith in
          let (b', ys, run, r) =
            create_loop_lem i nr index b xs (omega arith) (at ∙ ap (λ k. k * 2 ^ i) even) l in
          (b', ys, create_loop_miss i nr index b bit ∙ run, r)
    ]

-- With a page size that `ba_create` takes, and memory for its two objects, it returns an allocator
-- whose blocks cover the pages exactly and are all free.
pub create_lem :
    (size page_size : ℕ)
    → page_size % 2 ^ 7 ≡ 0
    → 0 < page_size
    → page_size < 2 ^ 31
    → size < 2 ^ 31
    → (ba : BuddyAllocator) × (xs : List Entry) × (create true true size page_size ≡ ret (some ba))
      × (ba.size ≡ size)
      × (ba.page_size ≡ page_size)
      × Inv ba xs
      × (used 0 xs ≡ [])
unfolding create
create_lem size ps whole pos fits small =
    let nr = size / ps in
    let divided = div-mul-le_self size ps in
    let rest : size < nr * ps + ps = omega (arith, pos) in
    let few : nr ≤ size = omega (arith, divided, mul-le-mul_left nr pos) in
    let start : 0 ≡ nr / 2 ^ 32 * 2 ^ 32 = omega arith in
    let (b, xs, run, l) = create_loop_lem 32 nr 0 (zeroed nr) [] (omega arith) start (record {
      done = refl;
      cleared = λ j p q. ground arith;
      bounded = λ j p. ground arith;
      idle = tt;
    }) in
    let accepted : (ps % 2 ^ 7 == 0) ≡ true = ground arith in
    let divisor : (ps == 0) ≡ false = ground arith in
    (
      record {
        size = size;
        page_size = ps;
        nr_pages = nr;
        max_order = order_of size ps;
        bitmap = b;
      },
      xs,
      rw (accepted, divisor) (rw (run, ◌>>=◌)),
      refl,
      refl,
      record {
        chain = l.done;
        bounded = l.bounded;
        size_fits = small;
        page_fits = fits;
        page_pos = pos;
        pages_fit = divided;
        pages_max = rest;
        top = refl;
      },
      used-AllFree 0 xs l.idle,
    )

-- `ba_create` returns the null pointer for a page size that does not fit, and where it has no memory.
pub create-none :
    (given : Bool) (size page_size : ℕ)
    → ((page_size % 2 ^ 7 == 0) ≡ false) ⊎ (given ≡ false)
    → create given true size page_size ≡ ret none
unfolding create
create-none given size page_size (inl unfit) = rw unfit refl
create-none given size page_size (inr refused) = elim (Bool-cases (page_size % 2 ^ 7 == 0)) [
  | inl fits ↦ rw (fits, refused) refl
  | inr unfit ↦ rw unfit refl
]
