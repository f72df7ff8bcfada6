-- ===== src/Prelude/Names.antt =====
-- Strings of C code, compared by `strcmp`.
use Prim.Native.Nat.{ℕ}
use mathlib.Core.Path.{◌≡◌, refl, ap₂}
use mathlib.Core.Logic.{inl, inr}
use mathlib.Core.Bool.{Bool, true, false, ◌&&◌}
use mathlib.Core.List.{List, [], ◌∷◌}
use native.Mathlib.Omega.{arith}
use pi_frame.Prelude.Tests.{◌==◌, Bool-cases}

-- `!strcmp`.
abbrev pub same_name : List ℕ → List ℕ → Bool
same_name [] [] = true
same_name [] (c ∷ cs) = false
same_name (c ∷ cs) [] = false
same_name (c ∷ cs) (d ∷ ds) = c == d && same_name cs ds

pub same_name_refl : (cs : List ℕ) → same_name cs cs ≡ true
same_name_refl [] = refl
same_name_refl (c ∷ cs) = ground (arith, same_name_refl cs)

pub same_name→≡ : (cs ds : List ℕ) → same_name cs ds ≡ true → cs ≡ ds
same_name→≡ [] [] h = refl
same_name→≡ [] (d ∷ ds) h = cc
same_name→≡ (c ∷ cs) [] h = cc
same_name→≡ (c ∷ cs) (d ∷ ds) h = elim (Bool-cases (c == d)) [
  | inl hit ↦
      let e : c ≡ d = ground arith in
      ap₂ (λ (x : ℕ) (xs : List ℕ). x ∷ xs) e (same_name→≡ cs ds (simp hit at h))
  | inr miss ↦ ground (arith, h)
]

pub same_name_comm : (cs ds : List ℕ) → same_name cs ds ≡ same_name ds cs
same_name_comm [] [] = refl
same_name_comm [] (d ∷ ds) = refl
same_name_comm (c ∷ cs) [] = refl
same_name_comm (c ∷ cs) (d ∷ ds) =
    let e : (c == d) ≡ (d == c) = ground arith in rw e (rw (same_name_comm cs ds) refl)
