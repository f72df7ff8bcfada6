-- ===== src/Prelude/Search.antt =====
-- A search through a list that keeps the place: what is before and after the item it finds.
use mathlib.Core.Path.{◌≡◌, refl, ap}
use mathlib.Core.Logic.{◌⊎◌, inl, inr}
use mathlib.Core.Bool.{Bool, true, false}
use mathlib.Core.Option.{Option, none, some}
use mathlib.Core.List.{List, [], ◌∷◌, ◌++◌}
use pi_frame.Prelude.Tests.{Bool-cases, if◌then◌else◌}
use pi_frame.Prelude.Lists.{All}

-- The items before the place, the item, and those after it.
abbrev pub Place {ℓ} : Type ℓ → Type ℓ
Place A = List A × A × List A

module _ {ℓ} {A : Type ℓ} where
  abbrev pub after : A → Option (Place A) → Option (Place A)
  after x none = none
  after x (some (b, y, a)) = some (x ∷ b, y, a)

  -- `list_for_each` up to the first item that the test holds of.
  pub find : (A → Bool) → List A → Option (Place A)
  find test [] = none
  find test (x ∷ xs) = let rest = find test xs in if test x then some ([], x, xs) else after x rest

  -- It finds nothing, and the test fails for all, or it finds the first item that passes.
  pub find_lem :
      (test : A → Bool) (xs : List A)
      → (find test xs ≡ none) × All (λ x. test x ≡ false) xs
        ⊎ (b : List A) × (y : A) × (a : List A) × (find test xs ≡ some (b, y, a))
          × (xs ≡ b ++ y ∷ a)
          × (test y ≡ true)
          × All (λ x. test x ≡ false) b
  unfolding find
  find_lem test [] = inl (refl, tt)
  find_lem test (x ∷ xs) = elim (Bool-cases (test x)) [
    | inl hit ↦ inr ([], x, xs, simp hit refl, refl, hit, tt)
    | inr miss ↦ elim (find_lem test xs) [
      | inl (nothing, others) ↦ inl (simp (miss, nothing) refl, (miss, others))
      | inr (b, y, a, found, place, hit, others) ↦
          inr (x ∷ b, y, a, simp (miss, found) refl, ap (λ l. x ∷ l) place, hit, (miss, others))
    ]
  ]

  -- The search finds an item that passes, if none before it does.
  pub find-middle :
      (test : A → Bool) (b : List A) (x : A) (a : List A)
      → All (λ y. test y ≡ false) b
      → test x ≡ true
      → find test (b ++ x ∷ a) ≡ some (b, x, a)
  unfolding find
  find-middle test [] x a h hit = simp hit
  find-middle test (y ∷ b) x a h hit = simp h.0 (simp (find-middle test b x a h.1 hit))
