-- ===== src/File/Trim.antt =====
-- `PFU_rtrim`.
use pi_frame.Prelude.{
  ℕ, ◌≡◌, refl, ap, false, Bool-cases, inl, inr, List, [], ◌∷◌, ◌++◌, arith, ◌==◌, if◌then◌else◌,
  append-nil,
}
use pi_frame.File.{has, cut, rtrim}

cut-prefix : (c : ℕ) (s : List ℕ) → (rest : List ℕ) × (cut c s ++ rest ≡ s)
unfolding cut
cut-prefix c [] = ([], refl)
cut-prefix c (d ∷ ds) = elim (Bool-cases (d == c)) [
  | inl hit ↦ (d ∷ ds, rw hit refl)
  | inr miss ↦ let (rest, e) = cut-prefix c ds in (rest, rw miss (ap (λ l. d ∷ l) e))
]

has-cut : (c : ℕ) (s : List ℕ) → has c (cut c s) ≡ false
unfolding has cut
has-cut c [] = refl
has-cut c (d ∷ ds) = elim (Bool-cases (d == c)) [
  | inl hit ↦ rw hit refl
  | inr miss ↦ rw miss (rw miss (has-cut c ds))
]

has-cut_other : (c d : ℕ) (s : List ℕ) → has c s ≡ false → has c (cut d s) ≡ false
unfolding has cut
has-cut_other c d [] h = refl
has-cut_other c d (e ∷ es) h = ground (arith, has-cut_other c d es)

-- `PFU_rtrim` leaves a beginning of the string that has no carriage return, and no line feed either if
-- the string had no carriage return.
pub rtrim_lem :
    (s : List ℕ)
    → ((rest : List ℕ) × (rtrim s ++ rest ≡ s))
      × (has 13 (rtrim s) ≡ false)
      × ((if has 13 s then false else has 10 (rtrim s)) ≡ false)
unfolding rtrim
rtrim_lem s = elim (Bool-cases (has 13 s)) [
  | inl cr ↦ rw cr (cut-prefix 13 s, has-cut 13 s, refl)
  | inr no_cr ↦ elim (Bool-cases (has 10 s)) [
    | inl lf ↦ rw (no_cr, lf) (cut-prefix 10 s, has-cut_other 13 10 s no_cr, has-cut 10 s)
    | inr no_lf ↦ rw (no_cr, no_lf) (([], append-nil s), no_cr, no_lf)
  ]
]
