-- ===== src/Watchdog/Names.antt =====
-- service/watchdog/watchdog.c: no two services of the list are the same program.
use pi_frame.Prelude.{
  ℕ, ◌≡◌, ap, ◌∙◌, subst, true, false, List, [], ◌∷◌, ◌++◌, All, map, same_name, same_name_comm,
  same_name→≡,
}
use pi_frame.Watchdog.{Service, same_base, basename}

abbrev pub names : List Service → List (List ℕ)
names ss = map (λ (s : Service). s.info.name) ss

-- No program is there twice.
abbrev Other : List ℕ → List ℕ → Type 0
Other a b = same_base a b ≡ false

abbrev pub Distinct : List (List ℕ) → Type 0
Distinct [] = Unit {0}
Distinct (n ∷ ns) = All (λ m. same_base n m ≡ false) ns × Distinct ns

pub names-write :
    (b : List Service) (s t : Service) (a : List Service)
    → t.info.name ≡ s.info.name
    → names (b ++ t ∷ a) ≡ names (b ++ s ∷ a)
names-write [] s t a e = ap (λ n. n ∷ names a) e
names-write (x ∷ b) s t a e = ap (λ l. x.info.name ∷ l) (names-write b s t a e)

pub All-drop :
    (P : List ℕ → Type 0) (b : List Service) (s : Service) (a : List Service)
    → All P (names (b ++ s ∷ a))
    → All P (names (b ++ a))
All-drop P [] s a h = h.1
All-drop P (x ∷ b) s a h = (h.0, All-drop P b s a h.1)

pub Distinct-drop :
    (b : List Service) (s : Service) (a : List Service)
    → Distinct (names (b ++ s ∷ a))
    → Distinct (names (b ++ a))
Distinct-drop [] s a h = h.1
Distinct-drop (x ∷ b) s a h =
    (All-drop (λ m. same_base x.info.name m ≡ false) b s a h.0, Distinct-drop b s a h.1)

pub All-last :
    (P : List ℕ → Type 0) (ss : List Service) (t : Service)
    → All P (names ss)
    → P t.info.name
    → All P (names (ss ++ t ∷ []))
All-last P [] t h p = (p, tt)
All-last P (x ∷ ss) t h p = (h.0, All-last P ss t h.1 p)

pub Distinct-last :
    (ss : List Service) (t : Service)
    → Distinct (names ss)
    → All (λ (s : Service). same_base s.info.name t.info.name ≡ false) ss
    → Distinct (names (ss ++ t ∷ []))
Distinct-last [] t h p = (tt, tt)
Distinct-last (x ∷ ss) t h p =
    (All-last (λ m. same_base x.info.name m ≡ false) ss t h.0 p.0, Distinct-last ss t h.1 p.1)

-- What is not the program of a service in the list is not the new one either, which is the same.
pub others_after :
    (old : Service) (name : List ℕ) (a : List Service)
    → same_base old.info.name name ≡ true
    → All (λ m. same_base old.info.name m ≡ false) (names a)
    → All (λ (s : Service). same_base s.info.name name ≡ false) a
others_after old name [] same h = tt
others_after old name (x ∷ a) same h =
    let base = same_name→≡ (basename old.info.name) (basename name) same in
    (
      same_name_comm (basename x.info.name) (basename name)
          ∙ subst (λ n. same_name n (basename x.info.name) ≡ false) base h.0,
      others_after old name a same h.1,
    )

pub after_place :
    (b : List Service) (old : Service) (a : List Service)
    → Distinct (names (b ++ old ∷ a))
    → All (λ m. same_base old.info.name m ≡ false) (names a)
after_place [] old a h = h.0
after_place (x ∷ b) old a h = after_place b old a h.1
