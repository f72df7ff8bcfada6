-- ===== src/Timer/Among.antt =====
-- Membership in a list of timers.
use pi_frame.Prelude.{◌≡◌, refl, sym, subst, ◌⊎◌, inl, inr, List, [], ◌∷◌, ◌++◌, All}
use pi_frame.Timer.{Pending}

abbrev pub Among : Pending → List Pending → Type 0
Among x [] = ⊥
Among x (y ∷ ys) = (x ≡ y) ⊎ Among x ys

pub Among-left : (x : Pending) (xs ys : List Pending) → Among x xs → Among x (xs ++ ys)
Among-left x [] ys h = elim h [ ]
Among-left x (z ∷ xs) ys (inl e) = inl e
Among-left x (z ∷ xs) ys (inr h) = inr (Among-left x xs ys h)

pub Among-last : (x : Pending) (xs : List Pending) → Among x (xs ++ x ∷ [])
Among-last x [] = inl refl
Among-last x (z ∷ xs) = inr (Among-last x xs)

pub All-Among :
    (P : Pending → Type 0) (xs : List Pending) (x : Pending) → All P xs → Among x xs → P x
All-Among P [] x h m = elim m [ ]
All-Among P (y ∷ xs) x h (inl e) = subst P (sym e) h.0
All-Among P (y ∷ xs) x h (inr m) = All-Among P xs x h.1 m

pub Among-All :
    (P : Pending → Type 0) (xs : List Pending) → ((x : Pending) → Among x xs → P x) → All P xs
Among-All P [] h = tt
Among-All P (y ∷ xs) h = (h y (inl refl), Among-All P xs (λ x m. h x (inr m)))

pub none-Among : (x : Pending) (xs : List Pending) → xs ≡ [] → Among x xs → ⊥
none-Among x xs e m = subst (Among x) e m
