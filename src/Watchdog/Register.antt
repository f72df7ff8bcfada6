-- ===== src/Watchdog/Register.antt =====
-- service/watchdog/watchdog.c: what a registration does to the list of services.
use pi_frame.Prelude.{
  ℕ, ◌≡◌, refl, ap, ◌∙◌, subst, Bool, true, false, not, ◌&&◌, Bool-cases, inl, inr, List, [], ◌∷◌,
  ◌++◌, if◌then◌else◌, All, find_lem, filter, any, or_false,
}
use pi_frame.Watchdog.{Message, Service, Watchdog, Processes, kill_pid, with_name, same_base}
use pi_frame.Watchdog.Handlers.{add_service, add_at, enter, new_service}
use pi_frame.Watchdog.Names.{names, Distinct, others_after, after_place}

-- Another program than the given one, and a service that is the given one and runs.
abbrev pub is_other : List ℕ → Service → Bool
is_other name s = not (same_base s.info.name name)

abbrev pub is_running : Processes → List ℕ → Service → Bool
is_running valid name s = same_base s.info.name name && valid s.info.pid s.info.name

-- The registration as it is meant.
abbrev pub registered : Processes → Message → Watchdog → Bool × Watchdog
registered valid msg w =
    let others = filter (is_other msg.name) w.root in
    if any (is_running valid msg.name) w.root
    then (false, record w { effects = w.effects ++ kill_pid msg.pid ∷ [] })
    else if valid msg.pid msg.name
    then (true, record w { root = others ++ new_service msg ∷ [] })
    else (false, record w { root = others })

filter-others :
    (name : List ℕ) (ss : List Service)
    → All (λ (s : Service). same_base s.info.name name ≡ false) ss
    → filter (is_other name) ss ≡ ss
filter-others name [] h = refl
filter-others name (s ∷ ss) h = rw h.0 (ap (λ l. s ∷ l) (filter-others name ss h.1))

filter-place :
    (name : List ℕ) (b : List Service) (old : Service) (a : List Service)
    → All (λ (s : Service). same_base s.info.name name ≡ false) b
    → same_base old.info.name name ≡ true
    → All (λ (s : Service). same_base s.info.name name ≡ false) a
    → filter (is_other name) (b ++ old ∷ a) ≡ b ++ a
filter-place name [] old a h same k = rw same (filter-others name a k)
filter-place name (s ∷ b) old a h same k =
    rw (h.0) (ap (λ l. s ∷ l) (filter-place name b old a h.1 same k))

any-others :
    (valid : Processes) (name : List ℕ) (ss : List Service)
    → All (λ (s : Service). same_base s.info.name name ≡ false) ss
    → any (is_running valid name) ss ≡ false
any-others valid name [] h = refl
any-others valid name (s ∷ ss) h = rw h.0 (any-others valid name ss h.1)

any-place :
    (valid : Processes) (name : List ℕ) (b : List Service) (old : Service) (a : List Service)
    → All (λ (s : Service). same_base s.info.name name ≡ false) b
    → same_base old.info.name name ≡ true
    → All (λ (s : Service). same_base s.info.name name ≡ false) a
    → any (is_running valid name) (b ++ old ∷ a) ≡ valid old.info.pid old.info.name
any-place valid name [] old a h same k =
    rw same (rw (any-others valid name a k) (or_false (valid old.info.pid old.info.name)))
any-place valid name (s ∷ b) old a h same k = rw h.0 (any-place valid name b old a h.1 same k)

-- In a list of distinct programs, a message PFWD_REGISTER has its process killed if a process of the
-- program is registered and runs. Otherwise a dead service of the program is taken out, and the new
-- one comes last, if its own process is there.
pub add_service_lem :
    (valid : Processes) (msg : Message) (w : Watchdog)
    → Distinct (names w.root)
    → add_service valid msg w ≡ registered valid msg w
unfolding add_service add_at enter with_name
add_service_lem valid msg w d =
    elim (find_lem (λ (s : Service). same_base s.info.name msg.name) w.root) [
      | inl (nothing, others) ↦ rw nothing (
          rw (any-others valid msg.name w.root others)
            (rw (filter-others msg.name w.root others) refl))
      | inr (b, old, a, found, place, same, others) ↦
          let after =
            others_after old msg.name a same
              (after_place b old a (subst (λ ss. Distinct (names ss)) place d)) in
          let runs =
            ap (any (is_running valid msg.name)) place
            ∙ any-place valid msg.name b old a others same after in
          let left =
            ap (filter (is_other msg.name)) place
            ∙ filter-place msg.name b old a others same after in
          elim (Bool-cases (valid old.info.pid old.info.name)) [
            | inl up ↦ rw found (simp (runs ∙ up, up) refl)
            | inr down ↦ rw found (simp (runs ∙ down, left, down) refl)
          ]
    ]
