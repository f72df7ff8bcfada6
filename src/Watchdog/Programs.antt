-- ===== src/Watchdog/Programs.antt =====
-- service/watchdog/watchdog.c: each handler and each update keeps the programs of the list distinct.
use pi_frame.Prelude.{
  ℕ, ◌≡◌, refl, sym, subst, true, false, Bool-cases, inl, inr, Option, none, some, List, [], ◌∷◌,
  ◌++◌, ◌==◌, All, All-append, find_lem, same_name, Place,
}
use pi_frame.Watchdog.{
  Message, Sub, Service, Watchdog, Processes, with_name, with_pid, with_sub_id, same_base,
}
use pi_frame.Watchdog.Handlers.{
  Command, dispatch, register, unregister, begin, end, alive, sub_register, sub_unregister,
  sub_beat, other, on_service, write_at, sender_at, add_at, remove_at, add_sub_at, remove_sub_at,
  drop_sub, beat_sub_at, add_service, remove_service, add_sub, remove_sub, alive_service, alive_sub,
  start_stop_service, start_stop, beat, sub_alive, enter, is_sender, new_service, new_sub,
}
use pi_frame.Watchdog.Names.{
  names, Distinct, names-write, Distinct-drop, Distinct-last, others_after, after_place,
}

enter-Distinct :
    (valid : Processes) (msg : Message) (w : Watchdog)
    → Distinct (names w.root)
    → All (λ (s : Service). same_base s.info.name msg.name ≡ false) w.root
    → Distinct (names (enter valid msg w).1.root)
unfolding enter
enter-Distinct valid msg w d others = elim (Bool-cases (valid msg.pid msg.name)) [
  | inl up ↦ rw up (Distinct-last w.root (new_service msg) d others)
  | inr down ↦ rw down d
]

add_service-Distinct :
    (valid : Processes) (msg : Message) (w : Watchdog)
    → Distinct (names w.root)
    → Distinct (names (add_service valid msg w).1.root)
unfolding add_service with_name add_at
add_service-Distinct valid msg w d =
    elim (find_lem (λ (s : Service). same_base s.info.name msg.name) w.root) [
      | inl (nothing, others) ↦ rw nothing (enter-Distinct valid msg w d others)
      | inr (b, old, a, found, place, same, others) ↦
          let d' = subst (λ ss. Distinct (names ss)) place d in
          elim (Bool-cases (valid old.info.pid old.info.name)) [
            | inl up ↦ rw found (simp up d)
            | inr down ↦ rw found (
                simp down (
                  enter-Distinct valid msg (record w { root = b ++ a }) (Distinct-drop b old a d')
                    (All-append (λ (s : Service). same_base s.info.name msg.name ≡ false) b a others
                      (others_after old msg.name a same (after_place b old a d')))))
          ]
    ]

-- What is written is still the same program.
abbrev Named : List ℕ → Option Service → Type 0
Named name none = Unit {0}
Named name (some t) = t.info.name ≡ name

write_at-Distinct :
    (w : Watchdog) (b a : List Service) (s : Service) (o : Option Service)
    → Named s.info.name o
    → w.root ≡ b ++ s ∷ a
    → Distinct (names w.root)
    → Distinct (names (write_at w b a o).1.root)
unfolding write_at
write_at-Distinct w b a s none same place d = d
write_at-Distinct w b a s (some t) same place d =
    subst Distinct (sym (names-write b s t a same)) (subst (λ ss. Distinct (names ss)) place d)

on_service-Distinct :
    (f : Service → Option Service) (msg : Message) (w : Watchdog)
    → ((s : Service) → Named s.info.name (f s))
    → Distinct (names w.root)
    → Distinct (names (on_service f msg w).1.root)
unfolding on_service with_pid sender_at
on_service-Distinct f msg w same d =
    elim (find_lem (λ (s : Service). s.info.pid == msg.pid) w.root) [
      | inl (nothing, others) ↦ rw nothing d
      | inr (b, s, a, found, place, hit, others) ↦
          elim (Bool-cases (same_name s.info.name msg.name)) [
            | inl sender ↦ rw found (simp sender (write_at-Distinct w b a s (f s) (same s) place d))
            | inr another ↦ rw found (simp another d)
          ]
    ]

remove_service-Distinct :
    (msg : Message) (w : Watchdog)
    → Distinct (names w.root)
    → Distinct (names (remove_service msg w).1.root)
unfolding remove_service remove_at
remove_service-Distinct msg w d = elim (find_lem (is_sender msg) w.root) [
  | inl (nothing, others) ↦ rw nothing d
  | inr (b, s, a, found, place, same, others) ↦
      rw found (Distinct-drop b s a (subst (λ ss. Distinct (names ss)) place d))
]

add_sub-Distinct :
    (valid : Processes) (now : ℕ) (msg : Message) (w : Watchdog)
    → Distinct (names w.root)
    → Distinct (names (add_sub valid now msg w).1.root)
unfolding add_sub add_sub_at with_name
add_sub-Distinct valid now msg w d =
    elim (find_lem (λ (s : Service). same_base s.info.name msg.name) w.root) [
      | inl (nothing, others) ↦ rw nothing d
      | inr (b, s, a, found, place, same, others) ↦
          let d' = subst (λ ss. Distinct (names ss)) place d in
          elim (Bool-cases (valid s.info.pid s.info.name)) [
            | inl up ↦ rw found (
                simp up (
                  subst Distinct
                    (sym
                      (names-write b s (record s { subs = s.subs ++ new_sub now msg ∷ [] }) a refl))
                    d'))
            | inr down ↦ rw found (simp down (Distinct-drop b s a d'))
          ]
    ]

drop_sub-Named : (s : Service) (o : Option (Place Sub)) → Named s.info.name (drop_sub s o)
unfolding drop_sub
drop_sub-Named s none = tt
drop_sub-Named s (some (c, x, d)) = refl

remove_sub-Distinct :
    (msg : Message) (w : Watchdog)
    → Distinct (names w.root)
    → Distinct (names (remove_sub msg w).1.root)
unfolding remove_sub remove_sub_at with_pid
remove_sub-Distinct msg w d = elim (find_lem (λ (s : Service). s.info.pid == msg.pid) w.root) [
  | inl (nothing, others) ↦ rw nothing d
  | inr (b, s, a, found, place, hit, others) ↦ rw found (
      write_at-Distinct w b a s (drop_sub s (with_sub_id msg.sub_id s.subs))
        (drop_sub-Named s (with_sub_id msg.sub_id s.subs)) place d)
]

beat_sub_at-Named :
    (now : ℕ) (s : Service) (o : Option (Place Sub)) → Named s.info.name (beat_sub_at now s o)
unfolding beat_sub_at
beat_sub_at-Named now s none = tt
beat_sub_at-Named now s (some (c, x, d)) = refl

-- Each message keeps the programs of the list distinct.
pub dispatch-Distinct :
    (c : Command) (valid : Processes) (now : ℕ) (msg : Message) (w : Watchdog)
    → Distinct (names w.root)
    → Distinct (names (dispatch c valid now msg w).root)
unfolding dispatch alive_service alive_sub start_stop_service sub_alive beat start_stop
dispatch-Distinct alive valid now msg w d =
    on_service-Distinct (λ s. some (beat now s)) msg w (λ s. refl) d
dispatch-Distinct sub_beat valid now msg w d =
    on_service-Distinct (sub_alive now msg) msg w
      (λ s. beat_sub_at-Named now s (with_sub_id msg.sub_id s.subs)) d
dispatch-Distinct register valid now msg w d = add_service-Distinct valid msg w d
dispatch-Distinct unregister valid now msg w d = remove_service-Distinct msg w d
dispatch-Distinct begin valid now msg w d =
    on_service-Distinct (λ s. some (start_stop true now s)) msg w (λ s. refl) d
dispatch-Distinct end valid now msg w d =
    on_service-Distinct (λ s. some (start_stop false now s)) msg w (λ s. refl) d
dispatch-Distinct sub_register valid now msg w d = add_sub-Distinct valid now msg w d
dispatch-Distinct sub_unregister valid now msg w d = remove_sub-Distinct msg w d
dispatch-Distinct other valid now msg w d = d
