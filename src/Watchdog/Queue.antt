-- ===== src/Watchdog/Queue.antt =====
-- service/watchdog/watchdog.c: the handlers read and write the services and the commands, and nothing else.
use pi_frame.Prelude.{
  ℕ, ◌≡◌, refl, sym, ap, ◌∙◌, true, false, Bool-cases, inl, inr, Option, none, some, List, ◌++◌,
  find, Place, same_name,
}
use pi_frame.Watchdog.{Message, Service, Watchdog, Processes, with_name, with_pid, with_sub_id}
use pi_frame.Watchdog.Handlers.{
  Command, dispatch, register, unregister, begin, end, alive, sub_register, sub_unregister,
  sub_beat, other, on_service, write_at, sender_at, add_at, remove_at, add_sub_at, remove_sub_at,
  drop_sub, sub_alive, beat, start_stop, add_service, remove_service, add_sub, remove_sub,
  alive_service, alive_sub, start_stop_service, enter, is_sender,
}

abbrev pub with_queue : List Message → ℕ → Watchdog → Watchdog
with_queue es n w = record w { events = es; event_count = n }

-- The state of `q` with the services and the commands of `w`.
abbrev pub within : Watchdog → Watchdog → Watchdog
within q w = record q { root = w.root; effects = w.effects }

module _ (q : Watchdog) where
  enter-within :
      (valid : Processes) (msg : Message) (w : Watchdog)
      → (enter valid msg (within q w)).1 ≡ within q (enter valid msg w).1
  unfolding enter
  enter-within valid msg w = elim (Bool-cases (valid msg.pid msg.name)) [
    | inl up ↦ simp up refl
    | inr down ↦ simp down refl
  ]

  write_at-within :
      (w : Watchdog) (b a : List Service) (o : Option Service)
      → (write_at (within q w) b a o).1 ≡ within q (write_at w b a o).1
  unfolding write_at
  write_at-within w b a none = refl
  write_at-within w b a (some t) = refl

  sender_at-within :
      (f : Service → Option Service) (msg : Message) (w : Watchdog) (o : Option (Place Service))
      → (sender_at f msg (within q w) o).1 ≡ within q (sender_at f msg w o).1
  unfolding sender_at
  sender_at-within f msg w none = refl
  sender_at-within f msg w (some (b, s, a)) = elim (Bool-cases (same_name s.info.name msg.name)) [
    | inl sender ↦ simp sender (write_at-within w b a (f s))
    | inr another ↦ simp another refl
  ]

  add_at-within :
      (valid : Processes) (msg : Message) (w : Watchdog) (o : Option (Place Service))
      → (add_at valid msg (within q w) o).1 ≡ within q (add_at valid msg w o).1
  unfolding add_at
  add_at-within valid msg w none = enter-within valid msg w
  add_at-within valid msg w (some (b, old, a)) =
      elim (Bool-cases (valid old.info.pid old.info.name)) [
        | inl up ↦ simp up refl
        | inr down ↦ simp down (enter-within valid msg (record w { root = b ++ a }))
      ]

  remove_at-within :
      (w : Watchdog) (o : Option (Place Service))
      → (remove_at (within q w) o).1 ≡ within q (remove_at w o).1
  unfolding remove_at
  remove_at-within w none = refl
  remove_at-within w (some (b, s, a)) = refl

  add_sub_at-within :
      (valid : Processes) (now : ℕ) (msg : Message) (w : Watchdog) (o : Option (Place Service))
      → (add_sub_at valid now msg (within q w) o).1 ≡ within q (add_sub_at valid now msg w o).1
  unfolding add_sub_at
  add_sub_at-within valid now msg w none = refl
  add_sub_at-within valid now msg w (some (b, s, a)) =
      elim (Bool-cases (valid s.info.pid s.info.name)) [
        | inl up ↦ simp up refl
        | inr down ↦ simp down refl
      ]

  remove_sub_at-within :
      (msg : Message) (w : Watchdog) (o : Option (Place Service))
      → (remove_sub_at msg (within q w) o).1 ≡ within q (remove_sub_at msg w o).1
  unfolding remove_sub_at
  remove_sub_at-within msg w none = refl
  remove_sub_at-within msg w (some (b, s, a)) =
      write_at-within w b a (drop_sub s (with_sub_id msg.sub_id s.subs))

  pub dispatch-within :
      (c : Command) (valid : Processes) (now : ℕ) (msg : Message) (w : Watchdog)
      → dispatch c valid now msg (within q w) ≡ within q (dispatch c valid now msg w)
  unfolding dispatch alive_service alive_sub start_stop_service on_service add_service
      remove_service add_sub remove_sub
  dispatch-within alive valid now msg w =
      sender_at-within (λ s. some (beat now s)) msg w (with_pid msg.pid w.root)
  dispatch-within sub_beat valid now msg w =
      sender_at-within (sub_alive now msg) msg w (with_pid msg.pid w.root)
  dispatch-within register valid now msg w = add_at-within valid msg w (with_name msg.name w.root)
  dispatch-within unregister valid now msg w = remove_at-within w (find (is_sender msg) w.root)
  dispatch-within begin valid now msg w =
      sender_at-within (λ s. some (start_stop true now s)) msg w (with_pid msg.pid w.root)
  dispatch-within end valid now msg w =
      sender_at-within (λ s. some (start_stop false now s)) msg w (with_pid msg.pid w.root)
  dispatch-within sub_register valid now msg w =
      add_sub_at-within valid now msg w (with_name msg.name w.root)
  dispatch-within sub_unregister valid now msg w =
      remove_sub_at-within msg w (with_pid msg.pid w.root)
  dispatch-within other valid now msg w = refl

pub dispatch-same :
    (c : Command) (valid : Processes) (now : ℕ) (msg : Message) (w : Watchdog)
    → dispatch c valid now msg w ≡ within w (dispatch c valid now msg w)
dispatch-same c valid now msg w = dispatch-within w c valid now msg w

pub dispatch-queue :
    (es : List Message) (n : ℕ) (c : Command) (valid : Processes) (now : ℕ) (msg : Message)
    (w : Watchdog)
    → dispatch c valid now msg (with_queue es n w) ≡ with_queue es n (dispatch c valid now msg w)
dispatch-queue es n c valid now msg w =
    dispatch-within (with_queue es n w) c valid now msg w
    ∙ ap (with_queue es n) (sym (dispatch-same c valid now msg w))
