-- ===== src/Timer.antt =====
-- lib/util/utilTimer.c: the timers of a program. They wait in five vectors of lists, by the tick at
-- which they are due; `vec k` and `index k` are those of `tvecs[k]`.
-- An `unsigned long` has 32 bits, as on the board the program is for.
pub mod Spans
pub mod Among
pub mod Held
pub mod Slots
pub mod Cascade
pub mod Begin
pub mod End
pub mod Line
pub mod Calls
pub mod Requests
pub mod Fire
pub mod Tick
pub mod Registry
mod Tests
use pi_frame.Prelude.{
  ℕ, zero, suc, ◌+◌, ◌-◌, ◌/◌, ◌%◌, Bool, true, false, ◌&&◌, Option, none, some, List, [], ◌∷◌,
  ◌++◌, ◌==◌, leb, ltb, if◌then◌else◌,
}

abbrev pub word : ℕ
word = 4294967296

-- A timer in a vector: `list` and `expires` of `struct TimerList`, with the place of the timer.
pub record Pending : Type 0 where
  pub timer : ℕ
  pub expires : ℕ

-- `tvecs`, `timer_jiffies` and the list behind `run_timer_list_running`.
pub record Wheel : Type 0 where
  pub vec : ℕ → ℕ → List Pending
  pub index : ℕ → ℕ
  pub now : ℕ
  pub running : Option (List Pending)

-- `init_timervecs`, with the initial values of the variables.
unfoldable pub new_wheel : Wheel
new_wheel = record { vec = λ k i. []; index = λ k. 0; now = 0; running = none }

-- The list that `internal_add_timer` chooses, if the timers do not run.
unfoldable pub place : Wheel → ℕ → ℕ × ℕ
place w expires =
    let idx = (expires + word - w.now) % word in
    if ltb idx 256
    then (0, expires % 256)
    else if ltb idx 16384
    then (1, expires / 256 % 64)
    else if ltb idx 1048576
    then (2, expires / 16384 % 64)
    else if ltb idx 67108864
    then (3, expires / 1048576 % 64)
    else if leb 2147483648 idx
    then (0, w.index 0)
    else (4, expires / 67108864 % 64)

-- `list_add(&timer->list, vec->prev)`.
unfoldable pub put : ℕ × ℕ → Pending → Wheel → Wheel
put (k, i) x w = record w {
  vec = λ a b. if a == k && b == i then w.vec a b ++ x ∷ [] else w.vec a b;
}

-- `internal_add_timer`.
unfoldable pub add : Pending → Wheel → Wheel
add x w = elim w.running [
  | some queued ↦ record w { running = some (queued ++ x ∷ []) }
  | none ↦ put (place w x.expires) x w
]

unfoldable pub add_all : List Pending → Wheel → Wheel
add_all [] w = w
add_all (x ∷ xs) w = add_all xs (add x w)

-- `cascade_timers` of `tvecs[k]`: `INIT_LIST_HEAD` makes the list of the index empty at the end.
unfoldable pub clear : ℕ → ℕ → Wheel → Wheel
clear k i w = record w { vec = λ a b. if a == k && b == i then [] else w.vec a b }

unfoldable pub turn : ℕ → Wheel → Wheel
turn k w = record w { index = λ a. if a == k then (w.index k + 1) % 64 else w.index a }

unfoldable pub cascade : ℕ → Wheel → Wheel
cascade k w = turn k (clear k (w.index k) (add_all (w.vec k (w.index k)) w))

-- The loop of `run_timer_list` over the vectors from `tvecs[n]` on, of which there are `left`.
unfoldable pub cascades : ℕ → ℕ → Wheel → Wheel
cascades zero n w = w
cascades (suc left) n w = elim ((cascade n w).index n == 1) [
  | true ↦ cascades left (suc n) (cascade n w)
  | false ↦ cascade n w
]

-- The beginning of a tick, up to the timers of the list `vec 0 (index 0)`.
unfoldable pub begin_tick : Wheel → Wheel
begin_tick w = if w.index 0 == 0 then cascades 4 1 w else w

-- The end of a tick: the timers that were added while the others ran are put in their places.
unfoldable pub advance : Wheel → Wheel
advance w = record w {
  running = none;
  now = (w.now + 1) % word;
  index = λ a. if a == 0 then (w.index 0 + 1) % 256 else w.index a;
}

unfoldable pub end_tick : Wheel → Wheel
end_tick w = elim w.running [ none ↦ advance w | some queued ↦ add_all queued (advance w) ]
