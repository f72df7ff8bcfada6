-- ===== src/Queues/Inv.antt =====
-- drivers/vmq/main.c: the invariant of the list of queues.
use pi_frame.Prelude.{ℕ, ◌+◌, ◌≤◌, ◌<◌, ◌≡◌, List, [], ◌∷◌, ◌++◌, arith, All, ◌^◌}
use pi_frame.Vmshm.Inv.{Inv as ShmInv, one}
use pi_frame.Vmq.Items.{Inv as QueueInv}
use pi_frame.Queues.{Queue, Context, Queues}

-- How many queues have a memory.
abbrev pub users : ℕ → List Queue → ℕ
users i [] = 0
users i (q ∷ qs) = one q.mem i + users i qs

-- How many files have set a queue up.
abbrev pub attached : ℕ → List Context → ℕ
attached i [] = 0
attached i (c ∷ cs) = one c.queue i + attached i cs

-- No two queues share a number or a memory.
abbrev pub same_id : ℕ → List Queue → ℕ
same_id i [] = 0
same_id i (q ∷ qs) = one q.id i + same_id i qs

-- A queue is well formed, and counts the files that have set it up.
pub record Sound (next : ℕ) (cs : List Context) (q : Queue) : Type 0 where
  pub manager : (lost : List (ℕ × ℕ)) × QueueInv q.manager lost
  pub counted : q.manager.refcnt ≡ attached q.id cs
  pub few : attached q.id cs < 2 ^ 31
  pub below : q.id < next

pub record Inv (q : Queues) : Type 0 where
  pub shm : ShmInv q.shm (λ i. users i q.queues)
  pub sound : All (Sound q.next q.contexts) q.queues
  pub ids : (i : ℕ) → same_id i q.queues ≤ 1
  pub mems : (i : ℕ) → users i q.queues ≤ 1
  pub known : All (λ (c : Context). 0 < same_id c.queue q.queues) q.contexts

pub users-append : (i : ℕ) (b a : List Queue) → users i (b ++ a) ≡ users i b + users i a
users-append i [] a = omega arith
users-append i (q ∷ qs) a = omega (arith, users-append i qs a)

pub same_id-append : (i : ℕ) (b a : List Queue) → same_id i (b ++ a) ≡ same_id i b + same_id i a
same_id-append i [] a = omega arith
same_id-append i (q ∷ qs) a = omega (arith, same_id-append i qs a)
