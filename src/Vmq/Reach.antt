-- ===== src/Vmq/Reach.antt =====
-- drivers/vmq/main.c: every order of calls on a queue.
use pi_frame.Prelude.{
  ℕ, suc, ◌%◌, ◌^◌, ◌<◌, ◌≡◌, sym, ◌∙◌, subst, Bool, true, Option, none, some, List, [], ret,
  length,
}
use pi_frame.Vmq.{Manager, Producer, Consumer, Phase}
use pi_frame.Vmq.Calls.{
  Reply, find_producer, find_consumer, getbuf, getbuf_from, putbuf, getitem, putitem,
  setup_producer, setup_consumer, release_producer, release_consumer,
}
use pi_frame.Vmq.State.{Safe}
use pi_frame.Vmq.Items.{Inv}
use pi_frame.Vmq.Consume.{getitem-Inv}
use pi_frame.Vmq.GiveUp.{putitem-Inv, release_consumer-Inv}
use pi_frame.Vmq.Produce.{putbuf-Inv, release_producer-Inv, setup_producer-Inv, setup_consumer-Inv}
use pi_frame.Vmq.Getbuf.{getbuf-Took, getbuf_from-Took}
use pi_frame.Vmq.New.{create_manager, create_manager-Inv}

-- A call that returns, or sleeps; `wakes` is the rest of a call that slept.
pub data Call (m m' : Manager) : Type 0 where
  sets_producer : (file : ℕ) → m' ≡ setup_producer file m → Call m m'
  sets_consumer :
      (file : ℕ) → suc (length m.consumers) < 2 ^ 31 → m' ≡ setup_consumer file m → Call m m'
  gets_buffer :
      (file size : ℕ) (signal given copied : Bool) (p : Producer) (reply : Reply)
      → find_producer file m.producers ≡ some p
      → size < 2 ^ 32
      → getbuf file (some size) signal given copied m ≡ ret (reply, m')
      → Call m m'
  wakes :
      (phase : Phase) (file size : ℕ) (signal given copied : Bool) (p : Producer) (reply : Reply)
      → find_producer file m.producers ≡ some p
      → p.buffer ≡ none
      → 0 < size
      → size < 2 ^ 31
      → getbuf_from phase file size signal given copied m ≡ ret (reply, m')
      → Call m m'
  puts_buffer :
      (file : ℕ) (arg : Option ℕ) (grants : List Bool) (p : Producer) (i : ℕ) (reply : Reply)
      → find_producer file m.producers ≡ some p
      → p.buffer ≡ some i
      → putbuf file arg grants m ≡ ret (reply, m')
      → Call m m'
  gets_item :
      (file : ℕ) (signal copied : Bool) (c : Consumer) (reply : Reply)
      → find_consumer file m.consumers ≡ some c
      → getitem file signal copied m ≡ ret (reply, m')
      → Call m m'
  puts_item :
      (file : ℕ) (c : Consumer) (reply : Reply)
      → find_consumer file m.consumers ≡ some c
      → putitem file m ≡ ret (reply, m')
      → Call m m'
  releases_producer :
      (file : ℕ) (p : Producer)
      → find_producer file m.producers ≡ some p
      → release_producer file m ≡ ret m'
      → Call m m'
  releases_consumer :
      (file : ℕ) (c : Consumer) (woken : Bool)
      → find_consumer file m.consumers ≡ some c
      → release_consumer file m ≡ ret (woken, m')
      → Call m m'

pub data Reach (m : Manager) : Manager → Type 0 where
  here : Reach m m
  next : {n n' : Manager} → Reach m n → Call n n' → Reach m n'

Call-Inv :
    (m m' : Manager) (lost : List (ℕ × ℕ))
    → Inv m lost
    → Call m m'
    → (lost' : List (ℕ × ℕ)) × Inv m' lost'
Call-Inv m m' lost v (sets_producer file e) =
    (lost, subst (λ n. Inv n lost) (sym e) (setup_producer-Inv file m lost v))
Call-Inv m m' lost v (sets_consumer file few e) =
    (lost, subst (λ n. Inv n lost) (sym e) (setup_consumer-Inv file m lost v few))
Call-Inv m m' lost v (gets_buffer file size signal given copied p reply found fits e) =
    let (page, safe) = getbuf-Took file m lost p size signal given copied v found fits in
    let (lost', leak, inv) = subst (Safe m.ba.nr_pages _ _) e safe in (lost', inv)
Call-Inv m m' lost v (wakes phase file size signal given copied p reply found idle pos small e) =
    let (page, safe) =
      getbuf_from-Took file m lost p size signal given copied phase v found idle pos small in
    let (lost', leak, inv) = subst (Safe m.ba.nr_pages _ _) e safe in (lost', inv)
Call-Inv m m' lost v (puts_buffer file arg grants p i reply found has e) =
    (lost, subst (Safe m.ba.nr_pages _ _) e (putbuf-Inv file arg grants m lost p i v found has))
Call-Inv m m' lost v (gets_item file signal copied c reply found e) =
    (lost, subst (Safe m.ba.nr_pages _ _) e (getitem-Inv file signal copied m lost c v found))
Call-Inv m m' lost v (puts_item file c reply found e) =
    (lost, (subst (Safe m.ba.nr_pages _ _) e (putitem-Inv file m lost c v found)).0)
Call-Inv m m' lost v (releases_producer file p found e) =
    (lost, subst (Safe m.ba.nr_pages _ _) e (release_producer-Inv file m lost p v found))
Call-Inv m m' lost v (releases_consumer file c woken found e) =
    (lost, (subst (Safe m.ba.nr_pages _ _) e (release_consumer-Inv file m lost c v found)).inv)

Reach-Inv :
    (m m' : Manager) (lost : List (ℕ × ℕ))
    → Inv m lost
    → Reach m m'
    → (lost' : List (ℕ × ℕ)) × Inv m' lost'
Reach-Inv m m' lost v here = (lost, v)
Reach-Inv m m' lost v (next {n} r c) =
    let (lost₁, v₁) = Reach-Inv m n lost v r in Call-Inv n m' lost₁ v₁ c

abbrev Holds : Option Manager → Type 0
Holds none = Unit {0}
Holds (some m) = (lost : List (ℕ × ℕ)) × Inv m lost

created-Holds :
    (size page_size max_item_count : ℕ) (m : Manager)
    → page_size % 2 ^ 7 ≡ 0
    → 0 < page_size
    → page_size < 2 ^ 31
    → size < 2 ^ 31
    → create_manager true true true size page_size max_item_count ≡ ret (some m)
    → (lost : List (ℕ × ℕ)) × Inv m lost
created-Holds size page_size max_item_count m whole pos fits small e =
    let (n, run, sized, none_yet, inv) =
      create_manager-Inv size page_size max_item_count whole pos fits small in
    subst (Safe 0 [] Holds) (sym run ∙ e) ([], inv)

-- A queue that was made with a page size that is a multiple of 128 and numbers below 2 ^ 31 is well formed
-- after any sequence of calls that return, in any order: a caller is opened, asks for a buffer of less than
-- 2 ^ 32 bytes, wakes from its wait for one, gives it back with or without an item, takes an item, gives
-- it back, or is closed; `copied` and `signal` are whatever the kernel returns. The blocks that are marked
-- and belong to no buffer are those of some list `lost`.
pub create_manager-Reach :
    (size page_size max_item_count : ℕ) (m m' : Manager)
    → page_size % 2 ^ 7 ≡ 0
    → 0 < page_size
    → page_size < 2 ^ 31
    → size < 2 ^ 31
    → create_manager true true true size page_size max_item_count ≡ ret (some m)
    → Reach m m'
    → (lost : List (ℕ × ℕ)) × Inv m' lost
create_manager-Reach size page_size max_item_count m m' whole pos fits small e r =
    let (lost, inv) = created-Holds size page_size max_item_count m whole pos fits small e in
    Reach-Inv m m' lost inv r
