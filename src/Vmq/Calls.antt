-- ===== src/Vmq/Calls.antt =====
-- drivers/vmq/main.c: what the handlers of `vmq_ioctl` and `vmq_release` do to one queue. The caller's
-- context is found among the producers or consumers of the queue by its file.
use pi_frame.Prelude.{
  ℕ, ◌+◌, Bool, not, Option, none, some, List, [], ◌∷◌, ◌++◌, Outcome, ret, fault, ◌>>=◌, ltb, ◌==◌,
  if◌then◌else◌,
}
use pi_frame.Vmq.{
  Producer, Consumer, Manager, Errno, efault, einval, ebusy, enoent, erestartsys, slt, inc, dec,
  find_buffer, remove_buffer, unref_buffer, Phase, enter, got, failed, blocked, get_buffer,
  put_buffer,
}

-- What a system call comes to: success, the size and offset that are copied to the caller, an error,
-- or a caller that sleeps on one of the two wait queues.
pub data Reply : Type 0 where
  done : Reply
  info : ℕ → ℕ → Reply
  error : Errno → Reply
  asleep : Phase → Reply
  asleep_item : Reply

-- The context of a file, and the write of its pointer.
unfoldable pub find_producer : ℕ → List Producer → Option Producer
find_producer f [] = none
find_producer f (p ∷ ps) = if p.file == f then some p else find_producer f ps

unfoldable pub set_producer : ℕ → Option ℕ → List Producer → List Producer
set_producer f b [] = []
set_producer f b (p ∷ ps) =
    if p.file == f then record p { buffer = b } ∷ ps else p ∷ set_producer f b ps

unfoldable pub find_consumer : ℕ → List Consumer → Option Consumer
find_consumer f [] = none
find_consumer f (c ∷ cs) = if c.file == f then some c else find_consumer f cs

unfoldable pub set_consumer : ℕ → List ℕ → Option ℕ → List Consumer → List Consumer
set_consumer f items item [] = []
set_consumer f items item (c ∷ cs) =
    if c.file == f
    then record c { items = items; item = item } ∷ cs
    else c ∷ set_consumer f items item cs

unfoldable pub drop_producer : ℕ → List Producer → List Producer
drop_producer f [] = []
drop_producer f (p ∷ ps) = if p.file == f then ps else p ∷ drop_producer f ps

unfoldable pub drop_consumer : ℕ → List Consumer → List Consumer
drop_consumer f [] = []
drop_consumer f (c ∷ cs) = if c.file == f then cs else c ∷ drop_consumer f cs

-- A file whose context has the other role, or, with no context at all, the read of a null pointer.
unfoldable pub other_role {ℓ} : {A : Type ℓ} → Option A → Manager → Outcome (Reply × Manager)
other_role none m = fault
other_role (some c) m = ret (error einval, m)

-- The end of `vmq_getbuf`: `get_buffer_item` from a phase on, and the copy to user space.
unfoldable pub getbuf_from :
    Phase → ℕ → ℕ → Bool → Bool → Bool → Manager → Outcome (Reply × Manager)
getbuf_from phase file size signal given copied m = get_buffer phase signal given size m >>= λ r.
    elim r.0 [
      | failed e ↦ ret (error e, r.1)
      | blocked ph ↦ ret (asleep ph, r.1)
      | got b ↦
          if copied
          then ret (
            info b.size b.offset,
            record (r.1) { producers = set_producer file (some b.id) r.1.producers },
          )
          else (remove_buffer r.1 b >>= λ m'.
              ret (error efault, record m' { producers = set_producer file none m'.producers }))
    ]

-- `vmq_getbuf` of a file whose context is in the queue: `arg` is the size it asks for, `none` where it cannot be read.
unfoldable pub getbuf : ℕ → Option ℕ → Bool → Bool → Bool → Manager → Outcome (Reply × Manager)
getbuf file arg signal given copied m = elim (find_producer file m.producers) [
  | none ↦ other_role (find_consumer file m.consumers) m
  | some p ↦ elim p.buffer [
    | some _ ↦ ret (error ebusy, m)
    | none ↦ elim arg [
      | none ↦ ret (error efault, m)
      | some size ↦
          if not (slt 0 size)
          then ret (error efault, m)
          else if slt m.size size
          then ret (error efault, m)
          else getbuf_from enter file size signal given copied m
    ]
  ]
]

-- `vmq_putbuf` of a producer: `arg` is the offset that it gives. The pointer `pro->buffer` is read
-- without a test.
unfoldable pub putbuf : ℕ → Option ℕ → List Bool → Manager → Outcome (Reply × Manager)
putbuf file arg grants m = elim (find_producer file m.producers) [
  | none ↦ other_role (find_consumer file m.consumers) m
  | some p ↦ elim arg [
    | none ↦ ret (error efault, m)
    | some offset ↦ elim p.buffer [
      | none ↦ fault
      | some i ↦ elim (find_buffer i m.buffers) [
        | none ↦ fault
        | some b ↦
            if not (b.offset == offset)
            then ret (error einval, m)
            else put_buffer grants m i >>= λ r.
                ret (done, record (r.1) { producers = set_producer file none r.1.producers })
      ]
    ]
  ]
]

-- `put_queue_item`.
unfoldable pub put_item : Manager → ℕ → Outcome Manager
put_item m i = unref_buffer m i >>= λ r. ret r.1

-- `vmq_getitem` of a consumer.
unfoldable pub getitem : ℕ → Bool → Bool → Manager → Outcome (Reply × Manager)
getitem file signal copied m = elim (find_consumer file m.consumers) [
  | none ↦ other_role (find_producer file m.producers) m
  | some c ↦ elim c.item [
    | some _ ↦ ret (error ebusy, m)
    | none ↦ elim c.items [
      | [] ↦ ret (if signal then error erestartsys else asleep_item, m)
      | i ∷ rest ↦
          let taken : Manager = record m { consumers = set_consumer file rest none m.consumers } in
          elim (find_buffer i m.buffers) [
            | none ↦ fault
            | some b ↦
                if copied
                then ret (
                  info b.size b.offset,
                  record m { consumers = set_consumer file rest (some i) m.consumers },
                )
                else (put_item taken i >>= λ m'. ret (error efault, m'))
          ]
    ]
  ]
]

-- `vmq_putitem` of a consumer.
unfoldable pub putitem : ℕ → Manager → Outcome (Reply × Manager)
putitem file m = elim (find_consumer file m.consumers) [
  | none ↦ other_role (find_producer file m.producers) m
  | some c ↦ elim c.item [
    | none ↦ ret (error enoent, m)
    | some i ↦ put_item m i >>= λ m'.
        ret (done, record m' { consumers = set_consumer file c.items none m'.consumers })
  ]
]

-- The two arms of `vmq_setup`; the context is allocated.
unfoldable pub setup_producer : ℕ → Manager → Manager
setup_producer file m = record m {
  refcnt = inc m.refcnt;
  producers = m.producers ++ record { file = file; buffer = none } ∷ [];
}

unfoldable pub setup_consumer : ℕ → Manager → Manager
setup_consumer file m = record m {
  refcnt = inc m.refcnt;
  consumers = m.consumers ++ record { file = file; items = []; item = none } ∷ [];
}

-- The references of a consumer that is released, given up one by one: how many were the last ones.
unfoldable pub unref_all : List ℕ → Manager → Outcome (ℕ × Manager)
unref_all [] m = ret (0, m)
unref_all (i ∷ is) m =
    unref_buffer m i >>= λ r. unref_all is r.1 >>= λ s. ret (if r.0 then s.0 + 1 else s.0, s.1)

abbrev pub references : Consumer → List ℕ
references c = elim c.item [ none ↦ c.items | some i ↦ i ∷ c.items ]

-- `vmq_release` of a consumer: true if the producers are woken.
unfoldable pub release_consumer : ℕ → Manager → Outcome (Bool × Manager)
release_consumer file m = elim (find_consumer file m.consumers) [
  | none ↦ fault
  | some c ↦
      unref_all (references c) (record m { consumers = drop_consumer file m.consumers }) >>= λ r.
      ret (ltb 0 r.0, record (r.1) { refcnt = dec r.1.refcnt })
]

-- `vmq_release` of a producer.
unfoldable pub release_producer : ℕ → Manager → Outcome Manager
release_producer file m = elim (find_producer file m.producers) [
  | none ↦ fault
  | some p ↦
      let dropped = λ (n : Manager). record n {
        producers = drop_producer file n.producers;
        refcnt = dec n.refcnt;
      } in
      elim p.buffer [
        | none ↦ ret (dropped m)
        | some i ↦ elim (find_buffer i m.buffers) [
          | none ↦ fault
          | some b ↦ remove_buffer m b >>= λ m'. ret (dropped m')
        ]
      ]
]
