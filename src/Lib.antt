-- ===== src/Lib.antt =====
-- PiFrame: the message queue between processes, with the drivers and libraries under it.
-- A queue is a piece of shared memory that producers fill and consumers read. The driver
-- drivers/vmq/main.c hands out buffers in that memory, sends each one to the consumers of the queue
-- and removes it when the last of them has given it back; the buddy allocator drivers/vmq/balloc.c
-- decides which pages a buffer has. The memory itself comes from drivers/vmshm/main.c.
--
-- Prelude: names of the libraries, Boolean tests, lists over the native numbers (Lists), runs of C
-- code that return, fault or run out of fuel (Runs), powers of two (Pow).
--
-- Balloc: drivers/vmq/balloc.c. `create`, `alloc`, `free`, `order_of` are ba_create, ba_alloc, ba_free,
-- ba_order; each loop is a function of its own. The bitmap is a function from page numbers to entries,
-- and an access outside of it is a fault. Chain and Inv read the bitmap as a chain of blocks; Create,
-- Alloc (by Find, Search, Halve) and Free (by Merge, Join, Locate) say what the operations do to it;
-- Contract and Arena forget the chain and keep the marked blocks.
--
-- Vmq: drivers/vmq/main.c, one queue. `Manager` is struct VMQBufferManager with the contexts of the
-- files that have set it up; Calls has vmq_getbuf, vmq_putbuf, vmq_getitem, vmq_putitem, vmq_setup and
-- vmq_release, on the functions of Vmq: get_buffer_item, put_buffer_item, unref_buffer,
-- remove_buffer_item. The invariant (State, Items) ties the counter of each buffer to the references
-- that consumers hold, each buffer without references to one owner, and the blocks of the buffers to
-- the marks of the allocator. Consume, GiveUp, Produce (with Own and
-- Handing) and Getbuf (with Take and Owner) show that the calls keep it; Deliver follows
-- an item from a producer to a consumer, and Disjoint and Separate are about the pages of the buffers.
-- New has create_buffer_manager, Keys vmq_getkey; Reach is about any sequence of calls on a new queue.
--
-- Queues: drivers/vmq/main.c, the list of queues with the memory of each. `create_queue`, `remove_queue`,
-- `setup` and `release` are vmq_create, vmq_remove, vmq_setup and vmq_release; the rest of a handler, from
-- a call of another part on, is a function of its own. `Queues` holds the state of the shared memory driver
-- too, and the queue driver is the other user of that one's counters. The invariant (Inv) says that each queue is
-- well formed, counts the files that have set it up, and has a memory of its own. Lookup, Memory and
-- Added have the search by a name, the end of a memory and a queue more; Selected, Create, Remove, Setup, Guard and Undo
-- are about the calls.
--
-- Vmshm: drivers/vmshm/main.c. `Driver` is the list of shared memories with what each open file has
-- selected; vmshm_create, vmshm_remove, vmshm_select and vmshm_unselect are called by `ioctl`, `release`
-- and by the queue driver, the other users. The invariant (Mems, Good, Inv) says that the memories in
-- the list are alive, with names and numbers of their own, and that each counter is the number of the
-- users. Create, Ioctl and Users show what the calls do.
--
-- Fifo: lib/util/utilFifo.c, a queue between the threads of one process, apart from the drivers.
-- `create`, `dequeue`, `destroy` are the functions PFU_createFIFO and so on; `enqueue_round` is a round of
-- PFU_enqueueFIFO, whose caller waits and makes another where there is no item (`Threads`, `step`). Contents has
-- the invariant of both ways to get items, Trace the abstract queue, Destroy the end.
--
-- File: lib/util/utilFile.c, the loops around the system calls (`safe_read`, `safe_write`,
-- `safe_pread`, `safe_pwrite`) over a list of what the kernel returns, and PFU_rtrim. Whole, Place, Trim.
--
-- Watchdog: service/watchdog/watchdog.c, with the queue of service/watchdog/eventWD.c and the messages
-- of include/pfwatchdog.h, apart from the drivers. `Watchdog` is struct WatchdogInfo with the lists of
-- services and of messages; Handlers has a function for each message (addServiceList and so on), Update
-- has watchdogServiceUpdate, watchdogAction, processWDUpdate and a `round` of processWatchdog. Deadline
-- and Expiry read the counters as times, Survivors is about the update of all services, Register about a
-- registration, Names and Programs about the programs in the list; Queue, Rounds, Arrival and Lifetime
-- are about the messages and the rounds of the thread. The table of processes, the clock and the fuel of
-- the inner loop are arguments; a round of fuel for each message and one more is enough. Commands to the
-- system are recorded, and `exit` ends the run.
--
-- Timer: lib/util/utilTimer.c, the timers of a process, apart from the drivers. `Wheel` is `tvecs` with
-- timer_jiffies; `place`, `add` and `cascade` are internal_add_timer and cascade_timers, and a tick of
-- run_timer_list is `begin_tick`, the timers that are due, `end_tick`. Calls has the timers by their keys:
-- PFU_timerAdd, PFU_timerDelete, PFU_timerSetMsec, reuse_timer and timer_process. Spans and Held say where
-- a timer belongs; Cascade, Begin and End what a part of a tick moves; Line follows the ticks, Fire and Tick
-- tie timer_process to them, Registry is about the removal of a timer. An unsigned long has 32 bits.
-- The functions of the timers are an argument, `Program`: what they ask of the library and whether they
-- want to be called again. A round of fuel for each timer of a tick and one more is enough, if those
-- functions want to be called again, and two rounds of the loop for timer_process.
--
-- Integers: `int` and `unsigned` are 32 bits, and wrap where the code lets them. Bounds and fuel: a
-- round of the search of ba_alloc moves on, so one round more than there are pages is enough; the
-- loops that halve and join blocks change an order of seven bits at each round, and have 128. That
-- the fuel is enough is part of the theorems on `alloc` and `free`.
--
-- What the kernel decides is an argument: whether memory is given, whether copies to and from user
-- space succeed, whether a signal is pending. A call runs alone, between two sleeps; a sleeping call
-- is a result, and is continued by `getbuf_from`. mmap, poll and /proc are not
-- modelled, nor are the other libraries and services.
pub mod Prelude
pub mod Balloc
pub mod Vmq
pub mod Vmshm
pub mod Fifo
pub mod File
pub mod Watchdog
pub mod Timer
pub mod Queues
