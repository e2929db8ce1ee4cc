-- ===== src/Lib.antt =====
-- libthreads-C: three user threading libraries in C with one interface. In one-one every user
-- thread is a kernel thread; in many-many the user threads are contexts that a few dispatchers,
-- each on a kernel thread, take from one ready list; in hybrid a user thread is of either kind.
--
-- The shared building blocks, many-many/src/mods/ (the other two libraries hold copies of them):
-- * Mods/List is list.c and list.h over a heap of list members, where a fault is `none`: Chain
--   says what a list stands for, Fifo what one call does, Queue what a history of calls does.
-- * Base holds what the components share: list lemmas, Boolean tests, Outcome for how a run ends, Holders
--   for who holds a lock.
-- * Mods/Lock is lock.c and lock.h: the calls of one thread, and in its child Threads any number
--   of threads that interleave on one word; Mods/Sig is sig.c, Mods/Utils the compare and swap of utils.h,
--   Mods/Timer timer.c, Mods/Stack stack.c.
-- many-many/src/:
-- * ManyMany/World is the state (descriptors, spinlocks, mutexes, the ready list with its lock,
--   the FS register that says who runs) and the commands on it; ManyMany/Facts the predicates on
--   worlds.
-- * ManyMany/Descr and ManyMany/Pending are the macros of thread_descr.h, the latter those for
--   the mask of pending signals; ManyMany/Ready is mmrll.c.
-- * ManyMany/Control is thread_cntl.c, ManyMany/Spin and ManyMany/Mutex are the two halves of
--   thread_sync.c, ManyMany/Signal is thread_sig.c, ManyMany/Sched is mmsched.c: one function per
--   function or macro of the source, under its name. Their child modules hold what they do.
-- * ManyMany/Pool is the part of mmsched.c that makes and ends the dispatchers' kernel threads.
-- * ManyMany/Dispatch is mmsched.c with create, join, kill, yield and exit as any number of dispatchers interleave
--   on one ready list; Places holds the invariant, Moves, Lists, Turns and Locks that the steps keep it, Order
--   and Stuck what follows from it. ManyMany/Main is thread_main.c.
-- * ManyMany/Contend is the mutex as any number of threads, and the dispatchers that switch them, interleave on
--   it; Facts holds the invariant, Moves, Handover and Steps that the steps keep it, Order what follows.
-- * ManyMany/Control/Protocol composes a join, the exit of the joined thread and the dispatcher
--   between them; ManyMany/Mutex/Handoff and Fifo compose histories of lock and unlock calls.
--
-- one-one/src/:
-- * OneOne/Mutex is the mutex of thread_sync.c as any number of threads interleave on it, one
--   access a step; Exclusion is about who holds it, Wakeup about who sleeps on it.
-- * OneOne/Join is thread_join and thread_exit of thread_cntl.c in the same way, for one target
--   and any number of joiners; Facts holds the invariant, Returns is about how a join ends.
-- * OneOne/Spin is the spinlock of thread_sync.c in the same way; its unlock may be called by anyone.
-- * OneOne/World is the state that one thread's calls change, OneOne/Control thread_cntl.c and
--   thread_sig.c as one thread calls them; Life composes creation, start routine and join.
-- * OneOne/Objects is the creation and destruction of spinlocks and mutexes, OneOne/Main thread_main.c.
-- hybrid/src/:
-- * Hybrid/World is the state, where a descriptor has the members of its type, Hybrid/Facts the predicates;
--   Hybrid/Descr is thread_descr.h, Hybrid/Ready mmrll.c.
-- * Hybrid/Control is thread_cntl.c, Hybrid/Sched mmsched.c, Hybrid/Signal thread_sig.c and Hybrid/Spin
--   thread_sync.c, as in many-many. Hybrid/Control/Protocol composes a join, the exit of the joined thread,
--   the dispatcher and the kernel when the two threads are of different types.
-- * Hybrid/Pool is the rest of mmsched.c, by the definitions for many-many, and Hybrid/Main thread_main.c.
-- * Hybrid/Join is thread_join against the end of its target, for joiners and targets of either type, as
--   they interleave access by access; Facts holds the invariant, Steps, Ends and Posts that the steps keep
--   it, Once what follows from it; Window is about joins that come late.
--
-- In ManyMany, Hybrid and OneOne/Control a command takes a world and ends in one of five ways (`Run`): it returns; it swaps
-- to the dispatcher with the rest of the call saved, which is swapcontext (or
-- sleeps in the kernel, in Hybrid and OneOne); it leaves for the
-- dispatcher for good, which is setcontext; it spins on a lock that nobody releases; or it
-- faults. One kernel thread runs at a time: a call runs up to its switch, then the dispatcher
-- takes over. A loop that waits for a lock is one round of it, since the word does not change
-- while one thread runs. Pointers are numbers with NULL 0; what malloc and mmap return is part of
-- the world, as the list of the coming results. An `int` is its 32-bit pattern. The timer
-- interrupt is modelled by its handler, not by when it comes.
--
-- The only loop with fuel is that of send_pending_signals: its mask has 32 bits and every round
-- clears one, so 33 rounds are enough.
--
-- Left out: what the kernel does (clone, futex, the signal and timer calls, which are events or
-- parameters), the loading and freeing of memory by the C library, and the tests. Of the ways in which the
-- dispatchers' threads may interleave, ManyMany/Dispatch says which it has.
mod Base
pub mod Mods
pub mod ManyMany
pub mod OneOne
pub mod Hybrid
