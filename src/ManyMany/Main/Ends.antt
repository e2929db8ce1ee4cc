-- ===== src/ManyMany/Main/Ends.antt =====
-- How main ends: the first dispatcher runs the application's thread_main, or there is no dispatcher.
use libthreads_c.Base.{ℕ, ◌≡◌, ◌∙◌, refl, false, none, some, List, [], ◌∷◌, ◌==◌, ==_sym}
use libthreads_c.Mods.Timer.{timer_set}
use libthreads_c.Mods.Lock.{lock_init}
use libthreads_c.ManyMany.World.{
  Ptr, null, exited, Thread, World, Event, stack_unmapped, freed, ok, spins, Cmd, pure, ◌>>=◌, ◌>>◌,
}
use libthreads_c.ManyMany.Facts.{Holds, on_leave}
use libthreads_c.Base.Outcome.{spins-bind}
use libthreads_c.ManyMany.Control.{many_many_start}
use libthreads_c.ManyMany.Control.Create.{Created, create_success}
use libthreads_c.ManyMany.Sched.{post_schedule}
use libthreads_c.ManyMany.Sched.Turn.{switch_to_next}
use libthreads_c.ManyMany.Pool.{Scheduler, Pool, mmsched_init, init_loop}
use libthreads_c.ManyMany.Main.{nb_kthreads, rounds, finish, init_globals, main}

-- A dispatcher on the kernel thread `ktid`, whose own FS register is `old_fs`, takes a thread from the ready
-- list, runs its start routine, a function of its arguments, and acts on its exit.
abbrev pub dispatches : Ptr → (Ptr → Ptr → Ptr) → ℕ → Cmd (Unit {0})
dispatches old_fs routine ktid w =
    (do
      thread ← switch_to_next
      λ v. on_leave (many_many_start (λ start arg. pure (routine start arg)) v) (do
        post_schedule old_fs false thread
        λ g. ok tt (record g { self = w.self; tid = w.tid })))
      (record w { self = old_fs; tid = ktid })

-- The first dispatcher does so; without dispatchers nothing happens.
abbrev pub first_dispatches : Ptr → (Ptr → Ptr → Ptr) → List Scheduler → Cmd (Unit {0})
first_dispatches old_fs routine [] w = ok tt w
first_dispatches old_fs routine (sched ∷ more) w = dispatches old_fs routine sched.ktid w

-- `td`, whose descriptor was `t`, has run and is over, and the ready list is empty.
abbrev Ran : Ptr → Thread → Ptr → ℕ → Unit {0} → World → Type 0
Ran td t value ktid u g =
    (g.threads td
      ≡ some (record t {
        timer = timer_set ktid 10;
        ret = value;
        intr_off = 1;
        state = exited;
        wait = 0;
      }))
    × (g.mmrll ≡ [])

-- What is left at the end: the status 0, the dispatchers `pool`, no descriptor of the main thread, whose parts
-- were given back last, and an empty ready list.
abbrev pub Finished : Ptr → Ptr → Ptr → Ptr → Pool → ℕ × Pool → World → Type 0
Finished td curr ret stack pool (status, pool') g =
    (status ≡ 0)
    × (pool' ≡ pool)
    × (g.threads td ≡ none)
    × (g.mmrll ≡ [])
    × ((es : List Event) × (g.events
          ≡ freed td ∷ freed ret ∷ freed curr ∷ stack_unmapped stack ∷ es))

module _ (w : World) (c : Thread) (argc arg1 : ℕ) (main_start : Ptr) (pool : Pool)
    (start : (main_start == null) ≡ false) where
  abbrev with_globals : World
  with_globals = record w { nxt_utid = 0; nxt_utid_lk = 1; mmrll = []; mmrll_lk = 1 }

  module _ (td curr ret stack old_fs : Ptr) (rest : List Ptr) (routine : Ptr → Ptr → Ptr)
      (caller : Holds w w.self c) (mem : w.memory ≡ td ∷ curr ∷ ret ∷ stack ∷ rest)
      (ntd : (td == null) ≡ false) (ncurr : (curr == null) ≡ false) (nret : (ret == null) ≡ false)
      (nstack : (stack == null) ≡ false) (apart : (w.self == td) ≡ false) where
    -- When it is asked for no dispatcher, by an argument that is 0 or negative or no number, main waits for ever.
    pub program_waits_on :
        rounds (nb_kthreads argc arg1) ≡ 0
        → main argc arg1 main_start
            (λ scheds main_td. first_dispatches old_fs routine scheds.mmsched_list)
            pool
            w
          ≡ spins
    unfolding main init_globals lock_init mmsched_init init_loop finish
    program_waits_on asked = simp asked (
        spins-bind (Created with_globals c main_start null td curr ret stack) _ _
          (create_success with_globals c main_start null td curr ret stack rest
            (record { not_null = caller.not_null; at = caller.at }) start mem ntd ncurr nstack apart
            (==_sym td w.self ∙ apart) refl refl)
          λ (status, main_td) g made. rw (made.1) (simp (ntd, made.2)))
