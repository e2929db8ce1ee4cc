-- ===== src/OneOne/Control/Laws.antt =====
-- The one-one calls on their branches.
use libthreads_c.Base.{
  ℕ, ◌≡◌, refl, Bool, true, false, some, Bool-cases, List, ◌∷◌, ◌||◌, inl, inr, ◌==◌, ==-refl,
  ==_sym, ◌∙◌, if◌then◌else◌,
}
use libthreads_c.Mods.Lock.{lock_acquire, lock_release}
use libthreads_c.Mods.Utils.{minus_one}
use libthreads_c.ManyMany.Descr.{is_exited, is_joined}
use libthreads_c.OneOne.World.{
  Ptr, null, running, exited, wait_join, Status, fail, success, Thread, World, cloned, signal_sent,
  futex_waited, futex_woken, pure, Returns, Swaps, Leaves, ◌>>◌, td_set_state,
}
use libthreads_c.OneOne.Control.{
  thread_create, thread_join, join_finish, thread_exit, one_one_start, thread_kill,
}

-- `p` is the address of the descriptor `t`.
pub record Holds (w : World) (p : Ptr) (t : Thread) : Type 0 where
  pub not_null : (p == null) ≡ false
  pub at : w.threads p ≡ some t

abbrev pub SameThreads : World → World → Ptr → Ptr → Type 0
SameThreads w g p q = (a : Ptr) → (a == p) ≡ false → (a == q) ≡ false → g.threads a ≡ w.threads a

-- The descriptor of a new thread, whose result and error number nobody has stored.
abbrev pub new_thread : World → Ptr → Ptr → ℕ → ℕ → Ptr → Thread
new_thread w start arg wait ktid stack = record w.indeterminate {
  ktid = ktid;
  state = running;
  start = start;
  arg = arg;
  wait = wait;
  join_td = null;
  mem_lock = 1;
  stack = stack;
}

-- The thread `td`, with its stack at `stack`, runs on the kernel thread `ktid`.
abbrev pub Created : World → Ptr → Ptr → Ptr → Ptr → ℕ → Status × Ptr → World → Type 0
Created w start arg td stack ktid (status, handle) g =
    (status ≡ success)
    × (handle ≡ td)
    × (g.threads td ≡ some (new_thread w start arg ktid ktid stack))
    × (g.events ≡ cloned td ktid ∷ w.events)
    × (g.self ≡ w.self)
    × SameThreads w g td td

-- A new thread starts out running, with nobody joining it and its lock free.
pub create_runs :
    (w : World) (start arg td stack : Ptr) (rest : List Ptr) (ktid : ℕ) (ks : List ℕ)
    → (start == null) ≡ false
    → w.memory ≡ td ∷ stack ∷ rest
    → (td == null) ≡ false
    → (stack == null) ≡ false
    → w.clones ≡ ktid ∷ ks
    → (ktid == minus_one) ≡ false
    → Returns (Created w start arg td stack ktid) (thread_create true start arg w)
unfolding thread_create
create_runs w start arg td stack rest ktid ks st mem ntd nstack clones up =
    simp (st, mem, ntd, nstack, clones, up, ==-refl)
      (refl, refl, refl, refl, refl, λ a n m. simp n refl)

-- The one-one caller sleeps on the wait word of `p`, whose lock is free.
abbrev pub Asleep : World → Ptr → Thread → Thread → World → Type 0
Asleep w p t c g =
    (g.threads p ≡ some (record t { join_td = w.self; mem_lock = 1 }))
    × (g.threads w.self ≡ some (record c { state = wait_join }))
    × (g.events ≡ futex_waited p ∷ w.events)
    × (g.self ≡ w.self)
    × SameThreads w g p w.self

pub join_sleeps :
    (w : World) (p : Ptr) (t c : Thread) (want_ret : Bool)
    → Holds w w.self c
    → Holds w p t
    → (w.self == p) ≡ false
    → is_joined t.state ≡ false
    → (c.join_td == p) ≡ false
    → t.mem_lock ≡ 1
    → t.join_td ≡ null
    → (t.wait == 0) ≡ false
    → t.wait ≡ t.ktid
    → Swaps
        (Asleep w p t c)
        (do td_set_state w.self running; join_finish p want_ret)
        (thread_join p want_ret w)
unfolding thread_join lock_acquire lock_release
join_sleeps w p t c want_ret caller target ne nj nd free nojoin over word =
    let en : (p == w.self) ≡ false = ==_sym p w.self ∙ ne in
    let over' : (t.ktid == 0) ≡ false = rw (← word) over in
    simp
      (
        target.not_null, target.at, caller.not_null, caller.at, ne, en, nj, nd, free, nojoin, word,
        over', ==-refl,
      )
      ((refl, refl, refl, refl, λ a n m. simp (n, m) refl), λ w'. refl)

-- The running thread, whose descriptor was `c`, has ended with `ret`, and the kernel has woken a sleeper.
abbrev pub Ended : World → Thread → Ptr → World → Type 0
Ended w c ret g =
    (g.threads w.self ≡ some (record c { ret = ret; state = exited; wait = 0 }))
    × (g.events ≡ futex_woken w.self ∷ w.events)
    × SameThreads w g w.self w.self

module _ (w : World) (c : Thread) (caller : Holds w w.self c) where
  -- A start routine that returns a value ends its thread exactly as thread_exit with that value does.
  pub returns-thread_exit :
      (value : Ptr) → one_one_start (λ start arg. pure value) w ≡ thread_exit value w
  unfolding one_one_start thread_exit
  returns-thread_exit value = simp (caller.not_null, caller.at, ==-refl)

  pub start_ends :
      (routine : Ptr → Ptr → Ptr)
      → Leaves
          (Ended w c (routine c.start c.arg))
          (one_one_start (λ start arg. pure (routine start arg)) w)
  unfolding one_one_start
  start_ends routine = simp (caller.not_null, caller.at, ==-refl) (refl, refl, λ a n m. simp n refl)

  -- A signal is sent to the kernel thread of a thread that has neither exited nor been joined; for the others
  -- the call fails and sends nothing. No descriptor but the caller's may change.
  pub kill_running :
      (p : Ptr) (t : Thread) (sig_num : ℕ)
      → Holds w p t
      → Returns
          (λ status g.
            (status ≡ (if is_exited t.state || is_joined t.state then fail else success))
            × (g.events ≡ (
                if is_exited t.state || is_joined t.state
                then w.events
                else signal_sent t.ktid sig_num ∷ w.events))
            × SameThreads w g w.self w.self)
          (thread_kill p sig_num w)
  unfolding thread_kill
  kill_running p t sig_num target = elim (Bool-cases (is_exited t.state || is_joined t.state)) [
    | inl e ↦
        simp (target.not_null, target.at, e, caller.not_null, caller.at)
          (refl, refl, λ a n m. simp n refl)
    | inr e ↦ simp (target.not_null, target.at, e) (refl, refl, λ a n m. refl)
  ]
