-- ===== src/ManyMany/Sched/Turn.antt =====
-- The dispatcher's turns as one command: choose, prepare and enter the next thread, and run it.
use libthreads_c.Base.{
  ◌≡◌, refl, false, Option, none, some, List, ◌∷◌, ◌⊎◌, inl, inr, Bool-cases, ==-refl,
}
use libthreads_c.Mods.Lock.{lock_acquire, lock_release}
use libthreads_c.Mods.Timer.{timer_set}
use libthreads_c.ManyMany.World.{Ptr, Thread, World, fault, Cmd, pure, ◌>>=◌, ◌>>◌, Returns}
use libthreads_c.ManyMany.Facts.{Holds, SameThreads}
use libthreads_c.ManyMany.Descr.{is_running}
use libthreads_c.ManyMany.Sched.{
  mmsched_time_slice_ms, get_next_thread, send_loop, send_pending_signals, prepare, enter,
}

abbrev pub chosen : Option Ptr → Cmd Ptr
chosen none w = fault
chosen (some thread) w = (do prepare thread; enter thread; pure thread) w

-- One pass of `_mmsched_dispatch` up to the switch to the thread. A pass that finds no thread
-- does not end here.
unfoldable pub switch_to_next : Cmd Ptr
unfolding get_next_thread prepare enter
switch_to_next = do next ← get_next_thread; chosen next

-- A thread with no signal to be sent to it: it is not running, or its mask is empty.
abbrev pub Quiet : Thread → Type 0
Quiet t = (is_running t.state ≡ false) ⊎ ((t.pend_sig ≡ 0) × (t.mem_lock ≡ 1))

-- The thread `q`, with the descriptor `t`, was taken off the ready list and entered.
abbrev pub Switched : World → Ptr → List Ptr → Thread → Ptr → World → Type 0
Switched w q rest t r g =
    (r ≡ q)
    × (g.self ≡ q)
    × (g.mmrll ≡ rest)
    × (g.mmrll_lk ≡ 1)
    × (g.threads q ≡ some (record t { timer = timer_set w.tid mmsched_time_slice_ms }))
    × SameThreads w g q q

-- The head of the ready list is chosen, taken off it and entered, and its timer is set for one
-- slice; the list's lock is free again, and no other descriptor changes.
pub switch_to_next_lem :
    (w : World) (q : Ptr) (rest : List Ptr) (t : Thread)
    → w.mmrll ≡ q ∷ rest
    → w.mmrll_lk ≡ 1
    → Holds w q t
    → Quiet t
    → Returns (Switched w q rest t) (switch_to_next w)
unfolding switch_to_next lock_acquire lock_release timer_set send_pending_signals send_loop
switch_to_next_lem w q rest t ready free thread (inl idle) =
    simp (ready, free, thread.not_null, thread.at, idle, ==-refl)
      (refl, refl, refl, refl, refl, λ a n m. simp n refl)
switch_to_next_lem w q rest t ready free thread (inr (nosig, unlocked)) =
    elim (Bool-cases (is_running t.state)) [
      | inl yes_running ↦
          simp (ready, free, thread.not_null, thread.at, yes_running, nosig, unlocked, ==-refl)
            (refl, refl, refl, refl, refl, λ a n m. simp n refl)
      | inr not_running ↦
          simp (ready, free, thread.not_null, thread.at, not_running, ==-refl)
            (refl, refl, refl, refl, refl, λ a n m. simp n refl)
    ]
