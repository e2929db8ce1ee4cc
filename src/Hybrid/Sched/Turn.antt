-- ===== src/Hybrid/Sched/Turn.antt =====
-- The choice of the next many-many thread by a dispatcher of the hybrid library.
use libthreads_c.Base.{◌≡◌, refl, false, some, List, ◌∷◌, ◌⊎◌, inl, inr, Bool-cases, ==-refl}
use libthreads_c.Mods.Lock.{lock_acquire, lock_release}
use libthreads_c.Mods.Timer.{timer_set}
use libthreads_c.ManyMany.Sched.{mmsched_time_slice_ms}
use libthreads_c.Hybrid.World.{Ptr, Contexts, many_many, Thread, World, Returns}
use libthreads_c.Hybrid.Facts.{Live, SameThreads}
use libthreads_c.Hybrid.Descr.{is_running}
use libthreads_c.Hybrid.Sched.{switch_to_next, send_loop, send_pending_signals}

-- A thread with no signal to be sent to it: it is not running, or its mask is empty.
abbrev pub Quiet : Thread → Contexts → Type 0
Quiet t x = (is_running t.state ≡ false) ⊎ ((x.pend_sig ≡ 0) × (t.mem_lock ≡ 1))

-- The thread `q`, with the descriptor `t`, was taken off the ready list and entered.
abbrev pub Switched : World → Ptr → List Ptr → Thread → Contexts → Ptr → World → Type 0
Switched w q rest t x r g =
    (r ≡ q)
    × (g.self ≡ q)
    × (g.mmrll ≡ rest)
    × (g.mmrll_lk ≡ 1)
    × (g.threads q
        ≡ some (record t {
          members = many_many (record x { timer = timer_set w.tid mmsched_time_slice_ms });
        }))
    × SameThreads w g q q

-- The head of the ready list is chosen, taken off it and entered, and its timer is set for one slice; the
-- list's lock is free again, and no other descriptor changes.
pub switch_to_next_lem :
    (w : World) (q : Ptr) (rest : List Ptr) (t : Thread) (x : Contexts)
    → w.mmrll ≡ q ∷ rest
    → w.mmrll_lk ≡ 1
    → Live w q t x
    → Quiet t x
    → Returns (Switched w q rest t x) (switch_to_next w)
unfolding switch_to_next lock_acquire lock_release timer_set send_pending_signals send_loop
switch_to_next_lem w q rest t x ready free thread (inl idle) =
    simp (ready, free, thread.not_null, thread.at, thread.members_at, idle, ==-refl)
      (refl, refl, refl, refl, refl, λ a n m. simp n refl)
switch_to_next_lem w q rest t x ready free thread (inr (nosig, unlocked)) =
    elim (Bool-cases (is_running t.state)) [
      | inl yes_running ↦
          simp
            (
              ready, free, thread.not_null, thread.at, thread.members_at, yes_running, nosig,
              unlocked, ==-refl,
            )
            (refl, refl, refl, refl, refl, λ a n m. simp n refl)
      | inr not_running ↦
          simp (ready, free, thread.not_null, thread.at, thread.members_at, not_running, ==-refl)
            (refl, refl, refl, refl, refl, λ a n m. simp n refl)
    ]
