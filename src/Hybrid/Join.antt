-- ===== src/Hybrid/Join.antt =====
-- hybrid/src/thread_cntl.c and mmsched.c: thread_join by threads of either type on a target of either type,
-- against the target's end, as they interleave. Each access to the target's descriptor is a step of its own,
-- and so are the dispatcher's, which releases the target's lock once the context of a many-many joiner is
-- saved and does for a many-many target what a one-one target does itself, and the kernel's, as in one-one.
-- The joiners have passed the checks for a NULL handle and for a deadlock.
pub mod Facts
pub mod Steps
pub mod Ends
pub mod Posts
pub mod Once
pub mod Window
mod Examples
use libthreads_c.Base.{ℕ, ◌≡◌, ◌≢◌, Bool, true, false, update, if◌then◌else◌, ◌==◌}
use libthreads_c.Mods.Utils.{atomic_cas}

-- The members of `struct Thread` that the two calls share, with the states as the tests on them.
pub record Target : Type 0 where
  pub exited : Bool
  pub joined : Bool
  pub ret : ℕ
  pub wait : ℕ
  pub join_td : ℕ
  pub mem_lock : ℕ

-- What a joiner does next, as in one-one. `switching`: a many-many joiner's way to the dispatcher, with the
-- target's lock held; `parked`: nothing, until it is on the ready list; `spinning`: the loop on the wait
-- word.
pub data Pc : Type 0 where
  outside checking locking testing refusing refused claiming claimed unlocking waiting asleep : Pc
  switching parked spinning finishing fetching : Pc
  marking returned : (ret : ℕ) → Pc

-- How far the target's end is: the result is stored, then the state; the lock is held; `over`: the dispatcher
-- has cleared the wait word of a many-many target under the lock; the lock is released and a many-many
-- joiner is still to be made ready (`rousing`), or a one-one joiner of a many-many target to be woken
-- (`waking`); the kernel thread of a one-one target is about to end (`quits`); nothing is left to do.
pub data Progress : Type 0 where
  works stored leaves locked over rousing waking quits gone : Progress

pub record System : Type 0 where
  pub target : Target
  pub progress : Progress
  pub pc : ℕ → Pc

-- Which threads are of the type many-many, the target among them; what the wait word of the target holds
-- until it is over, which is its kernel thread id or 1; its result; and whether a signal that a joiner handles may
-- come while the joiner sleeps in the kernel.
pub record Setup : Type 0 where
  pub many_many : ℕ → Bool
  pub target_many_many : Bool
  pub word : ℕ
  pub value : ℕ
  pub signals : Bool

abbrev pub goto : ℕ → Pc → System → System
goto t p s = record s { pc = update s.pc t p }

-- A fresh thread, in which `ret` is what malloc left as the result.
abbrev pub created : ℕ → ℕ → System
created word ret = record {
  target = record {
    exited = false;
    joined = false;
    ret = ret;
    wait = word;
    join_td = 0;
    mem_lock = 1;
  };
  progress = works;
  pc = λ t. outside;
}

abbrev pub check_joined : ℕ → System → System
check_joined t s = goto t (if s.target.joined then refused else locking) s

abbrev pub td_lock : ℕ → System → System
td_lock t s =
    let (done, lock) = atomic_cas s.target.mem_lock 1 0 in
    goto t (if done then testing else locking)
      (record s { target = record s.target { mem_lock = lock } })

abbrev pub td_has_join_thread : ℕ → System → System
td_has_join_thread t s = goto t (if s.target.join_td == 0 then claiming else refusing) s

abbrev pub td_set_join : ℕ → System → System
td_set_join t s = goto t claimed (record s { target = record s.target { join_td = t } })

-- td_is_over, and the test on the type of the caller.
abbrev pub td_is_over : Bool → ℕ → System → System
td_is_over many_many t s =
    goto t (if s.target.wait == 0 then finishing else if many_many then switching else unlocking) s

abbrev pub release_lock : System → System
release_lock s =
    let (done, lock) = atomic_cas s.target.mem_lock 0 1 in
    record s { target = record s.target { mem_lock = lock } }

abbrev pub td_unlock : ℕ → Pc → System → System
td_unlock t p s = goto t p (release_lock s)

abbrev pub futex_wait : ℕ → ℕ → System → System
futex_wait word t s = goto t (if s.target.wait == word then asleep else fetching) s

abbrev pub spin_round : ℕ → System → System
spin_round t s = goto t (if s.target.wait == 0 then fetching else spinning) s

abbrev pub td_get_ret : ℕ → System → System
td_get_ret t s = goto t (marking s.target.ret) s

abbrev pub mark_joined : ℕ → ℕ → System → System
mark_joined t ret s =
    goto t (returned ret) (record s { target = record s.target { exited = false; joined = true } })

abbrev pub store_ret : ℕ → System → System
store_ret value s = record s { target = record s.target { ret = value }; progress = stored }

abbrev pub store_exited : System → System
store_exited s = record s { target = record s.target { exited = true }; progress = leaves }

-- td_lock by the target itself, or by the dispatcher for it.
abbrev pub exit_td_lock : System → System
exit_td_lock s =
    let (done, lock) = atomic_cas s.target.mem_lock 1 0 in
    record s {
      target = record s.target { mem_lock = lock };
      progress = if done then locked else leaves;
    }

-- thread_exit with the lock held: it is released when nobody joins and when a many-many thread joins.
abbrev pub exit_joined : (ℕ → Bool) → System → System
exit_joined many_many s =
    if s.target.join_td == 0
    then record (release_lock s) { progress = quits }
    else if many_many s.target.join_td
    then record (release_lock s) { progress = rousing }
    else record s { progress = quits }

abbrev pub clear_tid : System → System
clear_tid s = record s { target = record s.target { wait = 0 }; progress = gone }

-- td_set_over by the dispatcher.
abbrev pub set_over : System → System
set_over s = record s { target = record s.target { wait = 0 }; progress = over }

-- The dispatcher with the lock of a target that is over, up to the release of the lock.
abbrev pub post_joined : (ℕ → Bool) → System → System
post_joined many_many s = record (release_lock s) {
  progress =
      if s.target.join_td == 0
      then gone
      else if many_many s.target.join_td
      then rousing
      else waking;
}

-- mmrll_enqueue of the joiner, which a dispatcher resumes.
abbrev pub enqueue_joiner : Bool → System → System
enqueue_joiner target_many_many s =
    if target_many_many
    then goto s.target.join_td fetching (record s { progress = gone })
    else goto s.target.join_td spinning (record s { progress = quits })

abbrev pub finished : System → System
finished s = record s { progress = gone }

-- One step, of a joiner whose handle is not NULL, of the target or of the dispatcher.
pub data Step (c : Setup) (s : System) : System → Type 0 where
  call_join : (t : ℕ) → t ≢ 0 → s.pc t ≡ outside → Step c s (goto t checking s)
  join_check : (t : ℕ) → s.pc t ≡ checking → Step c s (check_joined t s)
  join_lock : (t : ℕ) → s.pc t ≡ locking → Step c s (td_lock t s)
  join_test : (t : ℕ) → s.pc t ≡ testing → Step c s (td_has_join_thread t s)
  join_refuse : (t : ℕ) → s.pc t ≡ refusing → Step c s (td_unlock t refused s)
  join_claim : (t : ℕ) → s.pc t ≡ claiming → Step c s (td_set_join t s)
  join_over : (t : ℕ) → s.pc t ≡ claimed → Step c s (td_is_over (c.many_many t) t s)
  join_unlock : (t : ℕ) → s.pc t ≡ unlocking → Step c s (td_unlock t waiting s)
  join_wait : (t : ℕ) → s.pc t ≡ waiting → Step c s (futex_wait c.word t s)
  -- FUTEX_WAIT returns with EINTR, which the caller does not look at.
  join_interrupt : (t : ℕ) → c.signals ≡ true → s.pc t ≡ asleep → Step c s (goto t fetching s)
  join_switch : (t : ℕ) → s.pc t ≡ switching → Step c s (td_unlock t parked s)
  join_spin : (t : ℕ) → s.pc t ≡ spinning → Step c s (spin_round t s)
  join_finish : (t : ℕ) → s.pc t ≡ finishing → Step c s (td_unlock t fetching s)
  join_fetch : (t : ℕ) → s.pc t ≡ fetching → Step c s (td_get_ret t s)
  join_mark : (t ret : ℕ) → s.pc t ≡ marking ret → Step c s (mark_joined t ret s)
  exit_ret : s.progress ≡ works → Step c s (store_ret c.value s)
  exit_state : s.progress ≡ stored → Step c s (store_exited s)
  exit_lock : s.progress ≡ leaves → Step c s (exit_td_lock s)
  exit_test :
      c.target_many_many ≡ false → s.progress ≡ locked → Step c s (exit_joined c.many_many s)
  exit_enqueue : s.progress ≡ rousing → Step c s (enqueue_joiner c.target_many_many s)
  exit_wake :
      (u : ℕ)
      → c.target_many_many ≡ false
      → s.progress ≡ quits
      → s.pc u ≡ asleep
      → Step c s (goto u fetching (clear_tid s))
  exit_alone :
      c.target_many_many ≡ false
      → s.progress ≡ quits
      → ((u : ℕ) → s.pc u ≢ asleep)
      → Step c s (clear_tid s)
  post_over : c.target_many_many ≡ true → s.progress ≡ locked → Step c s (set_over s)
  post_test : c.target_many_many ≡ true → s.progress ≡ over → Step c s (post_joined c.many_many s)
  post_wake :
      (u : ℕ) → s.progress ≡ waking → s.pc u ≡ asleep → Step c s (goto u fetching (finished s))
  post_alone : s.progress ≡ waking → ((u : ℕ) → s.pc u ≢ asleep) → Step c s (finished s)

-- What a system can come to.
pub data Later (c : Setup) (s : System) : System → Type 0 where
  here : Later c s s
  next : (g f : System) → Later c s g → Step c g f → Later c s f
