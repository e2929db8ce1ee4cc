-- ===== src/ManyMany/Pool.antt =====
-- many-many/src/mmsched.c: the dispatchers' kernel threads, made by mmsched_init and ended by
-- mmsched_deinit. What malloc, mmap and clone return for the coming dispatchers is given, 0
-- standing for NULL and for MAP_FAILED; `none` is an assert that fails. The list of dispatchers
-- is the queue of Mods/List/Queue.
pub mod Lifetime
mod Examples
use libthreads_c.Base.{
  ℕ, zero, suc, Option, none, some, List, [], ◌∷◌, ◌++◌, ◌||◌, ◌==◌, if◌then◌else◌,
}
use libthreads_c.Mods.Utils.{minus_one}

-- `struct Scheduler`: its address, its stack and its kernel thread id.
pub record Scheduler : Type 0 where
  pub address : ℕ
  pub stack : ℕ
  pub ktid : ℕ

-- `cloned` starts a kernel thread in the dispatcher; `waited` is FUTEX_WAIT on its wait word.
pub data Call : Type 0 where
  cloned waited stack_freed freed : Scheduler → Call

pub record Pool : Type 0 where
  pub mmsched_enabled : ℕ
  pub mmsched_list : List Scheduler
  pub coming : List Scheduler
  pub calls : List Call

-- The asserts on what malloc, mmap and clone returned, and the call of clone.
abbrev pub started : Scheduler → Pool → Option (Scheduler × Pool)
started sched p =
    if sched.address == 0 || (sched.stack == 0 || sched.ktid == minus_one)
    then none
    else some (sched, record p { calls = p.calls ++ cloned sched ∷ [] })

-- With nothing coming, malloc returns NULL.
abbrev pub create_from : List Scheduler → Pool → Option (Scheduler × Pool)
create_from [] p = none
create_from (sched ∷ rest) p = started sched (record p { coming = rest })

unfoldable pub mmsched_create : Pool → Option (Scheduler × Pool)
mmsched_create p = create_from p.coming p

unfoldable pub mmsched_destroy : Scheduler → Pool → Pool
mmsched_destroy sched p = record p {
  calls = p.calls ++ waited sched ∷ stack_freed sched ∷ freed sched ∷ [];
}

-- One more round of the loop of mmsched_init: list_enqueue, then the rounds that are left.
abbrev pub added : (Pool → Option Pool) → Option (Scheduler × Pool) → Option Pool
added more none = none
added more (some (sched, p)) = more (record p { mmsched_list = p.mmsched_list ++ sched ∷ [] })

unfoldable pub init_loop : ℕ → Pool → Option Pool
unfolding mmsched_create
init_loop zero p = some p
init_loop (suc n) p = added (init_loop n) (mmsched_create p)

unfoldable pub mmsched_init : ℕ → Pool → Option Pool
mmsched_init nb_scheds p = init_loop nb_scheds (record p { mmsched_list = []; mmsched_enabled = 1 })

-- The loop of mmsched_deinit over what the list holds; destroying a dispatcher adds none.
unfoldable pub deinit_loop : List Scheduler → Pool → Pool
unfolding mmsched_destroy
deinit_loop [] p = record p { mmsched_list = [] }
deinit_loop (sched ∷ rest) p =
    deinit_loop rest (mmsched_destroy sched (record p { mmsched_list = rest }))

unfoldable pub mmsched_deinit : Pool → Pool
mmsched_deinit p = deinit_loop p.mmsched_list (record p { mmsched_enabled = 0 })
