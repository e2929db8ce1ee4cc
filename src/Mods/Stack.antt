-- ===== src/Mods/Stack.antt =====
-- mods/stack.c: a thread's stack and its guard page. The page size, the stack's size limit and
-- what mmap answers (`none` for MAP_FAILED) are given; the calls on the address space are listed,
-- first to last.
pub mod Laws
use libthreads_c.Base.{ℕ, ◌+◌, ◌-◌, Option, none, some, List, [], ◌∷◌}

pub record StackArea : Type 0 where
  pub ss_sp : ℕ
  pub ss_size : ℕ
  pub ss_flags : ℕ

-- A call with the base and the length of its region; `mprotect` takes all access away.
pub data Call : Type 0 where
  mmap mprotect munmap : (base length : ℕ) → Call

-- What follows the mmap; `none` is the assert that fails.
abbrev pub with_guard : ℕ → ℕ → Option ℕ → Option (StackArea × List Call)
with_guard page_size stack_limit none = none
with_guard page_size stack_limit (some base) = some (
  record { ss_sp = base + page_size; ss_size = stack_limit; ss_flags = 0 },
  mmap base (stack_limit + page_size) ∷ mprotect base page_size ∷ [],
)

unfoldable pub stack_alloc : ℕ → ℕ → (ℕ → Option ℕ) → Option (StackArea × List Call)
stack_alloc page_size stack_limit mmap_result =
    with_guard page_size stack_limit (mmap_result (stack_limit + page_size))

unfoldable pub stack_free : ℕ → StackArea → List Call
stack_free page_size stack = munmap (stack.ss_sp - page_size) (stack.ss_size + page_size) ∷ []
