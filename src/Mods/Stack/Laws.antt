-- ===== src/Mods/Stack/Laws.antt =====
-- A stack from its allocation to its release.
use libthreads_c.Base.{ℕ, ◌+◌, ◌≡◌, refl, Option, some, List, [], ◌∷◌, ◌++◌, arith, ap}
use libthreads_c.Mods.Stack.{StackArea, Call, mmap, mprotect, munmap, stack_alloc, stack_free}

-- When mmap answers with a region, the stack is that region less its lowest page, and that page
-- alone is closed to access; releasing the stack then unmaps exactly the region that was mapped.
pub stack_alloc-free :
    (page_size stack_limit base : ℕ) (mmap_result : ℕ → Option ℕ)
    → mmap_result (stack_limit + page_size) ≡ some base
    → (stack : StackArea) × (calls : List Call) × (stack_alloc page_size stack_limit mmap_result
        ≡ some (stack, calls))
      × (calls ++ stack_free page_size stack
          ≡ mmap base (stack_limit + page_size)
            ∷ mprotect base page_size
            ∷ munmap base (stack_limit + page_size)
            ∷ [])
      × (base + page_size ≡ stack.ss_sp)
      × (stack.ss_sp + stack.ss_size ≡ base + (stack_limit + page_size))
unfolding stack_alloc stack_free
stack_alloc-free page_size stack_limit base mmap_result ok = (
  record { ss_sp = base + page_size; ss_size = stack_limit; ss_flags = 0 },
  mmap base (stack_limit + page_size) ∷ mprotect base page_size ∷ [],
  rw ok,
  ap
      (λ (b : ℕ).
        mmap base (stack_limit + page_size)
        ∷ mprotect base page_size
        ∷ munmap b (stack_limit + page_size)
        ∷ [])
      (omega arith),
  refl,
  omega arith,
)
