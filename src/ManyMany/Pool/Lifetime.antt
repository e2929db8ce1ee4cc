-- ===== src/ManyMany/Pool/Lifetime.antt =====
-- The dispatchers from mmsched_init to mmsched_deinit.
use libthreads_c.Base.{
  ◌≡◌, ◌∙◌, refl, false, some, List, [], ◌∷◌, ◌++◌, append_assoc, append-nil, ◌==◌, length,
}
use libthreads_c.Mods.Utils.{minus_one}
use libthreads_c.ManyMany.Pool.{
  Scheduler, Call, cloned, waited, stack_freed, freed, Pool, mmsched_destroy, init_loop,
  mmsched_init, deinit_loop, mmsched_deinit,
}

-- No resource is refused.
abbrev pub Granted : List Scheduler → Type 0
Granted [] = Unit
Granted (sched ∷ more) =
    ((sched.address == 0) ≡ false)
    × ((sched.stack == 0) ≡ false)
    × ((sched.ktid == minus_one) ≡ false)
    × Granted more

abbrev pub births : List Scheduler → List Call
births [] = []
births (sched ∷ more) = cloned sched ∷ births more

abbrev pub ends : List Scheduler → List Call
ends [] = []
ends (sched ∷ more) = waited sched ∷ stack_freed sched ∷ freed sched ∷ ends more

init_loop_lem :
    (scheds rest : List Scheduler) (p : Pool)
    → Granted scheds
    → p.coming ≡ scheds ++ rest
    → init_loop (length scheds) p
      ≡ some (record p {
        mmsched_list = p.mmsched_list ++ scheds;
        coming = rest;
        calls = p.calls ++ births scheds;
      })
unfolding init_loop
init_loop_lem [] rest p granted e = rw (append-nil p.mmsched_list, append-nil p.calls, ← e) refl
init_loop_lem (sched ∷ more) rest p (a, s, k, granted) e = rw e (
    simp (a, s, k)
      (init_loop_lem more rest
          (record p {
            mmsched_list = p.mmsched_list ++ sched ∷ [];
            coming = more ++ rest;
            calls = p.calls ++ cloned sched ∷ [];
          })
          granted refl
        ∙ rw (append_assoc, append_assoc) refl))

deinit_loop_lem :
    (scheds : List Scheduler) (p : Pool)
    → deinit_loop scheds p ≡ record p { mmsched_list = []; calls = p.calls ++ ends scheds }
unfolding deinit_loop
deinit_loop_lem [] p = rw (append-nil p.calls) refl
deinit_loop_lem (sched ∷ rest) p =
    deinit_loop_lem rest (mmsched_destroy sched (record p { mmsched_list = rest }))
    ∙ rw append_assoc refl

-- When no resource is refused, mmsched_init makes as many dispatchers as it is asked for, in
-- order, with scheduling enabled; mmsched_deinit then turns scheduling off and, for each
-- dispatcher in the same order, waits for its kernel thread before it frees the stack and the
-- structure, once; none is left.
pub init-deinit :
    (scheds rest : List Scheduler) (p : Pool)
    → Granted scheds
    → p.coming ≡ scheds ++ rest
    → (g : Pool) × (mmsched_init (length scheds) p ≡ some g)
      × (g.mmsched_enabled ≡ 1)
      × (g.mmsched_list ≡ scheds)
      × (mmsched_deinit g ≡ record {
        mmsched_enabled = 0;
        mmsched_list = [];
        coming = rest;
        calls = (p.calls ++ births scheds) ++ ends scheds;
      })
unfolding mmsched_init mmsched_deinit
init-deinit scheds rest p granted e = (
  _,
  init_loop_lem scheds rest (record p { mmsched_list = []; mmsched_enabled = 1 }) granted e,
  refl,
  refl,
  deinit_loop_lem scheds _,
)
