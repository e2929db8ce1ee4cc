-- ===== src/ManyMany/Control/Once.antt =====
-- thread_once: in any history of calls on one control word the routine runs exactly once.
use libthreads_c.Base.{
  ℕ, ◌+◌, ◌≡◌, refl, Bool, true, false, none, some, List, [], ◌∷◌, arith, ◌==◌, ==-refl,
  if◌then◌else◌, update, ap, ◌∙◌,
}
use libthreads_c.Mods.Utils.{minus_one}
use libthreads_c.ManyMany.World.{
  Ptr, null, Thread, World, Cmd, pure, ◌>>=◌, modify, Status, fail, success, einval, Returns,
  Returns-bind, put_thread,
}
use libthreads_c.ManyMany.Facts.{Holds}
use libthreads_c.ManyMany.Control.{thread_once, thread_once_init}

-- Routines that note in a word of the application that they ran, each under its own mark.
abbrev pub count_run : Ptr → Cmd (Unit {0})
count_run runs = modify (λ w. record w { words = update w.words runs (w.words runs + 1) })

-- Calls in turn by one thread, each with a routine or with NULL; the statuses that they return.
unfoldable pub calls : Ptr → Ptr → List Bool → Cmd (List Status)
calls once_control runs [] = pure []
calls once_control runs (given ∷ more) = do
  status ← thread_once once_control (if given then some (count_run runs) else none)
  statuses ← calls once_control runs more
  pure (status ∷ statuses)

-- After the word has left its initial value every call fails.
abbrev pub all_fail : List Bool → List Status
all_fail [] = []
all_fail (given ∷ more) = fail ∷ all_fail more

-- The first call with a routine succeeds, all others fail.
abbrev pub first_succeeds : List Bool → List Status
first_succeeds [] = []
first_succeeds (true ∷ more) = success ∷ all_fail more
first_succeeds (false ∷ more) = fail ∷ first_succeeds more

abbrev pub any_given : List Bool → ℕ
any_given [] = 0
any_given (true ∷ more) = 1
any_given (false ∷ more) = any_given more

-- The calls return `statuses`, and the count of runs is `n` after them.
abbrev pub Ran : Ptr → List Status → ℕ → List Status → World → Type 0
Ran runs expected n statuses g = (statuses ≡ expected) × (g.words runs ≡ n)

module _ (once_control runs : Ptr) (valid : (once_control == null) ≡ false)
    (apart : (runs == once_control) ≡ false) (apart' : (once_control == runs) ≡ false) where
  -- A caller whose error number was set still has its descriptor.
  Holds-error :
      {w : World} {c : Thread}
      → Holds w w.self c
      → (words : Ptr → ℕ)
      → Holds
          (put_thread w.self (some (record c { error = einval })) (record w { words = words }))
          w.self
          (record c { error = einval })
  Holds-error caller words = record { not_null = caller.not_null; at = simp ==-refl }

  calls-done :
      (l : List Bool) (w : World) (c : Thread)
      → Holds w w.self c
      → (w.words once_control == minus_one) ≡ false
      → Returns (Ran runs (all_fail l) (w.words runs)) (calls once_control runs l w)
  unfolding calls thread_once
  calls-done [] w c caller used = (refl, refl)
  calls-done (true ∷ more) w c caller used =
      simp (valid, used, caller.not_null, caller.at)
        (Returns-bind
          (Ran runs (all_fail more) (update w.words once_control (w.words once_control) runs)) _ _ _
          (calls-done more _ (record c { error = einval }) (Holds-error caller _)
            (simp (==-refl, used)))
          (λ statuses g (e, e'). (ap (λ (l : List Status). fail ∷ l) e, e' ∙ simp apart)))
  calls-done (false ∷ more) w c caller used =
      simp (caller.not_null, caller.at)
        (Returns-bind (Ran runs (all_fail more) (w.words runs)) _ _ _
          (calls-done more _ (record c { error = einval }) (Holds-error caller _) used)
          (λ statuses g (e, e'). (ap (λ (l : List Status). fail ∷ l) e, e')))

  -- On a control word that holds THREAD_ONCE_INIT, in any history of calls the first one that
  -- brings a routine runs it and succeeds, and every other call fails; so the routine of the
  -- history runs once, or not at all if no call brings one.
  pub calls_once :
      (l : List Bool) (w : World) (c : Thread)
      → Holds w w.self c
      → w.words once_control ≡ thread_once_init
      → Returns
          (Ran runs (first_succeeds l) (w.words runs + any_given l))
          (calls once_control runs l w)
  unfolding calls thread_once
  calls_once [] w c caller fresh = (refl, omega arith)
  calls_once (true ∷ more) w c caller fresh =
      simp (valid, fresh, caller.not_null, caller.at)
        (Returns-bind
          (Ran runs (all_fail more) (
            update (update w.words once_control 0) runs (update w.words once_control 0 runs + 1)
              runs))
          _ _ _
          (calls-done more _ c (record { not_null = caller.not_null; at = caller.at })
            (simp (==-refl, apart')))
          (λ statuses g (e, e').
            (ap (λ (l : List Status). success ∷ l) e, e' ∙ simp (==-refl, apart))))
  calls_once (false ∷ more) w c caller fresh =
      simp (caller.not_null, caller.at)
        (Returns-bind (Ran runs (first_succeeds more) (w.words runs + any_given more)) _ _ _
          (calls_once more _ (record c { error = einval }) (Holds-error caller _) fresh)
          (λ statuses g (e, e'). (ap (λ (l : List Status). fail ∷ l) e, e')))
