-- ===== src/OneOne/Control/Life.antt =====
-- The life of a one-one thread from its creation to its join.
use libthreads_c.Base.{
  ℕ, ◌≡◌, refl, sym, ap, Bool, true, false, Option, none, some, List, [], ◌∷◌, ◌==◌, ==-refl,
  ==_sym, ◌∙◌, subst, if◌then◌else◌,
}
use libthreads_c.Mods.Utils.{minus_one}
use libthreads_c.Base.Outcome.{on_swap, on_leave, on_swap-Returns, on_leave-Returns}
use libthreads_c.OneOne.World.{
  Ptr, null, running, exited, joined, wait_join, Status, success, Thread, World, Event, futex_woken,
  stack_unmapped, spins, Cmd, pure, ◌>>=◌, ◌>>◌, modify, Returns, Returns-bind, Returns-mono,
  td_set_state,
}
use libthreads_c.OneOne.Control.{thread_create, thread_join, join_finish, one_one_start}
use libthreads_c.OneOne.Control.Laws.{
  Holds, new_thread, Created, create_runs, Asleep, join_sleeps, Ended, start_ends,
}

-- The latest event woke who sleeps on the wait word of `p`.
abbrev pub is_wake : Ptr → List Event → Bool
is_wake p [] = false
is_wake p (futex_woken q ∷ es) = q == p
is_wake p (_ ∷ es) = false

-- A sleeper on the wait word of `p` goes on only if it was woken.
abbrev pub when_woken : {A : Type 0} → Ptr → Cmd A → Cmd A
when_woken p rest w = if is_wake p w.events then rest w else spins

abbrev pub runs_as : Ptr → Cmd (Unit {0})
runs_as thread = modify (λ w. record w { self = thread })

-- The joiner sleeps, the new thread runs its start routine on its own kernel thread, and the joiner goes on.
abbrev pub join_it : (Ptr → Ptr → Ptr) → Bool → Ptr → Cmd (Status × Option Ptr)
join_it routine want_ret thread w = on_swap (thread_join thread want_ret w) λ g rest.
    on_leave (one_one_start (λ start arg. pure (routine start arg)) (record g { self = thread }))
      (do runs_as w.self; when_woken thread rest)

abbrev pub create_and_join : (Ptr → Ptr → Ptr) → Ptr → Ptr → Bool → Cmd (Status × Option Ptr)
create_and_join routine start arg want_ret = do
  (status, thread) ← thread_create true start arg
  join_it routine want_ret thread

-- The join has returned `expected`, the thread `td` is joined and its stack at `stack` is unmapped.
abbrev pub LifeOver : World → Ptr → Ptr → Option Ptr → Status × Option Ptr → World → Type 0
LifeOver w td stack expected (status, ret) g =
    (status ≡ success)
    × (ret ≡ expected)
    × (g.self ≡ w.self)
    × ((es : List Event) × (g.events ≡ stack_unmapped stack ∷ es))
    × ((t : Thread) × (g.threads td ≡ some t) × (t.state ≡ joined))
    × ((c : Thread) × (g.threads w.self ≡ some c) × (c.state ≡ running))

-- The rest of a join whose target `p` has ended with the descriptor `t`.
join_rest :
    (w : World) (p : Ptr) (t c : Thread) (want_ret : Bool)
    → Holds w w.self c
    → Holds w p t
    → (w.self == p) ≡ false
    → Returns
        (LifeOver w p t.stack (if want_ret then some t.ret else none))
        ((do td_set_state w.self running; join_finish p want_ret) w)
unfolding join_finish
join_rest w p t c want_ret caller target ne =
    let en : (p == w.self) ≡ false = ==_sym p w.self ∙ ne in
    simp (target.not_null, target.at, caller.not_null, caller.at, ne, en, ==-refl)
      (
        refl,
        refl,
        refl,
        (w.events, refl),
        (record t { state = joined }, refl, refl),
        (record c { state = running }, refl, refl),
      )

module _ (w : World) (td stack : Ptr) (want_ret : Bool) (routine : Ptr → Ptr → Ptr)
    (not_null : (w.self == null) ≡ false) (nn : (td == null) ≡ false)
    (ne : (w.self == td) ≡ false) where
  -- The thread `td`, which nobody joins yet, is joined by the caller and then runs.
  joined_life :
      (g : World) (t c : Thread)
      → g.self ≡ w.self
      → Holds g w.self c
      → (c.join_td == td) ≡ false
      → Holds g td t
      → t.state ≡ running
      → t.mem_lock ≡ 1
      → t.join_td ≡ null
      → (t.wait == 0) ≡ false
      → t.wait ≡ t.ktid
      → t.stack ≡ stack
      → Returns
          (LifeOver w td stack (if want_ret then some (routine t.start t.arg) else none))
          (join_it routine want_ret td (record g { self = w.self }))
  joined_life g t c self caller nd target st free nojoin over word at_stack =
      let v : World = record g { self = w.self } in
      let Q : Status × Option Ptr → World → Type 0 =
        LifeOver w td stack (if want_ret then some (routine t.start t.arg) else none) in
      let t1 : Thread = record t { join_td = w.self; mem_lock = 1 } in
      let c1 : Thread = record c { state = wait_join } in
      on_swap-Returns (Asleep v td t c) Q _
        (do td_set_state w.self running; join_finish td want_ret) _
        (join_sleeps v td t c want_ret (record { not_null = not_null; at = caller.at })
          (record { not_null = nn; at = target.at }) ne (rw st) nd free nojoin over word)
        λ g1 k (at_p, at_c, ev, s, others) saved.
          let g1' : World = record g1 { self = td } in
          on_leave-Returns (Ended g1' t1 (routine t.start t.arg)) Q _ _
            (start_ends g1' t1 (record { not_null = nn; at = at_p }) routine)
            λ g2 (at2, ev2, others2).
              let g2' : World = record g2 { self = w.self } in
              let t2 : Thread = record t1 {
                ret = routine t.start t.arg;
                state = exited;
                wait = 0;
              } in
              let woken : is_wake td g2.events ≡ true = ap (is_wake td) ev2 ∙ ==-refl td in
              rw (woken, saved g2')
                (Returns-mono
                  (LifeOver g2' td t.stack
                    (if want_ret then some (routine t.start t.arg) else none))
                  Q _
                  (join_rest g2' td t2 c1 want_ret
                    (record { not_null = not_null; at = others2 w.self ne ne ∙ at_c })
                    (record { not_null = nn; at = at2 }) ne)
                  λ (status, r) g3 (ok', r', s', (es, e), gone, mine).
                    (ok', r', s', (es, e ∙ rw at_stack), gone, mine))

  -- A thread that is created with `start` and `arg` and joined by its creator, which sleeps until the thread
  -- has ended, gives the join the very value that its start routine returned for its argument. The join frees
  -- the thread's stack, and the creator runs again.
  pub join_gets_start_value :
      (start arg : Ptr) (rest : List Ptr) (ktid : ℕ) (ks : List ℕ) (c : Thread)
      → (start == null) ≡ false
      → w.memory ≡ td ∷ stack ∷ rest
      → (stack == null) ≡ false
      → w.clones ≡ ktid ∷ ks
      → (ktid == minus_one) ≡ false
      → (ktid == 0) ≡ false
      → w.threads w.self ≡ some c
      → (c.join_td == td) ≡ false
      → Returns
          (LifeOver w td stack (if want_ret then some (routine start arg) else none))
          (create_and_join routine start arg want_ret w)
  join_gets_start_value start arg rest ktid ks c st mem nstack clones up nz at nd =
      Returns-bind (Created w start arg td stack ktid)
        (LifeOver w td stack (if want_ret then some (routine start arg) else none)) _ _
        (create_runs w start arg td stack rest ktid ks st mem nn nstack clones up)
        λ (status, handle) g (ok', h, at_td, ev, self, others). rw h (
          subst
            (λ (x : Ptr).
              Returns (LifeOver w td stack (if want_ret then some (routine start arg) else none))
                (join_it routine want_ret td (record g { self = x })))
            (sym self)
            (joined_life g (new_thread w start arg ktid ktid stack) c self
              (record { not_null = not_null; at = others w.self ne ne ∙ at }) nd
              (record { not_null = nn; at = at_td }) refl refl refl nz refl refl))
