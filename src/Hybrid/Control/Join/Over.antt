-- ===== src/Hybrid/Control/Join/Over.antt =====
-- thread_join of the hybrid library on a target that has finished.
use libthreads_c.Base.{◌≡◌, refl, Bool, true, false, inl, inr, ◌==◌, ==-refl, ==_sym, ◌∙◌, subst}
use libthreads_c.Mods.Lock.{lock_acquire, lock_release}
use libthreads_c.Hybrid.World.{Ptr, null, many_many, Thread, World, Returns}
use libthreads_c.Hybrid.Facts.{Holds, Allocated, members-cases}
use libthreads_c.Hybrid.Descr.{is_joined}
use libthreads_c.Hybrid.Control.{thread_join}
use libthreads_c.Hybrid.Control.Join.{Finished}

module _ (w : World) (p : Ptr) (t c : Thread) (want_ret : Bool) (target : Holds w p t)
    (ne : (w.self == p) ≡ false) where
  en : (p == w.self) ≡ false
  en = ==_sym p w.self ∙ ne

  -- A thread that has finished is joined at once, by a caller of either type, with the same outcome.
  pub join_at_once :
      Holds w w.self c
      → Allocated t.members
      → is_joined t.state ≡ false
      → (c.join_td == p) ≡ false
      → t.mem_lock ≡ 1
      → t.join_td ≡ null
      → (t.wait == 0) ≡ true
      → Returns
          (Finished w p (record t { join_td = w.self; mem_lock = 1 }) c want_ret)
          (thread_join p want_ret w)
  unfolding thread_join lock_acquire lock_release
  join_at_once caller live nj nd free nojoin over = elim (members-cases c.members) [
    | inl (k, s, e) ↦ elim (members-cases t.members) [
      | inl (k', s', e') ↦
          simp
            (
              target.not_null, target.at, caller.not_null, caller.at, ne, en, e, e', nj, nd, free,
              nojoin, over, ==-refl,
            )
            (refl, refl, refl, refl, refl, λ a n m. simp (n, m) refl, (refl, refl, refl))
      | inr (x', e') ↦
          let live' : Allocated (many_many x') = subst Allocated e' live in
          simp
            (
              target.not_null, target.at, caller.not_null, caller.at, ne, en, e, e', live'.0, nj,
              nd, free, nojoin, over, ==-refl,
            )
            (refl, refl, refl, refl, refl, λ a n m. simp (n, m) refl, (refl, refl, refl))
    ]
    | inr (x, e) ↦ elim (members-cases t.members) [
      | inl (k', s', e') ↦
          simp
            (
              target.not_null, target.at, caller.not_null, caller.at, ne, en, e, e', nj, nd, free,
              nojoin, over, ==-refl,
            )
            (refl, refl, refl, refl, refl, λ a n m. simp (n, m) refl, (refl, refl, refl))
      | inr (x', e') ↦
          let live' : Allocated (many_many x') = subst Allocated e' live in
          simp
            (
              target.not_null, target.at, caller.not_null, caller.at, ne, en, e, e', live'.0, nj,
              nd, free, nojoin, over, ==-refl,
            )
            (refl, refl, refl, refl, refl, λ a n m. simp (n, m) refl, (refl, refl, refl))
    ]
  ]
