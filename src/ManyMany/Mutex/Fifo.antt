-- ===== src/ManyMany/Mutex/Fifo.antt =====
-- Each call of a history keeps the mutex that of a queue, and so does the history.
use libthreads_c.Base.{
  ◌≡◌, ◌∙◌, refl, sym, false, some, List, [], ◌∷◌, ◌++◌, append_assoc, append-nil, ◌==◌, has, arith,
  Bool-cases, inl, inr, ==_iff,
}
use libthreads_c.ManyMany.World.{
  Ptr, null, Status, Thread, Mutex, World, Run, ok, swap, leave, spins, fault, pure, ◌>>◌, Returns,
  Swaps, Returns-bind, Returns-mono, wait_mutex,
}
use libthreads_c.ManyMany.Facts.{Live}
use libthreads_c.ManyMany.Mutex.{lock_finish}
use libthreads_c.ManyMany.Mutex.Lock.{Queued, lock_free, lock_contended}
use libthreads_c.ManyMany.Mutex.Unlock.{unlock_handoff, unlock_empty}
use libthreads_c.ManyMany.Sched.{post_schedule}
use libthreads_c.ManyMany.Sched.Post.{MutexUnlocked, post_wait_mutex}
use libthreads_c.ManyMany.Mutex.Handoff.{
  settle, Op, lock, unlock, perform, history, mutex_of, after, heads, woken, Admissible,
  Distinct-snoc, no_null-snoc, Good, AllLive,
}

-- A change of one descriptor that keeps its contexts.
live-kept :
    (w g : World) (s : Ptr) (c c' : Thread)
    → AllLive w
    → w.threads s ≡ some c
    → g.threads s ≡ some c'
    → c'.curr_cxt ≡ c.curr_cxt
    → c'.ret_cxt ≡ c.ret_cxt
    → Live w s c
    → ((a : Ptr) → (a == s) ≡ false → g.threads a ≡ w.threads a)
    → AllLive g
live-kept w g s c c' all at at' e e' live same a n = elim (Bool-cases (a == s)) [
  | inl here ↦
      let a_s : a ≡ s = (==_iff a s).0 here in
      (c', record { not_null = n; at = rw a_s at'; curr = rw e live.curr; ret = rw e' live.ret })
  | inr other ↦
      let (t, l) = all a n in
      (t, record { not_null = n; at = same a other ∙ l.at; curr = l.curr; ret = l.ret })
]

module _ {P : Status → World → Type 0} (Q : Unit {0} → World → Type 0) (thread : Ptr) where
  settle-Returns :
      (r : Run Status)
      → Returns P r
      → ((s : Status) (g : World) → P s g → Q tt g)
      → Returns Q (settle thread r)
  settle-Returns (ok s w) h next = next s w h
  settle-Returns (swap w k) h next = absurd h
  settle-Returns (leave w) h next = absurd h
  settle-Returns spins h next = absurd h
  settle-Returns fault h next = absurd h

settle-Swaps :
    (P : World → Type 0) (Q : Unit {0} → World → Type 0) (thread : Ptr) (rest : World → Run Status)
    (r : Run Status)
    → Swaps P rest r
    → ((g : World) → P g → Returns Q ((do post_schedule null false thread; pure tt) g))
    → Returns Q (settle thread r)
settle-Swaps P Q thread rest (ok s w) h next = absurd h
settle-Swaps P Q thread rest (swap w k) h next = next w h.0
settle-Swaps P Q thread rest (leave w) h next = absurd h
settle-Swaps P Q thread rest spins h next = absurd h
settle-Swaps P Q thread rest fault h next = absurd h

-- One call keeps the invariant and wakes what it should.
abbrev Stepped : Ptr → World → List Ptr → List Ptr → Unit {0} → World → Type 0
Stepped p w l ready u g = Good p l g × (g.mmrll ≡ w.mmrll ++ ready)

lock-step :
    (p : Ptr) (l : List Ptr) (t : Ptr) (w : World)
    → Good p l w
    → (t == null) ≡ false
    → has t l ≡ false
    → Returns (Stepped p w (l ++ t ∷ []) []) (perform p (lock t) w)
lock-step p [] t w good nt out =
    let (c, live) = good.live t nt in
    let w' : World = record w { self = t } in
    settle-Returns (Stepped p w (t ∷ []) []) t _
      (lock_free w' p (mutex_of []) c
        (record { not_null = nt; at = live.at; curr = live.curr; ret = live.ret })
        (record { not_null = good.mutex.not_null; at = good.mutex.at }) refl refl).0
      λ s g (e, m, others, threads, (r, r', self)). (
        record {
          mutex = record { not_null = good.mutex.not_null; at = m };
          unlocked = r' ∙ good.unlocked;
          no_null = ground arith;
          distinct = (refl, tt);
          live = λ a n.
              let (u, l) = good.live a n in
              (
                u,
                record { not_null = n; at = (λ i. threads i a) ∙ l.at; curr = l.curr; ret = l.ret },
              );
        },
        r ∙ sym (append-nil _),
      )
lock-step p (x ∷ xs) t w good nt out =
    let (c, live) = good.live t nt in
    let w' : World = record w { self = t } in
    let caller : Live w' t c = record {
      not_null = nt;
      at = live.at;
      curr = live.curr;
      ret = live.ret;
    } in
    let c' : Thread = record c { intr_off = 1; state = wait_mutex; wait_for = p } in
    let m' : Mutex = record (mutex_of (x ∷ xs)) { waitll = xs ++ t ∷ []; mem_lock = 0 } in
    settle-Swaps (Queued w' p (mutex_of (x ∷ xs)) c) (Stepped p w (x ∷ (xs ++ t ∷ [])) []) t
      (lock_finish t) _
      (lock_contended w' p (mutex_of (x ∷ xs)) c caller
        (record { not_null = good.mutex.not_null; at = good.mutex.at }) refl
        (ground (arith, good.no_null)))
      λ g (m, others, at, same, (r, r', self)).
        Returns-bind (MutexUnlocked g p m') (Stepped p w (x ∷ (xs ++ t ∷ [])) []) _ _
          (post_wait_mutex g t null c' false (record { not_null = nt; at = at }) m' refl
            (record { not_null = good.mutex.not_null; at = m }) refl)
          λ next g' (e, r2, r2', m2, threads). (
            record {
              mutex = record { not_null = good.mutex.not_null; at = m2 };
              unlocked = r2' ∙ r' ∙ good.unlocked;
              no_null = no_null-snoc (x ∷ xs) t good.no_null nt;
              distinct = Distinct-snoc (x ∷ xs) t good.distinct out;
              live =
                  live-kept w g' t c c' good.live live.at ((λ i. threads i t) ∙ at) refl refl live
                    (λ a n. (λ i. threads i a) ∙ same a n n);
            },
            r2 ∙ r ∙ sym (append-nil _),
          )

unlock-step :
    (p x : Ptr) (xs : List Ptr) (w : World)
    → Good p (x ∷ xs) w
    → Returns (Stepped p w xs (heads xs)) (perform p unlock w)
unlock-step p x [] w good =
    let nx : (x == null) ≡ false = ground (arith, good.no_null) in
    let (c, live) = good.live x nx in
    let w' : World = record w { self = x } in
    rw (good.mutex.at, good.mutex.not_null)
      (settle-Returns (Stepped p w [] []) x _
        (unlock_empty w' p (mutex_of (x ∷ [])) c
          (record { not_null = nx; at = live.at; curr = live.curr; ret = live.ret })
          (record { not_null = good.mutex.not_null; at = good.mutex.at }) refl refl refl)
        λ s g (e, m, others, threads, (r, r', self)). (
          record {
            mutex = record { not_null = good.mutex.not_null; at = m };
            unlocked = r' ∙ good.unlocked;
            no_null = refl;
            distinct = tt;
            live = λ a n.
                let (u, l) = good.live a n in
                (
                  u,
                  record {
                    not_null = n;
                    at = (λ i. threads i a) ∙ l.at;
                    curr = l.curr;
                    ret = l.ret;
                  },
                );
          },
          r ∙ sym (append-nil _),
        ))
unlock-step p x (y ∷ ys) w good =
    let nx : (x == null) ≡ false = ground (arith, good.no_null) in
    let ny : (y == null) ≡ false = ground (arith, good.no_null) in
    let (c, live) = good.live x nx in
    let (u, live') = good.live y ny in
    let w' : World = record w { self = x } in
    let caller : Live w' x c = record {
      not_null = nx;
      at = live.at;
      curr = live.curr;
      ret = live.ret;
    } in
    rw (good.mutex.at, good.mutex.not_null)
      (settle-Returns (Stepped p w (y ∷ ys) (y ∷ [])) x _
        (unlock_handoff w' p (mutex_of (x ∷ y ∷ ys)) c caller
          (record { not_null = good.mutex.not_null; at = good.mutex.at }) refl y ys u refl refl
          (record { not_null = ny; at = live'.at }) (ground (arith, good.distinct)) good.unlocked)
        λ s g (e, m, others, r, r', self, at, same). (
          record {
            mutex = record { not_null = good.mutex.not_null; at = m };
            unlocked = r';
            no_null = ground (arith, good.no_null);
            distinct = good.distinct.1;
            live =
                live-kept w g x c (record c { intr_off = 0 }) good.live live.at at refl refl live
                  (λ a n. same a n n);
          },
          r,
        ))

-- An admissible history of calls on a mutex runs to its end without a fault. The owner is then
-- the head of the queue that the calls make, the others wait in their order of arrival, and the
-- mutex is unlocked; with no one in the queue it has no owner. Each unlock made the new head
-- ready, and no one else.
pub history-queue :
    (p : Ptr) (ops : List Op) (l : List Ptr) (w : World)
    → Good p l w
    → Admissible ops l
    → Returns (λ u g. Good p (after ops l) g × (g.mmrll ≡ w.mmrll ++ woken ops l)) (history p ops w)
unfolding history
history-queue p [] l w good adm = (good, sym (append-nil _))
history-queue p (lock t ∷ ops) l w good (nt, out, adm) =
    Returns-bind (Stepped p w (l ++ t ∷ []) []) _ _ _ (lock-step p l t w good nt out)
      λ u g (good', r).
        Returns-mono
          (λ u g'.
            Good p (after ops (l ++ t ∷ [])) g' × (g'.mmrll ≡ g.mmrll ++ woken ops (l ++ t ∷ [])))
          _ _ (history-queue p ops (l ++ t ∷ []) g good' adm)
          λ u' g' (good'', r'). (good'', r' ∙ rw (r, append-nil))
history-queue p (unlock ∷ ops) [] w good adm = absurd adm
history-queue p (unlock ∷ ops) (x ∷ xs) w good adm =
    Returns-bind (Stepped p w xs (heads xs)) _ _ _ (unlock-step p x xs w good) λ u g (good', r).
      Returns-mono (λ u g'. Good p (after ops xs) g' × (g'.mmrll ≡ g.mmrll ++ woken ops xs)) _ _
        (history-queue p ops xs g good' adm)
        λ u' g' (good'', r'). (good'', r' ∙ rw (r, append_assoc))
