-- ===== src/ManyMany/Contend/Facts.antt =====
-- What holds of the mutex and its threads between any two steps.
pub use libthreads_c.Base.Holders.{Excl, Excl-move, Excl-acquire, Excl-release}
use libthreads_c.Base.{
  ℕ, ◌≡◌, ◌≢◌, ◌∙◌, refl, Bool, true, false, [], ◌⊎◌, inl, inr, has, update, update-cases, Distinct,
}
use libthreads_c.ManyMany.Contend.{
  Pc, outside, locking, testing, trying, try_testing, granted, refused, switching, parking, parked,
  inside, releasing, unlocking, checking, denied, waking, System,
}

-- The thread, or its dispatcher for it, holds the mutex's lock.
abbrev pub holds : Pc → Bool
holds testing = true
holds try_testing = true
holds granted = true
holds refused = true
holds switching = true
holds parking = true
holds releasing = true
holds (checking was_inside) = true
holds (denied was_inside) = true
holds (waking u) = true
holds _ = false

-- A thread that does not own the mutex; its owner; a thread that waits for it.
module _ (s : System) (t : ℕ) where
  abbrev pub Out : Type 0
  Out = (t ≢ 0) × (s.owner ≢ t) × (has t s.waitll ≡ false) × (s.ready t ≡ false)

  abbrev pub Owner : Type 0
  Owner = (t ≢ 0) × (s.owner ≡ t) × (has t s.waitll ≡ false) × (s.ready t ≡ false)

  abbrev pub Waits : Type 0
  Waits = (t ≢ 0) × (s.owner ≢ t) × (has t s.waitll ≡ true) × (s.ready t ≡ false)

  -- A thread that was handed the mutex while it waited: it is on the ready list, or about to be put there.
  abbrev pub Handed : Type 0
  Handed =
      (t ≢ 0)
      × (s.owner ≡ t)
      × (has t s.waitll ≡ false)
      × ((s.ready t ≡ true) ⊎ ((s.ready t ≡ false) × ((v : ℕ) × (s.pc v ≡ waking t))))

  abbrev pub Local : Pc → Type 0
  Local outside = t ≢ 0 → Out
  Local locking = Out
  Local testing = Out
  Local trying = Out
  Local try_testing = Out
  Local refused = Out
  Local releasing = Out
  Local granted = Owner
  Local inside = Owner
  Local switching = Waits
  Local parking = Waits
  Local parked = Waits ⊎ Handed
  Local (unlocking true) = Owner
  Local (unlocking false) = Out
  Local (checking true) = Owner
  Local (checking false) = Out
  Local (denied true) = ⊥
  Local (denied false) = Out
  Local (waking u) = Out × (s.pc u ≡ parked) × (s.owner ≡ u) × (s.ready u ≡ false)

pub record Inv (s : System) : Type 0 where
  pub excl : Excl holds s.mem_lock s.pc
  pub local : (t : ℕ) → Local s t (s.pc t)
  pub distinct : Distinct s.waitll
  pub no_null : has 0 s.waitll ≡ false
  -- Nobody waits for a mutex without an owner.
  pub waited : s.owner ≡ 0 → s.waitll ≡ []

-- What another thread needs of a step.
pub record Keeps (s g : System) (j : ℕ) : Type 0 where
  pub not_owner : j ≢ 0 → s.owner ≢ j → g.owner ≢ j
  pub owner : j ≢ 0 → s.owner ≡ j → g.owner ≡ j
  pub waiting : j ≢ 0 → has j g.waitll ≡ has j s.waitll
  pub ready : g.ready j ≡ s.ready j
  pub handed : (v : ℕ) → s.pc v ≡ waking j → (g.pc v ≡ waking j) ⊎ (g.ready j ≡ true)
  pub wakes :
      (u : ℕ)
      → s.pc j ≡ waking u
      → (s.pc u ≡ parked) × (s.owner ≡ u) × (s.ready u ≡ false)
      → (g.pc u ≡ parked) × (g.owner ≡ u) × (g.ready u ≡ false)

module _ {s g : System} {j : ℕ} (k : Keeps s g j) where
  Out-Keeps : Out s j → Out g j
  Out-Keeps (n, o, w, r) = (n, k.not_owner n o, k.waiting n ∙ w, k.ready ∙ r)

  Owner-Keeps : Owner s j → Owner g j
  Owner-Keeps (n, o, w, r) = (n, k.owner n o, k.waiting n ∙ w, k.ready ∙ r)

  Waits-Keeps : Waits s j → Waits g j
  Waits-Keeps (n, o, w, r) = (n, k.not_owner n o, k.waiting n ∙ w, k.ready ∙ r)

  Handed-Keeps : Handed s j → Handed g j
  Handed-Keeps (n, o, w, inl r) = (n, k.owner n o, k.waiting n ∙ w, inl (k.ready ∙ r))
  Handed-Keeps (n, o, w, inr (r, (v, e))) = (
    n,
    k.owner n o,
    k.waiting n ∙ w,
    elim (k.handed v e) [ inl e' ↦ inr (k.ready ∙ r, (v, e')) | inr e' ↦ inl e' ],
  )

  pub Local-Keeps : (p : Pc) → s.pc j ≡ p → Local s j p → Local g j p
  Local-Keeps outside e l = λ n. Out-Keeps (l n)
  Local-Keeps locking e l = Out-Keeps l
  Local-Keeps testing e l = Out-Keeps l
  Local-Keeps trying e l = Out-Keeps l
  Local-Keeps try_testing e l = Out-Keeps l
  Local-Keeps refused e l = Out-Keeps l
  Local-Keeps releasing e l = Out-Keeps l
  Local-Keeps granted e l = Owner-Keeps l
  Local-Keeps inside e l = Owner-Keeps l
  Local-Keeps switching e l = Waits-Keeps l
  Local-Keeps parking e l = Waits-Keeps l
  Local-Keeps parked e (inl l) = inl (Waits-Keeps l)
  Local-Keeps parked e (inr l) = inr (Handed-Keeps l)
  Local-Keeps (unlocking true) e l = Owner-Keeps l
  Local-Keeps (unlocking false) e l = Out-Keeps l
  Local-Keeps (checking true) e l = Owner-Keeps l
  Local-Keeps (checking false) e l = Out-Keeps l
  Local-Keeps (denied true) e l = l
  Local-Keeps (denied false) e l = Out-Keeps l
  Local-Keeps (waking u) e (l, at, o, r) =
      let (at2, o2, r2) = k.wakes u e (at, o, r) in (Out-Keeps l, at2, o2, r2)

-- All threads, after `t` went to `p`.
pub locals :
    (s g : System) (t : ℕ) (p : Pc)
    → Local g t p
    → ((j : ℕ) → j ≢ t → Local g j (s.pc j))
    → (j : ℕ) → Local g j (update s.pc t p j)
locals s g t p mine others j = elim (update-cases s.pc t j p) [
  | inl (e, e') ↦ rw (e', e) mine
  | inr (n, e') ↦ rw e' (others j n)
]

pub keeps : (s g : System) (j : ℕ) → Inv s → Keeps s g j → Local g j (s.pc j)
keeps s g j inv k = Local-Keeps k (s.pc j) refl (inv.local j)
