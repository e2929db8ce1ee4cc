-- ===== src/Hybrid/Join/Facts.antt =====
-- What holds of a target of either type and its joiners between any two steps.
pub use libthreads_c.Base.Holders.{Excl, Excl-move, Excl-acquire, Excl-release}
use libthreads_c.Base.{
  ℕ, ◌≡◌, ◌≢◌, refl, sym, ap, Bool, true, false, ◌⊎◌, inl, inr, update, update-cases,
}
use libthreads_c.Hybrid.Join.{
  Pc, outside, checking, locking, testing, refusing, refused, claiming, claimed, unlocking, waiting,
  asleep, switching, parked, spinning, finishing, fetching, marking, returned, Progress, works,
  stored, leaves, locked, over, rousing, waking, quits, gone, System, Setup,
}

-- The member lock is held by a joiner.
abbrev pub holds : Pc → Bool
holds testing = true
holds refusing = true
holds claiming = true
holds claimed = true
holds unlocking = true
holds switching = true
holds finishing = true
holds _ = false

-- By the target, or by the dispatcher for it.
abbrev pub target_holds : Progress → Bool
target_holds locked = true
target_holds over = true
target_holds _ = false

-- The joiner is registered in the target.
abbrev pub registered_at : Pc → Bool
registered_at outside = false
registered_at checking = false
registered_at locking = false
registered_at testing = false
registered_at refusing = false
registered_at refused = false
registered_at claiming = false
registered_at _ = true

-- The wait word is clear.
abbrev pub is_over : Bool → Progress → Bool
is_over many_many over = true
is_over many_many waking = true
is_over many_many gone = true
is_over many_many rousing = many_many
is_over many_many _ = false

-- A one-one target that has made its joiner ready.
abbrev pub launched : Progress → Bool
launched quits = true
launched gone = true
launched _ = false

-- What a joiner at each point may rely on.
module _ (c : Setup) (join_td : ℕ) (progress : Progress) where
  abbrev pub Mine : ℕ → Type 0
  Mine t = (t ≢ 0) × (join_td ≡ t)

  abbrev pub AfterEnd : ℕ → Type 0
  AfterEnd t =
      Mine t
      × (c.signals ≡ false → is_over c.target_many_many progress ≡ true)
      × (c.many_many t ≡ true → progress ≡ gone)

  abbrev pub Local : ℕ → Pc → Type 0
  Local t outside = Unit {0}
  Local t checking = t ≢ 0
  Local t locking = t ≢ 0
  Local t testing = t ≢ 0
  Local t refusing = t ≢ 0
  Local t refused = t ≢ 0
  Local t claiming = (t ≢ 0) × (join_td ≡ 0)
  Local t claimed = Mine t × (progress ≢ rousing) × (progress ≢ waking)
  Local t unlocking = Mine t × (c.many_many t ≡ false)
  Local t waiting = Mine t × (c.many_many t ≡ false)
  Local t asleep = Mine t × (c.many_many t ≡ false) × (progress ≢ gone)
  Local t switching =
      Mine t × (c.many_many t ≡ true) × (c.target_many_many ≡ true → is_over true progress ≡ false)
  Local t parked =
      Mine t
      × (c.many_many t ≡ true)
      × (c.target_many_many ≡ true → (progress ≢ gone) × (progress ≢ waking))
  Local t spinning = Mine t × (launched progress ≡ true)
  Local t finishing = Mine t × (progress ≡ gone)
  Local t fetching = AfterEnd t
  Local t (marking ret) = AfterEnd t × (c.signals ≡ false → ret ≡ c.value)
  Local t (returned ret) = AfterEnd t × (c.signals ≡ false → ret ≡ c.value)

pub record Inv (c : Setup) (s : System) : Type 0 where
  pub excl : Excl holds s.target.mem_lock s.pc
  pub idle :
      target_holds s.progress ≡ true → (s.target.mem_lock ≡ 0) × ((t : ℕ) → holds (s.pc t) ≡ false)
  pub local : (t : ℕ) → Local c s.target.join_td s.progress t (s.pc t)
  pub waits :
      ((is_over c.target_many_many s.progress ≡ true) × (s.target.wait ≡ 0))
      ⊎ ((is_over c.target_many_many s.progress ≡ false) × (s.target.wait ≡ c.word))
  pub result : s.progress ≢ works → s.target.ret ≡ c.value
  pub registered : s.target.join_td ≢ 0 → registered_at (s.pc s.target.join_td) ≡ true
  pub roused :
      s.progress ≡ rousing
      → (s.pc s.target.join_td ≡ parked) × (c.many_many s.target.join_td ≡ true)
  pub woken : s.progress ≡ waking → (s.target.join_td ≢ 0) × (c.many_many s.target.join_td ≡ false)

pub Local-update :
    (c : Setup) (j : ℕ) (q : Progress) (pc : ℕ → Pc) (t : ℕ) (p : Pc)
    → ((a : ℕ) → a ≢ t → Local c j q a (pc a))
    → Local c j q t p
    → (a : ℕ) → Local c j q a (update pc t p a)
Local-update c j q pc t p rest here a = elim (update-cases pc t a p) [
  | inl (e, e') ↦ rw (e', e) here
  | inr (e, e') ↦ rw e' (rest a e)
]

-- While nobody is registered, a joiner that registers leaves what the others rely on.
pub Local-claim :
    (c : Setup) (t a : ℕ) (q : Progress) (p : Pc)
    → Local c 0 q a p
    → holds p ≢ true
    → Local c t q a p
Local-claim c t a q outside l other = l
Local-claim c t a q checking l other = l
Local-claim c t a q locking l other = l
Local-claim c t a q testing l other = l
Local-claim c t a q refusing l other = l
Local-claim c t a q refused l other = l
Local-claim c t a q claiming l other = absurd (other refl)
Local-claim c t a q claimed l other = absurd (other refl)
Local-claim c t a q unlocking l other = absurd (other refl)
Local-claim c t a q waiting ((n, r), _) other = absurd (n (sym r))
Local-claim c t a q asleep ((n, r), _, _) other = absurd (n (sym r))
Local-claim c t a q switching l other = absurd (other refl)
Local-claim c t a q parked ((n, r), _, _) other = absurd (n (sym r))
Local-claim c t a q spinning ((n, r), _) other = absurd (n (sym r))
Local-claim c t a q finishing l other = absurd (other refl)
Local-claim c t a q fetching ((n, r), _, _) other = absurd (n (sym r))
Local-claim c t a q (marking ret) (((n, r), _, _), _) other = absurd (n (sym r))
Local-claim c t a q (returned ret) (((n, r), _, _), _) other = absurd (n (sym r))

-- A step of the target from `q` to `r` does not break what a joiner at `p` relies on.
pub record Keeps (c : Setup) (q r : Progress) (p : Pc) : Type 0 where
  pub over_stays : is_over c.target_many_many q ≡ true → is_over c.target_many_many r ≡ true
  pub launched_stays : launched q ≡ true → launched r ≡ true
  pub gone_stays : q ≡ gone → r ≡ gone
  pub sleeps : p ≡ asleep → r ≢ gone
  pub claims : p ≡ claimed → (r ≢ rousing) × (r ≢ waking)
  pub switches : p ≡ switching → c.target_many_many ≡ true → is_over true r ≡ false
  pub parks : p ≡ parked → c.target_many_many ≡ true → (r ≢ gone) × (r ≢ waking)

pub Local-progress :
    (c : Setup) (j a : ℕ) (q r : Progress) (p : Pc)
    → Local c j q a p
    → Keeps c q r p
    → Local c j r a p
Local-progress c j a q r outside l k = l
Local-progress c j a q r checking l k = l
Local-progress c j a q r locking l k = l
Local-progress c j a q r testing l k = l
Local-progress c j a q r refusing l k = l
Local-progress c j a q r refused l k = l
Local-progress c j a q r claiming l k = l
Local-progress c j a q r claimed (m, _, _) k = let (nr, nw) = k.claims refl in (m, nr, nw)
Local-progress c j a q r unlocking l k = l
Local-progress c j a q r waiting l k = l
Local-progress c j a q r asleep (m, kind, _) k = (m, kind, k.sleeps refl)
Local-progress c j a q r switching (m, kind, _) k = (m, kind, k.switches refl)
Local-progress c j a q r parked (m, kind, _) k = (m, kind, k.parks refl)
Local-progress c j a q r spinning (m, up) k = (m, k.launched_stays up)
Local-progress c j a q r finishing (m, g) k = (m, k.gone_stays g)
Local-progress c j a q r fetching (m, o, g) k =
    (m, (λ n. k.over_stays (o n)), λ e. k.gone_stays (g e))
Local-progress c j a q r (marking ret) ((m, o, g), v) k =
    ((m, (λ n. k.over_stays (o n)), λ e. k.gone_stays (g e)), v)
Local-progress c j a q r (returned ret) ((m, o, g), v) k =
    ((m, (λ n. k.over_stays (o n)), λ e. k.gone_stays (g e)), v)

pub not_launched : (q : Progress) → launched q ≡ true → target_holds q ≡ true → ⊥
not_launched works up th = cc
not_launched stored up th = cc
not_launched leaves up th = cc
not_launched locked up th = cc
not_launched over up th = cc
not_launched rousing up th = cc
not_launched waking up th = cc
not_launched quits up th = cc
not_launched gone up th = cc

-- A registered many-many joiner that does not hold the lock waits to be made ready, while the target or its
-- dispatcher holds it.
pub parked-at :
    (c : Setup) (j : ℕ) (q : Progress) (p : Pc)
    → Local c j q j p
    → registered_at p ≡ true
    → holds p ≡ false
    → c.many_many j ≡ true
    → target_holds q ≡ true
    → p ≡ parked
parked-at c j q outside l reg quiet mm th = cc
parked-at c j q checking l reg quiet mm th = cc
parked-at c j q locking l reg quiet mm th = cc
parked-at c j q testing l reg quiet mm th = cc
parked-at c j q refusing l reg quiet mm th = cc
parked-at c j q refused l reg quiet mm th = cc
parked-at c j q claiming l reg quiet mm th = cc
parked-at c j q claimed l reg quiet mm th = cc
parked-at c j q unlocking l reg quiet mm th = cc
parked-at c j q waiting (m, kind) reg quiet mm th = absurd (cc (kind, mm))
parked-at c j q asleep (m, kind, _) reg quiet mm th = absurd (cc (kind, mm))
parked-at c j q switching l reg quiet mm th = cc
parked-at c j q parked l reg quiet mm th = refl
parked-at c j q spinning (m, up) reg quiet mm th = absurd (not_launched q up th)
parked-at c j q finishing l reg quiet mm th = cc
parked-at c j q fetching (m, o, g) reg quiet mm th = absurd (cc (ap target_holds (g mm), th))
parked-at c j q (marking ret) ((m, o, g), v) reg quiet mm th =
    absurd (cc (ap target_holds (g mm), th))
parked-at c j q (returned ret) ((m, o, g), v) reg quiet mm th =
    absurd (cc (ap target_holds (g mm), th))
