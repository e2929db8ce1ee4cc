-- ===== src/OneOne/Join/Facts.antt =====
-- What holds of a target and its joiners between any two steps.
use libthreads_c.Base.{
  ℕ, ◌≡◌, ◌≢◌, refl, sym, Bool, true, false, ◌⊎◌, inl, inr, update, update-cases,
}
pub use libthreads_c.Base.Holders.{Excl, Excl-move, Excl-acquire, Excl-release}
use libthreads_c.OneOne.Join.{
  Pc, outside, checking, locking, testing, refusing, refused, claiming, claimed, unlocking, waiting,
  asleep, finishing, marking, fetching, freeing, returned, Progress, works, gone, System,
}

-- The member lock is held.
abbrev pub holds : Pc → Bool
holds testing = true
holds refusing = true
holds claiming = true
holds claimed = true
holds unlocking = true
holds finishing = true
holds _ = false

-- What a joiner at each point may rely on: its handle is not NULL, it alone is registered, the
-- target is gone, the value it has is the target's result.
abbrev pub Local : ℕ → ℕ → Progress → ℕ → Pc → Type 0
Local value join_td progress t outside = Unit
Local value join_td progress t checking = t ≢ 0
Local value join_td progress t locking = t ≢ 0
Local value join_td progress t testing = t ≢ 0
Local value join_td progress t refusing = t ≢ 0
Local value join_td progress t refused = t ≢ 0
Local value join_td progress t claiming = (t ≢ 0) × (join_td ≡ 0)
Local value join_td progress t claimed = (t ≢ 0) × (join_td ≡ t)
Local value join_td progress t unlocking = (t ≢ 0) × (join_td ≡ t)
Local value join_td progress t waiting = (t ≢ 0) × (join_td ≡ t)
Local value join_td progress t asleep = (t ≢ 0) × (join_td ≡ t) × (progress ≢ gone)
Local value join_td progress t finishing = (t ≢ 0) × (join_td ≡ t) × (progress ≡ gone)
Local value join_td progress t marking = (t ≢ 0) × (join_td ≡ t) × (progress ≡ gone)
Local value join_td progress t fetching = (t ≢ 0) × (join_td ≡ t) × (progress ≡ gone)
Local value join_td progress t (freeing ret) =
    (t ≢ 0) × (join_td ≡ t) × (progress ≡ gone) × (ret ≡ value)
Local value join_td progress t (returned ret) =
    (t ≢ 0) × (join_td ≡ t) × (progress ≡ gone) × (ret ≡ value)

pub record Inv (ktid value : ℕ) (s : System) : Type 0 where
  pub excl : Excl holds s.target.mem_lock s.pc
  pub local : (t : ℕ) → Local value s.target.join_td s.progress t (s.pc t)
  pub waits :
      ((s.progress ≡ gone) × (s.target.wait ≡ 0)) ⊎ ((s.progress ≢ gone) × (s.target.wait ≡ ktid))
  pub result : s.progress ≢ works → s.target.ret ≡ value
  pub mapped : s.target.stack ≡ false → s.progress ≡ gone

pub Local-update :
    (value join_td : ℕ) (progress : Progress) (pc : ℕ → Pc) (t : ℕ) (p : Pc)
    → ((a : ℕ) → a ≢ t → Local value join_td progress a (pc a))
    → Local value join_td progress t p
    → (a : ℕ) → Local value join_td progress a (update pc t p a)
Local-update value join_td progress pc t p rest here a = elim (update-cases pc t a p) [
  | inl (e, e') ↦ rw (e', e) here
  | inr (e, e') ↦ rw e' (rest a e)
]

-- While nobody is registered, a joiner that registers leaves what the others rely on.
pub Local-claim :
    (value t a : ℕ) (progress : Progress) (p : Pc)
    → Local value 0 progress a p
    → holds p ≢ true
    → Local value t progress a p
Local-claim value t a progress outside l other = l
Local-claim value t a progress checking l other = l
Local-claim value t a progress locking l other = l
Local-claim value t a progress testing l other = l
Local-claim value t a progress refusing l other = l
Local-claim value t a progress refused l other = l
Local-claim value t a progress claiming l other = absurd (other refl)
Local-claim value t a progress claimed l other = absurd (other refl)
Local-claim value t a progress unlocking l other = absurd (other refl)
Local-claim value t a progress waiting (n, r) other = absurd (n (sym r))
Local-claim value t a progress asleep (n, r, _) other = absurd (n (sym r))
Local-claim value t a progress finishing (n, r, _) other = absurd (n (sym r))
Local-claim value t a progress marking (n, r, _) other = absurd (n (sym r))
Local-claim value t a progress fetching (n, r, _) other = absurd (n (sym r))
Local-claim value t a progress (freeing ret) (n, r, _, _) other = absurd (n (sym r))
Local-claim value t a progress (returned ret) (n, r, _, _) other = absurd (n (sym r))

-- While the target is not gone, its progress leaves what the joiners rely on, but for one that
-- sleeps.
pub Local-progress :
    (value j a : ℕ) (q r : Progress) (p : Pc)
    → Local value j q a p
    → q ≢ gone
    → (p ≡ asleep → r ≢ gone)
    → Local value j r a p
Local-progress value j a q r outside l up still = l
Local-progress value j a q r checking l up still = l
Local-progress value j a q r locking l up still = l
Local-progress value j a q r testing l up still = l
Local-progress value j a q r refusing l up still = l
Local-progress value j a q r refused l up still = l
Local-progress value j a q r claiming l up still = l
Local-progress value j a q r claimed l up still = l
Local-progress value j a q r unlocking l up still = l
Local-progress value j a q r waiting l up still = l
Local-progress value j a q r asleep (n, e, g) up still = (n, e, still refl)
Local-progress value j a q r finishing (n, e, g) up still = absurd (up g)
Local-progress value j a q r marking (n, e, g) up still = absurd (up g)
Local-progress value j a q r fetching (n, e, g) up still = absurd (up g)
Local-progress value j a q r (freeing ret) (n, e, g, v) up still = absurd (up g)
Local-progress value j a q r (returned ret) (n, e, g, v) up still = absurd (up g)
