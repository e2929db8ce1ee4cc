-- ===== src/Mods/List/Chain.antt =====
-- What a list stands for: the addresses of its members from head to tail.
use libthreads_c.Base.{
  ◌≡◌, ◌≢◌, refl, true, false, some, List, [], ◌∷◌, ◌++◌, arith, has, has-append, ◌∙◌,
}
use libthreads_c.Mods.List.{Ptr, null, ListMember, LinkedList, Links}

abbrev pub member : Ptr → Ptr → ListMember
member n p = record { next = n; prev = p }

-- The last address of a list, or `d` if it is empty.
abbrev pub last : Ptr → List Ptr → Ptr
last d [] = d
last d (x ∷ xs) = last x xs

-- The address before the last of `x ∷ xs`, or `d`.
abbrev pub before : Ptr → Ptr → List Ptr → Ptr
before d x [] = d
before d x (y ∷ ys) = before x y ys

-- From `p` the `next` pointers lead through `xs` to NULL, and each `prev` names the member before,
-- the first one's `d`. No address occurs twice.
abbrev pub Chain : Links → Ptr → Ptr → List Ptr → Type 0
Chain h d p [] = p ≡ null
Chain h d p (x ∷ xs) =
    (p ≡ x)
    × (x ≢ null)
    × (has x xs ≡ false)
    × ((q : Ptr) × (h x ≡ some (member q d)) × Chain h x q xs)

pub record IsList (h : Links) (l : LinkedList) (xs : List Ptr) : Type 0 where
  pub chain : Chain h null l.head xs
  pub tail : l.tail ≡ last null xs

abbrev pub SameOutside : List Ptr → Links → Links → Type 0
SameOutside xs h g = (a : Ptr) → has a xs ≡ false → g a ≡ h a

-- A chain survives any change that spares its own members.
pub frame :
    (xs : List Ptr) (h g : Links) (d p : Ptr)
    → Chain h d p xs
    → ((a : Ptr) → has a xs ≡ true → g a ≡ h a)
    → Chain g d p xs
frame [] h g d p c same = c
frame (x ∷ xs) h g d p (e, ne, out, (q, cell, rest)) same =
    (e, ne, out, (q, ground (arith, same x), frame xs h g x q rest (λ a i. ground (arith, same a))))

pub last-cell :
    (xs : List Ptr) (h : Links) {d p x : Ptr}
    → Chain h d p (x ∷ xs)
    → (h (last x xs) ≡ some (member null (before d x xs))) × (last x xs ≢ null)
last-cell [] h (e, ne, out, (q, cell, rest)) = (ground arith, ne)
last-cell (y ∷ ys) h (e, ne, out, (q, cell, rest)) = last-cell ys h rest

pub has-last : (xs : List Ptr) (x a : Ptr) → has a (x ∷ xs) ≡ false → a ≢ last x xs
has-last [] x a h = ground arith
has-last (y ∷ ys) x a h = has-last ys y a (ground arith)

-- A new member behind the last one makes the chain one longer.
pub Chain-snoc :
    (xs : List Ptr) (h g : Links) {d p x new : Ptr}
    → Chain h d p (x ∷ xs)
    → has new (x ∷ xs) ≡ false
    → new ≢ null
    → g new ≡ some (member null (last x xs))
    → g (last x xs) ≡ some (member new (before d x xs))
    → ((a : Ptr) → has a (x ∷ xs) ≡ true → a ≢ last x xs → g a ≡ h a)
    → Chain g d p (x ∷ (xs ++ new ∷ []))
Chain-snoc [] h g (e, ne, out, (q, cell, rest)) apart fresh at_new at_last same =
    (e, ne, ground arith, (_, at_last, (refl, fresh, refl, (null, at_new, refl))))
Chain-snoc (y ∷ ys) h g {x} {new} (e, ne, out, (q, cell, rest)) apart fresh at_new at_last same = (
  e,
  ne,
  ground (arith, has-append x (y ∷ ys) (new ∷ [])),
  (
    q,
    same x (ground arith) (has-last ys y x out) ∙ cell,
    Chain-snoc ys h g rest (ground arith) fresh at_new at_last
        (λ a i ne_last. same a (ground arith) ne_last),
  ),
)

pub last-snoc : (xs : List Ptr) (d new : Ptr) → last d (xs ++ new ∷ []) ≡ new
last-snoc [] d new = refl
last-snoc (x ∷ xs) d new = last-snoc xs x new
