-- ===== src/Mods/List/Fifo.antt =====
-- The list is a queue: enqueue appends at the tail, dequeue takes the head.
use libthreads_c.Base.{
  ◌≡◌, ◌≢◌, refl, true, false, none, some, List, [], ◌∷◌, ◌++◌, arith, ◌==◌, has, update, sym, ◌↔◌,
  is_some,
}
use libthreads_c.Mods.List.{
  Ptr, null, ListMember, LinkedList, Links, load, set_next, list_is_empty, do_list_enqueue,
  do_list_dequeue,
}
use libthreads_c.Mods.List.Chain.{
  member, last, before, IsList, SameOutside, frame, last-cell, has-last, Chain-snoc, last-snoc,
}

ne_null-test : (p : Ptr) → p ≢ null → (p == null) ≡ false
ne_null-test p h = ground arith

module _ (h : Links) (p : Ptr) (ne : p ≢ null) where
  load-ok : {m : ListMember} → h p ≡ some m → load p h ≡ some (m, h)
  unfolding load
  load-ok e = rw (ne_null-test p ne, e)

  set_next-ok :
      {m : ListMember} (q : Ptr)
      → h p ≡ some m
      → set_next p q h ≡ some (tt, update h p (some (record m { next = q })))
  unfolding set_next
  set_next-ok q e = rw (load-ok e)

-- Nothing is allocated or freed.
abbrev pub SameAllocated : Links → Links → Type 0
SameAllocated h g = (a : Ptr) → is_some (g a) ≡ is_some (h a)

-- What enqueue leaves: the list one longer, every member outside it untouched.
pub record Enqueued (h : Links) (xs : List Ptr) (new : Ptr) (l : LinkedList) (g : Links)
    : Type 0 where
  pub is_list : IsList g l (xs ++ new ∷ [])
  pub same : SameOutside (new ∷ xs) h g
  pub kept : SameAllocated h g

enqueue-nil :
    (h : Links) (l : LinkedList) (new : Ptr) (m : ListMember)
    → IsList h l []
    → h new ≡ some m
    → new ≢ null
    → (l' : LinkedList) × (g : Links) × (do_list_enqueue l new h ≡ some (l', g))
      × Enqueued h [] new l' g
unfolding do_list_enqueue
enqueue-nil h l new m is at ne = (
  record { head = new; tail = new },
  update (update h new (some (record m { next = null }))) new (some (member null null)),
  ground (arith, is.chain, is.tail),
  record {
    is_list = record { chain = (refl, ne, refl, (null, ground arith, refl)); tail = refl };
    same = λ a i. ground arith;
    kept = λ a. ground arith;
  },
)

enqueue-cons :
    (h : Links) (l : LinkedList) (new : Ptr) (m : ListMember) (x : Ptr) (xs : List Ptr)
    → IsList h l (x ∷ xs)
    → h new ≡ some m
    → new ≢ null
    → has new (x ∷ xs) ≡ false
    → (l' : LinkedList) × (g : Links) × (do_list_enqueue l new h ≡ some (l', g))
      × Enqueued h (x ∷ xs) new l' g
unfolding do_list_enqueue
enqueue-cons h l new m x xs is at ne apart =
    let (cell, tail_ne) = last-cell xs h is.chain in
    let t : Ptr = last x xs in
    let g : Links =
      update
        (update (update h new (some (record m { next = null }))) t
          (some (member new (before null x xs))))
        new (some (member null t)) in
    (
      record { head = l.head; tail = new },
      g,
      ground (arith, has-last xs x new apart, is.tail),
      record {
        is_list = record {
          chain =
              Chain-snoc xs h g is.chain apart ne (ground arith)
                (ground (arith, has-last xs x new apart)) (λ a i n. ground arith);
          tail = sym (last-snoc xs x new);
        };
        same = λ a i. ground (arith, has-last xs x a);
        kept = λ a. ground arith;
      },
    )

-- Enqueue of an allocated address that is not in the list appends it at the tail. It does not
-- fault, and it writes to no address but the new one and the list's own.
pub do_list_enqueue_lem :
    (h : Links) (l : LinkedList) (new : Ptr) (m : ListMember) (xs : List Ptr)
    → IsList h l xs
    → h new ≡ some m
    → new ≢ null
    → has new xs ≡ false
    → (l' : LinkedList) × (g : Links) × (do_list_enqueue l new h ≡ some (l', g))
      × Enqueued h xs new l' g
do_list_enqueue_lem h l new m [] is at ne apart = enqueue-nil h l new m is at ne
do_list_enqueue_lem h l new m (x ∷ xs) is at ne apart = enqueue-cons h l new m x xs is at ne apart

-- What dequeue leaves: the list without its head, and the old head unlinked.
pub record Dequeued (h : Links) (x : Ptr) (xs : List Ptr) (l : LinkedList) (g : Links)
    : Type 0 where
  pub is_list : IsList g l xs
  pub unlinked : g x ≡ some (member null null)
  pub same : SameOutside (x ∷ xs) h g
  pub kept : SameAllocated h g

-- Dequeue of a list that is not empty returns its head and leaves the rest. It does not fault, and
-- it writes to no address outside the list.
pub do_list_dequeue_lem :
    (h : Links) (l : LinkedList) (x : Ptr) (xs : List Ptr)
    → IsList h l (x ∷ xs)
    → (l' : LinkedList) × (g : Links) × (do_list_dequeue l h ≡ some ((x, l'), g))
      × Dequeued h x xs l' g
unfolding do_list_dequeue
do_list_dequeue_lem h l x [] is =
    let (e, ne, out, (q, cell, rest)) = is.chain in
    (
      record { head = null; tail = null },
      update h x (some (member null null)),
      rw (e, load-ok h x ne cell, rest, set_next-ok h x ne null cell),
      record {
        is_list = record { chain = refl; tail = refl };
        unlinked = ground arith;
        same = λ a i. ground arith;
        kept = λ a. ground arith;
      },
    )
do_list_dequeue_lem h l x (y ∷ ys) is =
    let (e, ne, out, (q, cell, (e', ne', out', (q', cell', rest)))) = is.chain in
    let g : Links = update (update h y (some (member q' null))) x (some (member null null)) in
    (
      record { head = y; tail = l.tail },
      g,
      ground (arith, is.tail),
      record {
        is_list = record {
          chain =
              (refl, ne', out', (q', ground arith, frame ys h g y q' rest (λ a i. ground arith)));
          tail = is.tail;
        };
        unlinked = ground arith;
        same = λ a i. ground arith;
        kept = λ a. ground arith;
      },
    )

-- `list_is_empty` tells whether there is a member.
pub list_is_empty_iff :
    (h : Links) (l : LinkedList) (xs : List Ptr)
    → IsList h l xs
    → (list_is_empty l ≡ true) ↔ (xs ≡ [])
unfolding list_is_empty
list_is_empty_iff h l [] is = (λ _. refl, λ _. ground (arith, is.chain, is.tail))
list_is_empty_iff h l (x ∷ xs) is =
    let (e, ne, out, rest) = is.chain in (λ t. absurd (ground arith), λ e'. cc)

-- The head of an empty list is read through NULL: this is what the assert of `list_dequeue` is for.
pub do_list_dequeue-nil : (h : Links) (l : LinkedList) → IsList h l [] → do_list_dequeue l h ≡ none
unfolding do_list_dequeue
do_list_dequeue-nil h l is = rw (is.chain)
